-- ===== src/Manager.antt =====
-- server/manager.ts: what a resource hands to the manager, and what the manager keeps and publishes.
-- A SyncError is its code; signals, metrics and tombstones are opaque values.
pub mod Changes
pub mod Envelopes
pub mod Cursors
pub mod Execution
pub mod Idempotence
pub mod Publishing
pub mod Records
pub mod Keeping
pub mod Calls
use sync_resource.Shared.{ℕ, String, Bool, true, false, Option, none, some, List, [], ◌∷◌}
use sync_resource.Js.{Value}
use sync_resource.Protocol.{SyncErrorCode, SyncChange, SyncEnvelope}
use sync_resource.Result.{SyncResult}

pub data MethodKind : Type 0 where
  get list add mutate delete : MethodKind

-- isWriteMethodKind
unfoldable pub is_write_method_kind : MethodKind → Bool
is_write_method_kind add = true
is_write_method_kind mutate = true
is_write_method_kind delete = true
is_write_method_kind _ = false

pub data MutationStatus : Type 0 where
  acknowledged finalized : MutationStatus

pub data BatchItem {ℓ} (A : Type ℓ) : Type ℓ where
  ok_item : ℕ → A → BatchItem A
  error_item : ℕ → SyncErrorCode → BatchItem A

pub data BatchMode : Type 0 where
  transaction bulk loop : BatchMode

pub record BatchExecution : Type 0 where
  pub mode : BatchMode
  pub atomic : Bool
  pub ok_count : ℕ
  pub error_count : ℕ

-- What a call answers to its caller: one output, or those of a batch. The output of a signal is
-- `undefined`.
pub data Output : Type 0 where
  single_output : Value → Output
  batch_output : List (BatchItem Value) → BatchExecution → Output

-- ManagerMutationRecord
pub record MutationRecord : Type 0 where
  pub scope : String
  pub mutation_id : String
  pub method : MethodKind
  pub args_hash : String
  pub output : Output
  pub envelope : Option SyncEnvelope
  pub metrics : List Value
  pub status : MutationStatus
  pub created_at : ℕ
  pub finalized_at : Option ℕ

-- ResourceCommitContext and ResourceCommitResult
pub record CommitContext : Type 0 where
  pub mutation_record : Option MutationRecord
  pub envelope : Option SyncEnvelope

pub record CommitResult : Type 0 where
  pub metrics : Option (List Value)
  pub sync_persisted : Bool

-- ResourceCommit: what the source answers when it commits.
abbrev pub Commit : Type 0
Commit = CommitContext → SyncResult CommitResult

-- ResourceStateOk; `changes` and `metrics` may be missing
pub record StateOk : Type 0 where
  pub output : Value
  pub changes : Option (List SyncChange)
  pub sync_cursor : Option String
  pub metrics : Option (List Value)
  pub source_commit : Option Commit

-- ResourceHandlerOk
pub data HandlerOk : Type 0 where
  state_ok : StateOk → HandlerOk
  signal_ok : List Value → HandlerOk

-- SyncBatchOutput
pub record BatchOutput : Type 0 where
  pub items : List (BatchItem HandlerOk)
  pub execution : BatchExecution
  pub metrics : Option (List Value)
  pub source_commit : Option Commit

pub data ResourceValue : Type 0 where
  single : HandlerOk → ResourceValue
  batch : BatchOutput → ResourceValue

-- An envelope on its way to the streams, with the signals it carries.
pub record Publication : Type 0 where
  pub envelope : SyncEnvelope
  pub signals : List Value
