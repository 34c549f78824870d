-- ===== src/Manager/Calls.antt =====
-- The calls of executeManagerResourceMethod in server/manager.ts: their data, their identity and the replay
-- of a stored answer.
use Prim.Native.String
use sync_resource.Shared.{
  ℕ, String, Bool, true, false, not, ◌||◌, Option, none, some, List, if◌then◌else◌, ◌==◌,
}
use sync_resource.Shared.JsMap.{JsMap}
use sync_resource.Js.{Value, is_set}
use sync_resource.Protocol.{SyncErrorCode, forbidden, conflict, SyncEnvelope}
use sync_resource.Result.{SyncResult, ok, err}
use sync_resource.Manager.{
  MethodKind, get, list, add, mutate, delete as delete_kind, is_write_method_kind, Output,
  MutationRecord, Publication,
}

-- ManagerSyncPersistence over its state; each of its calls may fail, and the code is then that of
-- the error that was thrown. The number is the time.
pub record Persistence (S : Type 0) : Type 0 where
  pub read_mutation : ℕ → S → String → String → S × SyncResult (Option MutationRecord)
  pub record_mutation : ℕ → S → MutationRecord → S × Option SyncErrorCode
  pub latest_cursor : S → String → SyncResult (Option String)

-- What the authorize hook answers; a throw is the error that it is turned into.
pub data Authorization : Type 0 where
  allowed denied : Authorization
  refused : SyncErrorCode → Authorization

-- MutationIdentity
pub record MutationIdentity : Type 0 where
  pub id : String
  pub args_hash : String

-- InFlightManagerMutation, without its promise
pub record InFlight : Type 0 where
  pub method : MethodKind
  pub args_hash : String

-- The arguments of a call. `hashed_args` is stableStringify of `args`, `generated_id` the id that
-- withGeneratedMutationId makes, and `client_id` that of the options' meta.
pub record Call : Type 0 where
  pub method : MethodKind
  pub scope : String
  pub args : Value
  pub hashed_args : String
  pub mutation_id : Option String
  pub generated_id : String
  pub client_id : Option String
  pub authorization : Authorization

-- The state of a manager. `executions` counts the runs of the resource.
pub record Manager (S : Type 0) : Type 0 where
  pub store : S
  pub in_flight : JsMap InFlight
  pub cursor_index : ℕ
  pub published : List Publication
  pub executions : ℕ

pub record Success : Type 0 where
  pub output : Output
  pub envelope : Option SyncEnvelope

-- What becomes of a call before the resource runs.
pub data Admission : Type 0 where
  answered : SyncResult Success → Admission
  joined : Admission
  started : Admission

-- mutationKey
unfoldable pub mutation_key : String → String → String
mutation_key scope id = String.◌++◌ scope (String.◌++◌ ":" id)

unfoldable pub same_method : MethodKind → MethodKind → Bool
same_method get get = true
same_method list list = true
same_method add add = true
same_method mutate mutate = true
same_method delete_kind delete_kind = true
same_method _ _ = false

-- authorize
unfoldable pub authorize : Authorization → Option SyncErrorCode
authorize allowed = none
authorize denied = some forbidden
authorize (refused code) = some code

-- withGeneratedMutationId
unfoldable pub effective_id : Call → Option String
effective_id c =
    if not (is_write_method_kind c.method)
    then c.mutation_id
    else if is_set c.mutation_id
    then c.mutation_id
    else some c.generated_id

unfoldable pub identity_for : Option String → String → Option MutationIdentity
identity_for none hash = none
identity_for (some id) hash =
    if is_set (some id) then some (record { id = id; args_hash = hash }) else none

-- mutationIdentity
unfoldable pub mutation_identity : Call → Option MutationIdentity
unfolding effective_id identity_for
mutation_identity c =
    if is_write_method_kind c.method
    then identity_for (effective_id c) (if is_set c.mutation_id then c.hashed_args else "")
    else none

-- `existing.method !== method || existing.argsHash !== mutationIdentity.argsHash`
unfoldable pub differs : MethodKind → String → Call → Bool
differs method args_hash c = not (same_method method c.method) || not (args_hash == c.hashed_args)

unfoldable pub replay : MutationRecord → Call → SyncResult Success
unfolding differs
replay existing c =
    if differs existing.method existing.args_hash c
    then err conflict
    else ok (record { output = existing.output; envelope = existing.envelope })
