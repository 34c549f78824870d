-- ===== src/Manager/Envelopes.antt =====
-- The envelopes and the mutation records that server/manager.ts builds, and the commit of the source.
use sync_resource.Shared.{
  ℕ, ◌+◌, String, Bool, true, false, not, ◌&&◌, Option, none, some, List, [], ◌∷◌, ◌++◌, eqb,
  is_some, length, or_default, if◌then◌else◌,
}
use sync_resource.Js.{Value, is_set}
use sync_resource.Protocol.{bad_request, SyncChange, SyncEnvelope}
use sync_resource.Result.{SyncResult, ok, err}
use sync_resource.Manager.{
  MethodKind, list, is_write_method_kind, acknowledged, finalized, BatchItem, ok_item, Output,
  single_output, batch_output, MutationRecord, CommitContext, Commit, HandlerOk, state_ok,
  signal_ok, ResourceValue, single, batch, Publication,
}
use sync_resource.Manager.Changes.{
  or_else, unwrap_resource_value, collect_signals, read_string_field, collect_changes,
  get_sync_cursor, get_changes_sync_cursor, with_page_sync_cursor, get_reset_manifest,
}

-- `left || right` on optional strings
unfoldable pub set_or : Option String → Option String → Option String
set_or left right = if is_set left then left else right

unfoldable pub output_field : String → Output → Option String
unfolding read_string_field
output_field key (single_output value) = read_string_field key value
output_field key (batch_output items execution) = none

-- listReadCursor
unfoldable pub list_read_cursor : ResourceValue → Option String → Option String
unfolding or_else set_or output_field
list_read_cursor value read_cursor =
    or_else (get_sync_cursor value)
      (set_or (output_field "syncCursor" (unwrap_resource_value value)) read_cursor)

-- an envelope that carries the cursor of a read and no more
unfoldable pub cursor_envelope : String → String → Option String → Option SyncEnvelope
cursor_envelope manager_key scope none = none
cursor_envelope manager_key scope (some cursor) =
    if is_set (some cursor)
    then some (record {
      manager_key = manager_key;
      scope = scope;
      cursor = cursor;
      source_mutation_id = none;
      source_client_id = none;
      changes = [];
      reset_manifest = none;
    })
    else none

-- the envelope of changes, with `replay_cursor` and the cursor to take where there is none
unfoldable pub changes_envelope :
    String
    → String
    → Option String
    → Option String
    → List SyncChange
    → Option String
    → String
    → SyncEnvelope
changes_envelope manager_key scope mutation_id client_id changes replay_cursor fresh_cursor =
    record {
      manager_key = manager_key;
      scope = scope;
      cursor = or_default replay_cursor fresh_cursor;
      source_mutation_id = mutation_id;
      source_client_id = client_id;
      changes =
          if is_set replay_cursor
          then with_page_sync_cursor changes (or_default replay_cursor "")
          else changes;
      reset_manifest = get_reset_manifest changes;
    }

unfoldable pub replay_cursor_of : ResourceValue → List SyncChange → Option String → Option String
unfolding or_else
replay_cursor_of value changes read_cursor =
    or_else (get_sync_cursor value) (or_else (get_changes_sync_cursor changes) read_cursor)

-- buildEnvelope: `next_cursor` is the text of a cursor by its index, and the answer has the index
-- after the call.
unfoldable pub build_envelope :
    (ℕ → String)
    → String
    → String
    → MethodKind
    → Value
    → Option String
    → Option String
    → ResourceValue
    → ℕ
    → Option String
    → Option SyncEnvelope × ℕ
unfolding cursor_envelope changes_envelope replay_cursor_of list_read_cursor
build_envelope next_cursor manager_key scope method args mutation_id client_id value index
      read_cursor =
    let changes = collect_changes method args value in
    let replay_cursor = replay_cursor_of value changes read_cursor in
    let cursor : Option String = elim method [
      | list ↦ list_read_cursor value read_cursor
      | _ ↦ read_cursor
    ] in
    if eqb (length changes) 0
    then (cursor_envelope manager_key scope cursor, index)
    else if not (is_set replay_cursor) && not (is_write_method_kind method)
    then (none, index)
    else (
      some (
          changes_envelope manager_key scope mutation_id client_id changes replay_cursor
            (next_cursor (index + 1))),
      if is_some replay_cursor then index else index + 1,
    )

-- buildSignalEnvelope
unfoldable pub build_signal_envelope :
    (ℕ → String) → String → String → ResourceValue → ℕ → Option Publication × ℕ
build_signal_envelope next_cursor manager_key scope value index =
    let signals = collect_signals value in
    if eqb (length signals) 0 then (none, index) else (
      some (record {
        envelope = record {
          manager_key = manager_key;
          scope = scope;
          cursor = next_cursor (index + 1);
          source_mutation_id = none;
          source_client_id = none;
          changes = [];
          reset_manifest = none;
        };
        signals = signals;
      }),
      index + 1,
    )

-- buildMutationRecord
unfoldable pub build_mutation_record :
    String
    → MethodKind
    → String
    → String
    → Output
    → Option SyncEnvelope
    → List Value
    → ℕ
    → MutationRecord
build_mutation_record scope method id args_hash output envelope metrics now = record {
  scope = scope;
  mutation_id = id;
  method = method;
  args_hash = args_hash;
  output = output;
  envelope = envelope;
  metrics = metrics;
  status = if is_some envelope then finalized else acknowledged;
  created_at = now;
  finalized_at = if is_some envelope then some now else none;
}

-- mergeMetrics of server/resource.ts
unfoldable pub merge_metrics : Option (List Value) → Option (List Value) → Option (List Value)
merge_metrics none second = second
merge_metrics (some []) second = second
merge_metrics first none = first
merge_metrics first (some []) = first
merge_metrics (some (x ∷ xs)) (some (y ∷ ys)) = some ((x ∷ xs) ++ y ∷ ys)

-- commitSource of server/resource.ts: `rebuild` makes the value with the merged metrics and without
-- its commit
unfoldable pub commit_source :
    Option Commit
    → CommitContext
    → ResourceValue
    → (Option (List Value) → ResourceValue)
    → SyncResult (ResourceValue × Bool)
commit_source none context value rebuild = ok (value, false)
commit_source (some commit) context value rebuild = elim (commit context) [
  | err code ↦ err code
  | ok result ↦ ok (rebuild result.metrics, result.sync_persisted)
]

-- batchHasSourceCommit
unfoldable pub batch_has_source_commit : List (BatchItem HandlerOk) → Bool
batch_has_source_commit [] = false
batch_has_source_commit (ok_item index (state_ok s) ∷ items) =
    if is_some s.source_commit then true else batch_has_source_commit items
batch_has_source_commit (_ ∷ items) = batch_has_source_commit items

-- commitDeferredSourceWrite
unfoldable pub commit_deferred_source_write :
    ResourceValue → CommitContext → SyncResult (ResourceValue × Bool)
unfolding merge_metrics commit_source
commit_deferred_source_write (single (signal_ok signals)) context =
    ok (single (signal_ok signals), false)
commit_deferred_source_write (single (state_ok s)) context =
    commit_source s.source_commit context (single (state_ok s)) (λ metrics.
      single
        (state_ok (record s { metrics = merge_metrics s.metrics metrics; source_commit = none })))
commit_deferred_source_write (batch b) context =
    if not (is_some b.source_commit) && batch_has_source_commit b.items
    then err bad_request
    else commit_source b.source_commit context (batch b) (λ metrics.
      batch (record b { metrics = merge_metrics b.metrics metrics; source_commit = none }))
