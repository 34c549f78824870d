-- ===== src/Manager/Changes.antt =====
-- The changes, cursors, metrics and signals that server/manager.ts reads off the value of a resource.
use sync_resource.Shared.{
  ℕ, String, Bool, true, false, not, Option, none, some, List, [], ◌∷◌, ◌++◌, map, get_elem?,
  or_default, if◌then◌else◌,
}
use sync_resource.Js.{Value, undefined, array, is_set, items_of, property, read_string}
use sync_resource.Protocol.{
  SyncChange, page_loaded, item_added, item_updated, item_deleted, reset, ResetManifest,
}
use sync_resource.Manager.{
  MethodKind, add, mutate, delete, BatchItem, ok_item, error_item, Output, single_output,
  batch_output, HandlerOk, state_ok, signal_ok, ResourceValue, single, batch,
}

-- `left ?? right` on optional values
unfoldable pub or_else {ℓ} : {A : Type ℓ} → Option A → Option A → Option A
or_else none right = right
or_else (some a) right = some a

-- `'output' in value ? value.output : undefined`
unfoldable pub output_of : HandlerOk → Value
output_of (state_ok s) = s.output
output_of (signal_ok signals) = undefined

unfoldable pub unwrap_item : BatchItem HandlerOk → BatchItem Value
unfolding output_of
unwrap_item (ok_item index value) = ok_item index (output_of value)
unwrap_item (error_item index code) = error_item index code

-- unwrapResourceValue
unfoldable pub unwrap_resource_value : ResourceValue → Output
unfolding output_of unwrap_item
unwrap_resource_value (single value) = single_output (output_of value)
unwrap_resource_value (batch value) = batch_output (map unwrap_item value.items) value.execution

unfoldable pub metrics_of : HandlerOk → List Value
metrics_of (state_ok s) = or_default s.metrics []
metrics_of (signal_ok signals) = []

-- the loop of collectMetrics
unfoldable pub item_metrics : List (BatchItem HandlerOk) → List Value
item_metrics [] = []
item_metrics (ok_item index value ∷ items) = metrics_of value ++ item_metrics items
item_metrics (error_item index code ∷ items) = item_metrics items

-- collectMetrics
unfoldable pub collect_metrics : ResourceValue → List Value
collect_metrics (single value) = metrics_of value
collect_metrics (batch value) = or_default value.metrics [] ++ item_metrics value.items

unfoldable pub signals_of : HandlerOk → List Value
signals_of (state_ok s) = []
signals_of (signal_ok signals) = signals

-- the loop of collectSignals
unfoldable pub item_signals : List (BatchItem HandlerOk) → List Value
item_signals [] = []
item_signals (ok_item index value ∷ items) = signals_of value ++ item_signals items
item_signals (error_item index code ∷ items) = item_signals items

-- collectSignals
unfoldable pub collect_signals : ResourceValue → List Value
collect_signals (single value) = signals_of value
collect_signals (batch value) = item_signals value.items

-- readStringField
unfoldable pub read_string_field : String → Value → Option String
unfolding property read_string
read_string_field key value = read_string (property key value)

-- the id of a `mutate` or `delete`: that of the query, or that of the output
unfoldable pub changed_id : Value → Value → Option String
unfolding read_string_field or_else
changed_id args output =
    or_else (read_string_field "id" (property "query" args)) (read_string_field "id" output)

-- `if (!id) return [];` before the change
unfoldable pub change_for : Option String → (String → SyncChange) → List SyncChange
change_for none make = []
change_for (some id) make = if is_set (some id) then make id ∷ [] else []

-- inferChanges
unfoldable pub infer_changes : MethodKind → Value → Value → List SyncChange
unfolding read_string_field changed_id change_for
infer_changes add args output =
    change_for (read_string_field "id" output) (λ id. item_added id output)
infer_changes mutate args output =
    change_for (changed_id args output) (λ id. item_updated id (property "input" args) output)
infer_changes delete args output = change_for (changed_id args output) (λ id. item_deleted id)
infer_changes _ args output = []

unfoldable pub changes_of : MethodKind → Value → HandlerOk → List SyncChange
changes_of method args (signal_ok signals) = []
changes_of method args (state_ok s) = or_default s.changes (infer_changes method args s.output)

-- `Array.isArray(args) ? args[index] : undefined`
unfoldable pub arg_at : Value → ℕ → Value
arg_at (array vs) index = or_default (get_elem? (items_of vs) index) undefined
arg_at _ index = undefined

-- the loop of collectChanges
unfoldable pub item_changes : MethodKind → Value → List (BatchItem HandlerOk) → List SyncChange
unfolding arg_at changes_of
item_changes method args [] = []
item_changes method args (ok_item index value ∷ items) =
    changes_of method (arg_at args index) value ++ item_changes method args items
item_changes method args (error_item index code ∷ items) = item_changes method args items

-- collectChanges
unfoldable pub collect_changes : MethodKind → Value → ResourceValue → List SyncChange
unfolding changes_of
collect_changes method args (single value) = changes_of method args value
collect_changes method args (batch value) = item_changes method args value.items

unfoldable pub handler_cursor : HandlerOk → Option String
handler_cursor (state_ok s) = s.sync_cursor
handler_cursor (signal_ok signals) = none

-- the loop of getSyncCursor, which runs from the end: the last cursor that is set
unfoldable pub last_item_cursor : List (BatchItem HandlerOk) → Option String
last_item_cursor [] = none
last_item_cursor (error_item index code ∷ items) = last_item_cursor items
last_item_cursor (ok_item index value ∷ items) =
    or_else (last_item_cursor items)
      (if is_set (handler_cursor value) then handler_cursor value else none)

-- getSyncCursor
unfoldable pub get_sync_cursor : ResourceValue → Option String
unfolding handler_cursor
get_sync_cursor (single value) = handler_cursor value
get_sync_cursor (batch value) = last_item_cursor value.items

-- getChangesSyncCursor
unfoldable pub get_changes_sync_cursor : List SyncChange → Option String
get_changes_sync_cursor [] = none
get_changes_sync_cursor (page_loaded items cursor ∷ changes) =
    if is_set cursor then cursor else get_changes_sync_cursor changes
get_changes_sync_cursor (_ ∷ changes) = get_changes_sync_cursor changes

-- `syncChange.type === 'pageLoaded' && !syncChange.syncCursor`
unfoldable pub needs_cursor : SyncChange → Bool
needs_cursor (page_loaded items cursor) = not (is_set cursor)
needs_cursor _ = false

-- the first loop of withPageSyncCursor
unfoldable pub any_needs_cursor : List SyncChange → Bool
unfolding needs_cursor
any_needs_cursor [] = false
any_needs_cursor (c ∷ changes) = if needs_cursor c then true else any_needs_cursor changes

-- the case of the map of withPageSyncCursor
unfoldable pub give_cursor : String → SyncChange → SyncChange
give_cursor cursor (page_loaded items c) =
    if is_set c then page_loaded items c else page_loaded items (some cursor)
give_cursor cursor c = c

-- withPageSyncCursor
unfoldable pub with_page_sync_cursor : List SyncChange → String → List SyncChange
unfolding any_needs_cursor give_cursor
with_page_sync_cursor changes cursor =
    if any_needs_cursor changes then map (give_cursor cursor) changes else changes

-- getResetManifest
unfoldable pub get_reset_manifest : List SyncChange → Option ResetManifest
get_reset_manifest [] = none
get_reset_manifest (reset manifest ∷ changes) = some manifest
get_reset_manifest (_ ∷ changes) = get_reset_manifest changes
