-- ===== src/Optimistic/Envelope.antt =====
-- applyEnvelope of client/optimistic.ts: the changes of an envelope, one after the other.
use sync_resource.Shared.{
  String, Bool, true, false, not, ◌&&◌, Option, none, some, List, [], ◌∷◌, map, if◌then◌else◌, ◌==◌,
}
use sync_resource.Shared.JsMap.{JsMap, get, delete, values}
use sync_resource.Js.{Value, truthy, coalesce}
use sync_resource.Protocol.{
  SyncChange, page_loaded, item_added, item_updated, item_deleted, reset, SyncEnvelope,
}
use sync_resource.Optimistic.Types.{
  realtime, PageMeta, Family, State, add, PendingCommand, Host, Reconcile,
}
use sync_resource.Optimistic.Refs.{store_if_referenced}
use sync_resource.Optimistic.Changes.{add_item_across, update_item_across, remove_id, no_pages}
use sync_resource.Optimistic.Families.{get_active_family}
use sync_resource.Optimistic.Pages.{apply_page_items, item_of}
use sync_resource.Optimistic.Patch.{apply_patch}
use sync_resource.Optimistic.Pending.{refreshed_data}

-- The state, and the map of pending commands that the store keeps beside it.
pub record Client : Type 0 where
  pub state : State
  pub pending : JsMap PendingCommand

unfoldable pub stale_page : PageMeta → PageMeta
stale_page p = record p { stale = true; source = realtime }

-- markPagesStale
unfoldable pub mark_pages_stale : JsMap Family → JsMap Family
unfolding stale_page
mark_pages_stale [] = []
mark_pages_stale ((k, f) ∷ fs) =
    (k, record f { pages = map stale_page f.pages; pages_view = none }) ∷ mark_pages_stale fs

-- `sourceCommand?.method === 'add'`
unfoldable pub is_add : Option PendingCommand → Bool
is_add none = false
is_add (some c) = elim c.method [ add ↦ true | _ ↦ false ]

unfoldable pub active_key : Option Family → Option String
active_key none = none
active_key (some f) = some f.key

-- `activePageMetas(state).length === 0`
unfoldable pub no_active_pages : Option Family → Bool
no_active_pages none = true
no_active_pages (some f) = no_pages f.pages

module _ (host : Host) (reconcile : Reconcile) where
  -- `state.baseData && reconcile.itemId(state.baseData) === id`
  unfoldable pub is_base_data : String → State → Bool
  is_base_data id s = elim (reconcile.item_id s.base_data) [
    | none ↦ false
    | some j ↦ truthy s.base_data && (j == id)
  ]

  -- the branch for itemAdded
  unfoldable pub apply_added : Bool → String → Value → State → State
  apply_added append id item s =
      let (s', active) = get_active_family s in
      let (fs, t) =
        add_item_across host reconcile (active_key active) append id item s'.families s'.tables in
      record s' { families = fs; tables = store_if_referenced fs t id item }

  -- the writes of baseData in the branch for itemUpdated
  unfoldable pub update_base_data : String → Value → Value → State → State
  update_base_data id patch value s =
      let (s', active) = get_active_family s in
      if is_base_data id s
      then record s { base_data = coalesce value (apply_patch s.base_data patch) }
      else if no_active_pages active && truthy value
      then record s' { base_data = value }
      else s'

  -- `syncChange.value ?? (current && applyPatch(current, syncChange.patch))`
  unfoldable pub next_value : Value → Value → Value → Value
  next_value value current patch =
      coalesce value (if truthy current then apply_patch current patch else current)

  unfoldable pub store_updated : String → Value → State → State
  store_updated id next s =
      let (fs, t) = update_item_across host reconcile id next s.families s.tables in
      record s { families = fs; tables = store_if_referenced fs t id next }

  -- the branch for itemUpdated
  unfoldable pub apply_updated : String → Value → Value → State → State
  apply_updated id patch value s =
      let next = next_value value (item_of id s.base_items) patch in
      let s' = update_base_data id patch value s in
      if truthy next then store_updated id next s' else s'

  -- the branch for itemDeleted
  unfoldable pub apply_deleted : String → State → State
  apply_deleted id s =
      let (fs, t) =
        remove_id id s.families
          (record { base_items = delete id s.base_items; family_refs = s.family_refs }) in
      record s {
        tables = t;
        families = fs;
        base_data = if is_base_data id s then Value.undefined else s.base_data;
      }

  -- the body of the loop over the changes
  unfoldable pub apply_change : Value → Option PendingCommand → SyncChange → Client → Client
  apply_change query source (page_loaded items cursor) c = record c {
    state = apply_page_items host reconcile c.state items query cursor Value.undefined true;
  }
  apply_change query source (item_added id value) c = record c {
    state = apply_added (is_add source && not reconcile.sorted_placement) id value c.state;
  }
  apply_change query source (item_updated id patch value) c = record c {
    state = apply_updated id patch value c.state;
  }
  apply_change query source (item_deleted id) c = record c { state = apply_deleted id c.state }
  apply_change query source (reset manifest) c = record {
    state = record (c.state) { families = mark_pages_stale c.state.families };
    pending = [];
  }

  unfoldable pub apply_changes : Value → Option PendingCommand → List SyncChange → Client → Client
  apply_changes query source [] c = c
  apply_changes query source (change ∷ changes) c =
      apply_changes query source changes (apply_change query source change c)

  -- `envelope.sourceMutationId ? … : undefined`
  unfoldable pub source_command : SyncEnvelope → JsMap PendingCommand → Option PendingCommand
  source_command e pending = elim e.source_mutation_id [
    | none ↦ none
    | some id ↦ if id == "" then none else get id pending
  ]

  unfoldable pub settle : Option String → JsMap PendingCommand → JsMap PendingCommand
  settle none pending = pending
  settle (some id) pending = if id == "" then pending else delete id pending

  -- applyEnvelope
  unfoldable pub apply_envelope : SyncEnvelope → Value → Client → Client
  apply_envelope e query c =
      let changed = apply_changes query (source_command e c.pending) e.changes c in
      let pending = settle e.source_mutation_id changed.pending in
      record {
        state = record (changed.state) {
          cursor = some e.cursor;
          shown_data = refreshed_data reconcile changed.state.base_data (values pending);
        };
        pending = pending;
      }
