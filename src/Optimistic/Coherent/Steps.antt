-- ===== src/Optimistic/Coherent/Steps.antt =====
-- The operations of client/optimistic.ts leave no view that is out of date.
use sync_resource.Shared.{
  ℕ, String, ◌≡◌, refl, Bool, true, false, Option, none, some, List, [], ◌∷◌, inl, inr, Bool-cases,
}
use sync_resource.Shared.JsMap.{JsMap, get}
use sync_resource.Js.{Value, items_of, property, read_string}
use sync_resource.Protocol.{SyncChange, page_loaded, item_added, item_updated, item_deleted, reset}
use sync_resource.Optimistic.Types.{Family, State, PendingCommand, Host, Reconcile}
use sync_resource.Optimistic.Window.{plain_items}
use sync_resource.Optimistic.Families.{get_or_create_family}
use sync_resource.Optimistic.QueryKey.{query_family_key, query_without_cursor}
use sync_resource.Optimistic.Pages.{
  Slot, collect_items, slot_of, replace_start, refresh_items, refresh_family, finish_page,
  fill_family, fill_if_there, apply_page_items, apply_output_items,
}
use sync_resource.Optimistic.Envelope.{Client, apply_change, apply_changes}
use sync_resource.Optimistic.Every.{page_families-Every, get_or_create-Every}
use sync_resource.Optimistic.Every.Maps.{Every}
use sync_resource.Optimistic.Every.Envelopes.{
  apply_added-Every, apply_updated-Every, apply_deleted-Every, mark_pages_stale-Every,
}
use sync_resource.Optimistic.Coherent.{
  IsCoherent, viewless-IsCoherent, add_item-Keeps-IsCoherent, update_item-Keeps-IsCoherent,
  drop_item-Keeps-IsCoherent,
}

-- No family keeps a view that is out of date.
abbrev pub AllCoherent : Reconcile → State → Type 0
AllCoherent reconcile s = Every (IsCoherent reconcile) s.families

module _ (host : Host) (reconcile : Reconcile) where
  refresh-IsCoherent :
      (base : JsMap Value) (f : Family)
      → IsCoherent reconcile f
      → IsCoherent reconcile (refresh_family host reconcile base f)
  unfolding refresh_family
  refresh-IsCoherent base f h = elim (Bool-cases (refresh_items host base f.ids f.items).1) [
    | inl changed ↦ rw changed (record { items = λ v e. cc; pages = h.pages })
    | inr same ↦ rw same h
  ]

  finish-IsCoherent :
      (slot : Slot) (start : ℕ) (meta : Value) (f : Family)
      → IsCoherent reconcile (finish_page slot start meta reconcile f)
  unfolding finish_page
  finish-IsCoherent slot start meta f = viewless-IsCoherent reconcile _ refl refl

  fill_if_there-Coherent :
      (s : State) (key : String) (there : Option Family) (items : List Value)
      (cursor_in page_cursor : Option String) (meta : Value)
      → get key s.families ≡ there
      → AllCoherent reconcile s
      → AllCoherent reconcile
          (fill_if_there host reconcile s key there items cursor_in page_cursor meta)
  unfolding fill_if_there fill_family
  fill_if_there-Coherent s key none items cursor_in page_cursor meta e h = h
  fill_if_there-Coherent s key (some f) items cursor_in page_cursor meta e h =
      let batch = collect_items reconcile items s.base_items false in
      let slot = slot_of cursor_in f.pages in
      let start = replace_start slot f in
      page_families-Every (IsCoherent reconcile) host reconcile key slot _ meta start batch.seen _
        s.families f e (finish-IsCoherent slot start meta _) (finish-IsCoherent slot start meta _)
        (refresh-IsCoherent _) h

  pub apply_page_items-Coherent :
      (s : State) (items : List Value) (query : Value) (page_cursor : Option String) (meta : Value)
      (activate : Bool)
      → AllCoherent reconcile s
      → AllCoherent reconcile
          (apply_page_items host reconcile s items query page_cursor meta activate)
  unfolding apply_page_items plain_items
  apply_page_items-Coherent s items query page_cursor meta activate h =
      let key = query_family_key host query in
      let family_query = query_without_cursor query in
      let made = get_or_create_family s key family_query in
      let filled =
        fill_if_there-Coherent made key (get key made.families) items
          (read_string (property "cursor" query)) page_cursor meta refl
          (get_or_create-Every (IsCoherent reconcile) s key family_query
            (viewless-IsCoherent reconcile _ refl refl)
            (λ f a. record { items = a.items; pages = a.pages }) h) in
      elim (Bool-cases activate) [ inl chosen ↦ rw chosen filled | inr left ↦ rw left filled ]

  pub apply_output_items-Coherent :
      (s : State) (items output query : Value) (activate : Bool)
      → AllCoherent reconcile s
      → AllCoherent reconcile (apply_output_items host reconcile s items output query activate)
  unfolding apply_output_items
  apply_output_items-Coherent s (Value.array items) output query activate h =
      apply_page_items-Coherent s (items_of items) query _ _ activate h
  apply_output_items-Coherent s Value.undefined output query activate h = h
  apply_output_items-Coherent s Value.null output query activate h = h
  apply_output_items-Coherent s (Value.boolean b) output query activate h = h
  apply_output_items-Coherent s (Value.number n) output query activate h = h
  apply_output_items-Coherent s (Value.text t) output query activate h = h
  apply_output_items-Coherent s (Value.object fs) output query activate h = h

  apply_change-Coherent :
      (query : Value) (source : Option PendingCommand) (change : SyncChange) (c : Client)
      → AllCoherent reconcile c.state
      → AllCoherent reconcile (apply_change host reconcile query source change c).state
  unfolding apply_change plain_items
  apply_change-Coherent query source (page_loaded items cursor) c h =
      apply_page_items-Coherent c.state items query cursor Value.undefined true h
  apply_change-Coherent query source (item_added id value) c h =
      apply_added-Every (IsCoherent reconcile) host reconcile _ id value c.state
        (λ active. add_item-Keeps-IsCoherent host reconcile active _ id value) h
  apply_change-Coherent query source (item_updated id patch value) c h =
      apply_updated-Every (IsCoherent reconcile) host reconcile id patch value c.state
        (update_item-Keeps-IsCoherent host reconcile id) h
  apply_change-Coherent query source (item_deleted id) c h =
      apply_deleted-Every (IsCoherent reconcile) host reconcile id c.state
        (drop_item-Keeps-IsCoherent host reconcile id) h
  apply_change-Coherent query source (reset manifest) c h =
      mark_pages_stale-Every (IsCoherent reconcile) c.state.families
        (λ f a. record { items = a.items; pages = λ v e. cc }) h

  pub apply_changes-Coherent :
      (query : Value) (source : Option PendingCommand) (changes : List SyncChange) (c : Client)
      → AllCoherent reconcile c.state
      → AllCoherent reconcile (apply_changes host reconcile query source changes c).state
  unfolding apply_changes
  apply_changes-Coherent query source [] c h = h
  apply_changes-Coherent query source (change ∷ changes) c h =
      apply_changes-Coherent query source changes _ (apply_change-Coherent query source change c h)
