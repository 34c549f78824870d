-- ===== src/Optimistic/Every/Envelopes.antt =====
-- A property of every family through the changes of an envelope of client/optimistic.ts.
use sync_resource.Shared.{String, Bool, ◌&&◌, Option, none, [], ◌∷◌, inl, inr, map, Bool-cases}
use sync_resource.Shared.JsMap.{JsMap}
use sync_resource.Js.{Value, truthy}
use sync_resource.Optimistic.Types.{Family, State, Host, Reconcile}
use sync_resource.Optimistic.Changes.{
  add_item, add_item_across, update_item, update_item_across, drop_item, remove_id,
}
use sync_resource.Optimistic.Families.{get_active_family}
use sync_resource.Optimistic.Pages.{item_of}
use sync_resource.Optimistic.Envelope.{
  stale_page, mark_pages_stale, active_key, is_base_data, no_active_pages, apply_added,
  update_base_data, next_value, store_updated, apply_updated, apply_deleted,
}
use sync_resource.Optimistic.Every.{get_active_family-Every}
use sync_resource.Optimistic.Every.Maps.{Every, Keeps, for_families-Every}

module _ (P : Family → Type 0) (host : Host) (reconcile : Reconcile) where
  pub apply_added-Every :
      (append : Bool) (id : String) (value : Value) (s : State)
      → ((active : Option String) → Keeps P (add_item host reconcile active append id value))
      → Every P s.families
      → Every P (apply_added host reconcile append id value s).families
  unfolding apply_added add_item_across
  apply_added-Every append id value s keeps h =
      let (s', active) = get_active_family s in
      for_families-Every P _ (keeps (active_key active)) s'.families s'.tables
        (get_active_family-Every P s h)

  update_base_data-Every :
      (id : String) (patch value : Value) (s : State)
      → Every P s.families
      → Every P (update_base_data host reconcile id patch value s).families
  unfolding update_base_data
  update_base_data-Every id patch value s h =
      let read = get_active_family-Every P s h in
      elim (Bool-cases (is_base_data host reconcile id s)) [
        | inl shown ↦ rw shown h
        | inr other ↦
            rw other (elim (Bool-cases (no_active_pages (get_active_family s).1 && truthy value)) [
              | inl single ↦ rw single read
              | inr paged ↦ rw paged read
            ])
      ]

  pub apply_updated-Every :
      (id : String) (patch value : Value) (s : State)
      → ((next : Value) → Keeps P (update_item host reconcile id next))
      → Every P s.families
      → Every P (apply_updated host reconcile id patch value s).families
  unfolding apply_updated store_updated update_item_across
  apply_updated-Every id patch value s keeps h =
      let next = next_value host reconcile value (item_of id s.base_items) patch in
      let based = update_base_data host reconcile id patch value s in
      let held = update_base_data-Every id patch value s h in
      elim (Bool-cases (truthy next)) [
        | inl stored ↦
            rw stored (for_families-Every P _ (keeps next) based.families based.tables held)
        | inr gone ↦ rw gone held
      ]

  pub apply_deleted-Every :
      (id : String) (s : State)
      → Keeps P (drop_item id)
      → Every P s.families
      → Every P (apply_deleted host reconcile id s).families
  unfolding apply_deleted remove_id
  apply_deleted-Every id s keeps h = for_families-Every P (drop_item id) keeps s.families _ h

pub mark_pages_stale-Every :
    (P : Family → Type 0) (m : JsMap Family)
    → ((f : Family) → P f → P (record f { pages = map stale_page f.pages; pages_view = none }))
    → Every P m
    → Every P (mark_pages_stale m)
unfolding mark_pages_stale
mark_pages_stale-Every P [] keeps h = tt
mark_pages_stale-Every P ((i, f) ∷ m) keeps h = (keeps f h.0, mark_pages_stale-Every P m keeps h.1)
