-- ===== src/Optimistic/Aligned/Loads.antt =====
-- A page that client/optimistic.ts loads keeps the arrays and the pages of its family aligned.
use sync_resource.Shared.{
  ℕ, String, ◌≡◌, refl, Bool, false, Option, none, some, List, [], ◌∷◌, arith, inl, inr, length,
  Bool-cases,
}
use sync_resource.Shared.JsMap.{JsMap, get}
use sync_resource.Js.{Value, property, read_string}
use sync_resource.Optimistic.Types.{Family, State, Host, Reconcile}
use sync_resource.Optimistic.Window.{page_total}
use sync_resource.Optimistic.Families.{new_family, get_or_create_family}
use sync_resource.Optimistic.QueryKey.{query_family_key, query_without_cursor}
use sync_resource.Optimistic.Pages.{
  Slot, collect_items, slot_of, replace_start, fresh_entries, refresh_items, refresh_family,
  finish_page, fill_family, fill_if_there, apply_page_items,
}
use sync_resource.Optimistic.Counts.Pages.{length-collect_items}
use sync_resource.Optimistic.Every.{page_families-Every, get_or_create-Every}
use sync_resource.Optimistic.Every.Maps.{Every, get-Every}
use sync_resource.Optimistic.Aligned.Inserts.{IsAligned}
use sync_resource.Optimistic.Aligned.Pages.{
  length-fresh_entries, load_page-IsAligned, slot_of-SlotFits,
}

module _ (host : Host) (reconcile : Reconcile) where
  pub length-refresh_items :
      (base : JsMap Value) (ids : List String) (values : List Value)
      → length (refresh_items host base ids values).0 ≡ length values
  unfolding refresh_items
  length-refresh_items base [] values = refl
  length-refresh_items base (id ∷ ids) [] = refl
  length-refresh_items base (id ∷ ids) (v ∷ values) =
      ground (arith, length-refresh_items base ids values)

  refresh_family-IsAligned :
      (base : JsMap Value) (f : Family)
      → IsAligned f
      → IsAligned (refresh_family host reconcile base f)
  unfolding refresh_family
  refresh_family-IsAligned base f h = elim (Bool-cases (refresh_items host base f.ids f.items).1) [
    | inl changed ↦ rw changed (record {
      items = omega (arith, length-refresh_items base f.ids f.items, h.items);
      pages = h.pages;
    })
    | inr same ↦ rw same h
  ]

  finish_page-IsAligned :
      (slot : Slot) (start : ℕ) (meta : Value) (f : Family)
      → IsAligned f
      → IsAligned (finish_page slot start meta reconcile f)
  unfolding finish_page
  finish_page-IsAligned slot start meta f h = record { items = h.items; pages = h.pages }

  fill_family-Aligned :
      (s : State) (key : String) (f : Family) (items : List Value)
      (cursor_in page_cursor : Option String) (meta : Value)
      → get key s.families ≡ some f
      → Every IsAligned s.families
      → Every IsAligned
          (fill_family host reconcile s key f items cursor_in page_cursor meta).families
  unfolding fill_family
  fill_family-Aligned s key f items cursor_in page_cursor meta e h =
      let batch = collect_items reconcile items s.base_items false in
      let slot = slot_of cursor_in f.pages in
      let (ids, values) = fresh_entries slot f batch in
      let start = replace_start slot f in
      let loaded =
        load_page-IsAligned slot cursor_in page_cursor f ids values
          (slot_of-SlotFits cursor_in f.pages)
          (length-fresh_entries slot f batch
            (length-collect_items reconcile items s.base_items false))
          (get-Every IsAligned key s.families f h e) in
      page_families-Every IsAligned host reconcile key slot _ meta start batch.seen _ s.families f e
        (finish_page-IsAligned slot start meta _ loaded)
        (finish_page-IsAligned slot start meta _ (refresh_family-IsAligned _ _ loaded))
        (refresh_family-IsAligned _) h

  fill_if_there-Aligned :
      (s : State) (key : String) (there : Option Family) (items : List Value)
      (cursor_in page_cursor : Option String) (meta : Value)
      → get key s.families ≡ there
      → Every IsAligned s.families
      → Every IsAligned
          (fill_if_there host reconcile s key there items cursor_in page_cursor meta).families
  unfolding fill_if_there
  fill_if_there-Aligned s key none items cursor_in page_cursor meta e h = h
  fill_if_there-Aligned s key (some f) items cursor_in page_cursor meta e h =
      fill_family-Aligned s key f items cursor_in page_cursor meta e h

  pub new_family-IsAligned : (key : String) (query : Value) → IsAligned (new_family key query)
  unfolding page_total
  new_family-IsAligned key query = record { items = refl; pages = refl }

  -- A page that is read keeps every family aligned, wherever it goes.
  pub apply_page_items-Aligned :
      (s : State) (items : List Value) (query : Value) (page_cursor : Option String) (meta : Value)
      (activate : Bool)
      → Every IsAligned s.families
      → Every IsAligned
          (apply_page_items host reconcile s items query page_cursor meta activate).families
  unfolding apply_page_items
  apply_page_items-Aligned s items query page_cursor meta activate h =
      let key = query_family_key host query in
      let made = get_or_create_family s key (query_without_cursor query) in
      let filled =
        fill_if_there-Aligned made key (get key made.families) items
          (read_string (property "cursor" query)) page_cursor meta refl
          (get_or_create-Every IsAligned s key (query_without_cursor query)
            (new_family-IsAligned key (query_without_cursor query))
            (λ f a. record { items = a.items; pages = a.pages }) h) in
      elim (Bool-cases activate) [ inl chosen ↦ rw chosen filled | inr left ↦ rw left filled ]
