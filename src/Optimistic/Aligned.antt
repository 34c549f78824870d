-- ===== src/Optimistic/Aligned.antt =====
-- The comment over PageFamilyState in client/optimistic.ts: two aligned arrays, and pages that record
-- how many ids each of them owns.
pub mod Loads
pub mod Partition
pub mod Pages
pub mod Inserts
use sync_resource.Shared.{
  ℕ, zero, suc, ◌+◌, ◌-◌, ◌≤◌, ◌<◌, String, ◌≡◌, refl, ap, Bool, true, false, not, ◌&&◌, ◌||◌,
  Option, none, some, List, [], ◌∷◌, arith, inl, inr, length, leb, ltb, eqb, set, get_elem?,
  insert_at, remove_at, drop_last, is_some, length-insert_at, length-remove_at, length-drop_last,
  length-set, Bool-cases, Option-cases, if◌then◌else◌, ◌==◌,
}
use sync_resource.Js.{Value}
use sync_resource.Optimistic.Types.{PageMeta, Family, Tables, Host, Reconcile}
use sync_resource.Optimistic.Order.{find_insert_index}
use sync_resource.Optimistic.Every.Maps.{Keeps}
use sync_resource.Optimistic.Window.{
  index_of, page_total, set_loaded_item, all_realtime, grow_last, set_realtime_pages, shrink_page,
  move_by_compare,
}
use sync_resource.Optimistic.Changes.{
  matches, last_complete, add_to_empty, insert_sorted, add_to_window, add_matching, no_pages,
  add_with_family, append_to_page, add_item, update_at, remove_entry, update_item, drop_item,
}
use sync_resource.Optimistic.Occurs.{index_of-lt-length}
use sync_resource.Optimistic.Aligned.Inserts.{
  IsAligned, add_with_family-IsAligned, append_to_page-IsAligned, page_total-shrink_page,
  set_realtime-IsAligned,
}

-- A body keeps the arrays of its family aligned, and its pages a partition of them.
abbrev pub KeepsAligned : (Family → Tables → Family × Tables) → Type 0
KeepsAligned = Keeps IsAligned

no_pages_of_total : (ps : List PageMeta) → 0 < page_total ps → no_pages ps ≡ false
unfolding page_total no_pages
no_pages_of_total [] h = absurd (omega arith)
no_pages_of_total (p ∷ ps) h = refl

remove_entry-IsAligned :
    (f : Family) (index : ℕ) (t : Tables)
    → index < length f.ids
    → IsAligned f
    → IsAligned (remove_entry t f index).0
unfolding remove_entry
remove_entry-IsAligned f index t inside h =
    let ids = length-remove_at index f.ids inside in
    record {
      items = omega (arith, ids, length-remove_at index f.items (omega (arith, h.items)), h.items);
      pages = omega (
        arith,
        ids,
        page_total-shrink_page index 0 f.pages (omega arith) (omega (arith, h.pages)),
        h.pages,
      );
    }

module _ (host : Host) (reconcile : Reconcile) where
  pub add_item-KeepsAligned :
      (active : Option String) (append : Bool) (id : String) (item : Value)
      → KeepsAligned (add_item host reconcile active append id item)
  unfolding add_item set_loaded_item
  add_item-KeepsAligned active append id item f t h = elim (Option-cases (index_of id f.ids)) [
    | inr (index, e) ↦
        rw (e, add_item)
          (record {
            items = omega (arith, length-set f.items index item, h.items);
            pages = h.pages;
          })
    | inl e ↦
        rw (e, add_item)
          (elim (Bool-cases append) [
            | inl own ↦ rw own (append_to_page-IsAligned active f id item t f.pages refl h)
            | inr other ↦ rw other (add_with_family-IsAligned host reconcile f id item t h)
          ])
  ]

  move_by_compare-IsAligned :
      (f : Family) (index : ℕ) (item : Value) (id : String)
      → index < length f.ids
      → IsAligned f
      → IsAligned (move_by_compare host reconcile f index item id)
  unfolding move_by_compare
  move_by_compare-IsAligned f index item id inside h =
      let ids = remove_at index f.ids in
      let items = remove_at index f.items in
      let next = find_insert_index host reconcile.compare ids items item id in
      let less = length-remove_at index f.ids inside in
      let less_items = length-remove_at index f.items (omega (arith, h.items)) in
      let grown = length-insert_at next id ids in
      let grown_items = length-insert_at next item items in
      let some_page = no_pages_of_total f.pages (omega (arith, h.pages)) in
      elim (Bool-cases (eqb next index)) [
        | inl same ↦ rw same (
            set_realtime-IsAligned _ 0 some_page
              (omega (arith, less, less_items, grown, grown_items, h.items))
              (omega (arith, less, grown, h.pages)))
        | inr moved ↦ rw moved (
            set_realtime-IsAligned _ 0 some_page
              (omega (arith, less, less_items, grown, grown_items, h.items))
              (omega (arith, less, grown, h.pages)))
      ]

  update_at-IsAligned :
      (f : Family) (index : ℕ) (item : Value) (id : String)
      → index < length f.ids
      → IsAligned f
      → IsAligned (update_at host reconcile f index item id)
  unfolding update_at
  update_at-IsAligned f index item id inside h =
      let written : IsAligned (record f { items = set f.items index item; items_view = none }) =
        record { items = omega (arith, length-set f.items index item, h.items); pages = h.pages } in
      elim (Bool-cases (is_some reconcile.compare)) [
        | inl ordered ↦ rw ordered (move_by_compare-IsAligned _ index item id inside written)
        | inr free ↦ rw free written
      ]

  pub update_item-KeepsAligned :
      (id : String) (item : Value) → KeepsAligned (update_item host reconcile id item)
  unfolding update_item
  update_item-KeepsAligned id item f t h = elim (Option-cases (index_of id f.ids)) [
    | inl e ↦
        rw (e, update_item)
          (elim (Bool-cases (matches reconcile item f.query)) [
            | inl wanted ↦ rw wanted (add_with_family-IsAligned host reconcile f id item t h)
            | inr other ↦ rw other h
          ])
    | inr (index, e) ↦
        let inside = index_of-lt-length id f.ids index e in
        rw (e, update_item)
          (elim (Bool-cases (matches reconcile item f.query)) [
            | inl wanted ↦ rw wanted (update_at-IsAligned f index item id inside h)
            | inr other ↦ rw other (remove_entry-IsAligned f index t inside h)
          ])
  ]

pub drop_item-KeepsAligned : (id : String) → KeepsAligned (drop_item id)
unfolding drop_item
drop_item-KeepsAligned id f t h = elim (Option-cases (index_of id f.ids)) [
  | inl e ↦ rw (e, drop_item) h
  | inr (index, e) ↦
      rw (e, drop_item) (remove_entry-IsAligned f index t (index_of-lt-length id f.ids index e) h)
]
