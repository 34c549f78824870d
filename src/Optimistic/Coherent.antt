-- ===== src/Optimistic/Coherent.antt =====
-- The views that a family of client/optimistic.ts keeps between changes are never out of date.
pub mod States
pub mod Steps
use sync_resource.Shared.{
  ℕ, zero, suc, ◌<◌, String, ◌≡◌, refl, sym, ap, ◌∙◌, Bool, true, false, not, ◌&&◌, ◌||◌, Option,
  none, some, List, [], ◌∷◌, arith, inl, inr, length, leb, eqb, get_elem?, set, insert_at,
  remove_at, drop_last, is_some, eq_iff, map, Bool-cases, Option-cases, if◌then◌else◌, ◌==◌,
}
use sync_resource.Js.{Value}
use sync_resource.Optimistic.Types.{PageMeta, PageState, Family, Tables, Host, Reconcile}
use sync_resource.Optimistic.Order.{find_insert_index}
use sync_resource.Optimistic.Window.{
  index_of, all_realtime, set_loaded_item, set_realtime_pages, move_by_compare, page_states,
  plain_items,
}
use sync_resource.Optimistic.Changes.{
  matches, last_complete, add_to_empty, insert_sorted, add_to_window, add_matching, no_pages,
  add_with_family, append_to_page, add_item, update_at, remove_entry, update_item, drop_item,
}
use sync_resource.Optimistic.Every.Maps.{Keeps}
use sync_resource.Optimistic.Occurs.{get_elem?-index_of}

-- A view that is kept is what would be computed now.
pub record IsCoherent (reconcile : Reconcile) (f : Family) : Type 0 where
  pub items : (v : List Value) → f.items_view ≡ some v → v ≡ plain_items f reconcile
  pub pages : (v : List PageState) → f.pages_view ≡ some v → v ≡ page_states f.pages f.ids

-- A family that keeps no view.
pub viewless-IsCoherent :
    (reconcile : Reconcile) (f : Family)
    → f.items_view ≡ none
    → f.pages_view ≡ none
    → IsCoherent reconcile f
viewless-IsCoherent reconcile f i p = record { items = λ v e. cc; pages = λ v e. cc }

set_realtime-IsCoherent :
    (reconcile : Reconcile) (f : Family) (n : ℕ)
    → IsCoherent reconcile f
    → IsCoherent reconcile (set_realtime_pages f n)
unfolding set_realtime_pages plain_items
set_realtime-IsCoherent reconcile f n h = elim (Bool-cases (eqb n 0 && all_realtime f.pages)) [
  | inl settled ↦ rw settled h
  | inr other ↦ rw other (record { items = h.items; pages = λ v e. cc })
]

insert_at-remove_at :
    (ids : List String) (k : ℕ) (id : String)
    → get_elem? ids k ≡ some id
    → insert_at k id (remove_at k ids) ≡ ids
insert_at-remove_at [] k id e = cc
insert_at-remove_at (i ∷ ids) zero id e = cc
insert_at-remove_at (i ∷ ids) (suc k) id e = ap (◌∷◌ i) (insert_at-remove_at ids k id e)

add_to_empty-IsCoherent :
    (reconcile : Reconcile) (f : Family) (pages : List PageMeta) (id : String) (item : Value)
    (t : Tables)
    → IsCoherent reconcile f
    → IsCoherent reconcile (add_to_empty f pages id item t).0
unfolding add_to_empty
add_to_empty-IsCoherent reconcile f [] id item t h = h
add_to_empty-IsCoherent reconcile f (p ∷ q ∷ ps) id item t h = h
add_to_empty-IsCoherent reconcile f (p ∷ []) id item t h =
    elim (Bool-cases (p.complete && not p.stale)) [
      | inl free ↦ rw free (viewless-IsCoherent reconcile _ refl refl)
      | inr other ↦ rw other h
    ]

insert_sorted-IsCoherent :
    (reconcile : Reconcile) (f : Family) (complete : Bool) (index : ℕ) (id : String) (item : Value)
    (t : Tables)
    → IsCoherent reconcile (insert_sorted reconcile f complete index id item t).0
unfolding insert_sorted
insert_sorted-IsCoherent reconcile f complete index id item t =
    elim (Bool-cases (not complete && not reconcile.sorted_placement)) [
      | inl full ↦
          rw full
            (set_realtime-IsCoherent reconcile _ 0 (viewless-IsCoherent reconcile _ refl refl))
      | inr room ↦
          rw room
            (set_realtime-IsCoherent reconcile _ 1 (viewless-IsCoherent reconcile _ refl refl))
    ]

append_to_page-IsCoherent :
    (reconcile : Reconcile) (active : Option String) (f : Family) (pages : List PageMeta)
    (id : String) (item : Value) (t : Tables)
    → IsCoherent reconcile f
    → IsCoherent reconcile (append_to_page active f pages id item t).0
unfolding append_to_page
append_to_page-IsCoherent reconcile active f [] id item t h = h
append_to_page-IsCoherent reconcile none f (first ∷ rest) id item t h = h
append_to_page-IsCoherent reconcile (some key) f (first ∷ rest) id item t h =
    elim (Bool-cases (key == f.key)) [
      | inl own ↦ rw own (viewless-IsCoherent reconcile _ refl refl)
      | inr other ↦ rw other h
    ]

remove_entry-IsCoherent :
    (reconcile : Reconcile) (f : Family) (index : ℕ) (t : Tables)
    → IsCoherent reconcile (remove_entry t f index).0
unfolding remove_entry
remove_entry-IsCoherent reconcile f index t = viewless-IsCoherent reconcile _ refl refl

module _ (host : Host) (reconcile : Reconcile) where
  add_matching-IsCoherent :
      (f : Family) (ids : List String) (id : String) (item : Value) (t : Tables)
      → IsCoherent reconcile f
      → IsCoherent reconcile (add_matching host reconcile f ids id item t).0
  unfolding add_matching add_to_window
  add_matching-IsCoherent f [] id item t h = add_to_empty-IsCoherent reconcile f f.pages id item t h
  add_matching-IsCoherent f (_ ∷ _) id item t h =
      let index = find_insert_index host reconcile.compare f.ids f.items item id in
      elim (Bool-cases (is_some reconcile.compare)) [
        | inr free ↦ rw free h
        | inl ordered ↦
            rw ordered
              (elim (Bool-cases (not (last_complete f.pages) && leb (length f.ids) index)) [
                | inl past ↦ rw past h
                | inr inside ↦
                    rw inside
                      (insert_sorted-IsCoherent reconcile f (last_complete f.pages) index id item t)
              ])
      ]

  add_with_family-IsCoherent :
      (f : Family) (id : String) (item : Value) (t : Tables)
      → IsCoherent reconcile f
      → IsCoherent reconcile (add_with_family host reconcile f id item t).0
  unfolding add_with_family
  add_with_family-IsCoherent f id item t h =
      elim (Bool-cases (no_pages f.pages || not (matches reconcile item f.query))) [
        | inl skipped ↦ rw skipped h
        | inr wanted ↦ rw wanted (add_matching-IsCoherent f f.ids id item t h)
      ]

  pub add_item-Keeps-IsCoherent :
      (active : Option String) (append : Bool) (id : String) (item : Value)
      → Keeps (IsCoherent reconcile) (add_item host reconcile active append id item)
  unfolding add_item set_loaded_item
  add_item-Keeps-IsCoherent active append id item f t h = elim (Option-cases (index_of id f.ids)) [
    | inr (index, e) ↦ rw (e, add_item) (record { items = λ v e. cc; pages = h.pages })
    | inl e ↦
        rw (e, add_item)
          (elim (Bool-cases append) [
            | inl own ↦ rw own (append_to_page-IsCoherent reconcile active f f.pages id item t h)
            | inr other ↦ rw other (add_with_family-IsCoherent f id item t h)
          ])
  ]

  -- An item that stays in its place leaves the view of the pages as it is, which is still right.
  move_by_compare-IsCoherent :
      (f : Family) (index : ℕ) (item : Value) (id : String)
      → f.items_view ≡ none
      → get_elem? f.ids index ≡ some id
      → IsCoherent reconcile f
      → IsCoherent reconcile (move_by_compare host reconcile f index item id)
  unfolding move_by_compare
  move_by_compare-IsCoherent f index item id viewless own h =
      let ids = remove_at index f.ids in
      let items = remove_at index f.items in
      let next = find_insert_index host reconcile.compare ids items item id in
      elim (Bool-cases (eqb next index)) [
        | inr moved ↦
            rw moved
              (set_realtime-IsCoherent reconcile _ 0 (viewless-IsCoherent reconcile _ refl refl))
        | inl here ↦
            let same : next ≡ index = ground arith in
            rw here (
              set_realtime-IsCoherent reconcile _ 0 (record {
                items = λ v e. cc;
                pages = λ v e. rw (same, insert_at-remove_at f.ids index id own) (h.pages v e);
              }))
      ]

  update_at-IsCoherent :
      (f : Family) (index : ℕ) (item : Value) (id : String)
      → get_elem? f.ids index ≡ some id
      → IsCoherent reconcile f
      → IsCoherent reconcile (update_at host reconcile f index item id)
  unfolding update_at
  update_at-IsCoherent f index item id own h =
      let written : IsCoherent reconcile
          (record f { items = set f.items index item; items_view = none }) =
        record { items = λ v e. cc; pages = h.pages } in
      elim (Bool-cases (is_some reconcile.compare)) [
        | inl ordered ↦ rw ordered (move_by_compare-IsCoherent _ index item id refl own written)
        | inr free ↦ rw free written
      ]

  pub update_item-Keeps-IsCoherent :
      (id : String) (item : Value)
      → Keeps (IsCoherent reconcile) (update_item host reconcile id item)
  unfolding update_item
  update_item-Keeps-IsCoherent id item f t h = elim (Option-cases (index_of id f.ids)) [
    | inl e ↦
        rw (e, update_item)
          (elim (Bool-cases (matches reconcile item f.query)) [
            | inl wanted ↦ rw wanted (add_with_family-IsCoherent f id item t h)
            | inr other ↦ rw other h
          ])
    | inr (index, e) ↦
        rw (e, update_item)
          (elim (Bool-cases (matches reconcile item f.query)) [
            | inl wanted ↦
                rw wanted
                  (update_at-IsCoherent f index item id (get_elem?-index_of id f.ids index e) h)
            | inr other ↦ rw other (remove_entry-IsCoherent reconcile f index t)
          ])
  ]

  pub drop_item-Keeps-IsCoherent : (id : String) → Keeps (IsCoherent reconcile) (drop_item id)
  unfolding drop_item
  drop_item-Keeps-IsCoherent id f t h = elim (Option-cases (index_of id f.ids)) [
    | inl e ↦ rw (e, drop_item) h
    | inr (index, e) ↦ rw (e, drop_item) (remove_entry-IsCoherent reconcile f index t)
  ]
