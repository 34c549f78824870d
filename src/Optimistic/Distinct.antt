-- ===== src/Optimistic/Distinct.antt =====
-- Loaded ids stay unique in each family of client/optimistic.ts.
pub mod Loads
use sync_resource.Shared.{
  ℕ, ◌+◌, ◌≤◌, String, ◌≡◌, refl, ap, Bool, true, false, not, ◌&&◌, ◌||◌, Option, none, some, List,
  [], ◌∷◌, arith, eq_iff, eq_refl, inl, inr, length, leb, ltb, get_elem?, get_last?, drop_last,
  insert_at, remove_at, is_some, Bool-cases, Option-cases, if◌then◌else◌, ◌==◌,
}
use sync_resource.Shared.JsMap.{JsMap}
use sync_resource.Js.{Value}
use sync_resource.Optimistic.Types.{PageMeta, Family, Tables, State, Host, Reconcile}
use sync_resource.Optimistic.Every.Maps.{Every, Keeps}
use sync_resource.Optimistic.Order.{find_insert_index}
use sync_resource.Optimistic.Window.{index_of, set_realtime_pages, set_loaded_item}
use sync_resource.Optimistic.Refs.{for_families}
use sync_resource.Optimistic.Changes.{
  matches, last_complete, add_to_empty, insert_sorted, add_to_window, add_matching, no_pages,
  add_with_family, append_to_page, add_item, update_item, drop_item, remove_entry,
}
use sync_resource.Optimistic.Occurs.{
  hit, occurs, occurs-insert_at, occurs-drop_last, occurs-remove_at, get_elem?-index_of,
}
use sync_resource.Optimistic.Counts.Steps.{occurs-update_at}

insert_sorted-grows :
    (reconcile : Reconcile) (f : Family) (complete : Bool) (index : ℕ) (id : String) (item : Value)
    (t : Tables) (j : String)
    → occurs j (insert_sorted reconcile f complete index id item t).0.ids
      ≤ hit id j + occurs j f.ids
unfolding insert_sorted set_realtime_pages
insert_sorted-grows reconcile f complete index id item t j =
    ground (arith, occurs-insert_at j id index f.ids, occurs-drop_last j (insert_at index id f.ids))

add_to_empty-grows :
    (f : Family) (pages : List PageMeta) (id : String) (item : Value) (t : Tables) (j : String)
    → f.ids ≡ []
    → occurs j (add_to_empty f pages id item t).0.ids ≤ hit id j + occurs j f.ids
unfolding add_to_empty occurs
add_to_empty-grows f [] id item t j e = omega arith
add_to_empty-grows f (p ∷ q ∷ ps) id item t j e = omega arith
add_to_empty-grows f (p ∷ []) id item t j e = ground arith

add_matching-grows :
    (host : Host) (reconcile : Reconcile) (f : Family) (ids : List String) (id : String)
    (item : Value) (t : Tables) (j : String)
    → f.ids ≡ ids
    → occurs j (add_matching host reconcile f ids id item t).0.ids ≤ hit id j + occurs j f.ids
unfolding add_matching add_to_window
add_matching-grows host reconcile f [] id item t j e = add_to_empty-grows f f.pages id item t j e
add_matching-grows host reconcile f (_ ∷ _) id item t j e = ground (
  arith,
  insert_sorted-grows reconcile f (last_complete f.pages)
      (find_insert_index host reconcile.compare f.ids f.items item id) id item t j,
)

append_to_page-grows :
    (active : Option String) (f : Family) (pages : List PageMeta) (id : String) (item : Value)
    (t : Tables) (j : String)
    → occurs j (append_to_page active f pages id item t).0.ids ≤ hit id j + occurs j f.ids
unfolding append_to_page
append_to_page-grows active f [] id item t j = omega arith
append_to_page-grows none f (first ∷ rest) id item t j = omega arith
append_to_page-grows (some key) f (first ∷ rest) id item t j =
    ground (arith, occurs-insert_at j id first.count f.ids)

add_with_family-grows :
    (host : Host) (reconcile : Reconcile) (f : Family) (id : String) (item : Value) (t : Tables)
    (j : String)
    → occurs j (add_with_family host reconcile f id item t).0.ids ≤ hit id j + occurs j f.ids
unfolding add_with_family
add_with_family-grows host reconcile f id item t j =
    ground (arith, add_matching-grows host reconcile f f.ids id item t j refl)

occurs_of_index_none :
    (id : String) (ids : List String) → index_of id ids ≡ none → occurs id ids ≡ 0
unfolding index_of occurs
occurs_of_index_none id [] e = refl
occurs_of_index_none id (j ∷ ids) e = ground (arith, occurs_of_index_none id ids)

abbrev pub Once : String → Family → Type 0
Once j f = occurs j f.ids ≤ 1

-- No family holds the id twice.
abbrev pub AllOnce : String → JsMap Family → Type 0
AllOnce j = Every (Once j)

-- A body keeps each id at most once in its family.
abbrev pub KeepsOnce : String → (Family → Tables → Family × Tables) → Type 0
KeepsOnce j = Keeps (Once j)

added_once :
    (id j : String) (ids : List String)
    → index_of id ids ≡ none
    → occurs j ids ≤ 1
    → hit id j + occurs j ids ≤ 1
added_once id j ids e h = elim (Bool-cases (id == j)) [
  | inl same ↦
      let none_there : occurs j ids ≡ 0 =
        rw ((eq_iff id j).0 same) at (occurs_of_index_none id ids e) in
      rw same (omega arith)
  | inr other ↦ rw other (omega arith)
]

module _ (host : Host) (reconcile : Reconcile) where
  pub add_item-KeepsOnce :
      (j id : String) (active : Option String) (append : Bool) (item : Value)
      → KeepsOnce j (add_item host reconcile active append id item)
  unfolding add_item set_loaded_item
  add_item-KeepsOnce j id active append item f t h = elim (Option-cases (index_of id f.ids)) [
    | inr (index, e) ↦ rw (e, add_item) h
    | inl e ↦
        rw (e, add_item)
          (ground (
            arith,
            added_once id j f.ids e h,
            append_to_page-grows active f f.pages id item t j,
            add_with_family-grows host reconcile f id item t j,
          ))
  ]

  pub update_item-KeepsOnce :
      (j id : String) (item : Value) → KeepsOnce j (update_item host reconcile id item)
  unfolding update_item remove_entry
  update_item-KeepsOnce j id item f t h = elim (Option-cases (index_of id f.ids)) [
    | inl e ↦
        rw (e, update_item)
          (ground
            (arith, added_once id j f.ids e h, add_with_family-grows host reconcile f id item t j))
    | inr (index, e) ↦
        rw (e, update_item)
          (ground (
            arith,
            occurs-update_at host reconcile f index item id j (get_elem?-index_of id f.ids index e),
            occurs-remove_at j index f.ids,
          ))
  ]

pub drop_item-KeepsOnce : (j id : String) → KeepsOnce j (drop_item id)
unfolding drop_item remove_entry
drop_item-KeepsOnce j id f t h = elim (Option-cases (index_of id f.ids)) [
  | inl e ↦ rw (e, drop_item) h
  | inr (index, e) ↦ rw (e, drop_item) (omega (arith, occurs-remove_at j index f.ids))
]

-- After `removeAt` at its index the id is gone from a family that held it once.
pub drop_item_gone :
    (id : String) (f : Family) (t : Tables)
    → occurs id f.ids ≤ 1
    → occurs id (drop_item id f t).0.ids ≡ 0
unfolding drop_item remove_entry
drop_item_gone id f t h = elim (Option-cases (index_of id f.ids)) [
  | inl e ↦ rw (e, drop_item) (occurs_of_index_none id f.ids e)
  | inr (index, e) ↦
      rw (e, drop_item)
        (ground
          (arith, occurs-remove_at id index f.ids, get_elem?-index_of id f.ids index e, eq_refl id))
]
