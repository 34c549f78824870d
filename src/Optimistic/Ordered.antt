-- ===== src/Optimistic/Ordered.antt =====
-- The flag `sorted` of a family in client/optimistic.ts tells the truth.
pub mod Loads
pub mod Envelopes
pub mod Families
pub mod Placing
use sync_resource.Shared.{
  ℕ, zero, suc, ◌+◌, ◌-◌, ◌≤◌, ◌<◌, String, ◌≡◌, refl, sym, ap, ◌∙◌, Bool, true, false, not, ◌&&◌,
  ◌||◌, Option, none, some, List, [], ◌∷◌, arith, inl, inr, length, leb, eqb, set, get_elem?,
  get_or, insert_at, remove_at, drop_last, is_some, length-insert_at, length-remove_at,
  length-drop_last, length-set, Bool-cases, Option-cases, if◌then◌else◌, ◌==◌,
}
use sync_resource.Shared.Edits.{remove_at-set, get_elem?-lt, get_or-set_ne}
use sync_resource.Js.{Value}
use sync_resource.Optimistic.Types.{Sign, PageMeta, Family, Tables, Host, Reconcile}
use sync_resource.Optimistic.Order.{Comparator, compared, is_positive, find_insert_index}
use sync_resource.Optimistic.Order.Sorted.{Le, IsOrder, item_at, IsSorted}
use sync_resource.Optimistic.Order.Search.{
  Splits, find_insert_index-le-length, find_insert_index-Splits,
}
use sync_resource.Optimistic.Order.Edits.{
  insert_at-IsSorted, remove_at-IsSorted, drop_last-IsSorted, set-IsSorted,
}
use sync_resource.Optimistic.Every.Maps.{Keeps}
use sync_resource.Optimistic.Window.{
  index_of, in_order, before, still_sorted, set_loaded_item, set_realtime_pages, move_by_compare,
}
use sync_resource.Optimistic.Changes.{
  matches, last_complete, add_to_empty, insert_sorted, add_to_window, add_matching, no_pages,
  add_with_family, add_item, update_at, remove_entry, update_item, drop_item,
}
use sync_resource.Optimistic.Occurs.{index_of-lt-length}
use sync_resource.Optimistic.Ordered.Families.{
  IsOrdered, free-IsSorted, free-IsSorted_of, in_order-after, in_order-before, one-IsSorted,
  set_realtime-IsOrdered,
}
use sync_resource.Optimistic.Ordered.Placing.{add_with_family-IsOrdered, placed-IsSorted}

module _ (host : Host) (reconcile : Reconcile) (order : IsOrder reconcile.compare) where
  -- A realtime value in its old place: the flag survives only where the neighbours allow it.
  set_loaded-IsSorted :
      (compare : Comparator) (items : List Value) (index : ℕ) (item : Value) (flag : Bool)
      → index < length items
      → (flag ≡ true → IsSorted compare items)
      → still_sorted compare flag (set items index item) index item ≡ true
      → IsSorted compare (set items index item)
  unfolding still_sorted
  set_loaded-IsSorted none items index item flag inside h e = free-IsSorted (set items index item)
  set_loaded-IsSorted (some compare) items index item false inside h e = cc
  set_loaded-IsSorted (some compare) items index item true inside h e =
      set-IsSorted (some compare) items index item inside (h refl)
        (λ i next. in_order-before compare items item index i next inside (ground (arith, e)))
        (λ more. in_order-after compare items item index more (ground (arith, e)))

  set_loaded-IsOrdered :
      (f : Family) (index : ℕ) (item : Value)
      → index < length f.ids
      → IsOrdered reconcile.compare f
      → IsOrdered reconcile.compare (set_loaded_item f index item reconcile)
  unfolding set_loaded_item
  set_loaded-IsOrdered f index item inside h = record {
    items = omega (arith, length-set f.items index item, h.items);
    truthful =
        set_loaded-IsSorted reconcile.compare f.items index item f.sorted (omega (arith, h.items))
          h.truthful;
  }

  move_by_compare-IsOrdered :
      (f : Family) (index : ℕ) (item : Value) (id : String)
      → index < length f.ids
      → length f.items ≡ length f.ids
      → (f.sorted ≡ true → IsSorted reconcile.compare (remove_at index f.items))
      → IsOrdered reconcile.compare (move_by_compare host reconcile f index item id)
  unfolding move_by_compare
  move_by_compare-IsOrdered f index item id inside same sorted =
      let ids = remove_at index f.ids in
      let items = remove_at index f.items in
      let next = find_insert_index host reconcile.compare ids items item id in
      let less = length-remove_at index f.ids inside in
      let less_items = length-remove_at index f.items (omega (arith, same)) in
      let grown = length-insert_at next id ids in
      let grown_items = length-insert_at next item items in
      let counted : length items ≡ length ids = omega (arith, less, less_items, same) in
      let placed = λ (s : f.sorted ≡ true).
        placed-IsSorted host reconcile order ids items item id counted (sorted s) in
      elim (Bool-cases (eqb next index)) [
        | inl here ↦ rw here (
            set_realtime-IsOrdered reconcile.compare _ 0
              (record { items = omega (arith, grown, grown_items, counted); truthful = placed }))
        | inr moved ↦ rw moved (
            set_realtime-IsOrdered reconcile.compare _ 0
              (record { items = omega (arith, grown, grown_items, counted); truthful = placed }))
      ]

  update_at-IsOrdered :
      (f : Family) (index : ℕ) (item : Value) (id : String)
      → index < length f.ids
      → IsOrdered reconcile.compare f
      → IsOrdered reconcile.compare (update_at host reconcile f index item id)
  unfolding update_at
  update_at-IsOrdered f index item id inside h =
      let count = length-set f.items index item in
      elim (Bool-cases (is_some reconcile.compare)) [
        | inl ordered ↦ rw ordered (
            move_by_compare-IsOrdered _ index item id inside (omega (arith, count, h.items)) (λ s.
              rw (remove_at-set f.items index item) (
                remove_at-IsSorted reconcile.compare f.items index (omega (arith, h.items)) order
                  (h.truthful s))))
        | inr free ↦ rw free (record {
          items = omega (arith, count, h.items);
          truthful = λ s. free-IsSorted_of reconcile.compare _ free;
        })
      ]

  remove_entry-IsOrdered :
      (f : Family) (index : ℕ) (t : Tables)
      → index < length f.ids
      → IsOrdered reconcile.compare f
      → IsOrdered reconcile.compare (remove_entry t f index).0
  unfolding remove_entry
  remove_entry-IsOrdered f index t inside h = record {
    items = omega (
      arith,
      length-remove_at index f.ids inside,
      length-remove_at index f.items (omega (arith, h.items)),
      h.items,
    );
    truthful = λ s.
        remove_at-IsSorted reconcile.compare f.items index (omega (arith, h.items)) order
          (h.truthful s);
  }

  -- An added item of another client, an updated item and a deleted one keep the flag truthful.
  pub add_item-Keeps-IsOrdered :
      (active : Option String) (id : String) (item : Value)
      → Keeps (IsOrdered reconcile.compare) (add_item host reconcile active false id item)
  unfolding add_item
  add_item-Keeps-IsOrdered active id item f t h = elim (Option-cases (index_of id f.ids)) [
    | inr (index, e) ↦
        rw (e, add_item) (set_loaded-IsOrdered f index item (index_of-lt-length id f.ids index e) h)
    | inl e ↦ rw (e, add_item) (add_with_family-IsOrdered host reconcile order f id item t h)
  ]

  pub update_item-Keeps-IsOrdered :
      (id : String) (item : Value)
      → Keeps (IsOrdered reconcile.compare) (update_item host reconcile id item)
  unfolding update_item
  update_item-Keeps-IsOrdered id item f t h = elim (Option-cases (index_of id f.ids)) [
    | inl e ↦
        rw (e, update_item)
          (elim (Bool-cases (matches reconcile item f.query)) [
            | inl wanted ↦ rw wanted (add_with_family-IsOrdered host reconcile order f id item t h)
            | inr other ↦ rw other h
          ])
    | inr (index, e) ↦
        let inside = index_of-lt-length id f.ids index e in
        rw (e, update_item)
          (elim (Bool-cases (matches reconcile item f.query)) [
            | inl wanted ↦ rw wanted (update_at-IsOrdered f index item id inside h)
            | inr other ↦ rw other (remove_entry-IsOrdered f index t inside h)
          ])
  ]

  pub drop_item-Keeps-IsOrdered : (id : String) → Keeps (IsOrdered reconcile.compare) (drop_item id)
  unfolding drop_item
  drop_item-Keeps-IsOrdered id f t h = elim (Option-cases (index_of id f.ids)) [
    | inl e ↦ rw (e, drop_item) h
    | inr (index, e) ↦
        rw (e, drop_item) (remove_entry-IsOrdered f index t (index_of-lt-length id f.ids index e) h)
  ]
