-- ===== src/Optimistic/Ordered/Placing.antt =====
-- An item that client/optimistic.ts places among the items of a family keeps them in order.
use sync_resource.Shared.{
  String, ◌≡◌, refl, sym, Bool, true, not, ◌&&◌, ◌||◌, List, [], ◌∷◌, arith, inl, inr, length, leb,
  insert_at, is_some, length-insert_at, length-drop_last, Bool-cases,
}
use sync_resource.Js.{Value}
use sync_resource.Optimistic.Types.{PageMeta, Family, Tables, Host, Reconcile}
use sync_resource.Optimistic.Order.{find_insert_index}
use sync_resource.Optimistic.Order.Sorted.{IsOrder, IsSorted}
use sync_resource.Optimistic.Order.Search.{find_insert_index-le-length, find_insert_index-Splits}
use sync_resource.Optimistic.Order.Edits.{insert_at-IsSorted, drop_last-IsSorted}
use sync_resource.Optimistic.Changes.{
  matches, last_complete, add_to_empty, insert_sorted, add_to_window, add_matching, no_pages,
  add_with_family,
}
use sync_resource.Optimistic.Ordered.Families.{IsOrdered, one-IsSorted, set_realtime-IsOrdered}

module _ (host : Host) (reconcile : Reconcile) (order : IsOrder reconcile.compare) where
  -- The two arrays with an item that the search has placed.
  pub placed-IsSorted :
      (ids : List String) (items : List Value) (item : Value) (id : String)
      → length items ≡ length ids
      → IsSorted reconcile.compare items
      → let index = find_insert_index host reconcile.compare ids items item id in
        IsSorted reconcile.compare (insert_at index item items)
  placed-IsSorted ids items item id same sorted =
      insert_at-IsSorted reconcile.compare items
        (find_insert_index host reconcile.compare ids items item id) item
        (omega (arith, find_insert_index-le-length host reconcile.compare ids items item id, same))
        sorted
        (find_insert_index-Splits host reconcile.compare ids items item id order sorted (sym same))

  insert_sorted-IsOrdered :
      (f : Family) (complete : Bool) (id : String) (item : Value) (t : Tables)
      → IsOrdered reconcile.compare f
      → let index = find_insert_index host reconcile.compare f.ids f.items item id in
        IsOrdered reconcile.compare (insert_sorted reconcile f complete index id item t).0
  unfolding insert_sorted
  insert_sorted-IsOrdered f complete id item t h =
      let index = find_insert_index host reconcile.compare f.ids f.items item id in
      let ids = insert_at index id f.ids in
      let items = insert_at index item f.items in
      let grown = length-insert_at index id f.ids in
      let grown_items = length-insert_at index item f.items in
      let placed =
        λ (s : f.sorted ≡ true). placed-IsSorted f.ids f.items item id h.items (h.truthful s) in
      elim (Bool-cases (not complete && not reconcile.sorted_placement)) [
        | inl full ↦ rw full (
            set_realtime-IsOrdered reconcile.compare _ 0 (record {
              items = omega (
                arith,
                length-drop_last ids,
                length-drop_last items,
                grown,
                grown_items,
                h.items,
              );
              truthful = λ s. drop_last-IsSorted reconcile.compare items (placed s);
            }))
        | inr room ↦ rw room (
            set_realtime-IsOrdered reconcile.compare _ 1
              (record { items = omega (arith, grown, grown_items, h.items); truthful = placed }))
      ]

  add_to_empty-IsOrdered :
      (f : Family) (pages : List PageMeta) (id : String) (item : Value) (t : Tables)
      → IsOrdered reconcile.compare f
      → IsOrdered reconcile.compare (add_to_empty f pages id item t).0
  unfolding add_to_empty
  add_to_empty-IsOrdered f [] id item t h = h
  add_to_empty-IsOrdered f (p ∷ q ∷ ps) id item t h = h
  add_to_empty-IsOrdered f (p ∷ []) id item t h = elim (Bool-cases (p.complete && not p.stale)) [
    | inl free ↦
        rw free (record { items = refl; truthful = λ s. one-IsSorted reconcile.compare item })
    | inr other ↦ rw other h
  ]

  add_matching-IsOrdered :
      (f : Family) (ids : List String) (id : String) (item : Value) (t : Tables)
      → IsOrdered reconcile.compare f
      → IsOrdered reconcile.compare (add_matching host reconcile f ids id item t).0
  unfolding add_matching add_to_window
  add_matching-IsOrdered f [] id item t h = add_to_empty-IsOrdered f f.pages id item t h
  add_matching-IsOrdered f (_ ∷ _) id item t h =
      let index = find_insert_index host reconcile.compare f.ids f.items item id in
      elim (Bool-cases (is_some reconcile.compare)) [
        | inr free ↦ rw free h
        | inl ordered ↦
            rw ordered
              (elim (Bool-cases (not (last_complete f.pages) && leb (length f.ids) index)) [
                | inl past ↦ rw past h
                | inr inside ↦
                    rw inside (insert_sorted-IsOrdered f (last_complete f.pages) id item t h)
              ])
      ]

  pub add_with_family-IsOrdered :
      (f : Family) (id : String) (item : Value) (t : Tables)
      → IsOrdered reconcile.compare f
      → IsOrdered reconcile.compare (add_with_family host reconcile f id item t).0
  unfolding add_with_family
  add_with_family-IsOrdered f id item t h =
      elim (Bool-cases (no_pages f.pages || not (matches reconcile item f.query))) [
        | inl skipped ↦ rw skipped h
        | inr wanted ↦ rw wanted (add_matching-IsOrdered f f.ids id item t h)
      ]
