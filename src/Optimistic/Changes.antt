-- ===== src/Optimistic/Changes.antt =====
-- The reconciling operations of client/optimistic.ts, on one family and across the families.
use sync_resource.Shared.{
  ℕ, ◌+◌, String, Bool, true, false, not, ◌&&◌, ◌||◌, Option, none, some, List, [], ◌∷◌, length,
  get_elem?, get_last?, drop_last, set, insert_at, remove_at, leb, is_some, if◌then◌else◌, ◌==◌,
}
use sync_resource.Shared.JsMap.{JsMap}
use sync_resource.Js.{Value}
use sync_resource.Optimistic.Types.{realtime, PageMeta, Family, Tables, Host, Reconcile}
use sync_resource.Optimistic.Order.{find_insert_index}
use sync_resource.Optimistic.Refs.{retain, release, for_families}
use sync_resource.Optimistic.Window.{
  index_of, touch, set_loaded_item, set_realtime_pages, shrink_page, move_by_compare,
}

-- `!reconcile.matchesQuery || reconcile.matchesQuery(item, family.query)`
unfoldable pub matches : Reconcile → Value → Value → Bool
matches reconcile item query = elim reconcile.matches_query [ none ↦ true | some m ↦ m item query ]

-- `family.pages[family.pages.length - 1]?.complete === true`
unfoldable pub last_complete : List PageMeta → Bool
last_complete [] = false
last_complete (p ∷ []) = p.complete
last_complete (p ∷ q ∷ ps) = last_complete (q ∷ ps)

-- `if (id) { release(state, id); }`
unfoldable pub release_if_set : Tables → Option String → Tables
unfolding release
release_if_set t none = t
release_if_set t (some id) = if id == "" then t else release t id

-- the branch of reconcileAddedItemWithFamily for a family with no ids
unfoldable pub add_to_empty : Family → List PageMeta → String → Value → Tables → Family × Tables
add_to_empty f (first ∷ []) id item t =
    if first.complete && not first.stale
    then (
      touch (record f {
        ids = id ∷ [];
        items = item ∷ [];
        pages = record first { count = 1; source = realtime } ∷ [];
      }),
      retain t id,
    )
    else (f, t)
add_to_empty f _ id item t = (f, t)

-- the splice of reconcileAddedItemWithFamily, and the entry that it drops
unfoldable pub insert_sorted :
    Reconcile → Family → Bool → ℕ → String → Value → Tables → Family × Tables
insert_sorted reconcile f complete index id item t =
    let ids = insert_at index id f.ids in
    let items = insert_at index item f.items in
    if not complete && not reconcile.sorted_placement
    then (
      set_realtime_pages (touch (record f { ids = drop_last ids; items = drop_last items })) 0,
      release_if_set (retain t id) (get_last? ids),
    )
    else (set_realtime_pages (touch (record f { ids = ids; items = items })) 1, retain t id)

-- reconcileAddedItemWithFamily from the search on
unfoldable pub add_to_window :
    Host → Reconcile → Family → List PageMeta → String → Value → Tables → Family × Tables
add_to_window host reconcile f pages id item t =
    let index = find_insert_index host reconcile.compare f.ids f.items item id in
    let complete = last_complete pages in
    if not complete && leb (length f.ids) index
    then (f, t)
    else insert_sorted reconcile f complete index id item t

-- reconcileAddedItemWithFamily after its early returns
unfoldable pub add_matching :
    Host → Reconcile → Family → List String → String → Value → Tables → Family × Tables
add_matching host reconcile f [] id item t = add_to_empty f f.pages id item t
add_matching host reconcile f (_ ∷ _) id item t =
    if is_some reconcile.compare then add_to_window host reconcile f f.pages id item t else (f, t)

unfoldable pub no_pages : List PageMeta → Bool
no_pages [] = true
no_pages (p ∷ ps) = false

-- reconcileAddedItemWithFamily
unfoldable pub add_with_family :
    Host → Reconcile → Family → String → Value → Tables → Family × Tables
add_with_family host reconcile f id item t =
    if no_pages f.pages || not (matches reconcile item f.query)
    then (f, t)
    else add_matching host reconcile f f.ids id item t

-- the last branch of reconcileAddedItemAcrossFamilies, for an own add
unfoldable pub append_to_page :
    Option String → Family → List PageMeta → String → Value → Tables → Family × Tables
append_to_page active f [] id item t = (f, t)
append_to_page none f (first ∷ rest) id item t = (f, t)
append_to_page (some key) f (first ∷ rest) id item t =
    if key == f.key
    then (
      touch (record f {
        ids = insert_at first.count id f.ids;
        items = insert_at first.count item f.items;
        pages = record first { count = first.count + 1 } ∷ rest;
      }),
      retain t id,
    )
    else (f, t)

module _ (host : Host) (reconcile : Reconcile) where
  -- the body of reconcileAddedItemAcrossFamilies; `active` is the key of the active family
  unfoldable pub add_item :
      Option String → Bool → String → Value → Family → Tables → Family × Tables
  add_item active append id item f t = elim (index_of id f.ids) [
    | some index ↦ (set_loaded_item f index item reconcile, t)
    | none ↦
        if append
        then append_to_page active f f.pages id item t
        else add_with_family host reconcile f id item t
  ]

  -- reconcileAddedItemAcrossFamilies
  unfoldable pub add_item_across :
      Option String → Bool → String → Value → JsMap Family → Tables → JsMap Family × Tables
  add_item_across active append id item families t =
      for_families (add_item active append id item) families t

  -- `family.items[index] = item` and the move by the comparator
  unfoldable pub update_at : Family → ℕ → Value → String → Family
  update_at f index item id =
      let written = record f { items = set f.items index item; items_view = none } in
      if is_some reconcile.compare
      then move_by_compare host reconcile written index item id
      else written

-- removeAt
unfoldable pub remove_entry : Tables → Family → ℕ → Family × Tables
remove_entry t f index = (
  touch (record f {
    ids = remove_at index f.ids;
    items = remove_at index f.items;
    pages = shrink_page index 0 f.pages;
  }),
  release_if_set t (get_elem? f.ids index),
)

module _ (host : Host) (reconcile : Reconcile) where
  -- the body of reconcileUpdatedItemAcrossFamilies
  unfoldable pub update_item : String → Value → Family → Tables → Family × Tables
  update_item id item f t = elim (index_of id f.ids) [
    | some index ↦
        if matches reconcile item f.query
        then (update_at host reconcile f index item id, t)
        else remove_entry t f index
    | none ↦
        if matches reconcile item f.query
        then add_with_family host reconcile f id item t
        else (f, t)
  ]

  -- reconcileUpdatedItemAcrossFamilies
  unfoldable pub update_item_across : String → Value → JsMap Family → Tables → JsMap Family × Tables
  update_item_across id item families t = for_families (update_item id item) families t

-- the body of removeIdFromFamilies
unfoldable pub drop_item : String → Family → Tables → Family × Tables
drop_item id f t = elim (index_of id f.ids) [ none ↦ (f, t) | some index ↦ remove_entry t f index ]

-- removeIdFromFamilies
unfoldable pub remove_id : String → JsMap Family → Tables → JsMap Family × Tables
remove_id id families t = for_families (drop_item id) families t
