-- ===== src/Optimistic/Window.antt =====
-- One family of client/optimistic.ts: its pages own ranges of two aligned arrays.
use sync_resource.Shared.{
  ℕ, zero, suc, ◌+◌, ◌-◌, String, Bool, true, false, ◌&&◌, Option, none, some, List, [], ◌∷◌,
  get_elem?, set, take, drop, insert_at, remove_at, ltb, leb, eqb, if◌then◌else◌, ◌==◌,
}
use sync_resource.Js.{Value}
use sync_resource.Optimistic.Types.{
  Sign, Source, network, realtime, PageMeta, PageState, Family, Host, Reconcile,
}
use sync_resource.Optimistic.Order.{Comparator, is_positive, find_insert_index, sort_items}

-- `ids.indexOf(id)`, `none` for -1
unfoldable pub index_of : String → List String → Option ℕ
index_of id [] = none
index_of id (j ∷ ids) =
    let rest = index_of id ids in
    if j == id then some 0 else elim rest [ none ↦ none | some i ↦ some (suc i) ]

unfoldable pub page_total : List PageMeta → ℕ
page_total [] = 0
page_total (p ∷ ps) = p.count + page_total ps

-- touch
abbrev pub touch : Family → Family
touch f = record f { items_view = none; pages_view = none }

-- `previous === undefined || compare(previous, item) <= 0`
unfoldable pub in_order : (Value → Value → Sign) → Option Value → Option Value → Bool
unfolding is_positive
in_order compare none right = true
in_order compare left none = true
in_order compare (some a) (some b) = if is_positive (compare a b) then false else true

-- `items[index - 1]`
unfoldable pub before : List Value → ℕ → Option Value
before items zero = none
before items (suc i) = get_elem? items i

unfoldable pub still_sorted : Comparator → Bool → List Value → ℕ → Value → Bool
unfolding in_order before
still_sorted none sorted items index item = sorted
still_sorted (some compare) false items index item = false
still_sorted (some compare) true items index item =
    in_order compare (before items index) (some item)
    && in_order compare (some item) (get_elem? items (index + 1))

-- setLoadedItem
unfoldable pub set_loaded_item : Family → ℕ → Value → Reconcile → Family
unfolding still_sorted
set_loaded_item f index item reconcile =
    let items = set f.items index item in
    record f {
      items = items;
      items_view = none;
      sorted = still_sorted reconcile.compare f.sorted items index item;
    }

unfoldable pub is_realtime : Source → Bool
is_realtime realtime = true
is_realtime network = false

unfoldable pub all_realtime : List PageMeta → Bool
unfolding is_realtime
all_realtime [] = true
all_realtime (p ∷ ps) = is_realtime p.source && all_realtime ps

unfoldable pub grow_last : ℕ → List PageMeta → List PageMeta
grow_last n [] = []
grow_last n (p ∷ []) = record p { count = p.count + n; source = realtime } ∷ []
grow_last n (p ∷ q ∷ ps) = record p { source = realtime } ∷ grow_last n (q ∷ ps)

-- setRealtimePages
unfoldable pub set_realtime_pages : Family → ℕ → Family
unfolding all_realtime grow_last
set_realtime_pages f growth =
    if eqb growth 0 && all_realtime f.pages
    then f
    else record f { pages = grow_last growth f.pages; pages_view = none }

-- the map of removeAt over the pages, the first of which starts at `start`
unfoldable pub shrink_page : ℕ → ℕ → List PageMeta → List PageMeta
shrink_page index start [] = []
shrink_page index start (p ∷ ps) =
    (if leb start index && ltb index (start + p.count)
      then record p { count = p.count - 1; source = realtime }
      else p)
    ∷ shrink_page index (start + p.count) ps

module _ (host : Host) (reconcile : Reconcile) where
  -- moveByCompare
  unfoldable pub move_by_compare : Family → ℕ → Value → String → Family
  move_by_compare f index item id =
      let ids = remove_at index f.ids in
      let items = remove_at index f.items in
      let next = find_insert_index host reconcile.compare ids items item id in
      let moved = record f { ids = insert_at next id ids; items = insert_at next item items } in
      set_realtime_pages (if eqb next index then moved else touch moved) 0

-- the map of pagesOf
unfoldable pub page_states : List PageMeta → List String → List PageState
page_states [] ids = []
page_states (p ∷ ps) ids =
    record {
      cursor_in = p.cursor_in;
      cursor_out = p.cursor_out;
      ids = take p.count ids;
      complete = p.complete;
      stale = p.stale;
      source = p.source;
    }
    ∷ page_states ps (drop p.count ids)

-- pagesOf: the answer, and the family that keeps it
unfoldable pub pages_of : Family → Family × List PageState
unfolding page_states
pages_of f = elim f.pages_view [
  | some v ↦ (f, v)
  | none ↦ let v = page_states f.pages f.ids in (record f { pages_view = some v }, v)
]

-- The visible items with no pending command.
unfoldable pub plain_items : Family → Reconcile → List Value
unfolding sort_items
plain_items f reconcile = if f.sorted then f.items else sort_items reconcile.compare f.items

-- familyItems with no pending command
unfoldable pub plain_family_items : Family → Reconcile → Family × List Value
unfolding plain_items
plain_family_items f reconcile = elim f.items_view [
  | some v ↦ (f, v)
  | none ↦ let v = plain_items f reconcile in (record f { items_view = some v }, v)
]
