-- ===== src/Optimistic/Pages.antt =====
-- applyPageItems of client/optimistic.ts: a page that a read or an envelope brings.
use sync_resource.Shared.{
  ℕ, zero, suc, ◌+◌, String, Bool, true, false, not, ◌&&◌, ◌||◌, Option, none, some, List, [], ◌∷◌,
  ◌++◌, ◌-◌, length, take, drop, is_some, if◌then◌else◌, ◌==◌,
}
use sync_resource.Shared.JsMap.{JsMap, get, put, has}
use sync_resource.Js.{Value, items_of, property, read_string}
use sync_resource.Optimistic.Types.{network, PageMeta, Family, Tables, State, Host, Reconcile}
use sync_resource.Optimistic.Order.{is_sorted_from}
use sync_resource.Optimistic.Window.{touch, page_total}
use sync_resource.Optimistic.Refs.{retain_all, release_all}
use sync_resource.Optimistic.Families.{is_key, get_or_create_family}
use sync_resource.Optimistic.QueryKey.{query_family_key, query_without_cursor}

-- What the loop over the items of the page collects.
pub record Batch : Type 0 where
  pub base : JsMap Value
  pub ids : List String
  pub values : List Value
  pub seen : Bool

-- an id that passes `if (!id)`
unfoldable pub named_id : Reconcile → Value → Option String
named_id reconcile item = elim (reconcile.item_id item) [
  | none ↦ none
  | some id ↦ if id == "" then none else some id
]

-- the loop over the items
unfoldable pub collect_items : Reconcile → List Value → JsMap Value → Bool → Batch
collect_items reconcile [] base seen = record { base = base; ids = []; values = []; seen = seen }
collect_items reconcile (item ∷ items) base seen = elim (named_id reconcile item) [
  | none ↦ collect_items reconcile items base seen
  | some id ↦
      let rest = collect_items reconcile items (put id item base) (seen || has id base) in
      record rest { ids = id ∷ rest.ids; values = item ∷ rest.values }
]

-- `family.pages.findIndex((current) => current.cursorIn === cursorIn)`
unfoldable pub find_page : String → List PageMeta → Option ℕ
unfolding is_key
find_page cursor [] = none
find_page cursor (p ∷ ps) =
    let rest = find_page cursor ps in
    if is_key p.cursor_in cursor then some 0 else elim rest [ none ↦ none | some i ↦ some (suc i) ]

-- `family.pages[index]?.count ?? 0`
unfoldable pub page_count : List PageMeta → ℕ → ℕ
page_count [] i = 0
page_count (p ∷ ps) zero = p.count
page_count (p ∷ ps) (suc i) = page_count ps i

unfoldable pub set_page : List PageMeta → ℕ → PageMeta → List PageMeta
set_page [] i page = []
set_page (p ∷ ps) zero page = page ∷ ps
set_page (p ∷ ps) (suc i) page = p ∷ set_page ps i page

-- `loaded.has(id)`
unfoldable pub contains : String → List String → Bool
contains id [] = false
contains id (j ∷ ids) = j == id || contains id ids

-- the two filters by `keep`
unfoldable pub drop_loaded : List String → List String → List Value → List String × List Value
unfolding contains
drop_loaded loaded (id ∷ ids) (v ∷ values) =
    let (ids', values') = drop_loaded loaded ids values in
    if contains id loaded then (ids', values') else (id ∷ ids', v ∷ values')
drop_loaded loaded _ _ = ([], [])

-- replaceRange
abbrev pub replace_range {ℓ} : {A : Type ℓ} → List A → ℕ → ℕ → List A → List A
replace_range target start end values = take start target ++ (values ++ drop end target)

-- The page that a request loads: its cursor, where it stands, and the range of ids that it replaces.
pub data Slot : Type 0 where
  first : Slot
  again : String → ℕ → Slot
  later : String → Slot

unfoldable pub slot_of : Option String → List PageMeta → Slot
slot_of none pages = Slot.first
slot_of (some cursor) pages =
    if cursor == ""
    then Slot.first
    else elim (find_page cursor pages) [ none ↦ Slot.later cursor | some i ↦ Slot.again cursor i ]

unfoldable pub replace_start : Slot → Family → ℕ
replace_start first f = 0
replace_start (again cursor i) f = page_total (take i f.pages)
replace_start (later cursor) f = length f.ids

unfoldable pub replace_end : Slot → Family → ℕ
replace_end first f = length f.ids
replace_end (again cursor i) f = page_total (take i f.pages) + page_count f.pages i
replace_end (later cursor) f = length f.ids

unfoldable pub has_cursor : Slot → Bool
has_cursor first = false
has_cursor _ = true

-- the new list of pages
unfoldable pub place_page : Slot → List PageMeta → PageMeta → List PageMeta
place_page first pages page = page ∷ []
place_page (again cursor i) pages page = set_page pages i page
place_page (later cursor) pages page = pages ++ page ∷ []

-- the ids and the values of the page that are not loaded elsewhere in the family
unfoldable pub fresh_entries : Slot → Family → Batch → List String × List Value
fresh_entries slot f batch =
    if has_cursor slot && batch.seen
    then drop_loaded (take (replace_start slot f) f.ids ++ drop (replace_end slot f) f.ids)
        batch.ids batch.values
    else (batch.ids, batch.values)

-- the family with the page's entries in place of the range
unfoldable pub load_page :
    Slot → Option String → Option String → Family → List String → List Value → Family
load_page slot cursor_in page_cursor f ids values = record f {
  ids = replace_range f.ids (replace_start slot f) (replace_end slot f) ids;
  items = replace_range f.items (replace_start slot f) (replace_end slot f) values;
  pages = place_page slot f.pages (record {
    cursor_in = cursor_in;
    cursor_out = page_cursor;
    count = length ids;
    complete = not (is_some page_cursor);
    stale = false;
    source = network;
  });
}

-- `state.baseItems.get(id)`
unfoldable pub item_of : String → JsMap Value → Value
item_of id base = elim (get id base) [ none ↦ Value.undefined | some v ↦ v ]

-- the inner loop of refreshLoadedItems: the items, and whether one of them changed
unfoldable pub refresh_items : Host → JsMap Value → List String → List Value → List Value × Bool
refresh_items host base (id ∷ ids) (v ∷ values) =
    let (values', changed) = refresh_items host base ids values in
    let current = item_of id base in
    if host.same current v then (v ∷ values', changed) else (current ∷ values', true)
refresh_items host base _ values = (values, false)

-- the body of refreshLoadedItems
unfoldable pub refresh_family : Host → Reconcile → JsMap Value → Family → Family
refresh_family host reconcile base f =
    let (items, changed) = refresh_items host base f.ids f.items in
    if changed
    then record f {
      items = items;
      items_view = none;
      sorted = f.sorted && is_sorted_from items 0 reconcile.compare;
    }
    else f

-- refreshLoadedItems
unfoldable pub refresh_loaded_items : Host → Reconcile → JsMap Value → JsMap Family → JsMap Family
refresh_loaded_items host reconcile base [] = []
refresh_loaded_items host reconcile base ((k, f) ∷ fs) =
    (k, refresh_family host reconcile base f) ∷ refresh_loaded_items host reconcile base fs

-- the last writes of applyPageItems on the family
unfoldable pub finish_page : Slot → ℕ → Value → Reconcile → Family → Family
finish_page slot start meta reconcile f = touch (record f {
  meta = elim meta [ Value.undefined ↦ f.meta | m ↦ m ];
  sorted = (not (has_cursor slot) || f.sorted) && is_sorted_from f.items start reconcile.compare;
})

-- a write to the family that stands under a key
unfoldable pub change_at : String → (Family → Family) → JsMap Family → JsMap Family
change_at key g [] = []
change_at key g ((k, f) ∷ fs) = if k == key then (k, g f) ∷ fs else (k, f) ∷ change_at key g fs

-- the tables after the page's ids are retained and the replaced ones released
unfoldable pub page_tables : Tables → Batch → List String → List String → Tables
page_tables t batch ids replaced =
    release_all (retain_all (record t { base_items = batch.base }) ids) replaced

-- `family.ids.slice(replaceStart, replaceEnd)`
unfoldable pub replaced_ids : Slot → Family → List String
replaced_ids slot f =
    take (replace_end slot f - replace_start slot f) (drop (replace_start slot f) f.ids)

module _ (host : Host) (reconcile : Reconcile) where
  -- the families after the page is in place: `seen` asks for the refresh
  unfoldable pub page_families :
      String
      → Slot
      → (Family → Family)
      → Value
      → ℕ
      → Bool
      → JsMap Value
      → JsMap Family
      → JsMap Family
  page_families key slot load meta start seen base families =
      let loaded = change_at key load families in
      change_at key (finish_page slot start meta reconcile)
        (if seen then refresh_loaded_items host reconcile base loaded else loaded)

  -- applyPageItems for a family that is there, from the loop over the items on
  unfoldable pub fill_family :
      State → String → Family → List Value → Option String → Option String → Value → State
  fill_family s key f items cursor_in page_cursor meta =
      let batch = collect_items reconcile items s.base_items false in
      let slot = slot_of cursor_in f.pages in
      let (ids, values) = fresh_entries slot f batch in
      let tables = page_tables s.tables batch ids (replaced_ids slot f) in
      record s {
        tables = tables;
        families =
            page_families key slot (λ g. load_page slot cursor_in page_cursor g ids values) meta
              (replace_start slot f) batch.seen tables.base_items s.families;
      }

  unfoldable pub fill_if_there :
      State → String → Option Family → List Value → Option String → Option String → Value → State
  fill_if_there s key none items cursor_in page_cursor meta = s
  fill_if_there s key (some f) items cursor_in page_cursor meta =
      fill_family s key f items cursor_in page_cursor meta

  -- applyPageItems
  unfoldable pub apply_page_items :
      State → List Value → Value → Option String → Value → Bool → State
  apply_page_items s items query page_cursor meta activate =
      let key = query_family_key host query in
      let made = get_or_create_family s key (query_without_cursor query) in
      let filled =
        fill_if_there made key (get key made.families) items (read_string (property "cursor" query))
          page_cursor meta in
      if activate then record filled { active_family_key = some key } else filled

  -- the rest of applyPageOutput for the value of `output.items`
  unfoldable pub apply_output_items : State → Value → Value → Value → Bool → State
  apply_output_items s (Value.array items) output query activate =
      apply_page_items s (items_of items) query (read_string (property "pageCursor" output))
        (property "meta" output) activate
  apply_output_items s _ output query activate = s

  -- applyPageOutput
  unfoldable pub apply_page_output : State → Value → Value → Bool → State
  unfolding apply_output_items
  apply_page_output s output query activate =
      apply_output_items s (property "items" output) output query activate
