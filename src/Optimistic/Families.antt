-- ===== src/Optimistic/Families.antt =====
-- The map of families in client/optimistic.ts: reads that move to the end, creation and eviction.
use sync_resource.Shared.{
  ℕ, String, Bool, true, false, Option, none, some, [], ◌∷◌, length, ltb, if◌then◌else◌, ◌==◌,
}
use sync_resource.Shared.JsMap.{JsMap, get, put, delete}
use sync_resource.Js.{Value, is_set}
use sync_resource.Optimistic.Types.{Family, Tables, State}
use sync_resource.Optimistic.Refs.{release_all, no_families}

abbrev pub max_families : ℕ
max_families = 8

-- `left === right` for an optional string and a string
unfoldable pub is_key : Option String → String → Bool
is_key none key = false
is_key (some k) key = k == key

-- readFamily: the family, and the state with the family moved to the end
unfoldable pub read_family : State → String → State × Option Family
unfolding is_key
read_family s key = elim (get key s.families) [
  | none ↦ (s, none)
  | some f ↦ if is_key s.recent_family_key key then (s, some f) else (
    record s { families = put key f (delete key s.families); recent_family_key = some key },
    some f,
  )
]

-- getActiveFamily
unfoldable pub get_active_family : State → State × Option Family
unfolding is_set
get_active_family s = elim s.active_family_key [
  | none ↦ (s, none)
  | some key ↦ if key == "" then (s, none) else read_family s key
]

-- the eviction loop of getOrCreateFamily: the first family that is not the active one goes
unfoldable pub evict : Option String → JsMap Family → Tables → JsMap Family × Tables
unfolding is_key
evict active [] t = ([], t)
evict active ((k, f) ∷ fs) t =
    let (fs', t') = evict active fs t in
    if is_key active k then ((k, f) ∷ fs', t') else (fs, release_all t f.ids)

-- the map and the tables after a family has been created
unfoldable pub evict_over_limit : Option String → JsMap Family → Tables → JsMap Family × Tables
evict_over_limit active fs t = if ltb max_families (length fs) then evict active fs t else (fs, t)

abbrev pub new_family : String → Value → Family
new_family key query = record {
  key = key;
  query = query;
  meta = Value.undefined;
  pages = [];
  ids = [];
  items = [];
  sorted = true;
  items_view = none;
  pages_view = none;
}

-- the part of getOrCreateFamily after a key that is not there
unfoldable pub create_family : State → String → Value → State
create_family s key query =
    let base = if no_families s.families then [] else s.base_items in
    let (fs, t) =
      evict_over_limit s.active_family_key (put key (new_family key query) s.families)
        (record { base_items = base; family_refs = s.family_refs }) in
    record s { tables = t; families = fs; recent_family_key = some key }

-- getOrCreateFamily: the family stands under its key in the result
unfoldable pub get_or_create_family : State → String → Value → State
get_or_create_family s key query =
    let (s', existing) = read_family s key in
    elim existing [
      | none ↦ create_family s' key query
      | some f ↦ record s' { families = put key (record f { query = query }) s'.families }
    ]
