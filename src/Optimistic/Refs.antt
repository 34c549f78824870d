-- ===== src/Optimistic/Refs.antt =====
-- The reference counts of client/optimistic.ts: `familyRefs` and `baseItems`.
use sync_resource.Shared.{
  ◌+◌, ◌-◌, String, Bool, ◌||◌, List, [], ◌∷◌, ltb, or_default, if◌then◌else◌,
}
use sync_resource.Shared.JsMap.{JsMap, get, put, delete, has}
use sync_resource.Js.{Value}
use sync_resource.Optimistic.Types.{Family, Tables}

-- retain
unfoldable pub retain : Tables → String → Tables
retain t id = record t {
  family_refs = put id (or_default (get id t.family_refs) 0 + 1) t.family_refs;
}

-- release
unfoldable pub release : Tables → String → Tables
release t id =
    let count = or_default (get id t.family_refs) 0 in
    if ltb 1 count
    then record t { family_refs = put id (count - 1) t.family_refs }
    else record t { family_refs = delete id t.family_refs; base_items = delete id t.base_items }

-- `ids.forEach((id) => retain(state, id))`
unfoldable pub retain_all : Tables → List String → Tables
unfolding retain
retain_all t [] = t
retain_all t (id ∷ ids) = retain_all (retain t id) ids

-- `ids.forEach((id) => release(state, id))`
unfoldable pub release_all : Tables → List String → Tables
unfolding release
release_all t [] = t
release_all t (id ∷ ids) = release_all (release t id) ids

-- `state.families.size === 0`
unfoldable pub no_families : JsMap Family → Bool
no_families [] = Bool.true
no_families (f ∷ fs) = Bool.false

-- storeIfReferenced
unfoldable pub store_if_referenced : JsMap Family → Tables → String → Value → Tables
unfolding no_families
store_if_referenced families t id item =
    if no_families families || has id t.family_refs
    then record t { base_items = put id item t.base_items }
    else t

-- `for (const family of state.families.values())` with a body that changes the family and the tables
unfoldable pub for_families :
    (Family → Tables → Family × Tables) → JsMap Family → Tables → JsMap Family × Tables
for_families body [] t = ([], t)
for_families body ((k, f) ∷ fs) t =
    let (f', t') = body f t in let (fs', t'') = for_families body fs t' in ((k, f') ∷ fs', t'')
