-- ===== src/Optimistic/Counts/Creation.antt =====
-- getOrCreateFamily keeps the tables exact, and what it leaves under the key.
use sync_resource.Shared.{
  String, ◌≡◌, refl, ◌∙◌, ap, false, Option, none, some, [], ◌∷◌, arith, eq_refl, inl, inr, length,
  ltb, Bool-cases, Option-cases, if◌then◌else◌,
}
use sync_resource.Shared.JsMap.{JsMap, get, get-put}
use sync_resource.Js.{Value}
use sync_resource.Optimistic.Types.{Family, Tables, State}
use sync_resource.Optimistic.Refs.{no_families}
use sync_resource.Optimistic.Families.{
  max_families, is_key, read_family, evict_over_limit, new_family, create_family,
  get_or_create_family,
}
use sync_resource.Optimistic.Occurs.{occurs, total}
use sync_resource.Optimistic.Counts.{Tracks, recount}
use sync_resource.Optimistic.Counts.Maps.{
  UniqueKeys, held_by, total-put, put-UniqueKeys, evict-UniqueKeys,
}
use sync_resource.Optimistic.Counts.States.{
  RightAt, IsCounted, RightAt-of-Tracks, RightAt-regroup, evict-Tracks, no_families_of_get,
  read_family-IsCounted,
}

-- The items of single reads go when the first family is created.
fresh_tables-Tracks :
    (j : String) (fs : JsMap Family) (t : Tables)
    → RightAt j fs t
    → Tracks false j (total j fs) (record {
      base_items = if no_families fs then [] else t.base_items;
      family_refs = t.family_refs;
    })
unfolding no_families total get
fresh_tables-Tracks j [] t h = record { counted = h; no_leak = refl; present = refl }
fresh_tables-Tracks j (kf ∷ fs) t h = record {
  counted = h.counted;
  no_leak = h.no_leak;
  present = h.present;
}

evict_over_limit-Tracks :
    (active : Option String) (m : JsMap Family) (t : Tables) (j : String)
    → Tracks false j (total j m) t
    → Tracks false j (total j (evict_over_limit active m t).0) (evict_over_limit active m t).1
unfolding evict_over_limit
evict_over_limit-Tracks active m t j h = elim (Bool-cases (ltb max_families (length m))) [
  | inl over ↦
      rw over (recount (omega arith) (evict-Tracks active m t j 0 (recount (omega arith) h)))
  | inr room ↦ rw room h
]

evict_over_limit-UniqueKeys :
    (active : Option String) (m : JsMap Family) (t : Tables)
    → UniqueKeys m
    → UniqueKeys (evict_over_limit active m t).0
unfolding evict_over_limit
evict_over_limit-UniqueKeys active m t u = elim (Bool-cases (ltb max_families (length m))) [
  | inl over ↦ rw over (evict-UniqueKeys active m t u)
  | inr room ↦ rw room u
]

create_family-IsCounted :
    (s : State) (key : String) (query : Value)
    → get key s.families ≡ none
    → IsCounted s
    → IsCounted (create_family s key query)
unfolding create_family occurs
create_family-IsCounted s key query e h = record {
  unique =
      evict_over_limit-UniqueKeys s.active_family_key _ _
        (put-UniqueKeys key (new_family key query) s.families h.unique);
  right = λ j named. RightAt-of-Tracks j _ _ (
      evict_over_limit-Tracks s.active_family_key _ _ j (
        recount (omega (arith, total-put j key (new_family key query) s.families, ap (held_by j) e))
          (fresh_tables-Tracks j s.families s.tables (h.right j named))));
}

-- What readFamily answers stands under the key afterwards.
pub get-read_family :
    (s : State) (key : String) → get key (read_family s key).0.families ≡ (read_family s key).1
unfolding read_family
get-read_family s key = elim (Option-cases (get key s.families)) [
  | inl e ↦ rw (e, read_family) e
  | inr (f, e) ↦
      rw (e, read_family)
        (elim (Bool-cases (is_key s.recent_family_key key)) [
          | inl recent ↦ rw recent e
          | inr old ↦ rw (old, get-put, eq_refl)
        ])
]

pub get_or_create-IsCounted :
    (s : State) (key : String) (query : Value)
    → IsCounted s
    → IsCounted (get_or_create_family s key query)
unfolding get_or_create_family
get_or_create-IsCounted s key query h =
    let s' = (read_family s key).0 in
    let read = read_family-IsCounted s key h in
    elim (Option-cases (read_family s key).1) [
      | inl e ↦
          rw (e, get_or_create_family)
            (create_family-IsCounted s' key query (get-read_family s key ∙ e) read)
      | inr (f, e) ↦
          let there : get key s'.families ≡ some f = get-read_family s key ∙ e in
          rw (e, get_or_create_family)
            (record {
              unique = put-UniqueKeys key _ s'.families read.unique;
              right = λ j named.
                  RightAt-regroup j s'.families _ s'.tables
                    (no_families_of_get key s'.families f there)
                    (omega (
                      arith,
                      total-put j key (record f { query = query }) s'.families,
                      ap (held_by j) there,
                    ))
                    (read.right j named);
            })
    ]
