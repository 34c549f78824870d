-- ===== src/Manager/Records/Sweep.antt =====
-- The pruning of an idle scope in the mutation records of server/manager.ts.
use sync_resource.Shared.{
  ◌+◌, ◌≤◌, String, ◌≡◌, refl, sym, ap, ◌∙◌, Bool, true, false, Option, none, List, [], ◌∷◌, ◌++◌,
  arith, inl, inr, eq_iff, eq_refl, length, drop, is_some, Bool-cases, if◌then◌else◌, ◌==◌,
}
use sync_resource.Shared.JsMap.{JsMap, get, delete, get-delete}
use sync_resource.Optimistic.Occurs.{occurs, occurs-append}
use sync_resource.Manager.{MutationRecord}
use sync_resource.Manager.Records.{RecordStore, in_scope, prune_scope_keys, prune_scope}
use sync_resource.Manager.Records.Pruning.{held, IsStore, length-delete-le}

-- The loop of pruneScope between two keys: `kept` are the keys that it kept.
record IsSwept (scope : String) (keys kept : List String) (records : JsMap MutationRecord)
    : Type 0 where
  live : (j : String) → occurs j kept + occurs j keys ≡ held j records
  no_empty_key : get "" records ≡ none
  clean : (j : String) → in_scope scope (get j records) ≡ true → occurs j kept ≡ 0

-- What the loop leaves of the records that it started with.
pub record Sweeps (scope : String) (before : JsMap MutationRecord)
    (after : List String × JsMap MutationRecord) : Type 0 where
  pub live : (j : String) → occurs j after.0 ≡ held j after.1
  pub no_empty_key : get "" after.1 ≡ none
  pub fewer : length after.1 ≤ length before
  pub kept :
      (j : String) → get j after.1 ≡ (if in_scope scope (get j before) then none else get j before)

in_scope-held :
    (scope j : String) (m : JsMap MutationRecord) → in_scope scope (get j m) ≡ true → held j m ≡ 1
unfolding in_scope
in_scope-held scope j m h = ground arith

-- The key at the head of the list has a record, and is not the empty text.
key_held :
    (scope key : String) (keys kept : List String) (records : JsMap MutationRecord)
    → IsSwept scope (key ∷ keys) kept records
    → (key == "") ≡ false
unfolding occurs
key_held scope key keys kept records h = elim (Bool-cases (key == "")) [
  | inl same ↦
      let here : key ≡ "" = (eq_iff key "").0 same in
      let counted : occurs key kept + (1 + occurs key keys) ≡ held key records =
        rw (eq_refl key) at (h.live key) in
      let gone : held key records ≡ 0 =
        ap (λ (k : String). held k records) here
        ∙ ap (λ (o : Option MutationRecord). if is_some o then 1 else 0) h.no_empty_key in
      absurd (omega arith)
  | inr other ↦ other
]

dropped-IsSwept :
    (scope key : String) (keys kept : List String) (records : JsMap MutationRecord)
    → in_scope scope (get key records) ≡ true
    → IsSwept scope (key ∷ keys) kept records
    → IsSwept scope keys kept (delete key records)
unfolding occurs in_scope
dropped-IsSwept scope key keys kept records inside h = record {
  live = λ j. elim (Bool-cases (key == j)) [
    | inl same ↦
        let one : occurs j kept + (1 + occurs j keys) ≡ held j records = rw same at (h.live j) in
        rw (get-delete key j records, same) (omega (arith, one, held-le j records))
    | inr other ↦
        let all : occurs j kept + (0 + occurs j keys) ≡ held j records = rw other at (h.live j) in
        rw (get-delete key j records, other) (omega (arith, all))
  ];
  no_empty_key = get-delete key "" records ∙ if_none (key == "") (get "" records) h.no_empty_key;
  clean = λ j inside'. elim (Bool-cases (key == j)) [
    | inl same ↦ cc (rw (get-delete key j records, same) at inside')
    | inr other ↦ h.clean j (rw (get-delete key j records, other) at inside')
  ];
}
  where
    if_none : (b : Bool) (o : Option MutationRecord) → o ≡ none → (if b then none else o) ≡ none
    if_none true o e = refl
    if_none false o e = e

    held-le : (j : String) (m : JsMap MutationRecord) → held j m ≤ 1
    held-le j m = ground arith

dropped-rest :
    (scope key j : String) (records : JsMap MutationRecord)
    → in_scope scope (get key records) ≡ true
    → (if in_scope scope (get j (delete key records)) then none else get j (delete key records))
      ≡ (if in_scope scope (get j records) then none else get j records)
unfolding in_scope
dropped-rest scope key j records inside = elim (Bool-cases (key == j)) [
  | inl same ↦
      let here : in_scope scope (get j records) ≡ true =
        ap (λ (k : String). in_scope scope (get k records)) (sym ((eq_iff key j).0 same))
        ∙ inside in
      rw (get-delete key j records, same, here) refl
  | inr other ↦ rw (get-delete key j records, other) refl
]

kept-IsSwept :
    (scope key : String) (keys kept : List String) (records : JsMap MutationRecord)
    → in_scope scope (get key records) ≡ false
    → IsSwept scope (key ∷ keys) kept records
    → IsSwept scope keys (kept ++ key ∷ []) records
unfolding occurs
kept-IsSwept scope key keys kept records outside h = record {
  live = λ j. omega (arith, h.live j, occurs-append j kept (key ∷ []));
  no_empty_key = h.no_empty_key;
  clean = λ j inside. elim (Bool-cases (key == j)) [
    | inl same ↦
        let here : in_scope scope (get key records) ≡ in_scope scope (get j records) =
          ap (λ (k : String). in_scope scope (get k records)) ((eq_iff key j).0 same) in
        cc
    | inr other ↦ rw (occurs-append j kept (key ∷ []), other) (omega (arith, h.clean j inside))
  ];
}

prune_scope_keys-Sweeps :
    (scope : String) (keys : List String) (records : JsMap MutationRecord) (kept : List String)
    → IsSwept scope keys kept records
    → Sweeps scope records (prune_scope_keys scope keys records kept)
unfolding prune_scope_keys occurs
prune_scope_keys-Sweeps scope [] records kept h = record {
  live = λ j. omega (arith, h.live j);
  no_empty_key = h.no_empty_key;
  fewer = omega arith;
  kept = λ j. elim (Bool-cases (in_scope scope (get j records))) [
    | inl inside ↦
        absurd (omega (arith, h.clean j inside, h.live j, in_scope-held scope j records inside))
    | inr outside ↦ rw outside refl
  ];
}
prune_scope_keys-Sweeps scope (key ∷ keys) records kept h =
    let real = key_held scope key keys kept records h in
    elim (Bool-cases (in_scope scope (get key records))) [
      | inl inside ↦
          let rest =
            prune_scope_keys-Sweeps scope keys (delete key records) kept
              (dropped-IsSwept scope key keys kept records inside h) in
          rw (real, inside)
            (record {
              live = rest.live;
              no_empty_key = rest.no_empty_key;
              fewer = omega (arith, rest.fewer, length-delete-le key records);
              kept = λ j. rest.kept j ∙ dropped-rest scope key j records inside;
            })
      | inr outside ↦
          rw (real, outside)
            (prune_scope_keys-Sweeps scope keys records (kept ++ key ∷ [])
              (kept-IsSwept scope key keys kept records outside h))
    ]

-- Pruning a scope drops the records of that scope and no other, and keeps the invariant of the store:
-- each key once and for a record that is there, and no more records than the bound.
pub prune_scope-IsStore :
    (s : RecordStore) (scope : String)
    → IsStore s
    → IsStore (prune_scope s scope)
      × ((key : String)
          → get key (prune_scope s scope).records
            ≡ (if in_scope scope (get key s.records) then none else get key s.records))
unfolding prune_scope occurs
prune_scope-IsStore s scope h =
    let live : List String = drop s.record_key_start s.record_keys in
    let swept = prune_scope_keys-Sweeps scope live s.records [] (record {
      live = λ j. omega (arith, h.indexed.live j);
      no_empty_key = h.indexed.no_empty_key;
      clean = λ j inside. refl;
    }) in
    (
      record {
        indexed = record {
          inside = omega arith;
          live = swept.live;
          no_empty_key = swept.no_empty_key;
        };
        bounded = omega (arith, swept.fewer, h.bounded);
      },
      swept.kept,
    )
