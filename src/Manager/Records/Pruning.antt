-- ===== src/Manager/Records/Pruning.antt =====
-- The invariant of the mutation records of server/manager.ts, which the pruning keeps.
use sync_resource.Shared.{
  drop-step, drop-past, past_of_get_elem?, ℕ, zero, suc, ◌+◌, ◌-◌, ◌*◌, ◌≤◌, ◌<◌, String, ◌≡◌, ◌⊎◌,
  refl, sym, ap, ◌∙◌, Bool, true, false, ◌&&◌, none, some, [], ◌∷◌, arith, inl, inr, eq_iff,
  eq_refl, length, get_elem?, drop, leb, ltb, length-drop, if_true, if_false, Bool-cases,
  Option-cases, if◌then◌else◌, ◌==◌,
}
use sync_resource.Shared.JsMap.{JsMap, get, delete, has, get-delete}
use sync_resource.Optimistic.Occurs.{hit, occurs}
use sync_resource.Manager.{MutationRecord}
use sync_resource.Manager.Records.{
  max_memory_mutation_records, memory_mutation_record_ttl_ms, RecordStore, prune_key, prune_at,
  prune_step, prune_loop, compact_record_keys, prune,
}

-- 1 where the store has a record under a key
abbrev pub held : String → JsMap MutationRecord → ℕ
held j records = if has j records then 1 else 0

-- The keys from the start on are those of the records, each once; no key is the empty text.
pub record IsIndexed (s : RecordStore) : Type 0 where
  pub inside : s.record_key_start ≤ length s.record_keys
  pub live : (j : String) → occurs j (drop s.record_key_start s.record_keys) ≡ held j s.records
  pub no_empty_key : get "" s.records ≡ none

pub length-delete-le : (k : String) (m : JsMap MutationRecord) → length (delete k m) ≤ length m
unfolding delete
length-delete-le k [] = omega arith
length-delete-le k ((j, v) ∷ m) = ground (arith, length-delete-le k m)

pub length-delete-lt :
    (k : String) (m : JsMap MutationRecord) → has k m ≡ true → length (delete k m) < length m
unfolding delete get
length-delete-lt k [] h = cc
length-delete-lt k ((j, v) ∷ m) h = ground (arith, length-delete-le k m, length-delete-lt k m)

-- With no key left there is no record.
pub none_held : (m : JsMap MutationRecord) → ((j : String) → held j m ≡ 0) → length m ≡ 0
unfolding get
none_held [] h = refl
none_held ((j, v) ∷ m) h = absurd (omega (arith, (rw (eq_refl j) at (h j))))

-- The store after a round that drops the key at the start.
abbrev pub advanced : RecordStore → String → RecordStore
advanced s key = record s {
  records = delete key s.records;
  record_key_start = s.record_key_start + 1;
}

abbrev pub stays : ℕ → RecordStore → MutationRecord → Bool
stays now s r =
    leb (now - memory_mutation_record_ttl_ms) r.created_at
    && leb (length s.records) max_memory_mutation_records

held-le : (j : String) (m : JsMap MutationRecord) → held j m ≤ 1
held-le j m = ground arith

pub advanced-IsIndexed :
    (s : RecordStore) (key : String)
    → IsIndexed s
    → get_elem? s.record_keys s.record_key_start ≡ some key
    → IsIndexed (advanced s key)
unfolding occurs
advanced-IsIndexed s key h there =
    let start : ℕ = s.record_key_start in
    let next : start + 1 ≡ suc start = omega arith in
    let split = drop-step s.record_keys start key there in
    record {
      inside = omega (arith, ap (length {A = String}) split, length-drop start s.record_keys);
      live = λ j.
          let tail : occurs j (drop (start + 1) s.record_keys)
              ≡ occurs j (drop (suc start) s.record_keys) =
            ap (λ (n : ℕ). occurs j (drop n s.record_keys)) next in
          let all : hit key j + occurs j (drop (suc start) s.record_keys) ≡ held j s.records =
            ap (occurs j) (sym split) ∙ h.live j in
          elim (Bool-cases (key == j)) [
            | inl same ↦
                rw (get-delete key j s.records, same)
                  (omega (arith, tail, rw same at all, held-le j s.records))
            | inr other ↦
                rw (get-delete key j s.records, other) (omega (arith, tail, rw other at all))
          ];
      no_empty_key = rw (get-delete key "" s.records, h.no_empty_key) (ground arith);
    }

-- The key at the start has a record, and is not empty.
pub head_held :
    (s : RecordStore) (key : String)
    → IsIndexed s
    → get_elem? s.record_keys s.record_key_start ≡ some key
    → (r : MutationRecord) × (get key s.records ≡ some r)
unfolding occurs
head_held s key h there =
    let start : ℕ = s.record_key_start in
    let one : hit key key + occurs key (drop (suc start) s.record_keys) ≡ held key s.records =
      ap (occurs key) (sym (drop-step s.record_keys start key there)) ∙ h.live key in
    let counted : 1 + occurs key (drop (suc start) s.record_keys) ≡ held key s.records =
      rw (eq_refl key) at one in
    elim (Option-cases (get key s.records)) [
      | inl gone ↦ absurd (omega (arith, rw gone at counted))
      | inr found ↦ found
    ]

not_unnamed :
    (s : RecordStore) (key : String) (r : MutationRecord)
    → IsIndexed s
    → get key s.records ≡ some r
    → (key == "") ≡ false
not_unnamed s key r h found = elim (Bool-cases (key == "")) [
  | inl same ↦
      let here : key ≡ "" = (eq_iff key "").0 same in
      cc (sym (ap (λ (k : String). get k s.records) here ∙ h.no_empty_key) ∙ found)
  | inr real ↦ real
]

-- The loop ends at a round with few enough records, or the round drops the record at the start.
pub prune_step-cases :
    (now : ℕ) (s : RecordStore)
    → IsIndexed s
    → ((prune_step now s ≡ none) × (length s.records ≤ max_memory_mutation_records))
      ⊎ ((key : String) × (r : MutationRecord) × (get_elem? s.record_keys s.record_key_start
            ≡ some key)
          × (get key s.records ≡ some r)
          × (stays now s r ≡ false)
          × (prune_step now s ≡ some (advanced s key)))
unfolding prune_step prune_at prune_key occurs
prune_step-cases now s h =
    let start : ℕ = s.record_key_start in
    elim (Option-cases (get_elem? s.record_keys start)) [
      | inl gone ↦
          let none_left =
            drop-past s.record_keys start (past_of_get_elem? s.record_keys start gone) in
          let empty = none_held s.records (λ j. sym (h.live j) ∙ ap (occurs j) none_left) in
          inl (ap (prune_at now s) gone, omega (arith, empty))
      | inr (key, there) ↦
          let (r, found) = head_held s key h there in
          let real : (key == "") ≡ false = not_unnamed s key r h found in
          let round : prune_step now s ≡ prune_key now s key (some r) =
            ap (prune_at now s) there
            ∙ if_false (key == "") _ _ real
            ∙ ap (prune_key now s key) found in
          elim (Bool-cases (stays now s r)) [
            | inl stay ↦ inl (round ∙ if_true (stays now s r) _ _ stay, ground arith)
            | inr go ↦ inr (key, r, there, found, go, round ∙ if_false (stays now s r) _ _ go)
          ]
    ]

pub prune_loop_stop :
    (left now : ℕ) (s : RecordStore) → prune_step now s ≡ none → prune_loop (suc left) now s ≡ s
unfolding prune_loop
prune_loop_stop left now s e = rw (prune_loop, e) refl

pub prune_loop_more :
    (left now : ℕ) (s s' : RecordStore)
    → prune_step now s ≡ some s'
    → prune_loop (suc left) now s ≡ prune_loop left now s'
unfolding prune_loop
prune_loop_more left now s s' e = rw (prune_loop, e) refl

-- Enough rounds leave the store indexed and within its bound.
pub prune_loop-IsIndexed :
    (left now : ℕ) (s : RecordStore)
    → IsIndexed s
    → length s.record_keys - s.record_key_start ≤ left
    → IsIndexed (prune_loop left now s)
      × (length (prune_loop left now s).records ≤ max_memory_mutation_records)
unfolding prune_loop occurs
prune_loop-IsIndexed zero now s h enough =
    let none_left = drop-past s.record_keys s.record_key_start (omega arith) in
    let empty = none_held s.records (λ j. sym (h.live j) ∙ ap (occurs j) none_left) in
    (h, omega (arith, empty))
prune_loop-IsIndexed (suc left) now s h enough = elim (prune_step-cases now s h) [
  | inl (stop, few) ↦ rw (prune_loop_stop left now s stop) (h, few)
  | inr (key, r, there, found, go, round) ↦
      let next = advanced-IsIndexed s key h there in
      rw (prune_loop_more left now s (advanced s key) round)
        (prune_loop-IsIndexed left now (advanced s key) next (omega arith))
]

compact-IsIndexed : (s : RecordStore) → IsIndexed s → IsIndexed (compact_record_keys s)
unfolding compact_record_keys
compact-IsIndexed s h =
    elim (Bool-cases
      (ltb 1024 s.record_key_start && ltb (length s.record_keys) (s.record_key_start * 2))) [
        | inl much ↦
            rw much (record { inside = omega arith; live = h.live; no_empty_key = h.no_empty_key })
        | inr little ↦ rw little h
      ]

pub records-compact : (s : RecordStore) → (compact_record_keys s).records ≡ s.records
unfolding compact_record_keys
records-compact s = ground arith

-- The invariant of the store between two operations.
pub record IsStore (s : RecordStore) : Type 0 where
  pub indexed : IsIndexed s
  pub bounded : length s.records ≤ max_memory_mutation_records

pub prune-IsStore : (now : ℕ) (s : RecordStore) → IsIndexed s → IsStore (prune now s)
unfolding prune
prune-IsStore now s h =
    let after =
      prune_loop-IsIndexed (length s.record_keys - s.record_key_start) now s h (omega arith) in
    let pruned : RecordStore = prune_loop (length s.record_keys - s.record_key_start) now s in
    record {
      indexed = compact-IsIndexed pruned after.0;
      bounded = rw (records-compact pruned) after.1;
    }
