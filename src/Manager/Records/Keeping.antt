-- ===== src/Manager/Records/Keeping.antt =====
-- A mutation record that server/manager.ts stores is found again.
use native.Mathlib.Decide.{dec_lt}
use sync_resource.Shared.{
  drop-past, get_elem?-below, ℕ, suc, ◌+◌, ◌-◌, ◌≤◌, ◌<◌, String, ◌≡◌, refl, sym, ap, ◌∙◌, true,
  false, some, List, [], ◌∷◌, ◌++◌, arith, inl, inr, eq_iff, eq_refl, length, get_elem?,
  get_elem?-append_left, is_some, if_true, if_false, Bool-cases, ◌==◌,
}
use sync_resource.Shared.JsMap.{get, delete, has, get-put, get-delete}
use sync_resource.Optimistic.Occurs.{occurs}
use sync_resource.Result.{ok}
use sync_resource.Manager.{MutationRecord}
use sync_resource.Manager.Calls.{mutation_key}
use sync_resource.Manager.Keeping.{IsKeeping}
use sync_resource.Manager.Records.{
  max_memory_mutation_records, memory_mutation_record_ttl_ms, RecordStore, prune_loop, prune, read,
  store_record, record_mutation, memory_persistence,
}
use sync_resource.Manager.Records.Pruning.{
  IsIndexed, IsStore, advanced, head_held, prune_step-cases, prune_loop_more, prune-IsStore,
  records-compact, advanced-IsIndexed, length-delete-lt, none_held,
}
use sync_resource.Manager.Records.Writing.{
  key_of, length-put_new, length-put_old, prune-keeps, prune_loop-keeps, store_record-IsIndexed,
}

-- The key at the start of a store with records is not a new one.
head_old :
    (s : RecordStore) (key head : String)
    → IsIndexed s
    → has key s.records ≡ false
    → 0 < length s.records
    → get_elem? (s.record_keys ++ key ∷ []) s.record_key_start ≡ some head
    → (head == key) ≡ false
unfolding occurs
head_old s key head h new some_there at_start = elim (Bool-cases (head == key)) [
  | inl same ↦ elim (dec_lt s.record_key_start (length s.record_keys)) [
    | yes below ↦
        let (r, found) = head_held s head h (
          sym (get_elem?-append_left s.record_keys (key ∷ []) s.record_key_start below)
          ∙ at_start) in
        let there : has key s.records ≡ true =
          ap (λ (k : String). has k s.records) (sym ((eq_iff head key).0 same))
          ∙ ap is_some found in
        absurd (cc)
    | no above ↦
        let none_left = drop-past s.record_keys s.record_key_start (omega arith) in
        absurd (omega (arith, none_held s.records (λ j. sym (h.live j) ∙ ap (occurs j) none_left)))
  ]
  | inr other ↦ other
]

written_lem :
    (s : RecordStore) (r : MutationRecord) → get (key_of r) (store_record s r).records ≡ some r
unfolding store_record key_of
written_lem s r =
    let key : String = mutation_key r.scope r.mutation_id in
    get-put key key r s.records ∙ if_true (key == key) _ _ (eq_refl key)

-- A store that a write makes too large was full, and the key is new.
full_new :
    (s : RecordStore) (r : MutationRecord)
    → IsStore s
    → max_memory_mutation_records < length (store_record s r).records
    → (has (key_of r) s.records ≡ false)
      × ((store_record s r).record_keys ≡ s.record_keys ++ key_of r ∷ [])
      × (0 < length s.records)
      × (length (store_record s r).records ≤ max_memory_mutation_records + 1)
unfolding store_record key_of
full_new s r h full =
    let key : String = key_of r in
    let grown = length-put_new key r s.records in
    elim (Bool-cases (has key s.records)) [
      | inl old ↦ absurd (omega (arith, length-put_old key r s.records old, h.bounded))
      | inr new ↦ (
        new,
        if_false (has key s.records) _ _ new,
        omega (arith, grown),
        omega (arith, grown, h.bounded),
      )
    ]

start-store_record :
    (s : RecordStore) (r : MutationRecord)
    → (store_record s r).record_key_start ≡ s.record_key_start
unfolding store_record
start-store_record s r = refl

full-keeps :
    (now : ℕ) (s : RecordStore) (r : MutationRecord)
    → IsStore s
    → now - memory_mutation_record_ttl_ms ≤ r.created_at
    → max_memory_mutation_records < length (store_record s r).records
    → get
        (key_of r)
        (prune_loop
          (length (store_record s r).record_keys - (store_record s r).record_key_start)
          now
          (store_record s r)).records
      ≡ some r
full-keeps now s r h young full =
    let s' : RecordStore = store_record s r in
    let left : ℕ = length s'.record_keys - s'.record_key_start in
    let indexed = store_record-IsIndexed s r h.indexed in
    let (new, keys, some_there, one_more) = full_new s r h full in
    elim (prune_step-cases now s' indexed) [
      | inl (_, few) ↦ absurd (omega arith)
      | inr (head, r', there, there', go, round) ↦
          let at_start : get_elem? (s.record_keys ++ key_of r ∷ []) s.record_key_start ≡ some head =
            ap (λ (ks : List String). get_elem? ks s.record_key_start) (sym keys)
            ∙ ap (get_elem? s'.record_keys) (sym (start-store_record s r))
            ∙ there in
          let apart = head_old s (key_of r) head h.indexed new some_there at_start in
          let kept : get (key_of r) (delete head s'.records) ≡ some r =
            get-delete head (key_of r) s'.records
            ∙ if_false (head == key_of r) _ _ apart
            ∙ written_lem s r in
          let below = get_elem?-below s'.record_keys s'.record_key_start head there in
          let rounds : left ≡ suc (left - 1) = omega arith in
          let held_head : has head s'.records ≡ true = ap is_some there' in
          ap (λ (n : ℕ). get (key_of r) (prune_loop n now s').records) rounds
          ∙ ap (λ (t : RecordStore). get (key_of r) t.records)
              (prune_loop_more (left - 1) now s' (advanced s' head) round)
          ∙ prune_loop-keeps (left - 1) now (advanced s' head) (key_of r) r
              (advanced-IsIndexed s' head indexed there) kept young
              (omega (arith, length-delete-lt head s'.records held_head))
    ]

-- A record that has just been written survives the pruning, also where the store was full.
store_record-keeps :
    (now : ℕ) (s : RecordStore) (r : MutationRecord)
    → IsStore s
    → now - memory_mutation_record_ttl_ms ≤ r.created_at
    → get (key_of r) (prune now (store_record s r)).records ≡ some r
unfolding prune key_of
store_record-keeps now s r h young =
    let key : String = key_of r in
    let s' : RecordStore = store_record s r in
    let left : ℕ = length s'.record_keys - s'.record_key_start in
    let indexed = store_record-IsIndexed s r h.indexed in
    let written : get key s'.records ≡ some r = written_lem s r in
    rw (records-compact (prune_loop left now s'))
      (elim (dec_lt max_memory_mutation_records (length s'.records)) [
        | yes full ↦ full-keeps now s r h young full
        | no few ↦ prune_loop-keeps left now s' key r indexed written young (omega arith)
      ])

record_mutation-IsStore :
    (now : ℕ) (s : RecordStore) (r : MutationRecord) → IsStore s → IsStore (record_mutation now s r)
unfolding record_mutation
record_mutation-IsStore now s r h =
    prune-IsStore now (store_record s r) (store_record-IsIndexed s r h.indexed)

pub read-record_mutation :
    (now now' : ℕ) (s : RecordStore) (r : MutationRecord)
    → IsStore s
    → r.created_at ≡ now
    → now' ≤ now + memory_mutation_record_ttl_ms
    → (read now' (record_mutation now s r) r.scope r.mutation_id).1 ≡ some r
unfolding read record_mutation key_of
read-record_mutation now now' s r h made soon =
    prune-keeps now' (prune now (store_record s r)) (key_of r) r
      (prune-IsStore now (store_record s r) (store_record-IsIndexed s r h.indexed))
      (store_record-keeps now s r h (omega arith)) (omega arith)

pub memory_persistence-IsKeeping :
    IsKeeping memory_persistence (λ s. IsStore s.mutations) memory_mutation_record_ttl_ms
unfolding read
memory_persistence-IsKeeping = record {
  kept = λ now now' s r good made later soon stored.
      ap ok (read-record_mutation now now' s.mutations r good made soon);
  read_IsGood = λ now s scope id good. prune-IsStore now s.mutations good.indexed;
}
