-- ===== src/Manager/Records/Writing.antt =====
-- Writing a record into the store of mutations of server/manager.ts.
use Prim.Native.String
use text.Mathlib.TextLemmas.{cons-ne-nil, append-eq-nil_iff, append-ne-nil_of_right_ne-nil}
use sync_resource.Shared.{
  drop-snoc, ℕ, zero, suc, ◌+◌, ◌-◌, ◌≤◌, String, ◌≡◌, ◌≢◌, refl, sym, ap, ◌∙◌, Bool, true, false,
  none, some, [], ◌∷◌, arith, inl, inr, eq_iff, length, drop, length-append, if_false, Bool-cases,
  if◌then◌else◌, ◌==◌,
}
use sync_resource.Shared.JsMap.{JsMap, get, put, delete, has, get-put, get-delete}
use sync_resource.Optimistic.Occurs.{occurs, occurs-append}
use sync_resource.Manager.{MutationRecord}
use sync_resource.Manager.Calls.{mutation_key}
use sync_resource.Manager.Records.{
  max_memory_mutation_records, memory_mutation_record_ttl_ms, RecordStore, prune_loop, prune,
  store_record,
}
use sync_resource.Manager.Records.Pruning.{
  held, IsIndexed, IsStore, advanced, stays, prune_step-cases, prune_loop_stop, prune_loop_more,
  records-compact, advanced-IsIndexed, length-delete-le,
}

colon_some : (id : String) → String.◌++◌ ":" id ≢ ""
colon_some id e = cons-ne-nil _ _ (append-eq-nil_iff.0 e).0

-- A key is never the empty text.
mutation_key-named : (scope id : String) → (mutation_key scope id == "") ≡ false
unfolding mutation_key
mutation_key-named scope id = elim (Bool-cases (mutation_key scope id == "")) [
  | inl same ↦ absurd (
      append-ne-nil_of_right_ne-nil scope (colon_some id)
        ((eq_iff (mutation_key scope id) "").0 same))
  | inr other ↦ other
]

head_apart :
    (now : ℕ) (s : RecordStore) (head key : String) (r r' : MutationRecord)
    → get key s.records ≡ some r
    → get head s.records ≡ some r'
    → now - memory_mutation_record_ttl_ms ≤ r.created_at
    → length s.records ≤ max_memory_mutation_records
    → stays now s r' ≡ false
    → (head == key) ≡ false
head_apart now s head key r r' found there' young few go = elim (Bool-cases (head == key)) [
  | inl same ↦
      let here : head ≡ key = (eq_iff head key).0 same in
      let one : some r' ≡ some r = sym there' ∙ ap (λ (k : String). get k s.records) here ∙ found in
      let record_same : r' ≡ r = cc in let stay : stays now s r ≡ true = ground arith in absurd (cc)
  | inr other ↦ other
]

-- The loop does not drop a record that is young enough, while the store is within its bound.
pub prune_loop-keeps :
    (left now : ℕ) (s : RecordStore) (key : String) (r : MutationRecord)
    → IsIndexed s
    → get key s.records ≡ some r
    → now - memory_mutation_record_ttl_ms ≤ r.created_at
    → length s.records ≤ max_memory_mutation_records
    → get key (prune_loop left now s).records ≡ some r
unfolding prune_loop
prune_loop-keeps zero now s key r h found young few = found
prune_loop-keeps (suc left) now s key r h found young few = elim (prune_step-cases now s h) [
  | inl (stop, _) ↦ rw (prune_loop_stop left now s stop) found
  | inr (head, r', there, there', go, round) ↦
      let apart : (head == key) ≡ false =
        head_apart now s head key r r' found there' young few go in
      let kept : get key (delete head s.records) ≡ some r =
        get-delete head key s.records ∙ if_false (head == key) _ _ apart ∙ found in
      rw (prune_loop_more left now s (advanced s head) round) (
        prune_loop-keeps left now (advanced s head) key r (advanced-IsIndexed s head h there) kept
          young (omega (arith, length-delete-le head s.records)))
]

pub prune-keeps :
    (now : ℕ) (s : RecordStore) (key : String) (r : MutationRecord)
    → IsStore s
    → get key s.records ≡ some r
    → now - memory_mutation_record_ttl_ms ≤ r.created_at
    → get key (prune now s).records ≡ some r
unfolding prune
prune-keeps now s key r h found young =
    let left : ℕ = length s.record_keys - s.record_key_start in
    rw (records-compact (prune_loop left now s))
      (prune_loop-keeps left now s key r h.indexed found young h.bounded)

unfoldable pub key_of : MutationRecord → String
key_of r = mutation_key r.scope r.mutation_id

held-put_old :
    (key j : String) (r : MutationRecord) (m : JsMap MutationRecord)
    → has key m ≡ true
    → held j (put key r m) ≡ held j m
held-put_old key j r m old = elim (Bool-cases (key == j)) [
  | inl same ↦
      let there : has j m ≡ true =
        ap (λ (k : String). has k m) (sym ((eq_iff key j).0 same)) ∙ old in
      rw (get-put key j r m, same, there) refl
  | inr other ↦ rw (get-put key j r m, other) refl
]

held-put_new :
    (key j : String) (r : MutationRecord) (m : JsMap MutationRecord)
    → has key m ≡ false
    → (n : ℕ) → n ≡ held j m
    → n + occurs j (key ∷ []) ≡ held j (put key r m)
unfolding occurs
held-put_new key j r m new n h = elim (Bool-cases (key == j)) [
  | inl same ↦
      let gone : has j m ≡ false =
        ap (λ (k : String). has k m) (sym ((eq_iff key j).0 same)) ∙ new in
      let zero_there : n ≡ 0 = h ∙ ap (λ (b : Bool). if b then 1 else 0) gone in
      rw (get-put key j r m, same) (omega (arith, zero_there))
  | inr other ↦ rw (get-put key j r m, other) (omega (arith, h))
]

-- A key that has no record is not among the live keys, so writing it there keeps each key once.
pub store_record-IsIndexed :
    (s : RecordStore) (r : MutationRecord) → IsIndexed s → IsIndexed (store_record s r)
unfolding store_record occurs
store_record-IsIndexed s r h =
    let key : String = mutation_key r.scope r.mutation_id in
    let unnamed : get "" (put key r s.records) ≡ none =
      get-put key "" r s.records
      ∙ if_false (key == "") _ _ (mutation_key-named r.scope r.mutation_id)
      ∙ h.no_empty_key in
    elim (Bool-cases (has key s.records)) [
      | inl old ↦ rw old (record {
        inside = h.inside;
        live = λ j. h.live j ∙ sym (held-put_old key j r s.records old);
        no_empty_key = unnamed;
      })
      | inr new ↦
          let grown = length-append s.record_keys (key ∷ []) in
          rw new (record {
            inside = omega (arith, grown, h.inside);
            live = λ j.
                ap (occurs j) (drop-snoc s.record_keys s.record_key_start key h.inside)
                ∙ occurs-append j (drop s.record_key_start s.record_keys) (key ∷ [])
                ∙ held-put_new key j r s.records new
                    (occurs j (drop s.record_key_start s.record_keys)) (h.live j);
            no_empty_key = unnamed;
          })
    ]

pub length-put_new :
    (key : String) (r : MutationRecord) (m : JsMap MutationRecord)
    → length (put key r m) ≤ length m + 1
unfolding put
length-put_new key r [] = omega arith
length-put_new key r ((j, v) ∷ m) = ground (arith, length-put_new key r m)

pub length-put_old :
    (key : String) (r : MutationRecord) (m : JsMap MutationRecord)
    → has key m ≡ true
    → length (put key r m) ≡ length m
unfolding put get
length-put_old key r [] h = cc
length-put_old key r ((j, v) ∷ m) h = ground (arith, length-put_old key r m)
