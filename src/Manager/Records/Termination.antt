-- ===== src/Manager/Records/Termination.antt =====
-- The loop that prunes the mutation records of server/manager.ts ends by its own tests.
use sync_resource.Shared.{
  get_elem?-past, ℕ, zero, suc, ◌+◌, ◌-◌, ◌≤◌, String, ◌≡◌, refl, ap, Option, none, some, arith,
  inl, inr, length, get_elem?, Bool-cases, Option-cases, ◌==◌,
}
use sync_resource.Shared.JsMap.{get}
use sync_resource.Manager.{MutationRecord}
use sync_resource.Manager.Records.{RecordStore, prune_key, prune_at, prune_step, prune_loop}
use sync_resource.Manager.Records.Pruning.{stays, prune_loop_stop, prune_loop_more}

-- A round that does not end the loop moves the start by one and keeps the keys.
abbrev Moves : RecordStore → Option RecordStore → Type 0
Moves s none = Unit {0}
Moves s (some s') =
    (s'.record_keys ≡ s.record_keys) × (s'.record_key_start ≡ s.record_key_start + 1)

prune_key-Moves :
    (now : ℕ) (s : RecordStore) (key : String) (found : Option MutationRecord)
    → Moves s (prune_key now s key found)
unfolding prune_key
prune_key-Moves now s key none = (refl, refl)
prune_key-Moves now s key (some r) = elim (Bool-cases (stays now s r)) [
  | inl stay ↦ rw stay tt
  | inr go ↦ rw go (refl, refl)
]

prune_at-Moves : (now : ℕ) (s : RecordStore) (key : Option String) → Moves s (prune_at now s key)
unfolding prune_at
prune_at-Moves now s none = tt
prune_at-Moves now s (some key) = elim (Bool-cases (key == "")) [
  | inl skip ↦ rw skip (refl, refl)
  | inr real ↦ rw real (prune_key-Moves now s key (get key s.records))
]

-- The loop of prune ends by its own tests, in any store: with as many rounds as there are keys from
-- the start on, the round after the last one would end it, either since no key is left or since the
-- key at the start has a record that stays.
pub prune_loop-ends :
    (left now : ℕ) (s : RecordStore)
    → length s.record_keys - s.record_key_start ≤ left
    → prune_step now (prune_loop left now s) ≡ none
unfolding prune_loop prune_step prune_at
prune_loop-ends zero now s enough =
    ap (prune_at now s) (get_elem?-past s.record_keys s.record_key_start (omega arith))
prune_loop-ends (suc left) now s enough = elim (Option-cases (prune_step now s)) [
  | inl stop ↦ rw (prune_loop_stop left now s stop) stop
  | inr (s', more) ↦
      let moves = rw more at (prune_at-Moves now s (get_elem? s.record_keys s.record_key_start)) in
      rw (prune_loop_more left now s s' more)
        (prune_loop-ends left now s' (omega (arith, ap (length {A = String}) moves.0, moves.1)))
]
