-- ===== src/Outbox/Ring.antt =====
-- One ring of server/manager.ts against the list of the envelopes that were appended to it.
use native.Mathlib.Nat.{mod-add-mod, mod-eq_of_lt, mod-eq-sub-mod, mod-lt}
use native.Mathlib.Decide.{dec_lt}
use mathlib.Core.List.{append-nil, append_assoc}
use sync_resource.Shared.{
  ℕ, zero, suc, ◌+◌, ◌-◌, ◌%◌, ◌≤◌, ◌<◌, String, ◌≡◌, refl, sym, ap, ◌∙◌, ◌≢◌, true, Option, none,
  some, List, [], ◌∷◌, ◌++◌, arith, inl, inr, length, get_elem?, get_elem?-append_left, drop-get,
  drop-past, take-nil, take, drop, ltb, Bool-cases, length-append, if◌then◌else◌, ◌==◌, map,
}
use sync_resource.Protocol.{SyncEnvelope}
use sync_resource.Outbox.{
  ScopeLog, write_slot, slot, append_to, slot_has_cursor, find_sequence, collect_from,
}

add-mod-ne : (cap r d : ℕ) → r < cap → 0 < d → d < cap → (r + d) % cap ≢ r
add-mod-ne cap r d hr hd small = elim (dec_lt (r + d) cap) [
  | yes p ↦ omega (arith, mod-eq_of_lt p)
  | no p ↦ omega (
    arith,
    mod-eq-sub-mod {n = r + d} {m = cap} (omega arith),
    mod-eq_of_lt {n = r + d - cap} {m = cap} (omega arith),
  )
]

-- Two sequence numbers less than a ring apart have different slots.
mod-ne : (cap i n : ℕ) → i < n → n < i + cap → i % cap ≢ n % cap
mod-ne cap i n h close e =
    let d : ℕ = n - i in
    let split : i + d ≡ n = omega arith in
    let moved : (i % cap + d) % cap ≡ i % cap =
      mod-add-mod i cap d ∙ ap (λ (k : ℕ). k % cap) split ∙ sym e in
    add-mod-ne cap (i % cap) d (mod-lt i (omega arith)) (omega arith) (omega arith) moved

pub slot-write_slot :
    (xs : List (Option SyncEnvelope)) (i : ℕ) (e : SyncEnvelope)
    → slot (write_slot i e xs) i ≡ some e
unfolding slot write_slot
slot-write_slot [] zero e = refl
slot-write_slot (x ∷ xs) zero e = refl
slot-write_slot [] (suc i) e = slot-write_slot [] i e
slot-write_slot (x ∷ xs) (suc i) e = slot-write_slot xs i e

slot-write_slot_ne :
    (xs : List (Option SyncEnvelope)) (i j : ℕ) (e : SyncEnvelope)
    → j ≢ i
    → slot (write_slot i e xs) j ≡ slot xs j
unfolding slot write_slot
slot-write_slot_ne [] zero zero e h = absurd (h refl)
slot-write_slot_ne [] zero (suc j) e h = refl
slot-write_slot_ne (x ∷ xs) zero zero e h = absurd (h refl)
slot-write_slot_ne (x ∷ xs) zero (suc j) e h = refl
slot-write_slot_ne [] (suc i) zero e h = refl
slot-write_slot_ne [] (suc i) (suc j) e h = slot-write_slot_ne [] i j e (λ p. h (ap suc p))
slot-write_slot_ne (x ∷ xs) (suc i) zero e h = refl
slot-write_slot_ne (x ∷ xs) (suc i) (suc j) e h = slot-write_slot_ne xs i j e (λ p. h (ap suc p))

get_elem?-append_last :
    (xs : List SyncEnvelope) (y : SyncEnvelope) → get_elem? (xs ++ y ∷ []) (length xs) ≡ some y
get_elem?-append_last [] y = refl
get_elem?-append_last (x ∷ xs) y = get_elem?-append_last xs y

-- What a log stands for: the envelopes of the scope in order, since its start or since the last
-- pruning that dropped some. The ring holds the last ones.
pub record Agrees (cap : ℕ) (log : ScopeLog) (history : List SyncEnvelope) : Type 0 where
  pub counted : log.next ≡ length history
  pub slots :
      (i : ℕ)
      → i < length history
      → length history ≤ i + cap
      → slot log.ring (i % cap) ≡ get_elem? history i
  pub unused : length history ≡ 0 → slot log.ring 0 ≡ none

pub append_to-Agrees :
    (cap : ℕ) (log : ScopeLog) (history : List SyncEnvelope) (e : SyncEnvelope)
    → 0 < cap
    → Agrees cap log history
    → Agrees cap (append_to cap log e) (history ++ e ∷ [])
unfolding append_to
append_to-Agrees cap log history e some_room h =
    let grown : length (history ++ e ∷ []) ≡ length history + 1 = length-append history (e ∷ []) in
    record {
      counted = omega (arith, grown, h.counted);
      slots = λ i below kept. elim (dec_lt i (length history)) [
        | yes old ↦
            slot-write_slot_ne log.ring (log.next % cap) (i % cap) e
              (mod-ne cap i log.next (omega (arith, h.counted)) (omega (arith, grown, h.counted)))
            ∙ h.slots i old (omega (arith, grown))
            ∙ sym (get_elem?-append_left history (e ∷ []) i old)
        | no new ↦
            let last : i ≡ log.next = omega (arith, grown, h.counted) in
            ap (λ (k : ℕ). slot (write_slot (log.next % cap) e log.ring) (k % cap)) last
            ∙ slot-write_slot log.ring (log.next % cap) e
            ∙ sym (get_elem?-append_last history e)
            ∙ ap (get_elem? (history ++ e ∷ [])) (sym (last ∙ h.counted))
      ];
      unused = λ none_there. absurd (omega (arith, grown, none_there));
    }

-- The envelopes after the first one with a cursor.
unfoldable pub after_cursor : String → List SyncEnvelope → Option (List SyncEnvelope)
after_cursor cursor [] = none
after_cursor cursor (e ∷ es) = if e.cursor == cursor then some es else after_cursor cursor es

ltb→lt : (a b : ℕ) → ltb a b ≡ true → a < b
ltb→lt a b h = ground arith

-- Where the search of a cursor ends, against the list.
abbrev pub Finds : List SyncEnvelope → ℕ → Option (List SyncEnvelope) → Option ℕ → Type 0
Finds history first none none = Unit
Finds history first (some rest) none = ⊥
Finds history first none (some start) = ⊥
Finds history first (some rest) (some start) =
    (rest ≡ drop start history) × (first ≤ start) × (start ≤ length history)

module _ (cap : ℕ) (log : ScopeLog) (history : List SyncEnvelope) (h : Agrees cap log history) where
  pub find_sequence-Finds :
      (cursor : String) (left i first : ℕ)
      → i + left ≡ length history
      → length history ≤ i + cap
      → first ≤ i
      → Finds history first
          (after_cursor cursor (drop i history))
          (find_sequence cap log.ring cursor left i)
  unfolding find_sequence after_cursor slot_has_cursor
  find_sequence-Finds cursor zero i first ends kept from = rw (drop-past history i (omega arith)) tt
  find_sequence-Finds cursor (suc left) i first ends kept from =
      let (e, found, split) = drop-get history i (omega arith) in
      let here : slot log.ring (i % cap) ≡ some e = h.slots i (omega arith) kept ∙ found in
      let rest =
        find_sequence-Finds cursor left (i + 1) first (omega arith) (omega arith) (omega arith) in
      rw (split, here)
        (elim (Bool-cases (e.cursor == cursor)) [
          | inl same ↦ rw same (refl, omega arith, omega arith)
          | inr other ↦ rw other rest
        ])

  pub collect_from-drop :
      (limit left i : ℕ) (envelopes : List (Option SyncEnvelope))
      → i + left ≡ length history
      → length history ≤ i + cap
      → collect_from cap log.ring limit left i envelopes
        ≡ envelopes ++ map some (take (limit - length envelopes) (drop i history))
  unfolding collect_from
  collect_from-drop limit zero i envelopes ends kept =
      rw (drop-past history i (omega arith), take-nil (limit - length envelopes))
        (sym (append-nil envelopes))
  collect_from-drop limit (suc left) i envelopes ends kept =
      let (e, found, split) = drop-get history i (omega arith) in
      let here : slot log.ring (i % cap) ≡ some e = h.slots i (omega arith) kept ∙ found in
      elim (Bool-cases (ltb (length envelopes) limit)) [
        | inl room ↦
            let grown = length-append envelopes (some e ∷ []) in
            let fewer : limit - length envelopes ≡ suc (limit - length (envelopes ++ some e ∷ [])) =
              omega (arith, ltb→lt (length envelopes) limit room, grown) in
            rw (room, here, split, fewer)
              (collect_from-drop limit left (i + 1) (envelopes ++ some e ∷ []) (omega arith)
                  (omega arith)
                ∙ append_assoc envelopes (some e ∷ []) (
                    map some
                      (take (limit - length (envelopes ++ some e ∷ [])) (drop (i + 1) history))))
        | inr full ↦
            let none_left : limit - length envelopes ≡ 0 = ground arith in
            rw (full, none_left) (sym (append-nil envelopes))
      ]
