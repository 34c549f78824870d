-- ===== src/Optimistic/Order/Sorted.antt =====
-- What the comparator promises, sorted items by index, and isSortedFrom as a decision of it.
use native.Mathlib.Decide.{ℕ_discrete}
use sync_resource.Shared.{
  ℕ, zero, suc, ◌+◌, ◌-◌, ◌≤◌, ◌<◌, max, ◌≡◌, ◌↔◌, refl, subst, Bool, true, false, List, arith, inl,
  inr, length, get_or, Bool-cases, if◌then◌else◌,
}
use sync_resource.Js.{Value}
use sync_resource.Optimistic.Types.{Sign}
use sync_resource.Optimistic.Order.{Comparator, compared, is_positive, sorted_loop, is_sorted_from}

abbrev pub Le : Comparator → Value → Value → Type 0
Le compare a b = is_positive (compared compare a b) ≡ false

abbrev pub not_negative : Sign → Bool
not_negative Sign.negative = false
not_negative _ = true

-- The contract of a comparator: a total preorder.
pub record IsOrder (compare : Comparator) : Type 0 where
  pub trans : (a b c : Value) → Le compare a b → Le compare b c → Le compare a c
  pub flip : (a b : Value) → not_negative (compared compare a b) ≡ true → Le compare b a

abbrev pub item_at : List Value → ℕ → Value
item_at items i = get_or items i Value.undefined

-- Neighbours are in order, from the pair that ends at `from`.
abbrev pub SortedFrom : Comparator → List Value → ℕ → Type 0
SortedFrom compare items from =
    (i : ℕ)
    → from ≤ suc i
    → suc i < length items
    → Le compare (item_at items i) (item_at items (suc i))

abbrev pub IsSorted : Comparator → List Value → Type 0
IsSorted compare items = SortedFrom compare items 0

module _ (compare : Comparator) (items : List Value) where
  sorted_loop_step :
      (p rounds : ℕ)
      → sorted_loop compare items (suc p) (suc rounds) ≡ (
          if is_positive (compared compare (item_at items p) (item_at items (suc p)))
          then false
          else sorted_loop compare items (suc (suc p)) rounds)
  unfolding sorted_loop
  sorted_loop_step p rounds =
      let here : suc p - 1 ≡ p = omega arith in
      let next : suc p + 1 ≡ suc (suc p) = omega arith in rw (here, next)

  sorted_loop_sound :
      (rounds p i : ℕ)
      → sorted_loop compare items (suc p) rounds ≡ true
      → p ≤ i
      → i < p + rounds
      → Le compare (item_at items i) (item_at items (suc i))
  sorted_loop_sound zero p i h lo hi = absurd (omega arith)
  sorted_loop_sound (suc rounds) p i h lo hi =
      let step = sorted_loop_step p rounds in
      elim (Bool-cases (is_positive (compared compare (item_at items p) (item_at items (suc p))))) [
        | inl bad ↦ ground arith
        | inr good ↦ elim (ℕ_discrete p i) [
          | yes same ↦ subst (λ k. Le compare (item_at items k) (item_at items (suc k))) same good
          | no later ↦ sorted_loop_sound rounds (suc p) i (ground arith) (omega arith) (omega arith)
        ]
      ]

  sorted_loop_complete :
      (rounds p : ℕ)
      → ((i : ℕ) → p ≤ i → i < p + rounds → Le compare (item_at items i) (item_at items (suc i)))
      → sorted_loop compare items (suc p) rounds ≡ true
  unfolding sorted_loop
  sorted_loop_complete zero p h = refl
  sorted_loop_complete (suc rounds) p h = ground (
    arith,
    sorted_loop_step p rounds,
    h p (omega arith) (omega arith),
    sorted_loop_complete rounds (suc p) (λ i lo hi. h i (omega arith) (omega arith)),
  )

  -- isSortedFrom decides whether the neighbours are in order from an index on.
  pub is_sorted_from_iff :
      (from : ℕ) → (is_sorted_from items from compare ≡ true) ↔ SortedFrom compare items from
  unfolding is_sorted_from
  is_sorted_from_iff from = (sound, complete)
    where
      start : max from 1 ≡ suc (from - 1)
      start = omega arith

      sound : is_sorted_from items from compare ≡ true → SortedFrom compare items from
      sound h i lo hi =
          sorted_loop_sound (length items - suc (from - 1)) (from - 1) i (rw start at h)
            (omega arith) (omega arith)

      complete : SortedFrom compare items from → is_sorted_from items from compare ≡ true
      complete h = rw start (
          sorted_loop_complete (length items - suc (from - 1)) (from - 1)
            (λ i lo hi. h i (omega arith) (omega arith)))
