-- ===== src/Optimistic/Order/Search.antt =====
-- findInsertIndex: the binary search ends, inside the array, at a place that keeps the order.
use native.Mathlib.Decide.{ℕ_discrete}
use sync_resource.Shared.{
  ℕ, zero, suc, ◌+◌, ◌-◌, ◌/◌, ◌≤◌, ◌<◌, String, ◌≡◌, sym, subst, true, false, List, arith, inl,
  inr, length, get_or, ltb, Bool-cases,
}
use sync_resource.Js.{Value}
use sync_resource.Optimistic.Types.{Sign, Host}
use sync_resource.Optimistic.Order.{
  Comparator, compared, is_positive, goes_before, search_index, find_insert_index,
}
use sync_resource.Optimistic.Order.Sorted.{Le, not_negative, IsOrder, item_at, IsSorted}

-- Sorted neighbours, in an order, are sorted pairs.
sorted_pairs :
    (compare : Comparator) (items : List Value) (i k : ℕ)
    → IsOrder compare
    → IsSorted compare items
    → i + suc k < length items
    → Le compare (item_at items i) (item_at items (i + suc k))
sorted_pairs compare items i zero order sorted h =
    let next : i + 1 ≡ suc i = omega arith in rw next (sorted i (omega arith) (omega arith))
sorted_pairs compare items i (suc k) order sorted h =
    let next : i + suc (suc k) ≡ suc (i + suc k) = omega arith in
    rw next (
      order.trans _ _ _ (sorted_pairs compare items i k order sorted (omega arith))
        (sorted (i + suc k) (omega arith) (omega arith)))

sorted_lt :
    (compare : Comparator) (items : List Value) (i j : ℕ)
    → IsOrder compare
    → IsSorted compare items
    → i < j
    → j < length items
    → Le compare (item_at items i) (item_at items j)
sorted_lt compare items i j order sorted lt h =
    let gap : i + suc (j - suc i) ≡ j = omega arith in
    subst (λ k. Le compare (item_at items i) (item_at items k)) gap
      (sorted_pairs compare items i (j - suc i) order sorted (omega arith))

-- What stands before an index comes no later than the item, and what stands from it on no earlier.
pub record Splits (compare : Comparator) (items : List Value) (item : Value) (low high : ℕ)
    : Type 0 where
  pub below : (i : ℕ) → i < low → i < length items → Le compare (item_at items i) item
  pub above : (i : ℕ) → high ≤ i → i < length items → Le compare item (item_at items i)

goes_before_le : (s tie : Sign) → goes_before s tie ≡ true → is_positive s ≡ false
unfolding goes_before is_positive
goes_before_le s tie h = ground arith

goes_after : (s tie : Sign) → goes_before s tie ≡ false → not_negative s ≡ true
unfolding goes_before
goes_after s tie h = ground arith

module _ (host : Host) (compare : Comparator) (ids : List String) (items : List Value)
    (item : Value) (id : String) where
  left_half :
      (low high middle : ℕ) (tie : Sign)
      → IsOrder compare
      → IsSorted compare items
      → goes_before (compared compare item (item_at items middle)) tie ≡ true
      → Splits compare items item low high
      → Splits compare items item low middle
  left_half low high middle tie order sorted t s = record {
    below = s.below;
    above = λ i lo h.
        let first = goes_before_le _ tie t in
        elim (ℕ_discrete middle i) [
          | yes same ↦ subst (λ k. Le compare item (item_at items k)) same first
          | no later ↦
              order.trans _ _ _ first
                (sorted_lt compare items middle i order sorted (omega arith) h)
        ];
  }

  right_half :
      (low high middle : ℕ) (tie : Sign)
      → IsOrder compare
      → IsSorted compare items
      → middle < length items
      → goes_before (compared compare item (item_at items middle)) tie ≡ false
      → Splits compare items item low high
      → Splits compare items item (middle + 1) high
  right_half low high middle tie order sorted inside t s = record {
    below = λ i lo h.
        let last = order.flip item (item_at items middle) (goes_after _ tie t) in
        elim (ℕ_discrete i middle) [
          | yes same ↦ subst (λ k. Le compare (item_at items k) item) (sym same) last
          | no earlier ↦
              order.trans _ _ _ (sorted_lt compare items i middle order sorted (omega arith) inside)
                last
        ];
    above = s.above;
  }

  -- The loop never leaves its bounds, whatever the comparator answers.
  search_index_bounds :
      (fuel low high : ℕ)
      → low ≤ high
      → (low ≤ search_index host compare fuel ids items item id low high)
        × (search_index host compare fuel ids items item id low high ≤ high)
  unfolding search_index
  search_index_bounds zero low high h = (omega arith, omega arith)
  search_index_bounds (suc fuel) low high h =
      let middle = (low + high) / 2 in
      elim (Bool-cases (ltb low high)) [
        | inr done ↦ rw done (omega arith, omega arith)
        | inl more ↦
            let lt : low < high = ground arith in
            let left = search_index_bounds fuel low middle (omega arith) in
            let right = search_index_bounds fuel (middle + 1) high (omega arith) in
            rw more (ground arith, ground arith)
      ]

  -- With enough fuel the search ends at a place that splits the items.
  search_index-Splits :
      (fuel low high : ℕ)
      → IsOrder compare
      → IsSorted compare items
      → low ≤ high
      → high ≤ length items
      → high - low ≤ fuel
      → Splits compare items item low high
      → let found = search_index host compare fuel ids items item id low high in
        Splits compare items item found found
  unfolding search_index
  search_index-Splits zero low high order sorted le inside enough s = record {
    below = s.below;
    above = λ i lo h. s.above i (omega arith) h;
  }
  search_index-Splits (suc fuel) low high order sorted le inside enough s =
      let middle = (low + high) / 2 in
      let tie = host.locale_compare id (get_or ids middle "undefined") in
      elim (Bool-cases (ltb low high)) [
        | inr done ↦
            let ge : high ≤ low = ground arith in
            rw done (record { below = s.below; above = λ i lo h. s.above i (omega arith) h })
        | inl more ↦
            let lt : low < high = ground arith in
            rw more
              (elim (Bool-cases (goes_before (compared compare item (item_at items middle)) tie)) [
                | inl earlier ↦ rw earlier (
                    search_index-Splits fuel low middle order sorted (omega arith) (omega arith)
                      (omega arith) (left_half low high middle tie order sorted earlier s))
                | inr later ↦ rw later (
                    search_index-Splits fuel (middle + 1) high order sorted (omega arith) inside
                      (omega arith)
                      (right_half low high middle tie order sorted (omega arith) later s))
              ])
      ]

  pub find_insert_index-le-length : find_insert_index host compare ids items item id ≤ length ids
  unfolding find_insert_index
  find_insert_index-le-length = (search_index_bounds (length ids) 0 (length ids) (omega arith)).1

  -- In sorted items the index splits what comes before the item from what comes after it.
  pub find_insert_index-Splits :
      IsOrder compare
      → IsSorted compare items
      → length ids ≡ length items
      → let found = find_insert_index host compare ids items item id in
        Splits compare items item found found
  unfolding find_insert_index
  find_insert_index-Splits order sorted aligned =
      search_index-Splits (length ids) 0 (length ids) order sorted (omega arith) (omega arith)
        (omega arith)
        (record { below = λ i lo h. absurd (omega arith); above = λ i lo h. absurd (omega arith) })
