-- ===== src/Optimistic/Order/Sorting.antt =====
-- The visible sort of client/optimistic.ts answers items in the comparator's order.
use sync_resource.Shared.{
  zero, suc, ◌<◌, ◌≡◌, refl, true, none, some, List, [], ◌∷◌, arith, inl, inr, length, Bool-cases,
}
use sync_resource.Js.{Value}
use sync_resource.Optimistic.Types.{Sign}
use sync_resource.Optimistic.Order.{Comparator, compared, is_positive, insert_stable, sort_items}
use sync_resource.Optimistic.Order.Sorted.{Le, IsOrder, item_at, IsSorted}

cons-IsSorted :
    (compare : Comparator) (x : Value) (xs : List Value)
    → (0 < length xs → Le compare x (item_at xs 0))
    → IsSorted compare xs
    → IsSorted compare (x ∷ xs)
cons-IsSorted compare x xs first rest zero lo hi = first (omega arith)
cons-IsSorted compare x xs first rest (suc i) lo hi = rest i (omega arith) (omega arith)

tail-IsSorted :
    (compare : Comparator) (x : Value) (xs : List Value)
    → IsSorted compare (x ∷ xs)
    → IsSorted compare xs
tail-IsSorted compare x xs sorted i lo hi = sorted (suc i) (omega arith) (omega arith)

module _ (compare : Value → Value → Sign) (order : IsOrder (some compare)) where
  positive_flips : (x y : Value) → is_positive (compare x y) ≡ true → Le (some compare) y x
  unfolding is_positive compared
  positive_flips x y e = order.flip x y (ground arith)

  -- What comes first after an insertion comes no earlier than a lower bound of the item and the rest.
  head-insert_stable :
      (y x : Value) (ys : List Value)
      → Le (some compare) y x
      → (0 < length ys → Le (some compare) y (item_at ys 0))
      → Le (some compare) y (item_at (insert_stable compare x ys) 0)
  unfolding insert_stable
  head-insert_stable y x [] le first = le
  head-insert_stable y x (z ∷ ys) le first = elim (Bool-cases (is_positive (compare x z))) [
    | inl later ↦ rw later (first (omega arith))
    | inr here ↦ rw here le
  ]

  insert_stable-IsSorted :
      (x : Value) (ys : List Value)
      → IsSorted (some compare) ys
      → IsSorted (some compare) (insert_stable compare x ys)
  unfolding insert_stable compared
  insert_stable-IsSorted x [] sorted =
      cons-IsSorted (some compare) x [] (λ h. absurd (omega arith))
        (λ i lo hi. absurd (omega arith))
  insert_stable-IsSorted x (y ∷ ys) sorted = elim (Bool-cases (is_positive (compare x y))) [
    | inr here ↦ rw here (cons-IsSorted (some compare) x (y ∷ ys) (λ h. here) sorted)
    | inl later ↦ rw later (
        cons-IsSorted (some compare) y (insert_stable compare x ys)
          (λ h.
            head-insert_stable y x ys (positive_flips x y later)
              (λ more. sorted 0 (omega arith) (omega arith)))
          (insert_stable-IsSorted x ys (tail-IsSorted (some compare) y ys sorted)))
  ]

  sort_some-IsSorted : (xs : List Value) → IsSorted (some compare) (sort_items (some compare) xs)
  unfolding sort_items
  sort_some-IsSorted [] i lo hi = absurd (omega arith)
  sort_some-IsSorted (x ∷ xs) i lo hi = insert_stable-IsSorted x _ (sort_some-IsSorted xs) i lo hi

-- The sort answers sorted items, in any total preorder.
pub sort_items-IsSorted :
    (compare : Comparator) (xs : List Value)
    → IsOrder compare
    → IsSorted compare (sort_items compare xs)
unfolding compared is_positive
sort_items-IsSorted none xs order i lo hi = refl
sort_items-IsSorted (some compare) xs order i lo hi = sort_some-IsSorted compare order xs i lo hi
