-- ===== src/Optimistic/Order/Edits.antt =====
-- Sorted items after the edits that client/optimistic.ts makes to a family.
use native.Mathlib.Decide.{ℕ_discrete, dec_lt}
use sync_resource.Shared.{
  ℕ, zero, suc, ◌≤◌, ◌<◌, ◌≡◌, ◌≢◌, List, arith, length, insert_at, remove_at, drop_last, set,
  length-insert_at, length-remove_at, length-drop_last, length-set,
}
use sync_resource.Shared.Edits.{
  get_or-insert_at_lt, get_or-insert_at_self, get_or-insert_at_gt, get_or-remove_at_lt,
  get_or-remove_at_ge, get_or-drop_last, get_or-set_self, get_or-set_ne,
}
use sync_resource.Js.{Value}
use sync_resource.Optimistic.Order.{Comparator}
use sync_resource.Optimistic.Order.Sorted.{Le, IsOrder, item_at, IsSorted}
use sync_resource.Optimistic.Order.Search.{Splits}

module _ (compare : Comparator) (items : List Value) where
  pub insert_at-IsSorted :
      (k : ℕ) (item : Value)
      → k ≤ length items
      → IsSorted compare items
      → Splits compare items item k k
      → IsSorted compare (insert_at k item items)
  insert_at-IsSorted k item inside sorted s i lo hi =
      let d = Value.undefined in
      let count = length-insert_at k item items in
      elim (dec_lt (suc i) k) [
        | yes low ↦
            rw
              (
                get_or-insert_at_lt d items k i item (omega arith) inside,
                get_or-insert_at_lt d items k (suc i) item low inside,
              )
              (sorted i lo (omega arith))
        | no high ↦ elim (ℕ_discrete (suc i) k) [
          | yes here ↦
              rw
                (
                  get_or-insert_at_lt d items k i item (omega arith) inside,
                  here,
                  get_or-insert_at_self d items k item inside,
                )
                (s.below i (omega arith) (omega arith))
          | no past ↦ elim (ℕ_discrete i k) [
            | yes self ↦
                rw
                  (
                    self,
                    get_or-insert_at_self d items k item inside,
                    get_or-insert_at_gt d items k k item (omega arith) inside,
                  )
                  (s.above k (omega arith) (omega (arith, count)))
            | no far ↦ after i item k inside sorted far (omega arith) (omega (arith, count))
          ]
        ]
      ]
    where
      after :
          (i : ℕ) (item : Value) (k : ℕ)
          → k ≤ length items
          → IsSorted compare items
          → i ≢ k
          → k ≤ i
          → i < length items
          → Le compare
              (item_at (insert_at k item items) i)
              (item_at (insert_at k item items) (suc i))
      after zero item k inside sorted far le lt = absurd (omega arith)
      after (suc i) item k inside sorted far le lt =
          rw
            (
              get_or-insert_at_gt Value.undefined items k i item (omega arith) inside,
              get_or-insert_at_gt Value.undefined items k (suc i) item (omega arith) inside,
            )
            (sorted i (omega arith) lt)

  pub remove_at-IsSorted :
      (k : ℕ)
      → k < length items
      → IsOrder compare
      → IsSorted compare items
      → IsSorted compare (remove_at k items)
  remove_at-IsSorted k inside order sorted i lo hi =
      let d = Value.undefined in
      let count = length-remove_at k items inside in
      elim (dec_lt (suc i) k) [
        | yes low ↦
            rw
              (
                get_or-remove_at_lt d items k i (omega arith),
                get_or-remove_at_lt d items k (suc i) low,
              )
              (sorted i lo (omega (arith, count)))
        | no high ↦ elim (dec_lt i k) [
          | yes before ↦
              rw
                (
                  get_or-remove_at_lt d items k i before,
                  get_or-remove_at_ge d items k (suc i) (omega arith),
                )
                (order.trans _ _ _ (sorted i lo (omega (arith, count)))
                  (sorted (suc i) (omega arith) (omega (arith, count))))
          | no after ↦
              rw
                (
                  get_or-remove_at_ge d items k i (omega arith),
                  get_or-remove_at_ge d items k (suc i) (omega arith),
                )
                (sorted (suc i) (omega arith) (omega (arith, count)))
        ]
      ]

  pub drop_last-IsSorted : IsSorted compare items → IsSorted compare (drop_last items)
  drop_last-IsSorted sorted i lo hi =
      let count = length-drop_last items in
      rw
        (
          get_or-drop_last Value.undefined items i (omega (arith, count)),
          get_or-drop_last Value.undefined items (suc i) (omega (arith, count)),
        )
        (sorted i lo (omega (arith, count)))

  -- A write is in order if the item is in order with its neighbours.
  pub set-IsSorted :
      (k : ℕ) (item : Value)
      → k < length items
      → IsSorted compare items
      → ((i : ℕ) → suc i ≡ k → Le compare (item_at items i) item)
      → (suc k < length items → Le compare item (item_at items (suc k)))
      → IsSorted compare (set items k item)
  set-IsSorted k item inside sorted left right i lo hi =
      let d = Value.undefined in
      let count = length-set items k item in
      elim (ℕ_discrete i k) [
        | yes here ↦
            rw
              (
                here,
                get_or-set_self d items k item inside,
                get_or-set_ne d items k (suc k) item (omega arith),
              )
              (right (omega (arith, count)))
        | no other ↦ elim (ℕ_discrete (suc i) k) [
          | yes next ↦
              rw
                (
                  get_or-set_ne d items k i item (omega arith),
                  next,
                  get_or-set_self d items k item inside,
                )
                (left i next)
          | no far ↦
              rw
                (
                  get_or-set_ne d items k i item (omega arith),
                  get_or-set_ne d items k (suc i) item (omega arith),
                )
                (sorted i lo (omega (arith, count)))
        ]
      ]
