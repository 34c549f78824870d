-- ===== src/Optimistic/Order.antt =====
-- The comparator in client/optimistic.ts: the sortedness flag, the binary search and the visible sort.
pub mod Sorted
pub mod Search
pub mod Edits
pub mod Sorting
use sync_resource.Shared.{
  ℕ, zero, suc, ◌+◌, ◌-◌, ◌/◌, max, String, Bool, true, false, Option, none, some, List, [], ◌∷◌,
  length, get_or, ltb, if◌then◌else◌,
}
use sync_resource.Js.{Value}
use sync_resource.Optimistic.Types.{Sign, Host}
use sync_resource.Optimistic.Types.Sign.{negative, zero as equal, positive}

abbrev pub Comparator : Type 0
Comparator = Option (Value → Value → Sign)

-- `compare?.(left, right) ?? 0`
unfoldable pub compared : Comparator → Value → Value → Sign
compared none left right = equal
compared (some compare) left right = compare left right

unfoldable pub is_positive : Sign → Bool
is_positive positive = true
is_positive _ = false

-- the loop of isSortedFrom, from `index`, with `rounds` indices left
unfoldable pub sorted_loop : Comparator → List Value → ℕ → ℕ → Bool
sorted_loop compare items index zero = true
sorted_loop compare items index (suc rounds) =
    let rest = sorted_loop compare items (index + 1) rounds in
    if is_positive (
      compared compare (get_or items (index - 1) Value.undefined)
        (get_or items index Value.undefined))
    then false
    else rest

-- isSortedFrom
unfoldable pub is_sorted_from : List Value → ℕ → Comparator → Bool
unfolding sorted_loop is_positive compared
is_sorted_from items from compare =
    let start = max from 1 in sorted_loop compare items start (length items - start)

-- `compared < 0 || (compared === 0 && id.localeCompare(other) <= 0)`
unfoldable pub goes_before : Sign → Sign → Bool
goes_before negative tie = true
goes_before equal positive = false
goes_before equal tie = true
goes_before positive tie = false

module _ (host : Host) (compare : Comparator) where
  -- the while loop of findInsertIndex
  unfoldable pub search_index : ℕ → List String → List Value → Value → String → ℕ → ℕ → ℕ
  search_index zero ids items item id low high = low
  search_index (suc fuel) ids items item id low high =
      let middle = (low + high) / 2 in
      let left = search_index fuel ids items item id low middle in
      let right = search_index fuel ids items item id (middle + 1) high in
      if ltb low high
      then (if goes_before (compared compare item (get_or items middle Value.undefined))
            (host.locale_compare id (get_or ids middle "undefined"))
          then left
          else right)
      else low

  -- findInsertIndex
  unfoldable pub find_insert_index : List String → List Value → Value → String → ℕ
  unfolding search_index goes_before compared
  find_insert_index ids items item id = search_index (length ids) ids items item id 0 (length ids)

-- One step of a stable sort: before the first value that does not come earlier.
unfoldable pub insert_stable : (Value → Value → Sign) → Value → List Value → List Value
insert_stable compare x [] = x ∷ []
insert_stable compare x (y ∷ ys) =
    if is_positive (compare x y) then y ∷ insert_stable compare x ys else x ∷ y ∷ ys

-- `[...items].sort(compare)`; with no comparator the host compares objects as equal texts
unfoldable pub sort_items : Comparator → List Value → List Value
unfolding insert_stable is_positive
sort_items none items = items
sort_items (some compare) [] = []
sort_items (some compare) (x ∷ xs) = insert_stable compare x (sort_items (some compare) xs)
