-- ===== src/Optimistic/Ordered/Families.antt =====
-- The families of client/optimistic.ts whose flag `sorted` tells the truth, and their arrays.
use sync_resource.Shared.{
  ℕ, zero, suc, ◌+◌, ◌<◌, ◌≡◌, refl, ap, ◌∙◌, true, false, none, some, List, [], ◌∷◌, arith, length,
  set, get_elem?, is_some, length-set,
}
use sync_resource.Shared.Edits.{get_elem?-lt, get_or-set_ne}
use sync_resource.Js.{Value}
use sync_resource.Optimistic.Types.{Sign, Family}
use sync_resource.Optimistic.Order.{Comparator, compared, is_positive}
use sync_resource.Optimistic.Order.Sorted.{Le, item_at, IsSorted}
use sync_resource.Optimistic.Window.{in_order, before, set_realtime_pages}

-- A family whose flag is set is in the comparator's order.
pub record IsOrdered (compare : Comparator) (f : Family) : Type 0 where
  pub items : length f.items ≡ length f.ids
  pub truthful : f.sorted ≡ true → IsSorted compare f.items

sorted-set_realtime : (f : Family) (n : ℕ) → (set_realtime_pages f n).sorted ≡ f.sorted
unfolding set_realtime_pages
sorted-set_realtime f n = ground arith

items-set_realtime : (f : Family) (n : ℕ) → (set_realtime_pages f n).items ≡ f.items
unfolding set_realtime_pages
items-set_realtime f n = ground arith

ids-set_realtime : (f : Family) (n : ℕ) → (set_realtime_pages f n).ids ≡ f.ids
unfolding set_realtime_pages
ids-set_realtime f n = ground arith

pub set_realtime-IsOrdered :
    (compare : Comparator) (f : Family) (n : ℕ)
    → IsOrdered compare f
    → IsOrdered compare (set_realtime_pages f n)
set_realtime-IsOrdered compare f n h = record {
  items = rw (items-set_realtime, ids-set_realtime) h.items;
  truthful = rw (items-set_realtime, sorted-set_realtime) h.truthful;
}

pub one-IsSorted : (compare : Comparator) (item : Value) → IsSorted compare (item ∷ [])
one-IsSorted compare item i lo hi = absurd (omega arith)

pub free-IsSorted : (items : List Value) → IsSorted none items
unfolding compared is_positive
free-IsSorted items i lo hi = refl

pub free-IsSorted_of :
    (compare : Comparator) (items : List Value) → is_some compare ≡ false → IsSorted compare items
free-IsSorted_of none items e = free-IsSorted items
free-IsSorted_of (some compare) items e = cc

module _ (compare : Value → Value → Sign) (items : List Value) (item : Value) where
  pub in_order-before :
      (k i : ℕ)
      → suc i ≡ k
      → k < length items
      → in_order compare (before (set items k item) k) (some item) ≡ true
      → Le (some compare) (item_at items i) item
  unfolding in_order before compared
  in_order-before zero i next inside e = absurd (omega arith)
  in_order-before (suc k) i next inside e =
      let same : i ≡ k = omega arith in
      let d = Value.undefined in
      let read : get_elem? (set items (suc k) item) k ≡ some (item_at items k) =
        get_elem?-lt d (set items (suc k) item) k (omega (arith, length-set items (suc k) item))
        ∙ ap some (get_or-set_ne d items (suc k) k item (omega arith)) in
      let e' : in_order compare (some (item_at items k)) (some item) ≡ true = rw read at e in
      rw same (ground (arith, e'))

  pub in_order-after :
      (k : ℕ)
      → suc k < length items
      → in_order compare (some item) (get_elem? (set items k item) (k + 1)) ≡ true
      → Le (some compare) item (item_at items (suc k))
  unfolding in_order compared
  in_order-after k inside e =
      let d = Value.undefined in
      let next : k + 1 ≡ suc k = omega arith in
      let read : get_elem? (set items k item) (suc k) ≡ some (item_at items (suc k)) =
        get_elem?-lt d (set items k item) (suc k) (omega (arith, length-set items k item))
        ∙ ap some (get_or-set_ne d items k (suc k) item (omega arith)) in
      let e' : in_order compare (some item) (some (item_at items (suc k))) ≡ true =
        rw (next, read) at e in
      ground (arith, e')
