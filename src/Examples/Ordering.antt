-- ===== src/Examples/Ordering.antt =====
-- The comparator of client/optimistic.ts at concrete inputs.
use sync_resource.Shared.{
  ℕ, ◌≡◌, ◌↔◌, refl, true, false, not, ◌&&◌, none, some, [], ◌∷◌, arith, ltb, if◌then◌else◌,
}
use sync_resource.Js.{Value, property}
use sync_resource.Optimistic.Types.{Sign, State, Reconcile, create_optimistic_state}
use sync_resource.Optimistic.Order.{
  Comparator, compared, is_positive, is_sorted_from, find_insert_index,
}
use sync_resource.Optimistic.Order.Sorted.{
  not_negative, IsOrder, SortedFrom, IsSorted, is_sorted_from_iff,
}
use sync_resource.Optimistic.Order.Search.{Splits, find_insert_index-Splits}
use sync_resource.Optimistic.Pages.{apply_page_items}
use sync_resource.Optimistic.Envelope.{Client, is_add, source_command, apply_envelope}
use sync_resource.Optimistic.Views.{active_items}
use sync_resource.Optimistic.Every.Maps.{Every}
use sync_resource.Optimistic.Aligned.Loads.{apply_page_items-Aligned}
use sync_resource.Optimistic.Ordered.Families.{IsOrdered}
use sync_resource.Optimistic.Ordered.Loads.{apply_page_items-Ordered}
use sync_resource.Optimistic.Ordered.Envelopes.{IsInOrder, apply_envelope-IsInOrder}
use sync_resource.Optimistic.Coherent.Steps.{AllCoherent, apply_page_items-Coherent}
use sync_resource.Optimistic.Shown.{active_items-IsSorted}
use sync_resource.Examples.Fixtures.{test_host, test_reconcile, item, two_items, envelope}

-- A comparator by the field `n`.
abbrev rank_of : Value → ℕ
rank_of (Value.number n) = n
rank_of _ = 0

abbrev rank : Value → ℕ
rank v = rank_of (property "n" v)

abbrev sign_of : ℕ → ℕ → Sign
sign_of a b = if ltb a b then Sign.negative else if ltb b a then Sign.positive else Sign.zero

abbrev by_number : Comparator
by_number = some (λ a b. sign_of (rank a) (rank b))

sign_trans :
    (a b c : ℕ)
    → is_positive (sign_of a b) ≡ false
    → is_positive (sign_of b c) ≡ false
    → is_positive (sign_of a c) ≡ false
unfolding is_positive
sign_trans a b c ab bc = ground arith

sign_flip : (a b : ℕ) → not_negative (sign_of a b) ≡ true → is_positive (sign_of b a) ≡ false
unfolding is_positive
sign_flip a b ab = ground arith

by_number-IsOrder : IsOrder by_number
unfolding compared
by_number-IsOrder = record {
  trans = λ a b c ab bc. sign_trans (rank a) (rank b) (rank c) ab bc;
  flip = λ a b ab. sign_flip (rank a) (rank b) ab;
}

abbrev ordered_reconcile : Reconcile
ordered_reconcile = record test_reconcile { compare = by_number }

two_items_sorted : is_sorted_from two_items 0 by_number ≡ true
unfolding is_sorted_from property
two_items_sorted = refl

two_items-IsSorted : IsSorted by_number two_items
two_items-IsSorted = (is_sorted_from_iff by_number two_items 0).0 two_items_sorted

find_insert_index-Splits_example :
    let found = find_insert_index test_host by_number ("a" ∷ "b" ∷ []) two_items (item "c" 1) "c" in
    Splits by_number two_items (item "c" 1) found found
find_insert_index-Splits_example =
    find_insert_index-Splits test_host by_number ("a" ∷ "b" ∷ []) two_items (item "c" 1) "c"
      by_number-IsOrder two_items-IsSorted refl

is_sorted_from_iff_example :
    (is_sorted_from two_items 1 by_number ≡ true) ↔ SortedFrom by_number two_items 1
is_sorted_from_iff_example = is_sorted_from_iff by_number two_items 1

abbrev ordered : State
ordered =
    apply_page_items test_host ordered_reconcile create_optimistic_state two_items Value.undefined
      none Value.undefined true

apply_page_items-Ordered_example : Every (IsOrdered by_number) ordered.families
unfolding create_optimistic_state
apply_page_items-Ordered_example =
    apply_page_items-Ordered test_host ordered_reconcile create_optimistic_state two_items
      Value.undefined none Value.undefined true tt tt

ordered-IsInOrder : IsInOrder ordered_reconcile ordered
unfolding create_optimistic_state
ordered-IsInOrder = (
  apply_page_items-Aligned test_host ordered_reconcile create_optimistic_state two_items
      Value.undefined none Value.undefined true tt,
  apply_page_items-Ordered test_host ordered_reconcile create_optimistic_state two_items
      Value.undefined none Value.undefined true tt tt,
)

abbrev ordered_client : Client
ordered_client = record { state = ordered; pending = [] }

no_own_add : (is_add (source_command test_host ordered_reconcile envelope []) && not false) ≡ false
unfolding is_add source_command
no_own_add = refl

apply_envelope-IsInOrder_example :
    IsInOrder ordered_reconcile
      (apply_envelope test_host ordered_reconcile envelope Value.undefined ordered_client).state
apply_envelope-IsInOrder_example =
    apply_envelope-IsInOrder test_host ordered_reconcile by_number-IsOrder envelope Value.undefined
      ordered_client no_own_add ordered-IsInOrder

ordered-AllCoherent : AllCoherent ordered_reconcile ordered
unfolding create_optimistic_state
ordered-AllCoherent =
    apply_page_items-Coherent test_host ordered_reconcile create_optimistic_state two_items
      Value.undefined none Value.undefined true tt

active_items-IsSorted_example : IsSorted by_number (active_items ordered ordered_reconcile []).1
active_items-IsSorted_example =
    active_items-IsSorted test_host ordered_reconcile by_number-IsOrder ordered []
      ordered-IsInOrder.1 ordered-AllCoherent
