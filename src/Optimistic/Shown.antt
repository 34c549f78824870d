-- ===== src/Optimistic/Shown.antt =====
-- What a store of client/optimistic.ts shows: the visible items are in the comparator's order.
use sync_resource.Shared.{
  String, Bool, not, ◌||◌, some, List, [], ◌∷◌, inl, inr, Bool-cases, Option-cases,
}
use sync_resource.Js.{Value, is_set}
use sync_resource.Optimistic.Types.{Family, State, PendingCommand, Host, Reconcile}
use sync_resource.Optimistic.Order.Sorted.{IsOrder, IsSorted}
use sync_resource.Optimistic.Order.Sorting.{sort_items-IsSorted}
use sync_resource.Optimistic.Refs.{no_families}
use sync_resource.Optimistic.Window.{plain_items}
use sync_resource.Optimistic.Families.{get_active_family}
use sync_resource.Optimistic.Overlay.{overlay_items, family_items}
use sync_resource.Optimistic.Views.{active_items}
use sync_resource.Optimistic.Every.{get_active_family-Every}
use sync_resource.Optimistic.Every.Maps.{Every, get-Every}
use sync_resource.Optimistic.Ordered.Families.{IsOrdered}
use sync_resource.Optimistic.Coherent.{IsCoherent}
use sync_resource.Optimistic.Coherent.States.{plain_family_items-fresh, get-get_active_family}

module _ (host : Host) (reconcile : Reconcile) (order : IsOrder reconcile.compare) where
  plain_items-IsSorted :
      (f : Family)
      → IsOrdered reconcile.compare f
      → IsSorted reconcile.compare (plain_items f reconcile)
  unfolding plain_items
  plain_items-IsSorted f h = elim (Bool-cases f.sorted) [
    | inl flag ↦ rw flag (h.truthful flag)
    | inr free ↦ rw free (sort_items-IsSorted reconcile.compare f.items order)
  ]

  overlay_items-IsSorted :
      (ids : List String) (items : List Value) (commands : List PendingCommand)
      (should_add : Value → Bool)
      → IsSorted reconcile.compare (overlay_items ids items reconcile commands should_add)
  unfolding overlay_items
  overlay_items-IsSorted ids items commands should_add =
      sort_items-IsSorted reconcile.compare _ order

  family_items-IsSorted :
      (f : Family) (commands : List PendingCommand) (should_add : Value → Bool)
      → IsOrdered reconcile.compare f
      → IsCoherent reconcile f
      → IsSorted reconcile.compare (family_items (some f) reconcile commands should_add).1
  unfolding family_items
  family_items-IsSorted f (c ∷ cs) should_add ordered coherent =
      overlay_items-IsSorted f.ids f.items (c ∷ cs) should_add
  family_items-IsSorted f [] should_add ordered coherent =
      rw (plain_family_items-fresh host reconcile f coherent).0 (plain_items-IsSorted f ordered)

  -- The active items are in the order of the comparator, whatever commands are pending, where the
  -- comparator is a total preorder, the flags are truthful and the views that families keep are fresh.
  pub active_items-IsSorted :
      (s : State) (commands : List PendingCommand)
      → Every (IsOrdered reconcile.compare) s.families
      → Every (IsCoherent reconcile) s.families
      → IsSorted reconcile.compare (active_items s reconcile commands).1
  unfolding active_items family_items
  active_items-IsSorted s commands ordered coherent =
      let s' = (get_active_family s).0 in
      elim (Option-cases (get_active_family s).1) [
        | inr (f, e) ↦
            let there = get-get_active_family host reconcile s f e in
            rw (e, active_items)
              (family_items-IsSorted f commands _
                (get-Every (IsOrdered reconcile.compare) _ s'.families f
                  (get_active_family-Every (IsOrdered reconcile.compare) s ordered) there)
                (get-Every (IsCoherent reconcile) _ s'.families f
                  (get_active_family-Every (IsCoherent reconcile) s coherent) there))
        | inl e ↦
            rw (e, active_items)
              (elim (Bool-cases (is_set s'.active_family_key || not (no_families s'.families))) [
                | inl paged ↦ rw paged (overlay_items-IsSorted [] [] commands _)
                | inr single ↦ rw single (overlay_items-IsSorted _ _ commands _)
              ])
      ]
