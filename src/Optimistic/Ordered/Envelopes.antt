-- ===== src/Optimistic/Ordered/Envelopes.antt =====
-- The order of the visible items of client/optimistic.ts through an envelope.
use sync_resource.Shared.{◌≡◌, true, false, not, ◌&&◌, Option, List, [], ◌∷◌}
use sync_resource.Js.{Value}
use sync_resource.Protocol.{
  SyncChange, page_loaded, item_added, item_updated, item_deleted, reset, SyncEnvelope,
}
use sync_resource.Optimistic.Types.{State, PendingCommand, Host, Reconcile}
use sync_resource.Optimistic.Order.Sorted.{IsOrder}
use sync_resource.Optimistic.Envelope.{
  Client, is_add, apply_change, apply_changes, source_command, apply_envelope,
}
use sync_resource.Optimistic.Every.Maps.{Every}
use sync_resource.Optimistic.Every.Envelopes.{
  apply_added-Every, apply_updated-Every, apply_deleted-Every, mark_pages_stale-Every,
}
use sync_resource.Optimistic.Aligned.{
  add_item-KeepsAligned, update_item-KeepsAligned, drop_item-KeepsAligned,
}
use sync_resource.Optimistic.Aligned.Inserts.{IsAligned}
use sync_resource.Optimistic.Aligned.Loads.{apply_page_items-Aligned}
use sync_resource.Optimistic.Stale.{stale-IsAligned}
use sync_resource.Optimistic.Ordered.{
  add_item-Keeps-IsOrdered, update_item-Keeps-IsOrdered, drop_item-Keeps-IsOrdered,
}
use sync_resource.Optimistic.Ordered.Families.{IsOrdered}
use sync_resource.Optimistic.Ordered.Loads.{apply_page_items-Ordered}

-- Every family's arrays and pages are aligned, and its flag is truthful.
abbrev pub IsInOrder : Reconcile → State → Type 0
IsInOrder reconcile s = Every IsAligned s.families × Every (IsOrdered reconcile.compare) s.families

module _ (host : Host) (reconcile : Reconcile) (order : IsOrder reconcile.compare) where
  apply_change-IsInOrder :
      (query : Value) (source : Option PendingCommand) (change : SyncChange) (c : Client)
      → (is_add source && not reconcile.sorted_placement) ≡ false
      → IsInOrder reconcile c.state
      → IsInOrder reconcile (apply_change host reconcile query source change c).state
  unfolding apply_change
  apply_change-IsInOrder query source (page_loaded items cursor) c other (a, o) = (
    apply_page_items-Aligned host reconcile c.state items query cursor Value.undefined true a,
    apply_page_items-Ordered host reconcile c.state items query cursor Value.undefined true a o,
  )
  apply_change-IsInOrder query source (item_added id value) c other (a, o) = rw other (
    apply_added-Every IsAligned host reconcile false id value c.state
        (λ active. add_item-KeepsAligned host reconcile active false id value) a,
    apply_added-Every (IsOrdered reconcile.compare) host reconcile false id value c.state
        (λ active. add_item-Keeps-IsOrdered host reconcile order active id value) o,
  )
  apply_change-IsInOrder query source (item_updated id patch value) c other (a, o) = (
    apply_updated-Every IsAligned host reconcile id patch value c.state
        (update_item-KeepsAligned host reconcile id) a,
    apply_updated-Every (IsOrdered reconcile.compare) host reconcile id patch value c.state
        (update_item-Keeps-IsOrdered host reconcile order id) o,
  )
  apply_change-IsInOrder query source (item_deleted id) c other (a, o) = (
    apply_deleted-Every IsAligned host reconcile id c.state (drop_item-KeepsAligned id) a,
    apply_deleted-Every (IsOrdered reconcile.compare) host reconcile id c.state
        (drop_item-Keeps-IsOrdered host reconcile order id) o,
  )
  apply_change-IsInOrder query source (reset manifest) c other (a, o) = (
    mark_pages_stale-Every IsAligned c.state.families stale-IsAligned a,
    mark_pages_stale-Every (IsOrdered reconcile.compare) c.state.families
        (λ f h. record { items = h.items; truthful = h.truthful }) o,
  )

  apply_changes-IsInOrder :
      (query : Value) (source : Option PendingCommand) (changes : List SyncChange) (c : Client)
      → (is_add source && not reconcile.sorted_placement) ≡ false
      → IsInOrder reconcile c.state
      → IsInOrder reconcile (apply_changes host reconcile query source changes c).state
  unfolding apply_changes
  apply_changes-IsInOrder query source [] c other h = h
  apply_changes-IsInOrder query source (change ∷ changes) c other h =
      apply_changes-IsInOrder query source changes _ other
        (apply_change-IsInOrder query source change c other h)

  -- With a comparator that is a total preorder, an envelope leaves the flag `sorted` of every family
  -- truthful, unless it answers an own add that is appended to the first page.
  pub apply_envelope-IsInOrder :
      (e : SyncEnvelope) (query : Value) (c : Client)
      → (is_add (source_command host reconcile e c.pending) && not reconcile.sorted_placement)
        ≡ false
      → IsInOrder reconcile c.state
      → IsInOrder reconcile (apply_envelope host reconcile e query c).state
  unfolding apply_envelope
  apply_envelope-IsInOrder e query c other h =
      apply_changes-IsInOrder query (source_command host reconcile e c.pending) e.changes c other h
