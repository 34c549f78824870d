-- ===== src/Examples/Cache.antt =====
-- The cache of client/optimistic.ts and the statuses of shared/protocol.ts at concrete inputs.
use sync_resource.Shared.{◌≡◌, refl, true, false, none, [], ◌∷◌, map}
use sync_resource.Js.{Value}
use sync_resource.Optimistic.Types.{PageMeta, Family, network, create_optimistic_state}
use sync_resource.Optimistic.Window.{page_total, page_states}
use sync_resource.Optimistic.Envelope.{apply_deleted, apply_envelope}
use sync_resource.Optimistic.Families.{new_family}
use sync_resource.Optimistic.Aligned.Inserts.{IsAligned}
use sync_resource.Optimistic.Aligned.Partition.{ids_of_pages, sizes, page_states-partition}
use sync_resource.Optimistic.Deletion.{IsForgotten, apply_deleted-IsForgotten}
use sync_resource.Optimistic.Invariant.{
  IsWellFormed, create-IsWellFormed, apply_page_items-IsWellFormed, apply_envelope-IsWellFormed,
}
use sync_resource.Examples.Fixtures.{
  test_host, test_reconcile, two_items, two_items-PageOnce, loaded, envelope, client,
  loaded-IsWellFormed,
}

apply_page_items-IsWellFormed_example : IsWellFormed loaded
apply_page_items-IsWellFormed_example =
    apply_page_items-IsWellFormed test_host test_reconcile create_optimistic_state two_items
      Value.undefined none Value.undefined true two_items-PageOnce create-IsWellFormed

apply_envelope-IsWellFormed_example :
    IsWellFormed (apply_envelope test_host test_reconcile envelope Value.undefined client).state
apply_envelope-IsWellFormed_example =
    apply_envelope-IsWellFormed test_host test_reconcile envelope Value.undefined client tt
      loaded-IsWellFormed

apply_deleted-IsForgotten_example :
    IsForgotten test_host test_reconcile "b" (apply_deleted test_host test_reconcile "b" loaded)
apply_deleted-IsForgotten_example =
    apply_deleted-IsForgotten test_host test_reconcile "b" loaded (loaded-IsWellFormed.distinct "b")

abbrev page_of_two : PageMeta
page_of_two = record {
  cursor_in = none;
  cursor_out = none;
  count = 2;
  complete = true;
  stale = false;
  source = network;
}

abbrev aligned_family : Family
aligned_family = record (new_family "1" Value.null) {
  ids = "a" ∷ "b" ∷ [];
  items = two_items;
  pages = page_of_two ∷ [];
}

aligned_family-IsAligned : IsAligned aligned_family
unfolding page_total
aligned_family-IsAligned = record { items = refl; pages = refl }

page_states-partition_example :
    (ids_of_pages (page_states aligned_family.pages aligned_family.ids) ≡ aligned_family.ids)
    × (sizes (page_states aligned_family.pages aligned_family.ids)
        ≡ map (λ p. p.count) aligned_family.pages)
page_states-partition_example = page_states-partition aligned_family aligned_family-IsAligned
