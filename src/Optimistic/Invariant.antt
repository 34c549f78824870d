-- ===== src/Optimistic/Invariant.antt =====
-- The invariant of the client's cache through reads and envelopes.
use sync_resource.Shared.{String, Bool, true, Option, List, [], ◌∷◌}
use sync_resource.Js.{Value}
use sync_resource.Protocol.{
  SyncChange, page_loaded, item_added, item_updated, item_deleted, reset, SyncEnvelope,
}
use sync_resource.Optimistic.Types.{State, PendingCommand, Host, Reconcile, create_optimistic_state}
use sync_resource.Optimistic.Changes.{drop_item, remove_id}
use sync_resource.Optimistic.Pages.{apply_page_items}
use sync_resource.Optimistic.Envelope.{
  Client, apply_added, apply_updated, apply_deleted, apply_change, apply_changes, source_command,
  apply_envelope,
}
use sync_resource.Optimistic.Counts.Maps.{for_families-UniqueKeys}
use sync_resource.Optimistic.Counts.States.{IsCounted, create-IsCounted}
use sync_resource.Optimistic.Counts.Loads.{apply_page_items-IsCounted}
use sync_resource.Optimistic.Counts.Envelopes.{
  apply_added-IsCounted, apply_updated-IsCounted, removed-RightAt,
}
use sync_resource.Optimistic.Stale.{stale-UniqueKeys, stale-RightAt, stale-IsAligned}
use sync_resource.Optimistic.Distinct.{
  Once, AllOnce, add_item-KeepsOnce, update_item-KeepsOnce, drop_item-KeepsOnce,
}
use sync_resource.Optimistic.Every.Maps.{Every}
use sync_resource.Optimistic.Every.Envelopes.{
  apply_added-Every, apply_updated-Every, apply_deleted-Every, mark_pages_stale-Every,
}
use sync_resource.Optimistic.Aligned.{
  add_item-KeepsAligned, update_item-KeepsAligned, drop_item-KeepsAligned,
}
use sync_resource.Optimistic.Aligned.Inserts.{IsAligned}
use sync_resource.Optimistic.Aligned.Loads.{apply_page_items-Aligned}
use sync_resource.Optimistic.Distinct.Loads.{PageOnce, apply_page_items-AllOnce}

-- The counts are exact, no family holds an id twice, and the pages of each family partition its arrays.
pub record IsWellFormed (s : State) : Type 0 where
  pub counted : IsCounted s
  pub distinct : (j : String) → AllOnce j s.families
  pub aligned : Every IsAligned s.families

pub create-IsWellFormed : IsWellFormed create_optimistic_state
unfolding create_optimistic_state
create-IsWellFormed = record { counted = create-IsCounted; distinct = λ j. tt; aligned = tt }

-- The pages of an envelope repeat no id.
abbrev pub ChangesOnce : Reconcile → List SyncChange → Type 0
ChangesOnce reconcile [] = Unit {0}
ChangesOnce reconcile (page_loaded items cursor ∷ changes) =
    PageOnce reconcile items × ChangesOnce reconcile changes
ChangesOnce reconcile (_ ∷ changes) = ChangesOnce reconcile changes

module _ (host : Host) (reconcile : Reconcile) where
  -- A page that a read brings, whatever its query and cursor, keeps the invariant if it repeats no id.
  pub apply_page_items-IsWellFormed :
      (s : State) (items : List Value) (query : Value) (page_cursor : Option String) (meta : Value)
      (activate : Bool)
      → PageOnce reconcile items
      → IsWellFormed s
      → IsWellFormed (apply_page_items host reconcile s items query page_cursor meta activate)
  apply_page_items-IsWellFormed s items query page_cursor meta activate page h = record {
    counted =
        apply_page_items-IsCounted host reconcile s items query page_cursor meta activate h.counted;
    distinct = λ j.
        apply_page_items-AllOnce host reconcile s items query page_cursor meta activate j h.counted
          page (h.distinct j);
    aligned =
        apply_page_items-Aligned host reconcile s items query page_cursor meta activate h.aligned;
  }

  apply_added-IsWellFormed :
      (append : Bool) (id : String) (value : Value) (s : State)
      → IsWellFormed s
      → IsWellFormed (apply_added host reconcile append id value s)
  apply_added-IsWellFormed append id value s h = record {
    counted = apply_added-IsCounted host reconcile append id value s h.counted;
    distinct = λ j.
        apply_added-Every (Once j) host reconcile append id value s
          (λ active. add_item-KeepsOnce host reconcile j id active append value) (h.distinct j);
    aligned =
        apply_added-Every IsAligned host reconcile append id value s
          (λ active. add_item-KeepsAligned host reconcile active append id value) h.aligned;
  }

  apply_updated-IsWellFormed :
      (id : String) (patch value : Value) (s : State)
      → IsWellFormed s
      → IsWellFormed (apply_updated host reconcile id patch value s)
  apply_updated-IsWellFormed id patch value s h = record {
    counted = apply_updated-IsCounted host reconcile id patch value s h.counted;
    distinct = λ j.
        apply_updated-Every (Once j) host reconcile id patch value s
          (update_item-KeepsOnce host reconcile j id) (h.distinct j);
    aligned =
        apply_updated-Every IsAligned host reconcile id patch value s
          (update_item-KeepsAligned host reconcile id) h.aligned;
  }

  apply_deleted-IsWellFormed :
      (id : String) (s : State) → IsWellFormed s → IsWellFormed (apply_deleted host reconcile id s)
  unfolding apply_deleted remove_id
  apply_deleted-IsWellFormed id s h = record {
    counted = record {
      unique = for_families-UniqueKeys (drop_item id) s.families _ h.counted.unique;
      right = λ j named.
          removed-RightAt id j s.families s.tables named (h.distinct id) (h.counted.right j named);
    };
    distinct = λ j.
        apply_deleted-Every (Once j) host reconcile id s (drop_item-KeepsOnce j id) (h.distinct j);
    aligned =
        apply_deleted-Every IsAligned host reconcile id s (drop_item-KeepsAligned id) h.aligned;
  }

  apply_change-IsWellFormed :
      (query : Value) (source : Option PendingCommand) (change : SyncChange)
      (changes : List SyncChange) (c : Client)
      → ChangesOnce reconcile (change ∷ changes)
      → IsWellFormed c.state
      → (IsWellFormed (apply_change host reconcile query source change c).state)
        × ChangesOnce reconcile changes
  unfolding apply_change
  apply_change-IsWellFormed query source (page_loaded items cursor) changes c p h =
      (apply_page_items-IsWellFormed c.state items query cursor Value.undefined true p.0 h, p.1)
  apply_change-IsWellFormed query source (item_added id value) changes c p h =
      (apply_added-IsWellFormed _ id value c.state h, p)
  apply_change-IsWellFormed query source (item_updated id patch value) changes c p h =
      (apply_updated-IsWellFormed id patch value c.state h, p)
  apply_change-IsWellFormed query source (item_deleted id) changes c p h =
      (apply_deleted-IsWellFormed id c.state h, p)
  apply_change-IsWellFormed query source (reset manifest) changes c p h = (
    record {
      counted = record {
        unique = stale-UniqueKeys c.state.families h.counted.unique;
        right =
            λ j named. stale-RightAt j c.state.families c.state.tables (h.counted.right j named);
      };
      distinct = λ j. mark_pages_stale-Every (Once j) c.state.families (λ f o. o) (h.distinct j);
      aligned = mark_pages_stale-Every IsAligned c.state.families stale-IsAligned h.aligned;
    },
    p,
  )

  apply_changes-IsWellFormed :
      (query : Value) (source : Option PendingCommand) (changes : List SyncChange) (c : Client)
      → ChangesOnce reconcile changes
      → IsWellFormed c.state
      → IsWellFormed (apply_changes host reconcile query source changes c).state
  unfolding apply_changes
  apply_changes-IsWellFormed query source [] c p h = h
  apply_changes-IsWellFormed query source (change ∷ changes) c p h =
      let (h', p') = apply_change-IsWellFormed query source change changes c p h in
      apply_changes-IsWellFormed query source changes
        (apply_change host reconcile query source change c) p' h'

  -- An envelope keeps the invariant, whatever its changes are, if its pages repeat no id.
  pub apply_envelope-IsWellFormed :
      (e : SyncEnvelope) (query : Value) (c : Client)
      → ChangesOnce reconcile e.changes
      → IsWellFormed c.state
      → IsWellFormed (apply_envelope host reconcile e query c).state
  unfolding apply_envelope
  apply_envelope-IsWellFormed e query c p h =
      let changed =
        apply_changes-IsWellFormed query (source_command host reconcile e c.pending) e.changes c p
          h in
      record {
        counted = record { unique = changed.counted.unique; right = changed.counted.right };
        distinct = changed.distinct;
        aligned = changed.aligned;
      }
