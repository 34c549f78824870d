-- ===== src/Optimistic/Reachable.antt =====
-- The states that a store reaches from an empty cache through the operations of client/optimistic.ts.
use sync_resource.Shared.{Bool, List}
use sync_resource.Shared.JsMap.{JsMap}
use sync_resource.Js.{Value, items_of, property}
use sync_resource.Protocol.{SyncEnvelope}
use sync_resource.Optimistic.Types.{State, PendingCommand, Host, Reconcile, create_optimistic_state}
use sync_resource.Optimistic.Pages.{apply_page_output}
use sync_resource.Optimistic.Envelope.{Client, apply_envelope}
use sync_resource.Optimistic.Views.{
  set_base_data, select_query_family, active_items, items_for_query_family, active_pages,
  pages_for_query_family,
}
use sync_resource.Optimistic.Distinct.Loads.{PageOnce}
use sync_resource.Optimistic.Invariant.{ChangesOnce}

-- The items of a page of output repeat no id.
abbrev pub OutputOnce : Reconcile → Value → Type 0
OutputOnce reconcile (Value.array items) = PageOnce reconcile (items_of items)
OutputOnce reconcile _ = Unit {0}

-- A state that some sequence of the exported operations makes of an empty cache.
pub data Reaches (host : Host) (reconcile : Reconcile) : State → Type 0 where
  started : Reaches host reconcile create_optimistic_state
  page_read :
      (s : State) (output query : Value) (activate : Bool)
      → OutputOnce reconcile (property "items" output)
      → Reaches host reconcile s
      → Reaches host reconcile (apply_page_output host reconcile s output query activate)
  received :
      (c : Client) (e : SyncEnvelope) (query : Value)
      → ChangesOnce reconcile e.changes
      → Reaches host reconcile c.state
      → Reaches host reconcile (apply_envelope host reconcile e query c).state
  record_read :
      (s : State) (value : Value) (commands : List PendingCommand)
      → Reaches host reconcile s
      → Reaches host reconcile (set_base_data s value reconcile commands)
  selected :
      (s : State) (query : Value)
      → Reaches host reconcile s
      → Reaches host reconcile (select_query_family host s query)
  items_shown :
      (s : State) (commands : List PendingCommand)
      → Reaches host reconcile s
      → Reaches host reconcile (active_items s reconcile commands).0
  query_shown :
      (s : State) (query : Value) (commands : List PendingCommand)
      → Reaches host reconcile s
      → Reaches host reconcile (items_for_query_family host s query reconcile commands).0
  pages_shown : (s : State) → Reaches host reconcile s → Reaches host reconcile (active_pages s).0
  query_pages_shown :
      (s : State) (query : Value)
      → Reaches host reconcile s
      → Reaches host reconcile (pages_for_query_family host s query).0
