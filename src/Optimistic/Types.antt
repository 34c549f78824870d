-- ===== src/Optimistic/Types.antt =====
-- The state of client/optimistic.ts, and what a store hands to it.
use sync_resource.Shared.{ℕ, String, Bool, Option, none, List, []}
use sync_resource.Shared.JsMap.{JsMap}
use sync_resource.Js.{Value}

-- The sign of the number that a comparator returns; the code reads nothing else of it.
pub data Sign : Type 0 where
  negative zero positive : Sign

pub data Source : Type 0 where
  network realtime : Source

pub record PageMeta : Type 0 where
  pub cursor_in : Option String
  pub cursor_out : Option String
  pub count : ℕ
  pub complete : Bool
  pub stale : Bool
  pub source : Source

-- A page with the ids that it owns.
pub record PageState : Type 0 where
  pub cursor_in : Option String
  pub cursor_out : Option String
  pub ids : List String
  pub complete : Bool
  pub stale : Bool
  pub source : Source

pub record Family : Type 0 where
  pub key : String
  pub query : Value
  pub meta : Value
  pub pages : List PageMeta
  pub ids : List String
  pub items : List Value
  pub sorted : Bool
  pub items_view : Option (List Value)
  pub pages_view : Option (List PageState)

-- The two maps that a loop over the families changes while it runs.
pub record Tables : Type 0 where
  pub base_items : JsMap Value
  pub family_refs : JsMap ℕ

pub record State : Type 0 where
  pub tables : Tables
  pub open tables use *
  pub shown_data : Value
  pub base_data : Value
  pub families : JsMap Family
  pub active_family_key : Option String
  pub recent_family_key : Option String
  pub cursor : Option String

pub data WriteMethod : Type 0 where
  add mutate delete : WriteMethod

pub data PendingState : Type 0 where
  local_accepted acked_waiting_delta : PendingState

pub record PendingCommand : Type 0 where
  pub mutation_id : String
  pub method : WriteMethod
  pub state : PendingState
  pub target_ids : List String
  pub args : Value

-- The functions that a store's configuration provides. `none` is an option that is absent.
pub record Reconcile : Type 0 where
  pub item_id : Value → Option String
  pub target_id : Value → Value → Option String
  pub matches_query : Option (Value → Value → Bool)
  pub compare : Option (Value → Value → Sign)
  pub sorted_placement : Bool

-- What the host provides: `localeCompare`, the identity of two values (`===`), and
-- `JSON.stringify`, which has no answer for `undefined`.
pub record Host : Type 0 where
  pub locale_compare : String → String → Sign
  pub same : Value → Value → Bool
  pub stringify : Value → Option String

-- createOptimisticState
unfoldable pub create_optimistic_state : State
create_optimistic_state = record {
  tables = record { base_items = []; family_refs = [] };
  shown_data = Value.undefined;
  base_data = Value.undefined;
  families = [];
  active_family_key = none;
  recent_family_key = none;
  cursor = none;
}
