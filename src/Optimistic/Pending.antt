-- ===== src/Optimistic/Pending.antt =====
-- Pending writes in client/optimistic.ts: their targets, and their overlay on a view.
use sync_resource.Shared.{
  String, Bool, true, false, ◌&&◌, Option, none, some, List, [], ◌∷◌, if◌then◌else◌, ◌==◌,
}
use sync_resource.Shared.JsMap.{JsMap, get, put, delete}
use sync_resource.Js.{Value, is_record, items_of, property, truthy}
use sync_resource.Optimistic.Types.{
  WriteMethod, add, mutate, delete as delete_method, PendingCommand, local_accepted,
  acked_waiting_delta, Reconcile,
}
use sync_resource.Optimistic.Patch.{apply_patch}

-- `if (id)`: an id that is no empty string
unfoldable pub named : Option String → Option String
named none = none
named (some id) = if id == "" then none else some id

-- the items of the arguments: one entry for each write of a batch
unfoldable pub write_items : WriteMethod → Value → List Value
write_items method (Value.array vs) = items_of vs
write_items method v = v ∷ []

-- `reconcile.itemId(item.input)` for an add, `reconcile.targetId(…)` otherwise
unfoldable pub target_of : Reconcile → WriteMethod → Value → Option String
unfolding named
target_of reconcile add item =
    if is_record item then named (reconcile.item_id (property "input" item)) else none
target_of reconcile mutate item =
    if is_record item
    then named (reconcile.target_id (property "query" item) (property "input" item))
    else none
target_of reconcile delete_method item =
    if is_record item
    then named (reconcile.target_id (property "query" item) (property "input" item))
    else named (reconcile.target_id Value.undefined Value.undefined)

-- collectTargetIds
unfoldable pub collect_target_ids : Reconcile → WriteMethod → List Value → List String
unfolding target_of
collect_target_ids reconcile method [] = []
collect_target_ids reconcile method (item ∷ items) =
    let rest = collect_target_ids reconcile method items in
    elim (target_of reconcile method item) [ none ↦ rest | some id ↦ id ∷ rest ]

-- createPendingCommand
unfoldable pub create_pending_command : WriteMethod → Value → String → Reconcile → PendingCommand
create_pending_command method args mutation_id reconcile = record {
  mutation_id = mutation_id;
  method = method;
  state = local_accepted;
  target_ids = collect_target_ids reconcile method (write_items method args);
  args = args;
}

-- ackPendingCommand
unfoldable pub ack_pending_command : PendingCommand → PendingCommand
ack_pending_command command = record command { state = acked_waiting_delta }

-- The interface PendingItems, over the state `S` of its object.
pub record PendingItems (S : Type 0) : Type 0 where
  pub get_item : String → S → Option Value
  pub set_item : String → Value → S → S
  pub delete_item : String → S → S

-- PendingView
pub record View (S : Type 0) : Type 0 where
  pub items : S
  pub shown : Value

module _ {S : Type 0} (ops : PendingItems S) (reconcile : Reconcile) where
  -- `state.data && reconcile.itemId(state.data) === id`
  unfoldable pub shows : String → Value → Bool
  shows id shown = elim (reconcile.item_id shown) [
    | none ↦ false
    | some j ↦ truthy shown && (j == id)
  ]

  -- the delete of an id
  unfoldable pub delete_from_view : Option String → View S → View S
  unfolding named shows
  delete_from_view target v = elim (named target) [
    | none ↦ v
    | some id ↦ record {
      items = ops.delete_item id v.items;
      shown = if shows id v.shown then Value.undefined else v.shown;
    }
  ]

  -- the patch of an id
  unfoldable pub mutate_in_view : Option String → Value → View S → View S
  unfolding named shows
  mutate_in_view target input v = elim (named target) [
    | none ↦ v
    | some id ↦ record {
      items = elim (ops.get_item id v.items) [
        | none ↦ v.items
        | some current ↦
            if truthy current then ops.set_item id (apply_patch current input) v.items else v.items
      ];
      shown = if shows id v.shown then apply_patch v.shown input else v.shown;
    }
  ]

  -- the add of an input
  unfoldable pub add_to_view : (Value → Bool) → Value → View S → View S
  unfolding named
  add_to_view should_add input v =
      if should_add input
      then elim (named (reconcile.item_id input)) [
        | none ↦ v
        | some id ↦ record v { items = ops.set_item id input v.items }
      ]
      else v

  -- the body of the loop of applyPendingToView
  unfoldable pub apply_write : (Value → Bool) → WriteMethod → Value → View S → View S
  apply_write should_add add item v =
      if is_record item then add_to_view should_add (property "input" item) v else v
  apply_write should_add mutate item v =
      if is_record item
      then mutate_in_view (reconcile.target_id (property "query" item) (property "input" item))
          (property "input" item) v
      else v
  apply_write should_add delete_method item v =
      if is_record item
      then delete_from_view (reconcile.target_id (property "query" item) Value.undefined) v
      else delete_from_view (reconcile.target_id Value.undefined Value.undefined) v

  unfoldable pub apply_writes : (Value → Bool) → WriteMethod → List Value → View S → View S
  apply_writes should_add method [] v = v
  apply_writes should_add method (item ∷ items) v =
      apply_writes should_add method items (apply_write should_add method item v)

  -- applyPendingToView for each command
  unfoldable pub apply_commands : (Value → Bool) → List PendingCommand → View S → View S
  apply_commands should_add [] v = v
  apply_commands should_add (c ∷ cs) v =
      apply_commands should_add cs
        (apply_writes should_add c.method (write_items c.method c.args) v)

-- The view of refreshData: a `Map` for the items.
abbrev pub map_items : PendingItems (JsMap Value)
map_items = record { get_item = get; set_item = put; delete_item = delete }

-- refreshData: the data that is shown
unfoldable pub refreshed_data : Reconcile → Value → List PendingCommand → Value
refreshed_data reconcile base_data commands =
    (apply_commands map_items reconcile (λ _. true) commands
      (record { items = []; shown = base_data })).shown
