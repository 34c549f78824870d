-- ===== src/Examples/Fixtures.antt =====
-- A small cache of client/optimistic.ts, for the examples.
use sync_resource.Shared.{
  ℕ, ◌≤◌, String, ◌≡◌, refl, true, false, none, some, List, [], ◌∷◌, arith, eq_iff, ◌==◌,
}
use sync_resource.Shared.JsMap.{JsMap}
use sync_resource.Js.{Value, Values, Fields, property, read_string}
use sync_resource.Protocol.{SyncChange, SyncEnvelope, item_added, item_updated, item_deleted}
use sync_resource.Optimistic.Types.{Sign, Family, State, Host, Reconcile, create_optimistic_state}
use sync_resource.Optimistic.Families.{new_family}
use sync_resource.Optimistic.Pages.{named_id, apply_page_items, apply_page_output}
use sync_resource.Optimistic.Envelope.{Client}
use sync_resource.Optimistic.Occurs.{occurs}
use sync_resource.Optimistic.Distinct.Loads.{page_ids, PageOnce}
use sync_resource.Optimistic.Invariant.{
  IsWellFormed, create-IsWellFormed, apply_page_items-IsWellFormed,
}

abbrev pub test_host : Host
test_host = record {
  locale_compare = λ a b. Sign.zero;
  same = λ a b. false;
  stringify = λ v. some "{}";
}

-- The default of reconcileFromConfig: the `id` of an object.
abbrev pub test_reconcile : Reconcile
test_reconcile = record {
  item_id = λ v. read_string (property "id" v);
  target_id = λ q v. read_string (property "id" v);
  matches_query = none;
  compare = none;
  sorted_placement = false;
}

abbrev pub item : String → ℕ → Value
item id n =
    Value.object (Fields.field "id" (Value.text id) (Fields.field "n" (Value.number n) Fields.end))

abbrev pub two_items : List Value
two_items = item "a" 1 ∷ item "b" 2 ∷ []

pub two_ids_once : (a b j : String) → (a == b) ≡ false → occurs j (a ∷ b ∷ []) ≤ 1
unfolding occurs
two_ids_once a b j e = ground (arith, eq_iff a j, eq_iff b j, eq_iff a b)

pub two_items-PageOnce : PageOnce test_reconcile two_items
unfolding page_ids named_id read_string property
two_items-PageOnce j = two_ids_once "a" "b" j refl

abbrev pub loaded : State
loaded =
    apply_page_items test_host test_reconcile create_optimistic_state two_items Value.undefined none
      Value.undefined true

-- The output of a read of the two items.
abbrev pub two_items_output : Value
two_items_output = Value.object (
    Fields.field "items"
      (Value.array (Values.cons (item "a" 1) (Values.cons (item "b" 2) Values.nil))) Fields.end)

abbrev pub loaded_output : State
loaded_output =
    apply_page_output test_host test_reconcile create_optimistic_state two_items_output
      Value.undefined true

abbrev pub changes : List SyncChange
changes =
    item_added "c" (item "c" 3)
    ∷ item_updated "a" Value.undefined (item "a" 4)
    ∷ item_deleted "b"
    ∷ []

abbrev pub envelope : SyncEnvelope
envelope = record {
  manager_key = "notes";
  scope = "notes:1";
  cursor = "7";
  source_mutation_id = none;
  source_client_id = none;
  changes = changes;
  reset_manifest = none;
}

abbrev pub client : Client
client = record { state = loaded; pending = [] }

abbrev pub eight : JsMap Family
eight =
    ("1", new_family "1" Value.null)
    ∷ ("2", new_family "2" Value.null)
    ∷ ("3", new_family "3" Value.null)
    ∷ ("4", new_family "4" Value.null)
    ∷ ("5", new_family "5" Value.null)
    ∷ ("6", new_family "6" Value.null)
    ∷ ("7", new_family "7" Value.null)
    ∷ ("8", new_family "8" Value.null)
    ∷ []

abbrev pub full : State
full = record {
  tables = record { base_items = []; family_refs = [] };
  shown_data = Value.undefined;
  base_data = Value.undefined;
  families = eight;
  active_family_key = some "1";
  recent_family_key = none;
  cursor = none;
}

pub loaded-IsWellFormed : IsWellFormed loaded
loaded-IsWellFormed =
    apply_page_items-IsWellFormed test_host test_reconcile create_optimistic_state two_items
      Value.undefined none Value.undefined true two_items-PageOnce create-IsWellFormed
