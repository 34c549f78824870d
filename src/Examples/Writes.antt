-- ===== src/Examples/Writes.antt =====
-- The writes of client/store.ts at concrete inputs.
use sync_resource.Shared.{◌≡◌, refl, true, false, none, some, [], inl}
use sync_resource.Shared.JsMap.{get, values}
use sync_resource.Js.{Value}
use sync_resource.Protocol.{SyncEnvelope}
use sync_resource.Optimistic.Types.{PendingCommand, mutate}
use sync_resource.Optimistic.Pending.{create_pending_command, refreshed_data, apply_commands}
use sync_resource.Store.{Store, is_own, handle_live_envelope, begin_write, finish_write}
use sync_resource.Store.Writes.{finish_write_settles, handle_live_envelope_foreign}
use sync_resource.Store.Rollback.{IsShown}
use sync_resource.Store.InStep.{Moves, Moves-IsShown}
use sync_resource.Examples.Fixtures.{test_host, test_reconcile, item, envelope, full}

abbrev store : Store
store = record {
  client = record { state = full; pending = [] };
  client_id = "me";
  active_query = Value.undefined;
  reads_in_flight = 0;
  live_during_reads = [];
  has_data = true;
  repair_requested = false;
  disposed = false;
}

store-IsShown : IsShown test_reconcile store.client
unfolding refreshed_data apply_commands values
store-IsShown = refl

abbrev command : PendingCommand
command = create_pending_command mutate (item "a" 5) "m1" test_reconcile

finish_write_settles_example :
    get "m1"
      (finish_write test_host test_reconcile store command "m1" false
        (some envelope)).client.pending
    ≡ none
finish_write_settles_example =
    finish_write_settles test_host test_reconcile store command "m1" false (some envelope) refl
      (inl refl)

abbrev foreign : SyncEnvelope
foreign = record envelope { source_mutation_id = some "m1"; source_client_id = some "other" }

foreign-other : is_own (some "other") "me" ≡ false
unfolding is_own
foreign-other = refl

handle_live_envelope_foreign_example :
    (handle_live_envelope test_host test_reconcile store foreign).client.pending
    ≡ store.client.pending
handle_live_envelope_foreign_example =
    handle_live_envelope_foreign test_host test_reconcile store foreign foreign-other tt

Moves-IsShown_example :
    IsShown test_reconcile
      (begin_write test_host test_reconcile store mutate (item "a" 5) "m1").client
Moves-IsShown_example =
    Moves-IsShown test_host test_reconcile store
      (begin_write test_host test_reconcile store mutate (item "a" 5) "m1")
      (Moves.write_begun store mutate (item "a" 5) "m1") store-IsShown
