-- ===== src/Store/InStep.antt =====
-- The data that client/store.ts shows stays in step with the base data and the pending commands.
pub mod Steps
use sync_resource.Shared.{
  ℕ, String, ◌≡◌, refl, ◌∙◌, Bool, true, false, Option, none, some, List, [], ◌∷◌, inl, inr, drop,
  Bool-cases, Option-cases, if◌then◌else◌, ◌==◌,
}
use sync_resource.Shared.JsMap.{get, values}
use sync_resource.Js.{Value, items_of, property, read_string}
use sync_resource.Protocol.{SyncEnvelope}
use sync_resource.Optimistic.Types.{Family, State, WriteMethod, PendingCommand, Host, Reconcile}
use sync_resource.Optimistic.Families.{
  is_key, read_family, get_active_family, create_family, get_or_create_family,
}
use sync_resource.Optimistic.QueryKey.{query_family_key, query_without_cursor}
use sync_resource.Optimistic.Pages.{
  fill_family, fill_if_there, apply_page_items, apply_output_items, apply_page_output,
}
use sync_resource.Optimistic.Envelope.{Client, apply_envelope}
use sync_resource.Optimistic.Views.{set_base_data, active_page_metas}
use sync_resource.Store.{
  Store, has_changes, local_pending_envelope, write_response_envelope, refresh_shown,
  apply_envelope_state, apply_store_envelope, apply_state_envelope, handle_live_envelope,
  begin_write, drop_write, fail_write, finish_write, apply_envelope_states, settle_over,
  settle_read, receive_record, receive_page,
}
use sync_resource.Store.Rollback.{IsShown}
use sync_resource.Store.InStep.Steps.{
  IsShown-SameData, apply_output_items-SameData, apply_store_envelope-IsShown,
  refresh_shown-IsShown, settle_over-IsShown,
}

-- The steps of a store that leave the shown data in step. A write that succeeds is one where the
-- server sends an envelope with changes, or none.
pub data Moves (host : Host) (reconcile : Reconcile) : Store → Store → Type 0 where
  write_begun :
      (s : Store) (method : WriteMethod) (args : Value) (mutation_id : String)
      → Moves host reconcile s (begin_write host reconcile s method args mutation_id)
  write_failed :
      (s : Store) (mutation_id : String)
      → Moves host reconcile s (fail_write host reconcile s mutation_id)
  write_done :
      (s : Store) (command : PendingCommand) (mutation_id : String) (is_batch : Bool)
      → Moves host reconcile s (finish_write host reconcile s command mutation_id is_batch none)
  write_confirmed :
      (s : Store) (command : PendingCommand) (mutation_id : String) (is_batch : Bool)
      (e : SyncEnvelope)
      → has_changes (write_response_envelope s.client_id e mutation_id).changes ≡ true
      → Moves host reconcile s (finish_write host reconcile s command mutation_id is_batch (some e))
  envelope_arrived :
      (s : Store) (e : SyncEnvelope)
      → Moves host reconcile s (handle_live_envelope host reconcile s e)
  record_arrived :
      (s : Store) (live_start : ℕ) (value : Value) (response : Option SyncEnvelope)
      → Moves host reconcile s (receive_record host reconcile s live_start value response)
  page_arrived :
      (s : Store) (live_start : ℕ) (output query : Value) (activate : Bool)
      (response : Option SyncEnvelope)
      → Moves host reconcile s
          (receive_page host reconcile s live_start output query activate response)

either-IsShown :
    (reconcile : Reconcile) (b : Bool) (x y : Store)
    → IsShown reconcile x.client
    → IsShown reconcile y.client
    → IsShown reconcile (if b then x else y).client
either-IsShown reconcile true x y left right = left
either-IsShown reconcile false x y left right = right

module _ (host : Host) (reconcile : Reconcile) where
  -- The shown data stays what the base data is under the pending commands, while a write begins, fails
  -- or is answered without an envelope or with one that has changes, an envelope arrives, or the
  -- answer to a read does.
  pub Moves-IsShown :
      (s s' : Store)
      → Moves host reconcile s s'
      → IsShown reconcile s.client
      → IsShown reconcile s'.client
  unfolding begin_write fail_write drop_write finish_write apply_state_envelope handle_live_envelope
      receive_record receive_page settle_read set_base_data apply_page_output
  Moves-IsShown s _ (write_begun _ method args mutation_id) h =
      either-IsShown reconcile s.disposed s _ h (refresh_shown-IsShown host reconcile _)
  Moves-IsShown s _ (write_failed _ mutation_id) h = refresh_shown-IsShown host reconcile _
  Moves-IsShown s _ (write_done _ command mutation_id is_batch) h =
      refresh_shown-IsShown host reconcile _
  Moves-IsShown s _ (write_confirmed _ command mutation_id is_batch e changed) h =
      rw changed (apply_store_envelope-IsShown host reconcile _ _)
  Moves-IsShown s _ (envelope_arrived _ e) h = either-IsShown reconcile s.disposed s _ h (
      either-IsShown reconcile (has_changes e.changes) _ s
        (apply_store_envelope-IsShown host reconcile s e) h)
  Moves-IsShown s _ (record_arrived _ live_start value response) h =
      settle_over-IsShown host reconcile
        (record s {
          has_data = true;
          client = record (s.client) {
            state = set_base_data s.client.state value reconcile (values s.client.pending);
          };
        })
        (drop live_start s.live_during_reads) response refl
  Moves-IsShown s _ (page_arrived _ live_start output query activate response) h =
      let items = property "items" output in
      let state = apply_output_items host reconcile s.client.state items output query activate in
      settle_over-IsShown host reconcile
        (record s { has_data = true; client = record (s.client) { state = state } })
        (drop live_start s.live_during_reads) response
        (IsShown-SameData reconcile s.client state
          (apply_output_items-SameData host reconcile s.client.state items output query activate) h)
