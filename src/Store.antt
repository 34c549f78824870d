-- ===== src/Store.antt =====
-- The data path of client/store.ts and needsRepair of client/repair.ts: writes that are shown before
-- the server has answered, live envelopes, and reads that live envelopes overtake.
pub mod Writes
pub mod InStep
pub mod Rollback
use sync_resource.Shared.{
  ℕ, zero, ◌+◌, ◌-◌, String, Bool, true, false, not, ◌&&◌, ◌||◌, Option, none, some, List, [], ◌∷◌,
  ◌++◌, length, drop, eqb, ltb, is_some, if◌then◌else◌, ◌==◌,
}
use sync_resource.Shared.JsMap.{put, delete, values}
use sync_resource.Js.{Value, is_set}
use sync_resource.Protocol.{SyncChange, ResetManifest, SyncEnvelope}
use sync_resource.Optimistic.Types.{PageMeta, State, WriteMethod, PendingCommand, Host, Reconcile}
use sync_resource.Optimistic.Pages.{apply_page_output}
use sync_resource.Optimistic.Pending.{create_pending_command, ack_pending_command, refreshed_data}
use sync_resource.Optimistic.Envelope.{Client, apply_envelope}
use sync_resource.Optimistic.Views.{set_base_data, active_page_metas}

-- The fields of ClientStoreCore that the data path reads and writes. `client_id` is that of the runtime.
pub record Store : Type 0 where
  pub client : Client
  pub client_id : String
  pub active_query : Value
  pub reads_in_flight : ℕ
  pub live_during_reads : List SyncEnvelope
  pub has_data : Bool
  pub repair_requested : Bool
  pub disposed : Bool

unfoldable pub any_stale : List PageMeta → Bool
any_stale [] = false
any_stale (p ∷ ps) = p.stale || any_stale ps

-- needsRepair
unfoldable pub needs_repair : List PageMeta → Option ResetManifest → Bool
unfolding any_stale
needs_repair pages manifest = is_some manifest || any_stale pages

unfoldable pub is_own : Option String → String → Bool
is_own none client_id = true
is_own (some id) client_id = id == client_id

-- localPendingEnvelope
unfoldable pub local_pending_envelope : String → SyncEnvelope → SyncEnvelope
local_pending_envelope client_id e =
    if not (is_set e.source_mutation_id) || is_own e.source_client_id client_id
    then e
    else record e { source_mutation_id = none }

-- writeResponseEnvelope
unfoldable pub write_response_envelope : String → SyncEnvelope → String → SyncEnvelope
write_response_envelope client_id e mutation_id = elim e.source_mutation_id [
  | none ↦ record e { source_mutation_id = some mutation_id; source_client_id = some client_id }
  | some id ↦ record e {
    source_client_id = if id == mutation_id then some client_id else e.source_client_id;
  }
]

unfoldable pub has_changes : List SyncChange → Bool
has_changes [] = false
has_changes (c ∷ cs) = true

module _ (host : Host) (reconcile : Reconcile) where
  -- refreshData on the store's state and pending commands
  unfoldable pub refresh_shown : Client → Client
  refresh_shown c = record c {
    state = record (c.state) {
      shown_data = refreshed_data reconcile c.state.base_data (values c.pending);
    };
  }

  -- applyEnvelopeState; the request to the repair scheduler is the flag
  unfoldable pub apply_envelope_state : Store → SyncEnvelope → Store
  apply_envelope_state s e =
      let c =
        apply_envelope host reconcile (local_pending_envelope s.client_id e) s.active_query
          s.client in
      let (state, pages) = active_page_metas c.state in
      record s {
        client = record c { state = state };
        has_data = true;
        repair_requested = s.repair_requested || needs_repair pages e.reset_manifest;
      }

  -- applyEnvelope of the store
  unfoldable pub apply_store_envelope : Store → SyncEnvelope → Store
  apply_store_envelope s e =
      apply_envelope_state
        (if ltb 0 s.reads_in_flight
          then record s { live_during_reads = s.live_during_reads ++ e ∷ [] }
          else s)
        e

  -- applyStateEnvelope
  unfoldable pub apply_state_envelope : Store → SyncEnvelope → Store
  apply_state_envelope s e =
      if has_changes e.changes then apply_store_envelope s e else elim e.source_mutation_id [
        | none ↦ s
        | some id ↦
            if id == ""
            then s
            else record s { client = record (s.client) { pending = delete id s.client.pending } }
      ]

  -- handleLiveEnvelope
  unfoldable pub handle_live_envelope : Store → SyncEnvelope → Store
  handle_live_envelope s e =
      if s.disposed then s else if has_changes e.changes then apply_store_envelope s e else s

  -- the part of write before the request; the runtime has made the mutation id
  unfoldable pub begin_write : Store → WriteMethod → Value → String → Store
  begin_write s method args mutation_id =
      let command = create_pending_command method args mutation_id reconcile in
      if s.disposed then s else record s {
        client =
            refresh_shown
              (record (s.client) { pending = put mutation_id command s.client.pending });
      }

  -- `pendingCommands.delete(mutationId)` and `refreshData`
  unfoldable pub drop_write : Store → String → Store
  drop_write s mutation_id = record s {
    client = refresh_shown (record (s.client) { pending = delete mutation_id s.client.pending });
  }

  -- the branch of write for a request that failed, with the refresh of rollback
  unfoldable pub fail_write : Store → String → Store
  unfolding drop_write
  fail_write s mutation_id = drop_write s mutation_id

  -- the command is acknowledged, and a batch shows what is left
  unfoldable pub acknowledge : Store → PendingCommand → String → Bool → Store
  acknowledge s command mutation_id is_batch =
      let acked = record (s.client) {
        pending = put mutation_id (ack_pending_command command) s.client.pending;
      } in
      record s { client = if is_batch then refresh_shown acked else acked }

  -- the part of write after a request that succeeded
  unfoldable pub finish_write : Store → PendingCommand → String → Bool → Option SyncEnvelope → Store
  finish_write s command mutation_id is_batch response =
      let acked = acknowledge s command mutation_id is_batch in
      elim response [
        | some e ↦ apply_state_envelope acked (write_response_envelope s.client_id e mutation_id)
        | none ↦ drop_write acked mutation_id
      ]

  -- singleflightRead, its start: the read gets the number of envelopes that came before it
  unfoldable pub begin_read : Store → Store × ℕ
  begin_read s = (record s { reads_in_flight = s.reads_in_flight + 1 }, length s.live_during_reads)

  -- singleflightRead, its end
  unfoldable pub end_read : Store → Store
  end_read s =
      let left = s.reads_in_flight - 1 in
      record s {
        reads_in_flight = left;
        live_during_reads = if eqb left 0 then [] else s.live_during_reads;
      }

  unfoldable pub apply_envelope_states : Store → List SyncEnvelope → Store
  apply_envelope_states s [] = s
  apply_envelope_states s (e ∷ es) = apply_envelope_states (apply_envelope_state s e) es

  unfoldable pub cursor_of : Option SyncEnvelope → Option String
  cursor_of none = none
  cursor_of (some e) = some e.cursor

  -- settleRead for the envelopes that came since the read started
  unfoldable pub settle_over : Store → List SyncEnvelope → Option SyncEnvelope → Store
  settle_over s (e ∷ es) response = apply_envelope_states s (e ∷ es)
  settle_over s [] response = record s {
    client = record (s.client) { state = record (s.client.state) { cursor = cursor_of response } };
  }

  -- settleRead
  unfoldable pub settle_read : Store → ℕ → Option SyncEnvelope → Store
  settle_read s live_start response = settle_over s (drop live_start s.live_during_reads) response

  -- the answer of get
  unfoldable pub receive_record : Store → ℕ → Value → Option SyncEnvelope → Store
  receive_record s live_start value response =
      settle_read
        (record s {
          has_data = true;
          client = record (s.client) {
            state = set_base_data s.client.state value reconcile (values s.client.pending);
          };
        })
        live_start response

  -- the answer of requestPage that is still wanted
  unfoldable pub receive_page : Store → ℕ → Value → Value → Bool → Option SyncEnvelope → Store
  receive_page s live_start output query activate response =
      settle_read
        (record s {
          has_data = true;
          client = record (s.client) {
            state = apply_page_output host reconcile s.client.state output query activate;
          };
        })
        live_start response
