-- ===== src/Store/Writes.antt =====
-- The writes of client/store.ts: rollback, settlement, and what other clients cannot do.
use sync_resource.Shared.{
  String, ◌≡◌, ◌⊎◌, refl, ◌∙◌, Bool, true, false, not, ◌||◌, Option, none, some, List, [], ◌∷◌,
  arith, inl, inr, eq_refl, Bool-cases, Option-cases, if◌then◌else◌, ◌==◌,
}
use sync_resource.Shared.JsMap.{JsMap, get, get-delete}
use sync_resource.Js.{Value, is_set}
use sync_resource.Protocol.{
  SyncChange, page_loaded, item_added, item_updated, item_deleted, reset, SyncEnvelope,
}
use sync_resource.Optimistic.Types.{PendingCommand, Host, Reconcile}
use sync_resource.Optimistic.Envelope.{
  Client, apply_change, apply_changes, source_command, settle, apply_envelope,
}
use sync_resource.Store.{
  Store, is_own, has_changes, local_pending_envelope, write_response_envelope, refresh_shown,
  apply_store_envelope, apply_state_envelope, handle_live_envelope, drop_write, acknowledge,
  finish_write,
}
use sync_resource.Store.Rollback.{apply_envelope_settles, pending-apply_store_envelope}

-- The server's answer to a write names that write, or no write.
abbrev pub Answers : String → Option SyncEnvelope → Type 0
Answers mutation_id none = Unit {0}
Answers mutation_id (some e) =
    (e.source_mutation_id ≡ none) ⊎ (e.source_mutation_id ≡ some mutation_id)

answer-source :
    (client_id : String) (e : SyncEnvelope) (mutation_id : String)
    → Answers mutation_id (some e)
    → (write_response_envelope client_id e mutation_id).source_mutation_id ≡ some mutation_id
unfolding write_response_envelope
answer-source client_id e mutation_id (inl unnamed) = rw (unnamed, write_response_envelope) refl
answer-source client_id e mutation_id (inr named) = rw (named, write_response_envelope) named

answer-client :
    (client_id : String) (e : SyncEnvelope) (mutation_id : String)
    → Answers mutation_id (some e)
    → (write_response_envelope client_id e mutation_id).source_client_id ≡ some client_id
unfolding write_response_envelope
answer-client client_id e mutation_id (inl unnamed) = rw (unnamed, write_response_envelope) refl
answer-client client_id e mutation_id (inr named) =
    rw (named, write_response_envelope) (rw (eq_refl mutation_id) refl)

own_stays :
    (client_id : String) (e : SyncEnvelope)
    → e.source_client_id ≡ some client_id
    → local_pending_envelope client_id e ≡ e
unfolding local_pending_envelope is_own
own_stays client_id e own =
    let mine : is_own e.source_client_id client_id ≡ true = rw own (eq_refl client_id) in
    elim (Bool-cases (not (is_set e.source_mutation_id) || is_own e.source_client_id client_id)) [
      | inl kept ↦ rw kept refl
      | inr cut ↦ absurd (ground (arith, mine, cut))
    ]

module _ (host : Host) (reconcile : Reconcile) where
  apply_state_envelope_settles :
      (s : Store) (e : SyncEnvelope) (id : String)
      → e.source_mutation_id ≡ some id
      → e.source_client_id ≡ some s.client_id
      → (id == "") ≡ false
      → get id (apply_state_envelope host reconcile s e).client.pending ≡ none
  unfolding apply_state_envelope
  apply_state_envelope_settles s e id named own set = elim (Bool-cases (has_changes e.changes)) [
    | inl changed ↦
        rw (changed, pending-apply_store_envelope host reconcile s e, own_stays s.client_id e own)
          (apply_envelope_settles host reconcile e s.active_query s.client id named set)
    | inr unchanged ↦ rw (unchanged, named, set, get-delete id id s.client.pending, eq_refl id) refl
  ]

  -- The command of a write is no longer pending once the server has accepted it, with an envelope or
  -- without one, for one item or a batch, if its id is not empty and the answer names no other write.
  pub finish_write_settles :
      (s : Store) (command : PendingCommand) (mutation_id : String) (is_batch : Bool)
      (response : Option SyncEnvelope)
      → (mutation_id == "") ≡ false
      → Answers mutation_id response
      → get mutation_id
          (finish_write host reconcile s command mutation_id is_batch response).client.pending
        ≡ none
  unfolding finish_write drop_write refresh_shown acknowledge
  finish_write_settles s command mutation_id is_batch none set answers =
      let acked = acknowledge host reconcile s command mutation_id is_batch in
      rw (get-delete mutation_id mutation_id acked.client.pending, eq_refl mutation_id) refl
  finish_write_settles s command mutation_id is_batch (some e) set answers =
      let acked = acknowledge host reconcile s command mutation_id is_batch in
      let answer = write_response_envelope s.client_id e mutation_id in
      apply_state_envelope_settles acked answer mutation_id
        (answer-source s.client_id e mutation_id answers)
        (answer-client s.client_id e mutation_id answers) set

either_pending :
    (b : Bool) (x y : Store) (pending : JsMap PendingCommand)
    → x.client.pending ≡ pending
    → y.client.pending ≡ pending
    → (if b then x else y).client.pending ≡ pending
either_pending true x y pending left right = left
either_pending false x y pending left right = right

-- No change of the envelope is a reset.
abbrev pub NoReset : List SyncChange → Type 0
NoReset [] = Unit {0}
NoReset (reset manifest ∷ changes) = ⊥
NoReset (_ ∷ changes) = NoReset changes

module _ (host : Host) (reconcile : Reconcile) where
  pending-apply_changes :
      (query : Value) (source : Option PendingCommand) (changes : List SyncChange) (c : Client)
      → NoReset changes
      → (apply_changes host reconcile query source changes c).pending ≡ c.pending
  unfolding apply_changes apply_change
  pending-apply_changes query source [] c h = refl
  pending-apply_changes query source (page_loaded items cursor ∷ changes) c h =
      pending-apply_changes query source changes _ h
  pending-apply_changes query source (item_added id value ∷ changes) c h =
      pending-apply_changes query source changes _ h
  pending-apply_changes query source (item_updated id patch value ∷ changes) c h =
      pending-apply_changes query source changes _ h
  pending-apply_changes query source (item_deleted id ∷ changes) c h =
      pending-apply_changes query source changes _ h
  pending-apply_changes query source (reset manifest ∷ changes) c h = absurd h

  foreign_settles_nothing :
      (client_id : String) (e : SyncEnvelope) (pending : JsMap PendingCommand)
      → is_own e.source_client_id client_id ≡ false
      → settle host reconcile (local_pending_envelope client_id e).source_mutation_id pending
        ≡ pending
  unfolding local_pending_envelope settle is_set
  foreign_settles_nothing client_id e pending foreign = elim (Option-cases e.source_mutation_id) [
    | inl unnamed ↦ rw (foreign, unnamed, settle) refl
    | inr (id, named) ↦ elim (Bool-cases (id == "")) [
      | inl empty ↦ rw (foreign, named, empty, settle, empty) refl
      | inr set ↦ rw (foreign, named, set, settle) refl
    ]
  ]

  changes-local_pending :
      (client_id : String) (e : SyncEnvelope)
      → (local_pending_envelope client_id e).changes ≡ e.changes
  unfolding local_pending_envelope
  changes-local_pending client_id e = ground arith

  pending-foreign :
      (s : Store) (e : SyncEnvelope)
      → is_own e.source_client_id s.client_id ≡ false
      → NoReset e.changes
      → (apply_store_envelope host reconcile s e).client.pending ≡ s.client.pending
  unfolding apply_envelope
  pending-foreign s e foreign calm =
      let local = local_pending_envelope s.client_id e in
      let calm' : NoReset local.changes = rw (changes-local_pending s.client_id e) calm in
      pending-apply_store_envelope host reconcile s e
      ∙ foreign_settles_nothing s.client_id e _ foreign
      ∙ pending-apply_changes s.active_query (source_command host reconcile local s.client.pending)
          local.changes s.client calm'

  -- What another client has written leaves the pending commands of this one alone, even under the
  -- same mutation id, unless the envelope resets the scope.
  pub handle_live_envelope_foreign :
      (s : Store) (e : SyncEnvelope)
      → is_own e.source_client_id s.client_id ≡ false
      → NoReset e.changes
      → (handle_live_envelope host reconcile s e).client.pending ≡ s.client.pending
  unfolding handle_live_envelope
  handle_live_envelope_foreign s e foreign calm =
      either_pending s.disposed s _ s.client.pending refl (
        either_pending (has_changes e.changes) _ s s.client.pending
          (pending-foreign s e foreign calm) refl)
