-- ===== src/Store/Rollback.antt =====
-- A write of client/store.ts that begins and fails, and the envelopes that settle it.
use sync_resource.Shared.{
  String, ◌≡◌, refl, sym, ap, false, Option, none, some, inl, inr, eq_refl, ltb, Bool-cases, ◌==◌,
}
use sync_resource.Shared.JsMap.{JsMap, get, values, get-delete}
use sync_resource.Js.{Value}
use sync_resource.Protocol.{SyncEnvelope}
use sync_resource.Optimistic.Types.{PendingCommand, Host, Reconcile}
use sync_resource.Optimistic.Pending.{refreshed_data}
use sync_resource.Optimistic.Envelope.{Client, settle, apply_envelope}
use sync_resource.Store.{
  Store, local_pending_envelope, refresh_shown, apply_envelope_state, apply_store_envelope,
}

-- The data that the store shows is the base data under the pending commands.
abbrev pub IsShown : Reconcile → Client → Type 0
IsShown reconcile c =
    c.state.shown_data ≡ refreshed_data reconcile c.state.base_data (values c.pending)

module _ (host : Host) (reconcile : Reconcile) where
  refresh_shown-same : (c : Client) → IsShown reconcile c → refresh_shown host reconcile c ≡ c
  unfolding refresh_shown
  refresh_shown-same c h =
      ap (λ (d : Value). record c { state = record (c.state) { shown_data = d } }) (sym h)

  pub pending-apply_store_envelope :
      (s : Store) (e : SyncEnvelope)
      → (apply_store_envelope host reconcile s e).client.pending
        ≡ (apply_envelope host reconcile
            (local_pending_envelope s.client_id e)
            s.active_query
            s.client).pending
  unfolding apply_envelope_state apply_store_envelope
  pending-apply_store_envelope s e = elim (Bool-cases (ltb 0 s.reads_in_flight)) [
    | inl reading ↦ rw reading refl
    | inr idle ↦ rw idle refl
  ]

  settle_named :
      (source : Option String) (id : String) (pending : JsMap PendingCommand)
      → source ≡ some id
      → (id == "") ≡ false
      → get id (settle host reconcile source pending) ≡ none
  unfolding settle
  settle_named none id pending named set = cc
  settle_named (some k) id pending named set =
      let same : k ≡ id = cc named in rw (same, set, get-delete id id pending, eq_refl id) refl

  -- An envelope settles the command that it names.
  pub apply_envelope_settles :
      (e : SyncEnvelope) (query : Value) (c : Client) (id : String)
      → e.source_mutation_id ≡ some id
      → (id == "") ≡ false
      → get id (apply_envelope host reconcile e query c).pending ≡ none
  unfolding apply_envelope
  apply_envelope_settles e query c id named set = settle_named e.source_mutation_id id _ named set
