-- ===== src/Manager/Execution.antt =====
-- executeManagerResourceMethod of server/manager.ts.
use sync_resource.Shared.{
  ℕ, ◌+◌, String, Bool, Option, none, some, List, [], ◌∷◌, ◌++◌, if◌then◌else◌,
}
use sync_resource.Shared.JsMap.{JsMap, put, delete}
use sync_resource.Shared.JsMap
use sync_resource.Js.{Value, is_set}
use sync_resource.Protocol.{SyncErrorCode, conflict, SyncEnvelope}
use sync_resource.Result.{SyncResult, ok, err}
use sync_resource.Manager.{
  MethodKind, is_write_method_kind, Output, MutationRecord, ResourceValue, Publication,
}
use sync_resource.Manager.Changes.{unwrap_resource_value, collect_metrics}
use sync_resource.Manager.Envelopes.{
  build_envelope, build_signal_envelope, build_mutation_record, commit_deferred_source_write,
}
use sync_resource.Manager.Calls.{
  Admission, Call, InFlight, Manager, MutationIdentity, Persistence, Success, answered, authorize,
  differs, effective_id, joined, mutation_identity, mutation_key, replay, started,
}

module _ {S : Type 0} (p : Persistence S) (manager_key : String) (next_cursor : ℕ → String) where
  unfoldable pub join_or_start : Manager S → Call → String → Option InFlight → Manager S × Admission
  unfolding differs
  join_or_start m c id (some f) =
      if differs f.method f.args_hash c then (m, answered (err conflict)) else (m, joined)
  join_or_start m c id none = (
    record m {
      in_flight =
          put (mutation_key c.scope id) (record { method = c.method; args_hash = c.hashed_args })
            m.in_flight;
    },
    started,
  )

  -- The check of the in-flight mutations, and the note of the new one.
  unfoldable pub check_in_flight : Manager S → Call → String → Manager S × Admission
  unfolding join_or_start
  check_in_flight m c id = join_or_start m c id (JsMap.get (mutation_key c.scope id) m.in_flight)

  unfoldable pub check_record :
      Manager S → Call → String → SyncResult (Option MutationRecord) → Manager S × Admission
  unfolding replay
  check_record m c id (err code) = (m, answered (err code))
  check_record m c id (ok (some existing)) = (m, answered (replay existing c))
  check_record m c id (ok none) = check_in_flight m c id

  unfoldable pub check_found :
      Manager S → Call → String → S × SyncResult (Option MutationRecord) → Manager S × Admission
  unfolding check_record
  check_found m c id (store, found) = check_record (record m { store = store }) c id found

  unfoldable pub admit_identity :
      ℕ → Manager S → Call → Option MutationIdentity → Manager S × Admission
  unfolding check_found
  admit_identity now m c none = (m, started)
  admit_identity now m c (some identity) =
      if is_set c.mutation_id
      then check_found m c identity.id (p.read_mutation now m.store c.scope identity.id)
      else (m, started)

  unfoldable pub admit_authorized :
      ℕ → Manager S → Call → Option SyncErrorCode → Manager S × Admission
  unfolding admit_identity
  admit_authorized now m c (some code) = (m, answered (err code))
  admit_authorized now m c none = admit_identity now m c (mutation_identity c)

  -- From the start to the run of the resource. Only an id that the caller supplied is checked.
  unfoldable pub admit : ℕ → Manager S → Call → Manager S × Admission
  unfolding admit_authorized
  admit now m c = admit_authorized now m c (authorize c.authorization)

  -- `publish(envelope)` for the envelope of a write
  unfoldable pub publish_write : Manager S → MethodKind → Option SyncEnvelope → Manager S
  publish_write m method none = m
  publish_write m method (some e) =
      if is_write_method_kind method
      then record m { published = m.published ++ record { envelope = e; signals = [] } ∷ [] }
      else m

  unfoldable pub publish_signals : Manager S → Option Publication × ℕ → Manager S
  publish_signals m (none, index) = record m { cursor_index = index }
  publish_signals m (some s, index) = record m {
    cursor_index = index;
    published = m.published ++ s ∷ [];
  }

  -- executeResourceAndPersist, from the record of the mutation on
  unfoldable pub publish_all :
      Manager S
      → Call
      → Output
      → Option SyncEnvelope
      → ResourceValue
      → Manager S × SyncResult Success
  unfolding publish_write publish_signals
  publish_all m c output envelope raw = (
    publish_signals (publish_write m c.method envelope)
        (build_signal_envelope next_cursor manager_key c.scope raw m.cursor_index),
    ok (record { output = output; envelope = envelope }),
  )

  -- `if (mutationRecord && !commitResult.value.syncPersisted)`
  unfoldable pub persist :
      ℕ → S → Option MutationRecord → List Value → Bool → S × Option SyncErrorCode
  persist now store none metrics persisted = (store, none)
  persist now store (some r) metrics persisted =
      if persisted
      then (store, none)
      else p.record_mutation now store (record r { metrics = metrics })

  unfoldable pub after_persist :
      Manager S
      → Call
      → Output
      → Option SyncEnvelope
      → ResourceValue
      → S × Option SyncErrorCode
      → Manager S × SyncResult Success
  unfolding publish_all
  after_persist m c output envelope raw (store, some code) = (record m { store = store }, err code)
  after_persist m c output envelope raw (store, none) =
      publish_all (record m { store = store }) c output envelope raw

  unfoldable pub after_commit :
      ℕ
      → Manager S
      → Call
      → Output
      → Option SyncEnvelope
      → Option MutationRecord
      → SyncResult (ResourceValue × Bool)
      → Manager S × SyncResult Success
  unfolding persist after_persist
  after_commit now m c output envelope pending (err code) = (m, err code)
  after_commit now m c output envelope pending (ok (raw, persisted)) =
      after_persist m c output envelope raw
        (persist now m.store pending (collect_metrics raw) persisted)

  unfoldable pub pending_record :
      ℕ
      → Call
      → Option MutationIdentity
      → Output
      → Option SyncEnvelope
      → List Value
      → Option MutationRecord
  pending_record now c none output envelope metrics = none
  pending_record now c (some identity) output envelope metrics = some (
      build_mutation_record c.scope c.method identity.id identity.args_hash output envelope metrics
        now)

  -- executeResourceAndPersist, from the answer of the resource on
  unfoldable pub after_resource :
      ℕ
      → Manager S
      → Call
      → Option String
      → SyncResult ResourceValue
      → Manager S × SyncResult Success
  unfolding after_commit pending_record
  after_resource now m c read_cursor (err code) = (m, err code)
  after_resource now m c read_cursor (ok value) =
      let output = unwrap_resource_value value in
      let (envelope, index) =
        build_envelope next_cursor manager_key c.scope c.method c.args (effective_id c) c.client_id
          value m.cursor_index read_cursor in
      let pending =
        pending_record now c (mutation_identity c) output envelope (collect_metrics value) in
      after_commit now (record m { cursor_index = index }) c output envelope pending
        (commit_deferred_source_write value
          (record { mutation_record = pending; envelope = envelope }))

  unfoldable pub read_cursor_of : Manager S → Call → SyncResult (Option String)
  read_cursor_of m c =
      if is_write_method_kind c.method then ok none else p.latest_cursor m.store c.scope

  unfoldable pub run_from :
      (ℕ → Call → SyncResult ResourceValue)
      → ℕ
      → Manager S
      → Call
      → SyncResult (Option String)
      → Manager S × SyncResult Success
  unfolding after_resource
  run_from resource now m c (err code) = (m, err code)
  run_from resource now m c (ok read_cursor) =
      after_resource now (record m { executions = m.executions + 1 }) c read_cursor
        (resource m.executions c)

  -- executeResourceAndPersist: `resource` is the answer of the resource by the number of the run.
  unfoldable pub run_resource :
      (ℕ → Call → SyncResult ResourceValue) → ℕ → Manager S → Call → Manager S × SyncResult Success
  unfolding read_cursor_of run_from
  run_resource resource now m c = run_from resource now m c (read_cursor_of m c)

  unfoldable pub settle_identity : Manager S → Call → Option MutationIdentity → Manager S
  settle_identity m c none = m
  settle_identity m c (some identity) =
      if is_set c.mutation_id
      then record m { in_flight = JsMap.delete (mutation_key c.scope identity.id) m.in_flight }
      else m

  -- The rest of a call that has started, with the `finally` of the promise that is in flight.
  unfoldable pub finish :
      (ℕ → Call → SyncResult ResourceValue) → ℕ → Manager S → Call → Manager S × SyncResult Success
  unfolding run_resource settle_identity
  finish resource now m c =
      let (m', answer) = run_resource resource now m c in
      (settle_identity m' c (mutation_identity c), answer)

  unfoldable pub proceed :
      (ℕ → Call → SyncResult ResourceValue)
      → ℕ
      → Call
      → Manager S × Admission
      → Manager S × Option (SyncResult Success)
  unfolding finish
  proceed resource now c (m, answered answer) = (m, some answer)
  proceed resource now c (m, joined) = (m, none)
  proceed resource now c (m, started) =
      let (m', answer) = finish resource now m c in (m', some answer)

  -- A call while no other one runs. `none` means that it waits for a mutation in flight.
  unfoldable pub execute :
      (ℕ → Call → SyncResult ResourceValue)
      → ℕ
      → Manager S
      → Call
      → Manager S × Option (SyncResult Success)
  unfolding admit proceed
  execute resource now m c = proceed resource now c (admit now m c)
