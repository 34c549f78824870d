-- ===== src/Manager/Idempotence.antt =====
-- A mutation id of server/manager.ts runs its resource once.
use sync_resource.Shared.{
  ℕ, ◌+◌, ◌≤◌, String, ◌≡◌, refl, sym, ap, ◌∙◌, Bool, true, false, not, Option, none, some, eq_refl,
  if_true, if_false,
}
use sync_resource.Shared.JsMap
use sync_resource.Js.{is_set}
use sync_resource.Protocol.{SyncErrorCode, SyncEnvelope}
use sync_resource.Result.{SyncResult, ok}
use sync_resource.Manager.{is_write_method_kind, Output, MutationRecord, ResourceValue}
use sync_resource.Manager.Changes.{unwrap_resource_value, collect_metrics}
use sync_resource.Manager.Envelopes.{
  build_envelope, build_mutation_record, commit_deferred_source_write,
}
use sync_resource.Manager.Execution.{
  check_in_flight, check_record, check_found, admit, admit_authorized, admit_identity,
  join_or_start, persist, after_persist, after_commit, pending_record, after_resource,
  read_cursor_of, run_from, run_resource, settle_identity, proceed, finish, execute,
}
use sync_resource.Manager.Calls.{
  allowed, Persistence, Authorization, MutationIdentity, Call, Manager, Success, answered, started,
  mutation_key, authorize, effective_id, identity_for, mutation_identity, differs, replay,
}
use sync_resource.Manager.Keeping.{
  IsKeeping, answer-after_persist, has_commit, no_commit, same_method_refl, store-after_persist,
  store-settle_identity,
}

-- A write of the caller's own id that meets neither a record nor a mutation in flight.
module _ {S : Type 0} (p : Persistence S) (manager_key : String) (next_cursor : ℕ → String)
    (c : Call) (id : String) (named : c.mutation_id ≡ some id) (set_id : is_set (some id) ≡ true)
    (writes : is_write_method_kind c.method ≡ true) where
  set_mutation_id : is_set c.mutation_id ≡ true
  set_mutation_id = ap is_set named ∙ set_id

  effective : effective_id c ≡ some id
  unfolding effective_id
  effective =
      if_false (not (is_write_method_kind c.method)) _ _ (ap not writes)
      ∙ if_true (is_set c.mutation_id) _ _ set_mutation_id
      ∙ named

  identity : mutation_identity c ≡ some (record { id = id; args_hash = c.hashed_args })
  unfolding mutation_identity identity_for
  identity =
      if_true (is_write_method_kind c.method) _ _ writes
      ∙ ap (λ (hash : String). identity_for (effective_id c) hash)
          (if_true (is_set c.mutation_id) _ _ set_mutation_id)
      ∙ ap (λ (i : Option String). identity_for i c.hashed_args) effective
      ∙ if_true (is_set (some id)) _ _ set_id

  admitted :
      (now : ℕ) (m : Manager S)
      → c.authorization ≡ allowed
      → admit p manager_key next_cursor now m c
        ≡ check_found p manager_key next_cursor m c id (p.read_mutation now m.store c.scope id)
  unfolding admit authorize admit_identity
  admitted now m welcome =
      ap (λ (a : Authorization). admit_authorized p manager_key next_cursor now m c (authorize a))
        welcome
      ∙ ap (admit_identity p manager_key next_cursor now m c) identity
      ∙ if_true (is_set c.mutation_id) _ _ set_mutation_id

  -- The first call.
  module _ (resource : ℕ → Call → SyncResult ResourceValue) (now : ℕ) (m : Manager S)
      (value : ResourceValue) (welcome : c.authorization ≡ allowed)
      (unknown : (p.read_mutation now m.store c.scope id).1 ≡ ok none)
      (alone : JsMap.get (mutation_key c.scope id) m.in_flight ≡ none)
      (runs : resource m.executions c ≡ ok value) (plain : has_commit value ≡ false) where
    abbrev noted : Manager S
    noted = record m {
      store = (p.read_mutation now m.store c.scope id).0;
      in_flight =
          JsMap.put (mutation_key c.scope id)
            (record { method = c.method; args_hash = c.hashed_args }) m.in_flight;
    }

    starts : admit p manager_key next_cursor now m c ≡ (noted, started)
    unfolding check_found check_record check_in_flight join_or_start
    starts =
        admitted now m welcome
        ∙ ap
            (check_record p manager_key next_cursor
              (record m { store = (p.read_mutation now m.store c.scope id).0 }) c id)
            unknown
        ∙ ap
            (join_or_start p manager_key next_cursor
              (record m { store = (p.read_mutation now m.store c.scope id).0 }) c id)
            alone

    abbrev built : Option SyncEnvelope × ℕ
    built =
        build_envelope next_cursor manager_key c.scope c.method c.args (effective_id c) c.client_id
          value m.cursor_index none

    abbrev new_record : MutationRecord
    new_record =
        build_mutation_record c.scope c.method id c.hashed_args (unwrap_resource_value value)
          built.0 (collect_metrics value) now

    abbrev ran : Manager S
    ran = record noted { executions = m.executions + 1; cursor_index = built.1 }

    abbrev written : S × Option SyncErrorCode
    written = p.record_mutation now noted.store new_record

    run_lem :
        run_resource p manager_key next_cursor resource now noted c
        ≡ after_persist p manager_key next_cursor ran c
            (unwrap_resource_value value)
            built.0
            value
            written
    unfolding run_resource read_cursor_of run_from after_resource after_commit pending_record
        persist build_mutation_record
    run_lem =
        let running : Manager S = record noted { executions = m.executions + 1 } in
        let output : Output = unwrap_resource_value value in
        let commit_of : Option MutationRecord → SyncResult (ResourceValue × Bool) = λ r.
          commit_deferred_source_write value (record { mutation_record = r; envelope = built.0 }) in
        ap (run_from p manager_key next_cursor resource now noted c)
          (if_true (is_write_method_kind c.method) _ _ writes)
        ∙ ap (after_resource p manager_key next_cursor now running c none) runs
        ∙ ap
            (λ (i : Option MutationIdentity).
              let r =
                pending_record p manager_key next_cursor now c i output built.0
                  (collect_metrics value) in
              after_commit p manager_key next_cursor now ran c output built.0 r (commit_of r))
            identity
        ∙ ap (after_commit p manager_key next_cursor now ran c output built.0 (some new_record)) (
            no_commit value (record { mutation_record = some new_record; envelope = built.0 })
              plain)

    abbrev success : Success
    success = record { output = unwrap_resource_value value; envelope = built.0 }

    first_call : execute p manager_key next_cursor resource now m c ≡ (
      settle_identity p manager_key next_cursor
          (after_persist p manager_key next_cursor ran c
            (unwrap_resource_value value)
            built.0
            value
            written).0
          c
          (mutation_identity c),
      some
          (after_persist p manager_key next_cursor ran c
            (unwrap_resource_value value)
            built.0
            value
            written).1,
    )
    unfolding execute proceed finish
    first_call =
        ap (proceed p manager_key next_cursor resource now c) starts
        ∙ ap
            (λ (r : Manager S × SyncResult Success).
              (settle_identity p manager_key next_cursor r.0 c (mutation_identity c), some r.1))
            run_lem

    replayed : replay new_record c ≡ ok success
    unfolding replay differs build_mutation_record
    replayed = rw (same_method_refl c.method, eq_refl c.hashed_args) refl

    second_call :
        (now' : ℕ) (m' : Manager S)
        → (p.read_mutation now' m'.store c.scope id).1 ≡ ok (some new_record)
        → execute p manager_key next_cursor resource now' m' c
          ≡ (record m' { store = (p.read_mutation now' m'.store c.scope id).0 }, some (ok success))
    unfolding execute check_found check_record proceed
    second_call now' m' found =
        let read : Manager S = record m' { store = (p.read_mutation now' m'.store c.scope id).0 } in
        ap (proceed p manager_key next_cursor resource now' c) (
          admitted now' m' welcome
          ∙ ap (check_record p manager_key next_cursor read c id) found
          ∙ ap (λ (a : SyncResult Success). (read, answered a)) replayed)

    -- A write with the caller's own mutation id that is called again, with the same arguments, runs
    -- the resource once: the second call answers the output and the envelope of the first, and it
    -- runs nothing, publishes nothing and takes no cursor. The first call is authorized, meets no
    -- record and no mutation in flight under its id, and succeeds with a value that brings no commit
    -- of its own; the persistence finds a record again for a time, and the second call falls into it.
    pub execute-execute :
        (IsGood : S → Type 0) (window : ℕ)
        → IsKeeping p IsGood window
        → IsGood m.store
        → (s : Success) → (execute p manager_key next_cursor resource now m c).1 ≡ some (ok s)
        → (now' : ℕ) → now ≤ now'
        → now' ≤ now + window
        → let m' = (execute p manager_key next_cursor resource now m c).0 in
          let again = execute p manager_key next_cursor resource now' m' c in
          (again.1 ≡ some (ok s))
          × (again.0.executions ≡ m.executions + 1)
          × (again.0.published ≡ m'.published)
          × (again.0.cursor_index ≡ m'.cursor_index)
    unfolding build_mutation_record
    execute-execute IsGood window keeping good s succeeds now' later soon =
        let answer : Manager S × SyncResult Success =
          after_persist p manager_key next_cursor ran c (unwrap_resource_value value) built.0 value
            written in
        let m' : Manager S = (execute p manager_key next_cursor resource now m c).0 in
        let first : some answer.1 ≡ some (ok s) =
          sym (ap (λ (r : Manager S × Option (SyncResult Success)). r.1) first_call) ∙ succeeds in
        let (stored, same) =
          answer-after_persist p manager_key next_cursor ran c (unwrap_resource_value value) built.0
            value written s (cc) in
        let after =
          store-after_persist p manager_key next_cursor ran c (unwrap_resource_value value) built.0
            value written in
        let settled =
          store-settle_identity p manager_key next_cursor answer.0 c (mutation_identity c) in
        let store' : m'.store ≡ written.0 =
          ap (λ (r : Manager S × Option (SyncResult Success)). r.0.store) first_call
          ∙ settled.0
          ∙ after.0 in
        let executions' : m'.executions ≡ m.executions + 1 =
          ap (λ (r : Manager S × Option (SyncResult Success)). r.0.executions) first_call
          ∙ settled.1
          ∙ after.1 in
        let found : (p.read_mutation now' m'.store c.scope id).1 ≡ ok (some new_record) =
          ap (λ (store : S). (p.read_mutation now' store c.scope id).1) store'
          ∙ keeping.kept now now' noted.store new_record
              (keeping.read_IsGood now m.store c.scope id good) refl later soon stored in
        let again = second_call now' m' found in
        (
          ap (λ (r : Manager S × Option (SyncResult Success)). r.1) again
              ∙ ap (λ (x : Success). some (ok x)) (sym same),
          ap (λ (r : Manager S × Option (SyncResult Success)). r.0.executions) again ∙ executions',
          ap (λ (r : Manager S × Option (SyncResult Success)). r.0.published) again,
          ap (λ (r : Manager S × Option (SyncResult Success)). r.0.cursor_index) again,
        )
