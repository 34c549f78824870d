-- ===== src/Manager/Keeping.antt =====
-- What the steps of an execution in server/manager.ts keep.
use sync_resource.Shared.{
  ℕ, ◌+◌, ◌≤◌, String, ◌≡◌, refl, ◌∙◌, Bool, true, false, not, ◌&&◌, ◌||◌, Option, none, some, List,
  arith, inl, inr, is_some, if_false, Bool-cases,
}
use sync_resource.Js.{Value, is_set}
use sync_resource.Protocol.{SyncErrorCode, SyncEnvelope}
use sync_resource.Result.{ok}
use sync_resource.Manager.{
  MethodKind, get, list, add, mutate, delete, is_write_method_kind, Output, MutationRecord,
  CommitContext, Commit, state_ok, signal_ok, ResourceValue, single, batch, Publication,
}
use sync_resource.Manager.Envelopes.{
  build_signal_envelope, commit_source, batch_has_source_commit, commit_deferred_source_write,
}
use sync_resource.Manager.Execution.{
  after_persist, settle_identity, publish_all, publish_write, publish_signals,
}
use sync_resource.Manager.Calls.{Persistence, MutationIdentity, Call, Manager, Success, same_method}

-- Whether the value of a resource brings its own commit.
unfoldable pub has_commit : ResourceValue → Bool
has_commit (single (signal_ok signals)) = false
has_commit (single (state_ok s)) = is_some s.source_commit
has_commit (batch b) = is_some b.source_commit || batch_has_source_commit b.items

-- What the manager relies on: a record that was stored is found again until the window ends, while
-- the store is good, and reading keeps the store good.
pub record IsKeeping {S : Type 0} (p : Persistence S) (IsGood : S → Type 0) (window : ℕ)
    : Type 0 where
  pub kept :
      (now now' : ℕ) (s : S) (r : MutationRecord)
      → IsGood s
      → r.created_at ≡ now
      → now ≤ now'
      → now' ≤ now + window
      → (p.record_mutation now s r).1 ≡ none
      → (p.read_mutation now' (p.record_mutation now s r).0 r.scope r.mutation_id).1 ≡ ok (some r)
  pub read_IsGood :
      (now : ℕ) (s : S) (scope id : String) → IsGood s → IsGood (p.read_mutation now s scope id).0

pub same_method_refl : (k : MethodKind) → same_method k k ≡ true
unfolding same_method
same_method_refl get = refl
same_method_refl list = refl
same_method_refl add = refl
same_method_refl mutate = refl
same_method_refl delete = refl

commit_source_none :
    (commit : Option Commit) (context : CommitContext) (value : ResourceValue)
    (rebuild : Option (List Value) → ResourceValue)
    → is_some commit ≡ false
    → commit_source commit context value rebuild ≡ ok (value, false)
unfolding commit_source
commit_source_none none context value rebuild h = refl
commit_source_none (some commit) context value rebuild h = cc

pub no_commit :
    (value : ResourceValue) (context : CommitContext)
    → has_commit value ≡ false
    → commit_deferred_source_write value context ≡ ok (value, false)
unfolding has_commit commit_deferred_source_write
no_commit (single (signal_ok signals)) context h = refl
no_commit (single (state_ok s)) context h =
    commit_source_none s.source_commit context (single (state_ok s)) _ h
no_commit (batch b) context h =
    if_false (not (is_some b.source_commit) && batch_has_source_commit b.items) _ _ (ground arith)
    ∙ commit_source_none b.source_commit context (batch b) _ (ground arith)

module _ {S : Type 0} (p : Persistence S) (manager_key : String) (next_cursor : ℕ → String) where
  store-publish_write :
      (m : Manager S) (method : MethodKind) (envelope : Option SyncEnvelope)
      → ((publish_write p manager_key next_cursor m method envelope).store ≡ m.store)
        × ((publish_write p manager_key next_cursor m method envelope).executions ≡ m.executions)
        × ((publish_write p manager_key next_cursor m method envelope).cursor_index
            ≡ m.cursor_index)
  unfolding publish_write
  store-publish_write m method none = (refl, refl, refl)
  store-publish_write m method (some e) = elim (Bool-cases (is_write_method_kind method)) [
    | inl writes ↦ rw writes (refl, refl, refl)
    | inr reads ↦ rw reads (refl, refl, refl)
  ]

  store-publish_signals :
      (m : Manager S) (s : Option Publication × ℕ)
      → ((publish_signals p manager_key next_cursor m s).store ≡ m.store)
        × ((publish_signals p manager_key next_cursor m s).executions ≡ m.executions)
  unfolding publish_signals
  store-publish_signals m (none, index) = (refl, refl)
  store-publish_signals m (some s, index) = (refl, refl)

  store-publish_all :
      (m : Manager S) (c : Call) (output : Output) (envelope : Option SyncEnvelope)
      (raw : ResourceValue)
      → ((publish_all p manager_key next_cursor m c output envelope raw).0.store ≡ m.store)
        × ((publish_all p manager_key next_cursor m c output envelope raw).0.executions
            ≡ m.executions)
  unfolding publish_all
  store-publish_all m c output envelope raw =
      let after : Manager S = publish_write p manager_key next_cursor m c.method envelope in
      let written = store-publish_write m c.method envelope in
      let signalled =
        store-publish_signals after
          (build_signal_envelope next_cursor manager_key c.scope raw m.cursor_index) in
      (signalled.0 ∙ written.0, signalled.1 ∙ written.1)

  pub store-after_persist :
      (m : Manager S) (c : Call) (output : Output) (envelope : Option SyncEnvelope)
      (raw : ResourceValue) (w : S × Option SyncErrorCode)
      → ((after_persist p manager_key next_cursor m c output envelope raw w).0.store ≡ w.0)
        × ((after_persist p manager_key next_cursor m c output envelope raw w).0.executions
            ≡ m.executions)
  unfolding after_persist
  store-after_persist m c output envelope raw (store, some code) = (refl, refl)
  store-after_persist m c output envelope raw (store, none) =
      store-publish_all (record m { store = store }) c output envelope raw

  pub store-settle_identity :
      (m : Manager S) (c : Call) (i : Option MutationIdentity)
      → ((settle_identity p manager_key next_cursor m c i).store ≡ m.store)
        × ((settle_identity p manager_key next_cursor m c i).executions ≡ m.executions)
  unfolding settle_identity
  store-settle_identity m c none = (refl, refl)
  store-settle_identity m c (some identity) = elim (Bool-cases (is_set c.mutation_id)) [
    | inl own ↦ rw own (refl, refl)
    | inr other ↦ rw other (refl, refl)
  ]

  -- A failure of the store is the answer.
  pub answer-after_persist :
      (m : Manager S) (c : Call) (output : Output) (envelope : Option SyncEnvelope)
      (raw : ResourceValue) (w : S × Option SyncErrorCode) (s : Success)
      → (after_persist p manager_key next_cursor m c output envelope raw w).1 ≡ ok s
      → (w.1 ≡ none) × (s ≡ record { output = output; envelope = envelope })
  unfolding after_persist publish_all
  answer-after_persist m c output envelope raw (store, some code) s h = cc
  answer-after_persist m c output envelope raw (store, none) s h = (refl, cc)
