-- ===== src/Manager/Publishing.antt =====
-- What a call of server/manager.ts publishes, and what it leaves alone when it fails.
use sync_resource.Shared.{
  ℕ, ◌+◌, ◌<◌, String, ◌≡◌, refl, sym, ap, ◌∙◌, Bool, Option, none, some, List, [], ◌∷◌, ◌++◌,
  arith, inl, inr, eqb, length, Bool-cases, if◌then◌else◌,
}
use mathlib.Core.List.{append-nil, append_assoc}
use sync_resource.Js.{is_set}
use sync_resource.Protocol.{SyncErrorCode, SyncEnvelope}
use sync_resource.Result.{SyncResult, ok, err}
use sync_resource.Manager.{
  MethodKind, is_write_method_kind, Output, MutationRecord, ResourceValue, Publication,
}
use sync_resource.Manager.Changes.{collect_signals, unwrap_resource_value, collect_metrics}
use sync_resource.Manager.Envelopes.{
  build_envelope, build_signal_envelope, commit_deferred_source_write,
}
use sync_resource.Manager.Execution.{
  pending_record, persist, publish_write, publish_signals, publish_all, after_persist, after_commit,
  after_resource, read_cursor_of, run_from, run_resource, settle_identity, finish,
}
use sync_resource.Manager.Calls.{
  Persistence, MutationIdentity, Call, Manager, Success, mutation_identity, effective_id,
}

-- What publish sees of the envelope of a call.
unfoldable pub published_envelope : MethodKind → Option SyncEnvelope → List Publication
published_envelope method none = []
published_envelope method (some e) =
    if is_write_method_kind method then record { envelope = e; signals = [] } ∷ [] else []

-- Publications that carry signals and no changes.
abbrev pub AllSignals : List Publication → Type 0
AllSignals [] = Unit {0}
AllSignals (s ∷ ps) = (s.envelope.changes ≡ []) × (0 < length s.signals) × AllSignals ps

-- What a call adds to the publications of a manager: nothing where it fails, and otherwise the
-- envelope that it answers, if it is a write, and then signals.
abbrev pub Publishes :
    {S : Type 0} → List Publication → MethodKind → Manager S × SyncResult Success → Type 0
Publishes before method (m, err code) = m.published ≡ before
Publishes before method (m, ok s) =
    (signals : List Publication) × (m.published
      ≡ before ++ (published_envelope method s.envelope ++ signals))
    × AllSignals signals

module _ {S : Type 0} (p : Persistence S) (manager_key : String) (next_cursor : ℕ → String) where
  published-publish_write :
      (m : Manager S) (method : MethodKind) (envelope : Option SyncEnvelope)
      → (publish_write p manager_key next_cursor m method envelope).published
        ≡ m.published ++ published_envelope method envelope
  unfolding publish_write published_envelope
  published-publish_write m method none = sym (append-nil m.published)
  published-publish_write m method (some e) = elim (Bool-cases (is_write_method_kind method)) [
    | inl writes ↦ rw writes refl
    | inr reads ↦ rw reads (sym (append-nil m.published))
  ]

  -- What publish_signals adds.
  abbrev signalled : Option Publication × ℕ → List Publication
  signalled (none, index) = []
  signalled (some s, index) = s ∷ []

  published-publish_signals :
      (m : Manager S) (s : Option Publication × ℕ)
      → (publish_signals p manager_key next_cursor m s).published ≡ m.published ++ signalled s
  unfolding publish_signals
  published-publish_signals m (none, index) = sym (append-nil m.published)
  published-publish_signals m (some s, index) = refl

  signalled-AllSignals :
      (scope : String) (raw : ResourceValue) (index : ℕ)
      → AllSignals (signalled (build_signal_envelope next_cursor manager_key scope raw index))
  unfolding build_signal_envelope
  signalled-AllSignals scope raw index = elim (Bool-cases (eqb (length (collect_signals raw)) 0)) [
    | inl quiet ↦ rw quiet tt
    | inr some_there ↦ rw some_there (refl, ground arith, tt)
  ]

  publish_all-Publishes :
      (m : Manager S) (c : Call) (output : Output) (envelope : Option SyncEnvelope)
      (raw : ResourceValue)
      → Publishes m.published c.method
          (publish_all p manager_key next_cursor m c output envelope raw)
  unfolding publish_all
  publish_all-Publishes m c output envelope raw =
      let s = build_signal_envelope next_cursor manager_key c.scope raw m.cursor_index in
      let after : Manager S = publish_write p manager_key next_cursor m c.method envelope in
      (
        signalled s,
        published-publish_signals after s
            ∙ ap (λ (ps : List Publication). ps ++ signalled s)
                (published-publish_write m c.method envelope)
            ∙ append_assoc m.published (published_envelope c.method envelope) (signalled s),
        signalled-AllSignals c.scope raw m.cursor_index,
      )

  after_persist-Publishes :
      (m : Manager S) (c : Call) (output : Output) (envelope : Option SyncEnvelope)
      (raw : ResourceValue) (w : S × Option SyncErrorCode)
      → Publishes m.published c.method
          (after_persist p manager_key next_cursor m c output envelope raw w)
  unfolding after_persist
  after_persist-Publishes m c output envelope raw (store, some code) = refl
  after_persist-Publishes m c output envelope raw (store, none) =
      publish_all-Publishes (record m { store = store }) c output envelope raw

  after_commit-Publishes :
      (now : ℕ) (m : Manager S) (c : Call) (output : Output) (envelope : Option SyncEnvelope)
      (pending : Option MutationRecord) (committed : SyncResult (ResourceValue × Bool))
      → Publishes m.published c.method
          (after_commit p manager_key next_cursor now m c output envelope pending committed)
  unfolding after_commit
  after_commit-Publishes now m c output envelope pending (err code) = refl
  after_commit-Publishes now m c output envelope pending (ok (raw, persisted)) =
      after_persist-Publishes m c output envelope raw
        (persist p manager_key next_cursor now m.store pending (collect_metrics raw) persisted)

  after_resource-Publishes :
      (now : ℕ) (m : Manager S) (c : Call) (read_cursor : Option String)
      (answer : SyncResult ResourceValue)
      → Publishes m.published c.method
          (after_resource p manager_key next_cursor now m c read_cursor answer)
  unfolding after_resource
  after_resource-Publishes now m c read_cursor (err code) = refl
  after_resource-Publishes now m c read_cursor (ok value) =
      let built =
        build_envelope next_cursor manager_key c.scope c.method c.args (effective_id c) c.client_id
          value m.cursor_index read_cursor in
      let output = unwrap_resource_value value in
      let pending =
        pending_record p manager_key next_cursor now c (mutation_identity c) output built.0
          (collect_metrics value) in
      after_commit-Publishes now (record m { cursor_index = built.1 }) c output built.0 pending
        (commit_deferred_source_write value
          (record { mutation_record = pending; envelope = built.0 }))

  run_from-Publishes :
      (resource : ℕ → Call → SyncResult ResourceValue) (now : ℕ) (m : Manager S) (c : Call)
      (cursor : SyncResult (Option String))
      → Publishes m.published c.method (run_from p manager_key next_cursor resource now m c cursor)
  unfolding run_from
  run_from-Publishes resource now m c (err code) = refl
  run_from-Publishes resource now m c (ok cursor) =
      after_resource-Publishes now (record m { executions = m.executions + 1 }) c cursor
        (resource m.executions c)

  published-settle_identity :
      (m : Manager S) (c : Call) (i : Option MutationIdentity)
      → (settle_identity p manager_key next_cursor m c i).published ≡ m.published
  unfolding settle_identity
  published-settle_identity m c none = refl
  published-settle_identity m c (some identity) = elim (Bool-cases (is_set c.mutation_id)) [
    | inl own ↦ rw own refl
    | inr other ↦ rw other refl
  ]

  settled-Publishes :
      (before : List Publication) (method : MethodKind) (m m' : Manager S)
      (answer : SyncResult Success)
      → m'.published ≡ m.published
      → Publishes before method (m, answer)
      → Publishes before method (m', answer)
  settled-Publishes before method m m' (err code) same h = same ∙ h
  settled-Publishes before method m m' (ok s) same (signals, h, quiet) = (signals, same ∙ h, quiet)

  -- A call that runs the resource publishes nothing when it fails, wherever it fails: in the
  -- resource, in the commit of the source or in the persistence. When it succeeds, it publishes first
  -- the envelope that it answers to its caller, if it is a write that has one, and then at most
  -- signals, which carry no changes; so a read never publishes changes.
  pub finish-Publishes :
      (resource : ℕ → Call → SyncResult ResourceValue) (now : ℕ) (m : Manager S) (c : Call)
      → Publishes m.published c.method (finish p manager_key next_cursor resource now m c)
  unfolding finish run_resource
  finish-Publishes resource now m c =
      let run = run_resource p manager_key next_cursor resource now m c in
      settled-Publishes m.published c.method run.0
        (settle_identity p manager_key next_cursor run.0 c (mutation_identity c)) run.1
        (published-settle_identity run.0 c (mutation_identity c))
        (run_from-Publishes resource now m c (read_cursor_of p manager_key next_cursor m c))
