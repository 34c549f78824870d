-- ===== src/Outbox/Refinement.antt =====
-- The outbox of server/manager.ts against the plain lists of what was appended for each scope.
use native.Mathlib.Nat.{zero-mod}
use sync_resource.Shared.{
  if_false, drop-get, drop-past, ℕ, zero, suc, ◌+◌, ◌-◌, ◌%◌, ◌≤◌, ◌<◌, min, String, ◌≡◌, refl, sym,
  ap, subst, ◌∙◌, Bool, true, false, ◌||◌, Option, none, some, List, [], ◌∷◌, ◌++◌, arith, inl, inr,
  eq_iff, length, get_elem?, get_last?, take, drop, ltb, leb, eqb, or_default, Bool-cases,
  if◌then◌else◌, ◌==◌, map,
}
use sync_resource.Shared.JsMap.{JsMap, get, put, get-put}
use sync_resource.Protocol.{SyncEnvelope}
use sync_resource.Outbox.{
  ScopeLog, Outbox, OutboxRead, slot, empty_log, append_to, append, pruned_log, prune_scope,
}
use sync_resource.Outbox.Ring.{Agrees, append_to-Agrees, after_cursor}

-- What the outbox promises for a scope: the envelopes that were appended, and whether a pruning has
-- dropped some.
pub record History : Type 0 where
  pub envelopes : List SyncEnvelope
  pub trimmed : Bool

unfoldable pub extended : History → SyncEnvelope → History
extended h e = record h { envelopes = h.envelopes ++ e ∷ [] }

unfoldable pub trimmed_history : History → History
trimmed_history h =
    if ltb 1 (length h.envelopes)
    then record { envelopes = drop (length h.envelopes - 1) h.envelopes; trimmed = true }
    else h

-- The envelopes after a cursor, if nothing after it is lost.
unfoldable pub since : ℕ → String → History → String → Option (List SyncEnvelope)
since cap origin h cursor =
    if cursor == origin
    then if h.trimmed || leb cap (length h.envelopes) then none else some h.envelopes
    else after_cursor cursor (drop (length h.envelopes - cap) h.envelopes)

unfoldable pub read_history : ℕ → String → History → String → ℕ → OutboxRead
read_history cap origin h cursor limit =
    let retained = min (length h.envelopes) cap in
    elim (since cap origin h cursor) [
      | none ↦ record { envelopes = []; cursor_found = false; retained_envelope_count = retained }
      | some es ↦ record {
        envelopes = map some (take limit es);
        cursor_found = true;
        retained_envelope_count = retained;
      }
    ]

unfoldable pub last_cursor : String → History → String
last_cursor origin h = elim (get_last? h.envelopes) [ none ↦ origin | some e ↦ e.cursor ]

pub data Op : Type 0 where
  appending : SyncEnvelope → Op
  pruning : String → Op

-- The outbox after some operations.
unfoldable pub run : Outbox → List Op → Outbox
run o [] = o
run o (appending e ∷ ops) = run (append o e) ops
run o (pruning scope ∷ ops) = run (prune_scope o scope) ops

-- The histories after some operations.
unfoldable pub histories : (String → History) → List Op → String → History
histories hs [] = hs
histories hs (appending e ∷ ops) =
    histories (λ s. if e.scope == s then extended (hs s) e else hs s) ops
histories hs (pruning scope ∷ ops) =
    histories (λ s. if scope == s then trimmed_history (hs s) else hs s) ops

abbrev pub no_history : String → History
no_history s = record { envelopes = []; trimmed = false }

abbrev pub log_of : String → Outbox → ScopeLog
log_of scope o = or_default (get scope o.scopes) empty_log

pub record LogRefines (cap : ℕ) (log : ScopeLog) (h : History) : Type 0 where
  pub agrees : Agrees cap log h.envelopes
  pub same_flag : log.trimmed ≡ h.trimmed

pub record Refines (cap : ℕ) (o : Outbox) (hs : String → History) : Type 0 where
  pub room : o.max_envelopes_per_scope ≡ cap
  pub logs : (scope : String) → LogRefines cap (log_of scope o) (hs scope)

extended-LogRefines :
    (cap : ℕ) (log : ScopeLog) (h : History) (e : SyncEnvelope)
    → 0 < cap
    → LogRefines cap log h
    → LogRefines cap (append_to cap log e) (extended h e)
unfolding append_to extended
extended-LogRefines cap log h e some_room r = record {
  agrees = append_to-Agrees cap log h.envelopes e some_room r.agrees;
  same_flag = r.same_flag;
}

-- Replacing the log of one scope leaves the others as they are.
pub put-LogRefines :
    (cap : ℕ) (scopes : JsMap ScopeLog) (hs : String → History) (key : String) (log : ScopeLog)
    (step : History → History)
    → ((scope : String) → LogRefines cap (or_default (get scope scopes) empty_log) (hs scope))
    → LogRefines cap log (step (hs key))
    → (scope : String)
    → LogRefines cap
        (or_default (get scope (put key log scopes)) empty_log)
        (if key == scope then step (hs scope) else hs scope)
put-LogRefines cap scopes hs key log step old new scope = elim (Bool-cases (key == scope)) [
  | inl same ↦
      let here : key ≡ scope = (eq_iff key scope).0 same in
      rw (get-put key scope log scopes, same)
        (subst (λ (k : String). LogRefines cap log (step (hs k))) here new)
  | inr other ↦ rw (get-put key scope log scopes, other) (old scope)
]

pub append-Refines :
    (cap : ℕ) (o : Outbox) (hs : String → History) (e : SyncEnvelope)
    → 0 < cap
    → Refines cap o hs
    → Refines cap (append o e) (λ s. if e.scope == s then extended (hs s) e else hs s)
unfolding append
append-Refines cap o hs e some_room r =
    let log : ScopeLog = append_to o.max_envelopes_per_scope (log_of e.scope o) e in
    let after : Outbox = record o { scopes = put e.scope log o.scopes } in
    let kept : append o e ≡ after =
      if_false (eqb o.max_envelopes_per_scope 0) _ _ (ground (arith, r.room)) in
    let new : LogRefines cap log (extended (hs e.scope) e) =
      subst (λ (m : ℕ). LogRefines cap (append_to m (log_of e.scope o) e) (extended (hs e.scope) e))
        (sym r.room)
        (extended-LogRefines cap (log_of e.scope o) (hs e.scope) e some_room (r.logs e.scope)) in
    rw kept (record {
      room = r.room;
      logs = put-LogRefines cap o.scopes hs e.scope log (λ h. extended h e) r.logs new;
    })

last-Agrees :
    (cap : ℕ) (log : ScopeLog) (history : List SyncEnvelope)
    → 0 < cap
    → 0 < length history
    → Agrees cap log history
    → Agrees cap
        (record { ring = slot log.ring ((log.next - 1) % cap) ∷ []; next = 1; trimmed = true })
        (drop (length history - 1) history)
unfolding slot
last-Agrees cap log history some_room some_there h =
    let i : ℕ = length history - 1 in
    let (e, found, split) = drop-get history i (omega arith) in
    let ends : i + 1 ≡ length history = omega arith in
    let single : drop i history ≡ e ∷ [] =
      split ∙ ap (◌∷◌ e) (drop-past history (i + 1) (omega (arith, ends))) in
    let last : log.next - 1 ≡ i = omega (arith, h.counted) in
    let here : slot log.ring ((log.next - 1) % cap) ≡ some e =
      ap (λ (k : ℕ). slot log.ring (k % cap)) last
      ∙ h.slots i (omega arith) (omega arith)
      ∙ found in
    rw (single, here)
      (record { counted = refl; slots = only e; unused = λ none_there. absurd (omega arith) })
  where
    only :
        (e : SyncEnvelope) (i : ℕ)
        → i < 1
        → 1 ≤ i + cap
        → or_default (get_elem? (some e ∷ []) (i % cap)) none ≡ get_elem? (e ∷ []) i
    only e zero below kept = rw (zero-mod cap) refl
    only e (suc i) below kept = absurd (omega arith)

pub pruned_log-LogRefines :
    (cap : ℕ) (log : ScopeLog) (h : History)
    → 0 < cap
    → LogRefines cap log h
    → LogRefines cap (pruned_log cap log) (trimmed_history h)
unfolding pruned_log trimmed_history
pruned_log-LogRefines cap log h some_room r =
    let same : ltb 1 log.next ≡ ltb 1 (length h.envelopes) = ap (ltb 1) r.agrees.counted in
    elim (Bool-cases (ltb 1 (length h.envelopes))) [
      | inl more ↦
          let some_there : 0 < length h.envelopes = ground arith in
          rw (same ∙ more, more)
            (record {
              agrees = last-Agrees cap log h.envelopes some_room some_there r.agrees;
              same_flag = refl;
            })
      | inr few ↦ rw (same ∙ few, few) r
    ]
