-- ===== src/Outbox/Runs.antt =====
-- The runs of the operations of the outbox of server/manager.ts, as histories.
use sync_resource.Shared.{
  ℕ, suc, ◌-◌, ◌<◌, String, ◌≡◌, refl, sym, ap, subst, ◌∙◌, false, Option, none, some, List, [],
  ◌∷◌, arith, inl, inr, eq_iff, length, get_elem?, get_last?, ltb, or_default, Bool-cases,
  Option-cases, if◌then◌else◌, ◌==◌,
}
use sync_resource.Shared.JsMap.{get, put}
use sync_resource.Protocol.{SyncEnvelope}
use sync_resource.Outbox.{
  ScopeLog, Outbox, slot, empty_log, append, pruned_log, prune_scope, new_outbox,
}
use sync_resource.Outbox.Refinement.{
  History, trimmed_history, Op, appending, pruning, run, histories, no_history, log_of, LogRefines,
  Refines, put-LogRefines, append-Refines, pruned_log-LogRefines,
}

trimmed_history_short : (h : History) → length h.envelopes ≡ 0 → trimmed_history h ≡ h
unfolding trimmed_history
trimmed_history_short h e =
    let short : ltb 1 (length h.envelopes) ≡ false = ground arith in rw short refl

untouched :
    (cap : ℕ) (o : Outbox) (hs : String → History) (scope : String)
    → get scope o.scopes ≡ none
    → Refines cap o hs
    → (s : String)
    → LogRefines cap (log_of s o) (if scope == s then trimmed_history (hs s) else hs s)
untouched cap o hs scope gone r s = elim (Bool-cases (scope == s)) [
  | inl same ↦
      let none_there : 0 ≡ length (hs scope).envelopes =
        ap (λ (l : Option ScopeLog). (or_default l empty_log).next) (sym gone)
        ∙ (r.logs scope).agrees.counted in
      let kept : LogRefines cap (log_of scope o) (trimmed_history (hs scope)) =
        rw (trimmed_history_short (hs scope) (sym none_there)) (r.logs scope) in
      rw same (
        subst (λ (k : String). LogRefines cap (log_of k o) (trimmed_history (hs k)))
          ((eq_iff scope s).0 same) kept)
  | inr other ↦ rw other (r.logs s)
]

prune_scope-none :
    (o : Outbox) (scope : String) → get scope o.scopes ≡ none → prune_scope o scope ≡ o
unfolding prune_scope
prune_scope-none o scope e = rw (prune_scope, e) refl

prune_scope-some :
    (o : Outbox) (scope : String) (log : ScopeLog)
    → get scope o.scopes ≡ some log
    → prune_scope o scope
      ≡ record o { scopes = put scope (pruned_log o.max_envelopes_per_scope log) o.scopes }
unfolding prune_scope
prune_scope-some o scope log e = rw (prune_scope, e) refl

prune_scope-Refines :
    (cap : ℕ) (o : Outbox) (hs : String → History) (scope : String)
    → 0 < cap
    → Refines cap o hs
    → Refines cap (prune_scope o scope) (λ s. if scope == s then trimmed_history (hs s) else hs s)
prune_scope-Refines cap o hs scope some_room r = elim (Option-cases (get scope o.scopes)) [
  | inl gone ↦
      rw (prune_scope-none o scope gone)
        (record { room = r.room; logs = untouched cap o hs scope gone r })
  | inr (log, there) ↦
      let same_log : log_of scope o ≡ log =
        ap (λ (l : Option ScopeLog). or_default l empty_log) there in
      let old : LogRefines cap log (hs scope) =
        subst (λ (l : ScopeLog). LogRefines cap l (hs scope)) same_log (r.logs scope) in
      let new : LogRefines cap (pruned_log o.max_envelopes_per_scope log)
          (trimmed_history (hs scope)) =
        subst (λ (m : ℕ). LogRefines cap (pruned_log m log) (trimmed_history (hs scope)))
          (sym r.room) (pruned_log-LogRefines cap log (hs scope) some_room old) in
      rw (prune_scope-some o scope log there) (record {
        room = r.room;
        logs =
            put-LogRefines cap o.scopes hs scope (pruned_log o.max_envelopes_per_scope log)
              trimmed_history r.logs new;
      })
]

pub run-Refines :
    (cap : ℕ) (ops : List Op) (o : Outbox) (hs : String → History)
    → 0 < cap
    → Refines cap o hs
    → Refines cap (run o ops) (histories hs ops)
unfolding run histories
run-Refines cap [] o hs some_room r = r
run-Refines cap (appending e ∷ ops) o hs some_room r =
    run-Refines cap ops (append o e) _ some_room (append-Refines cap o hs e some_room r)
run-Refines cap (pruning scope ∷ ops) o hs some_room r =
    run-Refines cap ops (prune_scope o scope) _ some_room
      (prune_scope-Refines cap o hs scope some_room r)

pub new_outbox-Refines :
    (origin : String) (cap : ℕ) → Refines cap (new_outbox origin cap) no_history
unfolding new_outbox get slot
new_outbox-Refines origin cap = record {
  room = refl;
  logs = λ scope. record {
    agrees = record {
      counted = refl;
      slots = λ i below kept. absurd (omega arith);
      unused = λ none_there. refl;
    };
    same_flag = refl;
  };
}

pub origin-new_outbox : (origin : String) (cap : ℕ) → (new_outbox origin cap).origin ≡ origin
unfolding new_outbox
origin-new_outbox origin cap = refl

origin-append : (o : Outbox) (e : SyncEnvelope) → (append o e).origin ≡ o.origin
unfolding append
origin-append o e = ground arith

origin-prune_scope : (o : Outbox) (scope : String) → (prune_scope o scope).origin ≡ o.origin
unfolding prune_scope
origin-prune_scope o scope = ground arith

pub origin-run : (ops : List Op) (o : Outbox) → (run o ops).origin ≡ o.origin
unfolding run
origin-run [] o = refl
origin-run (appending e ∷ ops) o = origin-run ops (append o e) ∙ origin-append o e
origin-run (pruning scope ∷ ops) o =
    origin-run ops (prune_scope o scope) ∙ origin-prune_scope o scope

pub get_last?-none : (es : List SyncEnvelope) → get_last? es ≡ none → length es ≡ 0
get_last?-none [] h = refl
get_last?-none (x ∷ []) h = cc
get_last?-none (x ∷ y ∷ ys) h = absurd (omega (arith, get_last?-none (y ∷ ys) h))

pub get_last?-some :
    (es : List SyncEnvelope) (e : SyncEnvelope)
    → get_last? es ≡ some e
    → (get_elem? es (length es - 1) ≡ some e) × (0 < length es)
get_last?-some [] e h = cc
get_last?-some (x ∷ []) e h = (h, omega arith)
get_last?-some (x ∷ y ∷ ys) e h =
    let (found, more) = get_last?-some (y ∷ ys) e h in
    let step : length (x ∷ y ∷ ys) - 1 ≡ suc (length (y ∷ ys) - 1) = omega arith in
    (ap (get_elem? (x ∷ y ∷ ys)) step ∙ found, omega arith)
