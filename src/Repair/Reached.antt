-- ===== src/Repair/Reached.antt =====
-- The states that the repair scheduler of client/repair.ts reaches, and the phase that each is in.
use sync_resource.Shared.{
  ℕ, ◌≡◌, refl, sym, ap, ◌∙◌, ◌≢◌, Bool, true, false, not, ◌&&◌, ◌||◌, Option, none, some, List, [],
  arith, length, eqb,
}
use sync_resource.Repair.{
  RepairResult, Outcome, Scheduler, create_repair_scheduler, timer_fired, run_settled, request,
  reject, dispose, caught, has_run,
}
use sync_resource.Repair.Phases.{
  Phase, idle, scheduled, busy, busy_and_queued, ended, run_of, concrete, asked_phase,
  asked_promises, fired_phase, settled_phase, disposed_phase, disposed_promises, runs,
  promises-concrete, request-concrete, timer_fired-concrete, running-concrete, run_settled-concrete,
  dispose-concrete,
}
use sync_resource.Repair.Promises.{eqb_refl, open_at, open_at-snoc, open_at-below, open_at-resolve}

-- One callback: a request, the timer where it is set, a repair that settles, or the disposal.
pub data Step (s : Scheduler) : Scheduler → Type 0 where
  asked : Step s (request s).0
  fired : s.timer ≡ true → Step s (timer_fired s)
  settled : (id : ℕ) (o : Outcome) → has_run id s.running ≡ true → Step s (run_settled id o s)
  shut : Step s (dispose s)

pub data Steps (s : Scheduler) : Scheduler → Type 0 where
  here : Steps s s
  step : (t u : Scheduler) → Steps s t → Step t u → Steps s u

-- The promises that a phase leaves open.
unfoldable pub waits : ℕ → Phase → Bool
waits id idle = false
waits id (scheduled q) = eqb id q
waits id (busy a) = eqb id a
waits id (busy_and_queued a q) = eqb id a || eqb id q
waits id (ended none) = false
waits id (ended (some a)) = eqb id a

abbrev pub Apart : Phase → Type 0
Apart (busy_and_queued a q) = a ≢ q
Apart _ = Unit {0}

abbrev pub Opens : Phase → List (Option RepairResult) → Type 0
Opens p ps = (id : ℕ) → open_at id ps ≡ waits id p

-- The scheduler is in a phase, and the open promises are those of the phase.
pub record IsScheduler (s : Scheduler) : Type 0 where
  pub phase : Phase
  pub shape : s ≡ concrete phase s.promises
  pub opens : Opens phase s.promises
  pub apart : Apart phase

concrete-IsScheduler :
    (s : Scheduler) (p : Phase) (ps : List (Option RepairResult))
    → s ≡ concrete p ps
    → Opens p ps
    → Apart p
    → IsScheduler s
concrete-IsScheduler s p ps e opens apart =
    let same : s.promises ≡ ps = ap (λ (t : Scheduler). t.promises) e ∙ promises-concrete p ps in
    record {
      phase = p;
      shape = e ∙ ap (concrete p) (sym same);
      opens = λ id. ap (open_at id) same ∙ opens id;
      apart = apart;
    }

pub create-IsScheduler : IsScheduler create_repair_scheduler
unfolding create_repair_scheduler concrete waits
create-IsScheduler = concrete-IsScheduler _ idle [] refl (λ id. refl) tt

asked-Opens :
    (p : Phase) (ps : List (Option RepairResult))
    → Opens p ps
    → Opens (asked_phase (length ps) p) (asked_promises p ps)
unfolding asked_phase asked_promises waits
asked-Opens idle ps h id = open_at-snoc id ps ∙ ap (λ b. b || eqb id (length ps)) (h id)
asked-Opens (scheduled q) ps h id = h id
asked-Opens (busy a) ps h id = open_at-snoc id ps ∙ ap (λ b. b || eqb id (length ps)) (h id)
asked-Opens (busy_and_queued a q) ps h id = h id
asked-Opens (ended a) ps h id = h id

asked-Apart :
    (p : Phase) (ps : List (Option RepairResult))
    → Opens p ps
    → Apart p
    → Apart (asked_phase (length ps) p)
unfolding asked_phase waits
asked-Apart idle ps h d = tt
asked-Apart (scheduled q) ps h d = tt
asked-Apart (busy a) ps h d =
    let below = open_at-below a ps (h a ∙ eqb_refl a) in λ e. absurd (omega (arith, below, e))
asked-Apart (busy_and_queued a q) ps h d = d
asked-Apart (ended a) ps h d = tt

fired-Opens : (p : Phase) (ps : List (Option RepairResult)) → Opens p ps → Opens (fired_phase p) ps
unfolding fired_phase waits
fired-Opens idle ps h = h
fired-Opens (scheduled q) ps h = h
fired-Opens (busy a) ps h = h
fired-Opens (busy_and_queued a q) ps h = h
fired-Opens (ended a) ps h = h

fired-Apart : (p : Phase) → Apart p → Apart (fired_phase p)
unfolding fired_phase
fired-Apart idle d = tt
fired-Apart (scheduled q) d = tt
fired-Apart (busy a) d = tt
fired-Apart (busy_and_queued a q) d = d
fired-Apart (ended a) d = tt

-- What waits after the promise `a` is settled.
settled-waits :
    (p : Phase) (a id : ℕ)
    → runs p ≡ some a
    → Apart p
    → waits id p && not (eqb id a) ≡ waits id (settled_phase p)
unfolding runs settled_phase waits
settled-waits idle a id h d = absurd (grind (arith, h))
settled-waits (scheduled q) a id h d = absurd (grind (arith, h))
settled-waits (busy b) a id h d = let same : b ≡ a = grind (arith, h) in ground (arith, same)
settled-waits (busy_and_queued b q) a id h d =
    let same : b ≡ a = grind (arith, h) in ground (arith, same, d)
settled-waits (ended none) a id h d = absurd (grind (arith, h))
settled-waits (ended (some b)) a id h d =
    let same : b ≡ a = grind (arith, h) in ground (arith, same)

settled-Apart : (p : Phase) → Apart (settled_phase p)
unfolding settled_phase
settled-Apart idle = tt
settled-Apart (scheduled q) = tt
settled-Apart (busy a) = tt
settled-Apart (busy_and_queued a q) = tt
settled-Apart (ended a) = tt

disposed-Opens :
    (p : Phase) (ps : List (Option RepairResult))
    → Opens p ps
    → Apart p
    → Opens (disposed_phase p) (disposed_promises p ps)
unfolding disposed_phase disposed_promises reject waits
disposed-Opens idle ps h d id = h id
disposed-Opens (scheduled q) ps h d id = open_at-resolve id q _ ps ∙ ground (arith, h id)
disposed-Opens (busy a) ps h d id = h id
disposed-Opens (busy_and_queued a q) ps h d id = open_at-resolve id q _ ps ∙ ground (arith, h id, d)
disposed-Opens (ended none) ps h d id = h id
disposed-Opens (ended (some a)) ps h d id = h id

disposed-Apart : (p : Phase) → Apart (disposed_phase p)
unfolding disposed_phase
disposed-Apart idle = tt
disposed-Apart (scheduled q) = tt
disposed-Apart (busy a) = tt
disposed-Apart (busy_and_queued a q) = tt
disposed-Apart (ended a) = tt

has_run-run_of : (id : ℕ) (o : Option ℕ) → has_run id (run_of o) ≡ true → o ≡ some id
unfolding run_of
has_run-run_of id none h = absurd (grind (arith, h))
has_run-run_of id (some a) h = ap some (ground (arith, h))

-- A repair that runs is the one of the phase.
pub IsScheduler-runs :
    (s : Scheduler) (h : IsScheduler s) (id : ℕ)
    → has_run id s.running ≡ true
    → runs h.phase ≡ some id
IsScheduler-runs s h id run =
    let same = ap (λ (t : Scheduler). t.running) h.shape ∙ running-concrete h.phase s.promises in
    has_run-run_of id (runs h.phase) (sym (ap (has_run id) same) ∙ run)

pub Step-IsScheduler : (s t : Scheduler) → IsScheduler s → Step s t → IsScheduler t
Step-IsScheduler s _ h asked =
    concrete-IsScheduler _ _ _
      (ap (λ t. (request t).0) h.shape ∙ request-concrete h.phase s.promises)
      (asked-Opens h.phase s.promises h.opens) (asked-Apart h.phase s.promises h.opens h.apart)
Step-IsScheduler s _ h (fired set) =
    concrete-IsScheduler _ _ _ (ap timer_fired h.shape ∙ timer_fired-concrete h.phase s.promises)
      (fired-Opens h.phase s.promises h.opens) (fired-Apart h.phase h.apart)
Step-IsScheduler s _ h (settled id o run) =
    let at = IsScheduler-runs s h id run in
    concrete-IsScheduler _ _ _
      (ap (run_settled id o) h.shape ∙ run_settled-concrete h.phase s.promises id o at)
      (λ i.
        open_at-resolve i id (caught o) s.promises
        ∙ ap (λ b. b && not (eqb i id)) (h.opens i)
        ∙ settled-waits h.phase id i at h.apart)
      (settled-Apart h.phase)
Step-IsScheduler s _ h shut =
    concrete-IsScheduler _ _ _ (ap dispose h.shape ∙ dispose-concrete h.phase s.promises)
      (disposed-Opens h.phase s.promises h.opens h.apart) (disposed-Apart h.phase)

pub Steps-IsScheduler : (s t : Scheduler) → IsScheduler s → Steps s t → IsScheduler t
Steps-IsScheduler s _ h here = h
Steps-IsScheduler s _ h (step t u before last) =
    Step-IsScheduler t u (Steps-IsScheduler s t h before) last
