-- ===== src/Repair/Served.antt =====
-- The repairs of client/repair.ts that are asked for are run and answered.
use sync_resource.Shared.{
  ℕ, ◌≡◌, refl, sym, ap, ◌∙◌, true, false, ◌||◌, Option, none, some, List, [], ◌∷◌, arith, inl, inr,
  eqb, get_elem?, Bool-cases,
}
use sync_resource.Repair.{
  RepairResult, Outcome, Scheduler, create_repair_scheduler, timer_fired, run_settled, resolve,
  caught, has_run,
}
use sync_resource.Repair.Phases.{
  Phase, idle, scheduled, busy, busy_and_queued, ended, run_of, concrete, fired_phase,
  settled_phase, runs, promises-concrete, timer_fired-concrete, running-concrete,
  run_settled-concrete,
}
use sync_resource.Repair.Promises.{eqb_refl, open_at, open_at-resolve, resolve-open}
use sync_resource.Repair.Reached.{
  Step, Steps, here, step, fired, settled, waits, create-IsScheduler, Steps-IsScheduler,
}

-- Some callbacks from `s` on answer the promise `id` with what its own run returns.
abbrev pub Serves : Scheduler → ℕ → Outcome → Type 0
Serves s id o = (t : Scheduler) × (Steps s t × (get_elem? t.promises id ≡ some (some (caught o))))

first_then : (s u t : Scheduler) → Step s u → Steps u t → Steps s t
first_then s u _ one here = step s u here one
first_then s u _ one (step t v before last) = step t v (first_then s u t one before) last

after-Serves : (s u : Scheduler) (id : ℕ) (o : Outcome) → Step s u → Serves u id o → Serves s id o
after-Serves s u id o one (t, (after, answered)) = (t, (first_then s u t one after, answered))

module _ (s : Scheduler) (ps : List (Option RepairResult)) (id : ℕ) (o : Outcome) where
  running-Serves :
      (p : Phase) → s ≡ concrete p ps → runs p ≡ some id → open_at id ps ≡ true → Serves s id o
  unfolding run_of
  running-Serves p shape run opened =
      let running : s.running ≡ id ∷ [] =
        ap (λ (t : Scheduler). t.running) shape ∙ running-concrete p ps ∙ ap run_of run in
      let after : (run_settled id o s).promises ≡ resolve id (caught o) ps =
        ap (λ (t : Scheduler). t.promises)
          (ap (run_settled id o) shape ∙ run_settled-concrete p ps id o run)
        ∙ promises-concrete (settled_phase p) _ in
      let has : has_run id s.running ≡ true = rw (running, eqb_refl id) refl in
      (
        run_settled id o s,
        (
          step s _ here (settled id o has),
          ap (λ qs. get_elem? qs id) after ∙ resolve-open id (caught o) ps opened,
        ),
      )

scheduled-Serves :
    (s : Scheduler) (ps : List (Option RepairResult)) (id q : ℕ) (o : Outcome)
    → s ≡ concrete (scheduled q) ps
    → eqb id q ≡ true
    → open_at id ps ≡ true
    → Serves s id o
unfolding concrete fired_phase runs
scheduled-Serves s ps id q o shape named opened =
    let same : q ≡ id = ground (arith, named) in
    after-Serves s (timer_fired s) id o (fired (ap (λ (t : Scheduler). t.timer) shape)) (
      running-Serves (timer_fired s) ps id o (busy q)
        (ap timer_fired shape ∙ timer_fired-concrete (scheduled q) ps) (ap some same) opened)

queued-Serves :
    (s : Scheduler) (ps : List (Option RepairResult)) (id a q : ℕ) (first o : Outcome)
    → s ≡ concrete (busy_and_queued a q) ps
    → (eqb id a || eqb id q) ≡ true
    → open_at id ps ≡ true
    → Serves s id o
unfolding runs settled_phase concrete run_of
queued-Serves s ps id a q first o shape named opened = elim (Bool-cases (eqb id a)) [
  | inl runs_now ↦
      running-Serves s ps id o (busy_and_queued a q) shape (ap some (ground (arith, runs_now)))
        opened
  | inr other ↦
      let has : has_run a s.running ≡ true =
        ap (λ (t : Scheduler). has_run a t.running) shape ∙ ap (λ b. b || false) (eqb_refl a) in
      let still : open_at id (resolve a (caught first) ps) ≡ true =
        open_at-resolve id a (caught first) ps ∙ ground (arith, opened, other) in
      let next : eqb id q ≡ true = ground (arith, named, other) in
      after-Serves s (run_settled a first s) id o (settled a first has) (
        scheduled-Serves (run_settled a first s) _ id q o
          (ap (run_settled a first) shape
            ∙ run_settled-concrete (busy_and_queued a q) ps a first refl)
          next still)
]

phase-Serves :
    (s : Scheduler) (ps : List (Option RepairResult)) (p : Phase) (id : ℕ) (first o : Outcome)
    → s ≡ concrete p ps
    → waits id p ≡ true
    → open_at id ps ≡ true
    → Serves s id o
unfolding waits runs
phase-Serves s ps idle id first o shape wait opened = absurd (grind (arith, wait))
phase-Serves s ps (scheduled q) id first o shape wait opened =
    scheduled-Serves s ps id q o shape wait opened
phase-Serves s ps (busy a) id first o shape wait opened =
    running-Serves s ps id o (busy a) shape (ap some (ground (arith, wait))) opened
phase-Serves s ps (busy_and_queued a q) id first o shape wait opened =
    queued-Serves s ps id a q first o shape wait opened
phase-Serves s ps (ended none) id first o shape wait opened = absurd (grind (arith, wait))
phase-Serves s ps (ended (some a)) id first o shape wait opened =
    running-Serves s ps id o (ended (some a)) shape (ap some (ground (arith, wait))) opened

-- No request is lost: in any state that a new scheduler reaches, and whatever the repair that runs
-- returns, a promise that was made and has not settled is answered after some further callbacks with
-- what the run for it returns, or with `internal` when that run throws.
pub open-Serves :
    (s : Scheduler)
    → Steps create_repair_scheduler s
    → (id : ℕ) (first o : Outcome) → open_at id s.promises ≡ true
    → Serves s id o
open-Serves s reached id first o opened =
    let h = Steps-IsScheduler create_repair_scheduler s create-IsScheduler reached in
    phase-Serves s s.promises h.phase id first o h.shape (sym (h.opens id) ∙ opened) opened
