-- ===== src/Repair/Invariant.antt =====
-- What holds of the repair scheduler of client/repair.ts between two callbacks.
use sync_resource.Shared.{
  ℕ, ◌≤◌, ◌≡◌, refl, sym, subst, ◌∙◌, not, ◌&&◌, ◌||◌, Option, none, some, List, arith, length,
  is_some,
}
use sync_resource.Repair.{RepairResult, Scheduler, create_repair_scheduler, has_run, is_current}
use sync_resource.Repair.Phases.{
  Phase, idle, scheduled, busy, busy_and_queued, ended, run_of, concrete,
}
use sync_resource.Repair.Promises.{open_at}
use sync_resource.Repair.Reached.{Steps, waits, create-IsScheduler, Steps-IsScheduler}

-- At most one repair runs. The timer is set exactly when a repair is queued and none is active, and
-- the promises that have not settled are those of the queued repair and of the one that runs.
pub record IsOrderly (s : Scheduler) : Type 0 where
  pub one_runs : length s.running ≤ 1
  pub timed : s.timer ≡ (is_some s.queued && not (is_some s.active))
  pub opened : (id : ℕ) → open_at id s.promises ≡ (is_current id s.queued || has_run id s.running)

concrete-IsOrderly :
    (p : Phase) (ps : List (Option RepairResult))
    → ((id : ℕ) → open_at id ps ≡ waits id p)
    → IsOrderly (concrete p ps)
unfolding concrete waits run_of is_current
concrete-IsOrderly idle ps h = record { one_runs = omega arith; timed = refl; opened = h }
concrete-IsOrderly (scheduled q) ps h = record {
  one_runs = omega arith;
  timed = refl;
  opened = λ id. h id ∙ ground arith;
}
concrete-IsOrderly (busy a) ps h = record {
  one_runs = omega arith;
  timed = refl;
  opened = λ id. h id ∙ ground arith;
}
concrete-IsOrderly (busy_and_queued a q) ps h = record {
  one_runs = omega arith;
  timed = refl;
  opened = λ id. h id ∙ ground arith;
}
concrete-IsOrderly (ended none) ps h = record { one_runs = omega arith; timed = refl; opened = h }
concrete-IsOrderly (ended (some a)) ps h = record {
  one_runs = omega arith;
  timed = refl;
  opened = λ id. h id ∙ ground arith;
}

-- In any state that a new scheduler reaches by requests, the timer, settled repairs and disposals, at
-- most one repair runs, the timer is set exactly when a repair is queued and none is active, and the
-- promises that have not settled are those of the queued repair and of the one that runs.
pub Steps-IsOrderly : (s : Scheduler) → Steps create_repair_scheduler s → IsOrderly s
Steps-IsOrderly s reached =
    let h = Steps-IsScheduler create_repair_scheduler s create-IsScheduler reached in
    subst IsOrderly (sym h.shape) (concrete-IsOrderly h.phase s.promises h.opens)
