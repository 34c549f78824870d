-- ===== src/Repair/Phases.antt =====
-- The phases of the repair scheduler of client/repair.ts, and what each operation does in each.
use sync_resource.Shared.{
  ℕ, ◌≡◌, refl, true, false, Option, none, some, List, [], ◌∷◌, ◌++◌, arith, length, eqb,
}
use sync_resource.Repair.{
  RepairResult, Outcome, Scheduler, start_run, start_queued, schedule_queued, timer_fired,
  is_current, without_run, clear_active, schedule_next, run_settled, enqueue, join_or_enqueue,
  request, reject, dispose, resolve, caught,
}

-- What a scheduler is at: no repair; one that waits for the timer; one that runs; one that runs and
-- one that waits for it; disposed, with no repair or with one that still runs.
pub data Phase : Type 0 where
  idle : Phase
  scheduled : ℕ → Phase
  busy : ℕ → Phase
  busy_and_queued : ℕ → ℕ → Phase
  ended : Option ℕ → Phase

unfoldable pub run_of : Option ℕ → List ℕ
run_of none = []
run_of (some a) = a ∷ []

-- The scheduler in a phase, with its promises.
unfoldable pub concrete : Phase → List (Option RepairResult) → Scheduler
unfolding run_of
concrete idle ps = record {
  active = none;
  queued = none;
  timer = false;
  disposed = false;
  running = [];
  promises = ps;
}
concrete (scheduled q) ps = record {
  active = none;
  queued = some q;
  timer = true;
  disposed = false;
  running = [];
  promises = ps;
}
concrete (busy a) ps = record {
  active = some a;
  queued = none;
  timer = false;
  disposed = false;
  running = a ∷ [];
  promises = ps;
}
concrete (busy_and_queued a q) ps = record {
  active = some a;
  queued = some q;
  timer = false;
  disposed = false;
  running = a ∷ [];
  promises = ps;
}
concrete (ended a) ps = record {
  active = none;
  queued = none;
  timer = false;
  disposed = true;
  running = run_of a;
  promises = ps;
}

-- The phase after a request, which gets the next number when it is a new one.
unfoldable pub asked_phase : ℕ → Phase → Phase
asked_phase n idle = scheduled n
asked_phase n (scheduled q) = scheduled q
asked_phase n (busy a) = busy_and_queued a n
asked_phase n (busy_and_queued a q) = busy_and_queued a q
asked_phase n (ended a) = ended a

unfoldable pub asked_promises : Phase → List (Option RepairResult) → List (Option RepairResult)
asked_promises idle ps = ps ++ none ∷ []
asked_promises (busy a) ps = ps ++ none ∷ []
asked_promises _ ps = ps

unfoldable pub fired_phase : Phase → Phase
fired_phase idle = idle
fired_phase (scheduled q) = busy q
fired_phase (busy a) = busy a
fired_phase (busy_and_queued a q) = busy_and_queued a q
fired_phase (ended a) = ended a

-- The phase after the repair that runs has settled.
unfoldable pub settled_phase : Phase → Phase
settled_phase idle = idle
settled_phase (scheduled q) = scheduled q
settled_phase (busy a) = idle
settled_phase (busy_and_queued a q) = scheduled q
settled_phase (ended a) = ended none

unfoldable pub disposed_phase : Phase → Phase
disposed_phase idle = ended none
disposed_phase (scheduled q) = ended none
disposed_phase (busy a) = ended (some a)
disposed_phase (busy_and_queued a q) = ended (some a)
disposed_phase (ended a) = ended a

pub promises-concrete :
    (p : Phase) (ps : List (Option RepairResult)) → (concrete p ps).promises ≡ ps
unfolding concrete
promises-concrete idle ps = refl
promises-concrete (scheduled q) ps = refl
promises-concrete (busy a) ps = refl
promises-concrete (busy_and_queued a q) ps = refl
promises-concrete (ended a) ps = refl

pub request-concrete :
    (p : Phase) (ps : List (Option RepairResult))
    → (request (concrete p ps)).0 ≡ concrete (asked_phase (length ps) p) (asked_promises p ps)
unfolding request join_or_enqueue enqueue schedule_queued concrete asked_phase asked_promises
request-concrete idle ps = refl
request-concrete (scheduled q) ps = refl
request-concrete (busy a) ps = refl
request-concrete (busy_and_queued a q) ps = refl
request-concrete (ended a) ps = refl

pub timer_fired-concrete :
    (p : Phase) (ps : List (Option RepairResult))
    → timer_fired (concrete p ps) ≡ concrete (fired_phase p) ps
unfolding timer_fired start_queued start_run concrete fired_phase
timer_fired-concrete idle ps = refl
timer_fired-concrete (scheduled q) ps = refl
timer_fired-concrete (busy a) ps = refl
timer_fired-concrete (busy_and_queued a q) ps = refl
timer_fired-concrete (ended a) ps = refl

-- The repair that runs in a phase.
unfoldable pub runs : Phase → Option ℕ
runs idle = none
runs (scheduled q) = none
runs (busy a) = some a
runs (busy_and_queued a q) = some a
runs (ended a) = a

pub running-concrete :
    (p : Phase) (ps : List (Option RepairResult)) → (concrete p ps).running ≡ run_of (runs p)
unfolding concrete runs run_of
running-concrete idle ps = refl
running-concrete (scheduled q) ps = refl
running-concrete (busy a) ps = refl
running-concrete (busy_and_queued a q) ps = refl
running-concrete (ended a) ps = refl

eqb_of_some : (b a : ℕ) → some b ≡ some a → eqb b a ≡ true
eqb_of_some b a h = let same : b ≡ a = grind (arith, h) in ground (arith, same)

pub run_settled-concrete :
    (p : Phase) (ps : List (Option RepairResult)) (a : ℕ) (o : Outcome)
    → runs p ≡ some a
    → run_settled a o (concrete p ps) ≡ concrete (settled_phase p) (resolve a (caught o) ps)
unfolding run_settled schedule_next clear_active without_run concrete settled_phase is_current
    schedule_queued runs run_of
run_settled-concrete idle ps a o h = absurd (grind (arith, h))
run_settled-concrete (scheduled q) ps a o h = absurd (grind (arith, h))
run_settled-concrete (busy b) ps a o h = rw (eqb_of_some b a h) refl
run_settled-concrete (busy_and_queued b q) ps a o h = rw (eqb_of_some b a h) refl
run_settled-concrete (ended none) ps a o h = absurd (grind (arith, h))
run_settled-concrete (ended (some b)) ps a o h = rw (eqb_of_some b a h) refl

unfoldable pub disposed_promises : Phase → List (Option RepairResult) → List (Option RepairResult)
unfolding reject
disposed_promises (scheduled q) ps = reject (some q) ps
disposed_promises (busy_and_queued a q) ps = reject (some q) ps
disposed_promises _ ps = ps

pub dispose-concrete :
    (p : Phase) (ps : List (Option RepairResult))
    → dispose (concrete p ps) ≡ concrete (disposed_phase p) (disposed_promises p ps)
unfolding dispose reject concrete disposed_phase disposed_promises run_of
dispose-concrete idle ps = refl
dispose-concrete (scheduled q) ps = refl
dispose-concrete (busy a) ps = refl
dispose-concrete (busy_and_queued a q) ps = refl
dispose-concrete (ended a) ps = refl
