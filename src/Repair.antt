-- ===== src/Repair.antt =====
-- createRepairScheduler of client/repair.ts. A repair is named by the index of its promise, and what a
-- callback does is one step; `running` lists the repairs that were started and have not settled.
pub mod Phases
pub mod Reached
pub mod Served
pub mod Settled
pub mod Invariant
pub mod Disposed
pub mod Promises
use sync_resource.Shared.{
  ℕ, zero, suc, Bool, true, false, not, ◌&&◌, ◌||◌, Option, none, some, List, [], ◌∷◌, ◌++◌, length,
  eqb, is_some, if◌then◌else◌, ◌≡◌,
}
use sync_resource.Protocol.{SyncErrorCode}
use sync_resource.Result.{SyncResult, err}

-- RepairResult
abbrev pub RepairResult : Type 0
RepairResult = SyncResult (Unit {0})

-- How the promise of `run` settles.
pub data Outcome : Type 0 where
  returned : RepairResult → Outcome
  thrown : Outcome

pub record Scheduler : Type 0 where
  pub active : Option ℕ
  pub queued : Option ℕ
  pub timer : Bool
  pub disposed : Bool
  pub running : List ℕ
  pub promises : List (Option RepairResult)

-- The promise that `request` answers with.
pub data Answer : Type 0 where
  at_once : RepairResult → Answer
  promise : ℕ → Answer

unfoldable pub create_repair_scheduler : Scheduler
create_repair_scheduler = record {
  active = none;
  queued = none;
  timer = false;
  disposed = false;
  running = [];
  promises = [];
}

-- A promise settles once: a second settlement changes nothing.
unfoldable pub settle_promise : RepairResult → Option RepairResult → Option RepairResult
settle_promise r none = some r
settle_promise r (some q) = some q

unfoldable pub resolve : ℕ → RepairResult → List (Option RepairResult) → List (Option RepairResult)
unfolding settle_promise
resolve i r [] = []
resolve zero r (p ∷ ps) = settle_promise r p ∷ ps
resolve (suc i) r (p ∷ ps) = p ∷ resolve i r ps

unfoldable pub start_run : ℕ → Scheduler → Scheduler
start_run id s =
    if is_some s.active || s.disposed
    then s
    else record s { queued = none; active = some id; running = id ∷ s.running }

unfoldable pub start_queued : Option ℕ → Scheduler → Scheduler
unfolding start_run
start_queued none s = s
start_queued (some id) s = start_run id s

unfoldable pub schedule_queued : Scheduler → Scheduler
schedule_queued s = if s.timer || s.disposed then s else record s { timer = true }

-- The callback of the timer.
unfoldable pub timer_fired : Scheduler → Scheduler
unfolding start_queued
timer_fired s = start_queued s.queued (record s { timer = false })

unfoldable pub caught : Outcome → RepairResult
caught (returned r) = r
caught thrown = err SyncErrorCode.internal

unfoldable pub is_current : ℕ → Option ℕ → Bool
is_current id none = false
is_current id (some a) = eqb a id

abbrev pub has_run : ℕ → List ℕ → Bool
has_run id [] = false
has_run id (a ∷ xs) = eqb a id || has_run id xs

unfoldable pub without_run : ℕ → List ℕ → List ℕ
without_run id [] = []
without_run id (a ∷ xs) = let rest = without_run id xs in if eqb a id then xs else a ∷ rest

unfoldable pub clear_active : ℕ → Scheduler → Scheduler
unfolding is_current
clear_active id s = if is_current id s.active then record s { active = none } else s

unfoldable pub schedule_next : Scheduler → Scheduler
unfolding schedule_queued
schedule_next s = if is_some s.queued && not s.disposed then schedule_queued s else s

-- The repair settles: its promise is resolved, and `finally` runs.
unfoldable pub run_settled : ℕ → Outcome → Scheduler → Scheduler
unfolding schedule_next clear_active without_run
run_settled id o s = schedule_next (
    clear_active id (record s {
      running = without_run id s.running;
      promises = resolve id (caught o) s.promises;
    }))

unfoldable pub enqueue : Scheduler → Scheduler × Answer
unfolding schedule_queued
enqueue s =
    let id = length s.promises in
    let t = record s { queued = some id; promises = s.promises ++ none ∷ [] } in
    (if is_some s.active then t else schedule_queued t, promise id)

unfoldable pub join_or_enqueue : Option ℕ → Scheduler → Scheduler × Answer
unfolding enqueue
join_or_enqueue (some id) s = (s, promise id)
join_or_enqueue none s = enqueue s

unfoldable pub request : Scheduler → Scheduler × Answer
unfolding join_or_enqueue
request s =
    if s.disposed then (s, at_once (err SyncErrorCode.disposed)) else join_or_enqueue s.queued s

unfoldable pub reject : Option ℕ → List (Option RepairResult) → List (Option RepairResult)
unfolding resolve
reject none ps = ps
reject (some id) ps = resolve id (err SyncErrorCode.disposed) ps

unfoldable pub dispose : Scheduler → Scheduler
unfolding reject
dispose s = record {
  active = none;
  queued = none;
  timer = false;
  disposed = true;
  running = s.running;
  promises = reject s.queued s.promises;
}
