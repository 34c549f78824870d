-- ===== src/Examples/Repair.antt =====
-- The theorems on the repair scheduler of client/repair.ts at a run of it.
use sync_resource.Shared.{ℕ, ◌≡◌, refl, true, none}
use sync_resource.Protocol.{SyncErrorCode}
use sync_resource.Result.{ok, err}
use sync_resource.Repair.{
  returned, thrown, Scheduler, at_once, create_repair_scheduler, start_run, start_queued,
  schedule_queued, timer_fired, has_run, run_settled, enqueue, join_or_enqueue, request, dispose,
}
use sync_resource.Repair.Promises.{open_at}
use sync_resource.Repair.Reached.{Steps, here, step, asked, fired, settled}
use sync_resource.Repair.Invariant.{IsOrderly, Steps-IsOrderly}
use sync_resource.Repair.Served.{Serves, open-Serves}
use sync_resource.Repair.Disposed.{dispose-Steps}
use sync_resource.Repair.Settled.{Settled}

-- A request waits for the timer; the repair runs; a second request waits for it.
abbrev one_asked : Scheduler
one_asked = (request create_repair_scheduler).0

abbrev one_running : Scheduler
one_running = timer_fired one_asked

abbrev two_asked : Scheduler
two_asked = (request one_running).0

one_asked_timer : one_asked.timer ≡ true
unfolding request join_or_enqueue enqueue schedule_queued create_repair_scheduler
one_asked_timer = refl

two_asked-Steps : Steps create_repair_scheduler two_asked
two_asked-Steps =
    step one_running _ (step one_asked _ (step _ _ here asked) (fired one_asked_timer)) asked

second_open : open_at 1 two_asked.promises ≡ true
unfolding request join_or_enqueue enqueue schedule_queued create_repair_scheduler timer_fired
    start_queued start_run
second_open = refl

first_is_running : has_run 0 two_asked.running ≡ true
unfolding request join_or_enqueue enqueue schedule_queued create_repair_scheduler timer_fired
    start_queued start_run
first_is_running = refl

Steps-IsOrderly_example : IsOrderly two_asked
Steps-IsOrderly_example = Steps-IsOrderly two_asked two_asked-Steps

open-Serves_example : Serves two_asked 1 (returned (ok tt))
open-Serves_example = open-Serves two_asked two_asked-Steps 1 thrown (returned (ok tt)) second_open

-- The first repair has thrown.
abbrev one_settled : Scheduler
one_settled = run_settled 0 thrown two_asked

still_running : has_run 0 (dispose two_asked).running ≡ true
unfolding dispose
still_running = first_is_running

dispose-Steps_example :
    (request (run_settled 0 thrown (dispose two_asked))
      ≡ (run_settled 0 thrown (dispose two_asked), at_once (err SyncErrorCode.disposed)))
    × ((run_settled 0 thrown (dispose two_asked)).queued ≡ none)
    × ((id : ℕ)
        → has_run id (run_settled 0 thrown (dispose two_asked)).running ≡ true
        → has_run id two_asked.running ≡ true)
dispose-Steps_example =
    dispose-Steps two_asked (run_settled 0 thrown (dispose two_asked))
      (step (dispose two_asked) _ here (settled 0 thrown still_running))
