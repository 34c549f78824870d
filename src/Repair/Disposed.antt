-- ===== src/Repair/Disposed.antt =====
-- What client/repair.ts still does after its disposal.
use sync_resource.Shared.{
  ℕ, ◌≡◌, refl, sym, ap, subst, ◌∙◌, true, false, Option, none, List, [], ◌∷◌, arith, inl, inr, eqb,
  Bool-cases, if_true, if_false,
}
use sync_resource.Protocol.{SyncErrorCode}
use sync_resource.Result.{err}
use sync_resource.Repair.{
  Outcome, Scheduler, at_once, start_queued, timer_fired, is_current, has_run, without_run,
  clear_active, schedule_next, run_settled, request, dispose,
}
use sync_resource.Repair.Reached.{Step, Steps, here, step, asked, fired, settled, shut}

-- A disposed scheduler with nothing queued, where only repairs of `s` run.
pub record IsShut (s t : Scheduler) : Type 0 where
  pub closed : t.disposed ≡ true
  pub empty : t.queued ≡ none
  pub left : (id : ℕ) → has_run id t.running ≡ true → has_run id s.running ≡ true

has_run-without_run :
    (id j : ℕ) (xs : List ℕ) → has_run id (without_run j xs) ≡ true → has_run id xs ≡ true
unfolding without_run
has_run-without_run id j [] h = h
has_run-without_run id j (a ∷ xs) h = elim (Bool-cases (eqb a j)) [
  | inl same ↦
      let there : has_run id xs ≡ true =
        sym (ap (has_run id) (if_true (eqb a j) xs (a ∷ without_run j xs) same)) ∙ h in
      ground (arith, there)
  | inr other ↦
      let there : has_run id (a ∷ without_run j xs) ≡ true =
        sym (ap (has_run id) (if_false (eqb a j) xs (a ∷ without_run j xs) other)) ∙ h in
      let before : has_run id (without_run j xs) ≡ true → has_run id xs ≡ true =
        has_run-without_run id j xs in
      ground (arith, there, before)
]

request_shut :
    (t : Scheduler) → t.disposed ≡ true → request t ≡ (t, at_once (err SyncErrorCode.disposed))
unfolding request
request_shut t closed = rw closed refl

clear_active-IsShut : (s t : Scheduler) (id : ℕ) → IsShut s t → IsShut s (clear_active id t)
unfolding clear_active
clear_active-IsShut s t id h = elim (Bool-cases (is_current id t.active)) [
  | inl current ↦ rw current record { closed = h.closed; empty = h.empty; left = h.left }
  | inr other ↦ rw other h
]

schedule_next-IsShut : (s t : Scheduler) → IsShut s t → IsShut s (schedule_next t)
unfolding schedule_next
schedule_next-IsShut s t h = rw h.empty record { closed = h.closed; empty = refl; left = h.left }

run_settled-IsShut :
    (s t : Scheduler) (id : ℕ) (o : Outcome) → IsShut s t → IsShut s (run_settled id o t)
unfolding run_settled
run_settled-IsShut s t id o h = schedule_next-IsShut s _ (
    clear_active-IsShut s _ id (record {
      closed = h.closed;
      empty = h.empty;
      left = λ i run. h.left i (has_run-without_run i id t.running run);
    }))

start_queued-none : (o : Option ℕ) (t : Scheduler) → o ≡ none → start_queued o t ≡ t
unfolding start_queued
start_queued-none o t e = rw e refl

timer_fired-IsShut : (s t : Scheduler) → IsShut s t → IsShut s (timer_fired t)
unfolding timer_fired
timer_fired-IsShut s t h =
    subst (IsShut s) (sym (start_queued-none t.queued (record t { timer = false }) h.empty))
      (record { closed = h.closed; empty = h.empty; left = h.left })

dispose-IsShut :
    (s t : Scheduler)
    → ((id : ℕ) → has_run id t.running ≡ true → has_run id s.running ≡ true)
    → IsShut s (dispose t)
unfolding dispose
dispose-IsShut s t left = record { closed = refl; empty = refl; left = left }

Step-IsShut : (s t u : Scheduler) → IsShut s t → Step t u → IsShut s u
Step-IsShut s t _ h asked = rw (request_shut t h.closed) h
Step-IsShut s t _ h (fired set) = timer_fired-IsShut s t h
Step-IsShut s t _ h (settled id o run) = run_settled-IsShut s t id o h
Step-IsShut s t _ h shut = dispose-IsShut s t h.left

Steps-IsShut : (s t u : Scheduler) → IsShut s t → Steps t u → IsShut s u
Steps-IsShut s t _ h here = h
Steps-IsShut s t _ h (step u v before last) = Step-IsShut s u v (Steps-IsShut s t u h before) last

-- After the disposal of a scheduler, whatever callbacks follow, every request is answered with the
-- error `disposed` and changes nothing, no repair is queued, and only repairs run that ran before it.
pub dispose-Steps :
    (s t : Scheduler)
    → Steps (dispose s) t
    → (request t ≡ (t, at_once (err SyncErrorCode.disposed)))
      × (t.queued ≡ none)
      × ((id : ℕ) → has_run id t.running ≡ true → has_run id s.running ≡ true)
dispose-Steps s t after =
    let h = Steps-IsShut s (dispose s) t (dispose-IsShut s s (λ id run. run)) after in
    (request_shut t h.closed, h.empty, h.left)
