-- ===== src/Scheduler/Due.antt =====
-- Which tasks a round runs, when they run again, and how long the loop sleeps.
use quotapulse.Base.{
  ℕ, ◌+◌, ◌-◌, ◌≤◌, ◌≡◌, ◌⊎◌, ◌↔◌, inl, inr, refl, true, not, is_some, Option, none, some, List, [],
  ◌∷◌, ◌++◌, max, Bool-cases, arith,
}
use quotapulse.Base.Text.{Text}
use quotapulse.Scheduler.{
  Zone, Task, Run, Result, enabled, following_run, run_task, is_due, run_pending, max_wait,
  min_wait, task_wait, wait_from, sleep_for,
}
use quotapulse.Scheduler.Round.{
  IsDue, IsFollowing, is_due-true, is_due-false, is_due-enabled, following_run-IsFollowing,
}

-- What the round makes of one task.
pub IsMoved : Zone → ℕ → Task × Run → Task → Type 0
IsMoved Z now (t, r) t' =
    (IsDue now t
      × IsFollowing Z r.finished t t'.next_run
      × (t' ≡ record t { next_run = t'.next_run }))
    ⊎ ((IsDue now t → ⊥) × (t' ≡ t))

-- The same of two lists, place by place.
pub AreMoved : Zone → ℕ → List (Task × Run) → List Task → Type 0
AreMoved Z now [] [] = Unit
AreMoved Z now (x ∷ xs) (t ∷ ts) = IsMoved Z now x t × AreMoved Z now xs ts
AreMoved Z now [] (t ∷ ts) = ⊥
AreMoved Z now (x ∷ xs) [] = ⊥

-- What is reported of a run.
pub IsResult : Zone → Task → Run → Result → Type 0
IsResult Z t r q =
    (q.name ≡ t.name)
    × (q.started ≡ r.started)
    × (q.error ≡ r.error)
    × ((q.success ≡ true) ↔ (r.error ≡ none))
    × IsFollowing Z r.finished t q.next_run

-- The results are those of the due tasks, in their order.
pub AreRun : Zone → ℕ → List (Task × Run) → List Result → Type 0
AreRun Z now [] qs = qs ≡ []
AreRun Z now ((t, r) ∷ xs) qs =
    (IsDue now t
      × ((q : Result) × (rest : List Result) × (qs ≡ q ∷ rest)
          × IsResult Z t r q
          × AreRun Z now xs rest))
    ⊎ ((IsDue now t → ⊥) × AreRun Z now xs qs)

success_iff : (e : Option Text) → (not (is_some e) ≡ true) ↔ (e ≡ none)
success_iff none = (λ h. refl, λ h. refl)
success_iff (some m) = (λ h. ground (arith, h), λ h. ground (arith, h))

module _ (Z : Zone) where
  run_task-eq :
      (t : Task) (r : Run)
      → enabled t ≡ true
      → (run_task Z r t).0 ≡ record t { next_run = following_run Z r.finished t }
  unfolding run_task
  run_task-eq t r e = rw e refl

  run_task-IsMoved :
      (now : ℕ) (t : Task) (r : Run) → is_due now t ≡ true → IsMoved Z now (t, r) (run_task Z r t).0
  unfolding IsMoved
  run_task-IsMoved now t r e =
      rw (run_task-eq t r (is_due-enabled now t e))
        (inl (is_due-true now t e, following_run-IsFollowing Z r.finished t, refl))

  run_task-IsResult :
      (now : ℕ) (t : Task) (r : Run) → enabled t ≡ true → IsResult Z t r (run_task Z r t).1
  unfolding IsResult run_task
  run_task-IsResult now t r e =
      (refl, refl, refl, success_iff r.error, rw e (following_run-IsFollowing Z r.finished t))

  -- A task is due if it repeats or has times of the day, and its next time has come. After a round, a due
  -- task has as its next time its interval from the end of its run, or the next of its times of the day
  -- after that, and is otherwise as it was, so it is not run again for the same time; any other task is as
  -- it was.
  pub run_pending-AreMoved :
      (now : ℕ) (ts : List (Task × Run)) → AreMoved Z now ts (run_pending Z now ts).0
  unfolding run_pending AreMoved
  run_pending-AreMoved now [] = tt
  run_pending-AreMoved now ((t, r) ∷ ts) = elim (Bool-cases (is_due now t)) [
    | inl e ↦ rw e (run_task-IsMoved now t r e, run_pending-AreMoved now ts)
    | inr e ↦ rw e (unfold IsMoved in inr (is_due-false now t e, refl), run_pending-AreMoved now ts)
  ]

  -- A round reports just the tasks that are due, each once and in their order: its name, the start of
  -- its run, its error, success if and only if there is none, and its next time.
  pub run_pending-AreRun :
      (now : ℕ) (ts : List (Task × Run)) → AreRun Z now ts (run_pending Z now ts).1
  unfolding run_pending AreRun
  run_pending-AreRun now [] = refl
  run_pending-AreRun now ((t, r) ∷ ts) = elim (Bool-cases (is_due now t)) [
    | inl e ↦ rw e (
        inl (
          is_due-true now t e,
          (
            (run_task Z r t).1,
            (run_pending Z now ts).1,
            refl,
            run_task-IsResult now t r (is_due-enabled now t e),
            run_pending-AreRun now ts,
          ),
        ))
    | inr e ↦ rw e (inr (is_due-false now t e, run_pending-AreRun now ts))
  ]

task_wait_le : (wait now : ℕ) (t : Task) → task_wait wait now t ≤ wait
unfolding task_wait
task_wait_le wait now t = ground arith

task_wait_due :
    (wait now : ℕ) (t : Task) (n : ℕ)
    → enabled t ≡ true
    → t.next_run ≡ some n
    → task_wait wait now t ≤ n - now
unfolding task_wait
task_wait_due wait now t n e f = ground arith

wait_from_le : (wait now : ℕ) (ts : List Task) → wait_from wait now ts ≤ wait
unfolding wait_from
wait_from_le wait now [] = omega arith
wait_from_le wait now (t ∷ ts) =
    omega (arith, task_wait_le wait now t, wait_from_le (task_wait wait now t) now ts)

wait_from_due :
    (xs ts : List Task) (wait now : ℕ) (t : Task) (n : ℕ)
    → enabled t ≡ true
    → t.next_run ≡ some n
    → wait_from wait now (xs ++ t ∷ ts) ≤ n - now
unfolding wait_from
wait_from_due [] ts wait now t n e f =
    omega (arith, task_wait_due wait now t n e f, wait_from_le (task_wait wait now t) now ts)
wait_from_due (x ∷ xs) ts wait now t n e f = wait_from_due xs ts (task_wait wait now x) now t n e f

-- The loop wakes in time: it sleeps from 0.1 to 60 seconds, and no enabled task with a next time waits
-- past that time for more than the shortest sleep.
pub sleep_for_bounds :
    (now : ℕ) (xs ts : List Task) (t : Task) (n : ℕ)
    → enabled t ≡ true
    → t.next_run ≡ some n
    → let sleep = sleep_for now (xs ++ t ∷ ts) in
      (min_wait ≤ sleep) × (sleep ≤ max_wait) × (now + sleep ≤ max n (now + min_wait))
unfolding sleep_for
sleep_for_bounds now xs ts t n e f =
    (omega arith, omega arith, omega (arith, wait_from_due xs ts max_wait now t n e f))
