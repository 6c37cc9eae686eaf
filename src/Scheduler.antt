-- ===== src/Scheduler.antt =====
-- The job scheduler: internal/scheduler/scheduler.go. The zone of the local clock is a parameter, and
-- what a run returns and the clock's readings around it are inputs. `none` is Go's zero time.
pub mod Round
pub mod Due
mod Tests
use quotapulse.Base.{
  ℕ, ◌+◌, ◌-◌, ◌*◌, Bool, true, false, not, ◌&&◌, ◌||◌, Option, none, some, List, [], ◌∷◌, ltb,
  if◌then◌else◌, length, is_some, min, max,
}
use quotapulse.Base.Text.{Text, eq_text}
use quotapulse.Calendar.{Date}
use quotapulse.Timeutil.{ClockTime, next_occurrence}

-- The local time zone: the date of an instant, and the instant of a wall clock.
pub record Zone : Type 0 where
  pub date_of : ℕ → Date
  pub instant : Date → ClockTime → ℕ

pub record Task : Type 0 where
  pub name : Text
  pub interval : ℕ
  pub daily_times : List ClockTime
  pub weekdays : List ℕ
  pub run_at_start : Bool
  pub next_run : Option ℕ

-- One run: the clock before it, and when its next time is computed; its error.
pub record Run : Type 0 where
  pub started : ℕ
  pub finished : ℕ
  pub error : Option Text

pub record Result : Type 0 where
  pub name : Text
  pub success : Bool
  pub started : ℕ
  pub error : Option Text
  pub next_run : Option ℕ

unfoldable pub enabled : Task → Bool
enabled t = ltb 0 t.interval || ltb 0 (length t.daily_times)

-- The negation of the condition that `RunPending` passes a task over on.
unfoldable pub is_due : ℕ → Task → Bool
is_due now t = enabled t && (elim t.next_run [ none ↦ false | some next ↦ not (ltb now next) ])

module _ (Z : Zone) where
  unfoldable pub occurrence : ℕ → Task → Option ℕ
  occurrence now t = next_occurrence Z.instant (Z.date_of now) now t.daily_times t.weekdays

  unfoldable pub initial_next_run : ℕ → Task → Option ℕ
  initial_next_run now t =
      if ltb 0 t.interval
      then (if t.run_at_start then some now else some (now + t.interval))
      else occurrence now t

  unfoldable pub following_run : ℕ → Task → Option ℕ
  following_run now t = if ltb 0 t.interval then some (now + t.interval) else occurrence now t

  -- `New`: the tasks with their first times.
  unfoldable pub start_tasks : ℕ → List Task → List Task
  start_tasks now [] = []
  start_tasks now (t ∷ ts) =
      let rest = start_tasks now ts in
      (if enabled t then record t { next_run = initial_next_run now t } else t) ∷ rest

  unfoldable pub run_task : Run → Task → Task × Result
  run_task r t =
      let t' = if enabled t then record t { next_run = following_run r.finished t } else t in
      (
        t',
        record {
          name = t.name;
          success = not (is_some r.error);
          started = r.started;
          error = r.error;
          next_run = t'.next_run;
        },
      )

  -- `RunPending`: each task with the run that it has if it is due.
  unfoldable pub run_pending : ℕ → List (Task × Run) → List Task × List Result
  run_pending now [] = ([], [])
  run_pending now ((t, r) ∷ ts) =
      let (t', result) = run_task r t in
      let (tasks, results) = run_pending now ts in
      if is_due now t then (t' ∷ tasks, result ∷ results) else (t ∷ tasks, results)

abbrev pub max_wait : ℕ
max_wait = 60 * 1000000000

abbrev pub min_wait : ℕ
min_wait = 100 * 1000000

-- One turn of the loop of `sleepFor`: a time that has passed counts as no wait, below the shortest sleep.
unfoldable pub task_wait : ℕ → ℕ → Task → ℕ
task_wait wait now t =
    let next : ℕ = elim t.next_run [
      | none ↦ wait
      | some n ↦ if ltb (n - now) wait then n - now else wait
    ] in
    if enabled t then next else wait

unfoldable pub wait_from : ℕ → ℕ → List Task → ℕ
wait_from wait now [] = wait
wait_from wait now (t ∷ ts) = wait_from (task_wait wait now t) now ts

unfoldable pub sleep_for : ℕ → List Task → ℕ
sleep_for now ts = max min_wait (min max_wait (wait_from max_wait now ts))

-- `Lookup`
unfoldable pub lookup_task : Text → List Task → Option Task
lookup_task name [] = none
lookup_task name (t ∷ ts) =
    let rest = lookup_task name ts in if eq_text t.name name then some t else rest
