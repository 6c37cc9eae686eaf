-- ===== src/Scheduler/Tests.antt =====
-- A round of two tasks, one of them due.
use quotapulse.Base.{◌+◌, ◌*◌, ◌≤◌, ◌≡◌, refl, true, none, some, List, [], ◌∷◌, max}
use quotapulse.Base.Text.{text}
use quotapulse.Calendar.{date, ordinal}
use quotapulse.Scheduler.{
  Zone, Task, Run, run_pending, run_task, is_due, enabled, following_run, sleep_for, min_wait,
  max_wait,
}
use quotapulse.Scheduler.Due.{
  AreRun, run_pending-AreRun, AreMoved, run_pending-AreMoved, sleep_for_bounds,
}

abbrev zone : Zone
zone = record {
  date_of = λ now. date 2026 11 25;
  instant = λ d c. ordinal d * 86400 + (c.hour * 3600 + c.minute * 60);
}

abbrev refresh : Task
refresh = record {
  name = text "refresh";
  interval = 300;
  daily_times = [];
  weekdays = [];
  run_at_start = true;
  next_run = some 1000;
}

abbrev scan : Task
scan = record refresh { name = text "scan"; next_run = some 2000 }

abbrev run : Run
run = record { started = 1200; finished = 1300; error = none }

abbrev round : List (Task × Run)
round = (refresh, run) ∷ (scan, run) ∷ []

runs : (run_pending zone 1200 round).0 ≡ record refresh { next_run = some 1600 } ∷ scan ∷ []
unfolding run_pending run_task is_due enabled following_run
runs = refl

run_pending-AreRun_example : AreRun zone 1200 round (run_pending zone 1200 round).1
run_pending-AreRun_example = run_pending-AreRun zone 1200 round

run_pending-AreMoved_example : AreMoved zone 1200 round (run_pending zone 1200 round).0
run_pending-AreMoved_example = run_pending-AreMoved zone 1200 round

sleep_for_bounds_example :
    let sleep = sleep_for 1200 (refresh ∷ scan ∷ []) in
    (min_wait ≤ sleep) × (sleep ≤ max_wait) × (1200 + sleep ≤ max 2000 (1200 + min_wait))
unfolding enabled
sleep_for_bounds_example = sleep_for_bounds 1200 (refresh ∷ []) [] scan 2000 refl refl
