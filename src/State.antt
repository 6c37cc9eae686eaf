-- ===== src/State.antt =====
-- The state behind the dashboard: internal/state/state.go, with the summaries of
-- internal/model/model.go. Every method runs under the manager's lock, so a method is one step.
-- Instants stand for their ISO texts; `details` is what a result only carries along.
pub mod Balance
pub mod Merge
pub mod Jobs
pub mod Reports
mod Tests
use quotapulse.Base.{
  ℕ, zero, suc, ◌+◌, Bool, true, false, not, ◌&&◌, ◌||◌, Option, none, some, List, [], ◌∷◌, ◌++◌,
  ◌==◌, if◌then◌else◌, is_some, length, any, count_if, filter, map,
}
use quotapulse.Base.Text.{Text, text, eq_text}

pub record CheckResult (D : Type 0) : Type 0 where
  pub project : Text
  pub provider : Text
  pub success : Bool
  pub need_alarm : Bool
  pub details : D

pub record BalanceSummary : Type 0 where
  pub total : ℕ
  pub success : ℕ
  pub failed : ℕ
  pub need_alarm : ℕ

pub record BalanceState (D : Type 0) : Type 0 where
  pub last_update : Option ℕ
  pub projects : List (CheckResult D)
  pub summary : BalanceSummary

-- One scheduled task's runtime state; instants and durations are nanoseconds, an error its text.
pub record Job : Type 0 where
  pub name : Text
  pub description : Text
  pub schedule : Text
  pub enabled : Bool
  pub next_run : Option ℕ
  pub last_run : Option ℕ
  pub last_success : Option ℕ
  pub last_error : Option Text
  pub last_duration : Option ℕ
  pub last_detail : Option Text
  pub runs : ℕ
  pub failures : ℕ

pub record JobState : Type 0 where
  pub healthy : Bool
  pub jobs : List Job

-- The map of jobs is an association list; the order of registration stands beside it, as in the code.
pub record JobTable : Type 0 where
  pub jobs : List (Text × Job)
  pub job_order : List Text

pub record Manager (D : Type 0) : Type 0 where
  pub balance : BalanceState D
  pub balance_checked : Bool
  pub table : JobTable

module _ {D : Type 0} where
  -- `SummarizeBalance`: one pass, one counter for each test.
  unfoldable pub add_result : BalanceSummary → CheckResult D → BalanceSummary
  add_result s r = record s {
    success = if r.success then s.success + 1 else s.success;
    failed = if r.success then s.failed else s.failed + 1;
    need_alarm = if r.need_alarm then s.need_alarm + 1 else s.need_alarm;
  }

  unfoldable pub summarize_from : BalanceSummary → List (CheckResult D) → BalanceSummary
  summarize_from s [] = s
  summarize_from s (r ∷ rs) = summarize_from (add_result s r) rs

  unfoldable pub summarize_balance : List (CheckResult D) → BalanceSummary
  summarize_balance rs =
      summarize_from (record { total = length rs; success = 0; failed = 0; need_alarm = 0 }) rs

  -- `anySucceeded`
  unfoldable pub any_succeeded : List (CheckResult D) → Bool
  any_succeeded rs = any (λ r. r.success) rs

  -- `setBalanceLocked`, at an instant.
  unfoldable pub set_balance_locked : ℕ → List (CheckResult D) → Bool → Manager D → Manager D
  set_balance_locked now results fresh m = record m {
    balance = record {
      last_update = if fresh then some now else m.balance.last_update;
      projects = results;
      summary = summarize_balance results;
    };
  }

  unfoldable pub set_balance : ℕ → List (CheckResult D) → Manager D → Manager D
  set_balance now results m =
      set_balance_locked now results (length results == 0 || any_succeeded results)
        (record m { balance_checked = true })

  -- A slice assignment, and a map from names to places.
  unfoldable pub set : List (CheckResult D) → ℕ → CheckResult D → List (CheckResult D)
  set [] i r = []
  set (x ∷ xs) zero r = r ∷ xs
  set (x ∷ xs) (suc i) r = x ∷ set xs i r

  -- The loop over the old projects: a later place of a name replaces an earlier one.
  unfoldable pub index_from : ℕ → List (CheckResult D) → List (Text × ℕ) → List (Text × ℕ)
  index_from i [] index = index
  index_from i (p ∷ ps) index = index_from (suc i) ps ((p.project, i) ∷ index)

unfoldable pub place : List (Text × ℕ) → Text → Option ℕ
place [] name = none
place ((n, i) ∷ index) name = let rest = place index name in if eq_text n name then some i else rest

module _ {D : Type 0} where
  -- The loop over the new results.
  unfoldable pub merge_loop :
      List (CheckResult D) → List (CheckResult D) → List (Text × ℕ) → List (CheckResult D)
  merge_loop [] merged index = merged
  merge_loop (r ∷ rs) merged index =
      let replaced = λ (i : ℕ). merge_loop rs (set merged i r) index in
      let appended = merge_loop rs (merged ++ r ∷ []) ((r.project, length merged) ∷ index) in
      elim (place index r.project) [ some i ↦ replaced i | none ↦ appended ]

  unfoldable pub merge : List (CheckResult D) → List (CheckResult D) → List (CheckResult D)
  merge old results = merge_loop results old (index_from 0 old [])

  unfoldable pub merge_balance : ℕ → List (CheckResult D) → Manager D → Manager D
  merge_balance now results m =
      set_balance_locked now (merge m.balance.projects results) (any_succeeded results)
        (record m { balance_checked = true })

  unfoldable pub remove_balance_project : ℕ → Text → Manager D → Manager D
  remove_balance_project now name m =
      let kept = filter (λ p. not (eq_text p.project name)) m.balance.projects in
      if length kept == length m.balance.projects then m else set_balance_locked now kept false m

-- The map's entry for a name.
unfoldable pub find_job : Text → List (Text × Job) → Option Job
find_job name [] = none
find_job name ((n, j) ∷ jobs) =
    let rest = find_job name jobs in if eq_text n name then some j else rest

-- A write through the pointer that the map holds.
unfoldable pub put_job : Text → Job → List (Text × Job) → List (Text × Job)
put_job name job [] = []
put_job name job ((n, j) ∷ jobs) =
    let rest = put_job name job jobs in if eq_text n name then (n, job) ∷ jobs else (n, j) ∷ rest

unfoldable pub new_job : Text → Bool → Job
new_job name enabled = record {
  name = name;
  description = [];
  schedule = [];
  enabled = enabled;
  next_run = none;
  last_run = none;
  last_success = none;
  last_error = none;
  last_duration = none;
  last_detail = none;
  runs = 0;
  failures = 0;
}

-- `job, ok := m.jobs[name]`, and the registration of a job that is not there.
unfoldable pub ensure_job : Text → Bool → JobTable → JobTable
ensure_job name enabled t = if is_some (find_job name t.jobs) then t else record {
  jobs = (name, new_job name enabled) ∷ t.jobs;
  job_order = t.job_order ++ name ∷ [];
}

-- A change of the job of a name.
unfoldable pub update_job : Text → (Job → Job) → JobTable → JobTable
update_job name change t = elim (find_job name t.jobs) [
  | none ↦ t
  | some job ↦ record t { jobs = put_job name (change job) t.jobs }
]

-- The new fields of a job that is registered.
unfoldable pub after_registration : Text → Text → Bool → Option ℕ → Job → Job
after_registration description schedule enabled next_run job = record job {
  description = description;
  schedule = schedule;
  enabled = enabled;
  next_run = if enabled then next_run else none;
}

unfoldable pub register_job : Text → Text → Text → Bool → Option ℕ → JobTable → JobTable
register_job name description schedule enabled next_run t =
    update_job name (after_registration description schedule enabled next_run)
      (ensure_job name false t)

abbrev pub unknown_error : Text
unknown_error = text "Unknown error"

-- The new fields of a job after one run.
unfoldable pub after_run : Bool → ℕ → ℕ → Option Text → Option Text → Option ℕ → Job → Job
after_run success started duration run_err detail next_run job =
    let ran = record job {
      last_run = some started;
      last_duration = some duration;
      next_run = if job.enabled then next_run else none;
      runs = job.runs + 1;
    } in
    if success
    then record ran { last_success = some started; last_error = none; last_detail = detail }
    else record ran {
      failures = ran.failures + 1;
      last_error = elim run_err [ none ↦ some unknown_error | some e ↦ some e ];
    }

unfoldable pub record_job_run :
    Text → Bool → ℕ → ℕ → Option Text → Option Text → Option ℕ → JobTable → JobTable
record_job_run name success started duration run_err detail next_run t =
    update_job name (after_run success started duration run_err detail next_run)
      (ensure_job name true t)

unfoldable pub is_failing : Job → Bool
is_failing job = job.enabled && is_some job.last_error

-- The loop of `Jobs`; `none` is the nil dereference of a name with no job.
unfoldable pub jobs_in : List Text → List (Text × Job) → Option (List Job)
jobs_in [] jobs = some []
jobs_in (n ∷ names) jobs = elim (find_job n jobs) [
  | none ↦ none
  | some job ↦ elim (jobs_in names jobs) [ none ↦ none | some rest ↦ some (job ∷ rest) ]
]

unfoldable pub jobs : JobTable → Option JobState
jobs t = elim (jobs_in t.job_order t.jobs) [
  | none ↦ none
  | some js ↦ some (record { healthy = not (any is_failing js); jobs = js })
]

unfoldable pub failed_in : List Text → List (Text × Job) → Option (List Text)
failed_in [] jobs = some []
failed_in (n ∷ names) jobs = elim (find_job n jobs) [
  | none ↦ none
  | some job ↦ elim (failed_in names jobs) [
    | none ↦ none
    | some rest ↦ some (if is_failing job then n ∷ rest else rest)
  ]
]

unfoldable pub failed_jobs : JobTable → Option (List Text)
failed_jobs t = failed_in t.job_order t.jobs
