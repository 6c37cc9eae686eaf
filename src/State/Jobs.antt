-- ===== src/State/Jobs.antt =====
-- The jobs: every name in the order of registration has a job, so listing the jobs is safe, and
-- the process is healthy exactly when no job is listed as failed.
use quotapulse.Base.{
  ℕ, suc, ◌+◌, ◌≡◌, ◌↔◌, inl, inr, refl, sym, subst, Bool, true, false, not, ◌&&◌, Option, none,
  some, List, [], ◌∷◌, ◌++◌, if◌then◌else◌, is_some, any, All, All-append, count_if, Bool-cases,
  Option-cases, arith,
}
use quotapulse.Base.Text.{Text, eq_text, eq_text_iff, eq_text_refl}
use quotapulse.State.{
  Job, JobState, JobTable, find_job, put_job, new_job, ensure_job, update_job, register_job,
  after_registration, after_run, record_job_run, is_failing, jobs_in, jobs, failed_in, failed_jobs,
}

-- A write changes what the map holds under that name, and nothing else.
find_job-put_job :
    (name other : Text) (job : Job) (js : List (Text × Job))
    → find_job other (put_job name job js) ≡ (
        if eq_text name other
        then (elim (find_job name js) [ none ↦ none | some _ ↦ some job ])
        else find_job other js)
unfolding find_job put_job
find_job-put_job name other job [] = ground arith
find_job-put_job name other job ((n, j) ∷ js) = elim (Bool-cases (eq_text n name)) [
  | inl e ↦ rw ((eq_text_iff _ _).0 e, eq_text_refl name) ground arith
  | inr e ↦ ground (
    arith,
    find_job-put_job name other job js,
    (eq_text_iff n other).0,
    (eq_text_iff name other).0,
    eq_text_refl n,
  )
]

-- The job of a name, or a new one.
unfoldable pub job_or_new : Text → Bool → JobTable → Job
job_or_new name enabled t = elim (find_job name t.jobs) [ none ↦ new_job name enabled | some j ↦ j ]

-- Every name of the order has a job.
unfoldable pub IsRegistered : JobTable → Type 0
IsRegistered t = All (λ n. is_some (find_job n t.jobs) ≡ true) t.job_order

find_job-ensure_job :
    (name other : Text) (enabled : Bool) (t : JobTable)
    → find_job other (ensure_job name enabled t).jobs
      ≡ (if eq_text name other then some (job_or_new name enabled t) else find_job other t.jobs)
unfolding ensure_job find_job job_or_new
find_job-ensure_job name other enabled t = elim (Option-cases (find_job name t.jobs)) [
  | inl e ↦ ground (arith, e)
  | inr (j, e) ↦ ground (arith, e, (eq_text_iff name other).0)
]

find_job-update_job :
    (name other : Text) (change : Job → Job) (t : JobTable)
    → find_job other (update_job name change t).jobs ≡ (
        if eq_text name other
        then elim (find_job name t.jobs) [ none ↦ none | some j ↦ some (change j) ]
        else find_job other t.jobs)
unfolding update_job
find_job-update_job name other change t = elim (Option-cases (find_job name t.jobs)) [
  | inl e ↦ ground (arith, e, (eq_text_iff name other).0)
  | inr (j, e) ↦ ground (arith, e, find_job-put_job name other (change j) t.jobs)
]

-- What a change of a job that may be new does to the job of any name.
find_job-change :
    (name other : Text) (change : Job → Job) (enabled : Bool) (t : JobTable)
    → find_job other (update_job name change (ensure_job name enabled t)).jobs ≡ (
        if eq_text name other
        then some (change (job_or_new name enabled t))
        else find_job other t.jobs)
find_job-change name other change enabled t = ground (
  arith,
  find_job-update_job name other change (ensure_job name enabled t),
  find_job-ensure_job name other enabled t,
  find_job-ensure_job name name enabled t,
  eq_text_refl name,
)

order_of_change :
    (name : Text) (change : Job → Job) (enabled : Bool) (t : JobTable)
    → (update_job name change (ensure_job name enabled t)).job_order
      ≡ (if is_some (find_job name t.jobs) then t.job_order else t.job_order ++ name ∷ [])
unfolding update_job ensure_job
order_of_change name change enabled t = ground arith

-- What the scheduler reports.
pub data Event : Type 0 where
  registered : Text → Text → Text → Bool → Option ℕ → Event
  ran : Text → Bool → ℕ → ℕ → Option Text → Option Text → Option ℕ → Event

unfoldable pub step : Event → JobTable → JobTable
step (registered name description schedule enabled next) t =
    register_job name description schedule enabled next t
step (ran name success started duration e detail next) t =
    record_job_run name success started duration e detail next t

unfoldable pub steps : List Event → JobTable → JobTable
steps [] t = t
steps (e ∷ es) t = steps es (step e t)

is_some_change :
    (name other : Text) (change : Job → Job) (enabled : Bool) (t : JobTable)
    → is_some (find_job other t.jobs) ≡ true
    → is_some (find_job other (update_job name change (ensure_job name enabled t)).jobs) ≡ true
is_some_change name other change enabled t h =
    ground (arith, find_job-change name other change enabled t)

All-change :
    (name : Text) (change : Job → Job) (enabled : Bool) (t : JobTable) (names : List Text)
    → All (λ n. is_some (find_job n t.jobs) ≡ true) names
    → All
        (λ n. is_some (find_job n (update_job name change (ensure_job name enabled t)).jobs) ≡ true)
        names
All-change name change enabled t [] h = tt
All-change name change enabled t (n ∷ names) h =
    (is_some_change name n change enabled t h.0, All-change name change enabled t names h.1)

change-IsRegistered :
    (name : Text) (change : Job → Job) (enabled : Bool) (t : JobTable)
    → IsRegistered t
    → IsRegistered (update_job name change (ensure_job name enabled t))
unfolding IsRegistered
change-IsRegistered name change enabled t h =
    let known = λ (n : Text).
      is_some (find_job n (update_job name change (ensure_job name enabled t)).jobs) ≡ true in
    let old = All-change name change enabled t t.job_order h in
    subst (All known) (sym (order_of_change name change enabled t))
      (elim (Bool-cases (is_some (find_job name t.jobs))) [
        | inl e ↦ rw e old
        | inr e ↦ rw e (
            All-append known t.job_order (name ∷ []) old
              (ground (arith, find_job-change name name change enabled t, eq_text_refl name), tt))
      ])

steps-IsRegistered : (es : List Event) (t : JobTable) → IsRegistered t → IsRegistered (steps es t)
unfolding steps step register_job record_job_run
steps-IsRegistered [] t h = h
steps-IsRegistered (registered n d s e x ∷ es) t h =
    steps-IsRegistered es _ (change-IsRegistered n _ false t h)
steps-IsRegistered (ran n s a d e x y ∷ es) t h =
    steps-IsRegistered es _ (change-IsRegistered n _ true t h)

-- Listing jobs that are all there.
listed :
    (names : List Text) (js : List (Text × Job))
    → All (λ n. is_some (find_job n js) ≡ true) names
    → (xs : List Job) × (fs : List Text) × (jobs_in names js ≡ some xs)
      × (failed_in names js ≡ some fs)
      × ((any is_failing xs ≡ false) ↔ (fs ≡ []))
unfolding jobs_in failed_in
listed [] js h = ([], [], refl, refl, (λ _. refl, λ _. refl))
listed (n ∷ names) js h = elim (Option-cases (find_job n js)) [
  | inl e ↦ ground (arith, h.0, e)
  | inr (j, e) ↦
      let (xs, fs, ex, ef, i) = listed names js h.1 in
      (
        j ∷ xs,
        (if is_failing j then n ∷ fs else fs),
        rw (e, jobs_in, ex) refl,
        rw (e, failed_in, ef) refl,
        (λ a. ground (arith, i.0), λ a. ground (arith, i.1)),
      )
]

-- Whatever was registered and has run, in whatever order, the list of jobs can be given, and the
-- process is reported healthy exactly when no job is named as failed.
pub jobs_healthy :
    (es : List Event) (t : JobTable)
    → IsRegistered t
    → (s : JobState) × (fs : List Text) × (jobs (steps es t) ≡ some s)
      × (failed_jobs (steps es t) ≡ some fs)
      × ((s.healthy ≡ true) ↔ (fs ≡ []))
unfolding jobs failed_jobs IsRegistered
jobs_healthy es t h =
    let (xs, fs, ex, ef, i) = listed _ _ (steps-IsRegistered es t h) in
    (
      record { healthy = not (any is_failing xs); jobs = xs },
      fs,
      rw (ex, jobs) refl,
      ef,
      (λ a. i.0 (ground arith), λ a. ground (arith, i.1 a)),
    )

-- A count that the job of a name holds; a job that is not there holds 0.
pub count_of : (Job → ℕ) → Text → JobTable → ℕ
count_of count name t = elim (find_job name t.jobs) [ none ↦ 0 | some j ↦ count j ]

count_of-change :
    (count : Job → ℕ) (name other : Text) (change : Job → Job) (enabled rises : Bool) (t : JobTable)
    → count (new_job name enabled) ≡ 0
    → ((j : Job) → count (change j) ≡ (if rises then suc (count j) else count j))
    → count_of count other (update_job name change (ensure_job name enabled t)) ≡ (
        if eq_text name other && rises
        then suc (count_of count other t)
        else count_of count other t)
unfolding count_of job_or_new
count_of-change count name other change enabled rises t fresh by = ground (
  arith,
  find_job-change name other change enabled t,
  fresh,
  by (job_or_new name enabled t),
  (eq_text_iff name other).0,
)

-- A run of a name, and one that failed.
pub is_run : Text → Event → Bool
is_run name (registered n d s e x) = false
is_run name (ran n s a d e x y) = eq_text n name

pub is_failed_run : Text → Event → Bool
is_failed_run name (registered n d s e x) = false
is_failed_run name (ran n s a d e x y) = eq_text n name && not s

step-runs :
    (name : Text) (e : Event) (t : JobTable)
    → count_of (λ j. j.runs) name (step e t) ≡ (
        if is_run name e
        then suc (count_of (λ j. j.runs) name t)
        else count_of (λ j. j.runs) name t)
unfolding step register_job record_job_run is_run
step-runs name (registered n d s e x) t = ground (
  arith,
  count_of-change (λ j. j.runs) n name (after_registration d s e x) false false t
      (unfold new_job in refl) (λ j. unfold after_registration in refl),
)
step-runs name (ran n s a d e x y) t = ground (
  arith,
  count_of-change (λ j. j.runs) n name (after_run s a d e x y) true true t (unfold new_job in refl)
      (λ j. unfold after_run in ground arith),
)

step-failures :
    (name : Text) (e : Event) (t : JobTable)
    → count_of (λ j. j.failures) name (step e t) ≡ (
        if is_failed_run name e
        then suc (count_of (λ j. j.failures) name t)
        else count_of (λ j. j.failures) name t)
unfolding step register_job record_job_run is_failed_run
step-failures name (registered n d s e x) t = ground (
  arith,
  count_of-change (λ j. j.failures) n name (after_registration d s e x) false false t
      (unfold new_job in refl) (λ j. unfold after_registration in refl),
)
step-failures name (ran n s a d e x y) t = ground (
  arith,
  count_of-change (λ j. j.failures) n name (after_run s a d e x y) true (not s) t
      (unfold new_job in refl) (λ j. unfold after_run in ground arith),
)

-- After any registrations and runs, the runs and the failures that a job shows are those it began
-- with and those that were reported under its name.
pub steps_counts :
    (name : Text) (es : List Event) (t : JobTable)
    → (count_of (λ j. j.runs) name (steps es t)
        ≡ count_of (λ j. j.runs) name t + count_if (is_run name) es)
      × (count_of (λ j. j.failures) name (steps es t)
          ≡ count_of (λ j. j.failures) name t + count_if (is_failed_run name) es)
unfolding steps
steps_counts name [] t = (omega arith, omega arith)
steps_counts name (e ∷ es) t =
    let (runs, failures) = steps_counts name es (step e t) in
    (ground (arith, step-runs name e t, runs), ground (arith, step-failures name e t, failures))
