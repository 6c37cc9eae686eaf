-- ===== src/Scheduler/Round.antt =====
-- When a task is due, and what its next time is after a run.
use quotapulse.Base.{
  ℕ, zero, suc, ◌+◌, ◌≤◌, ◌<◌, ◌≡◌, ◌≢◌, ◌⊎◌, inl, inr, refl, true, false, ◌||◌, ltb, length,
  Option, none, some, List, [], ◌∷◌, Bool-cases, Option-cases, arith,
}
use quotapulse.Calendar.{Date, add_days}
use quotapulse.Timeutil.{ClockTime, sort_clocks, first_after, search_days, next_occurrence}
use quotapulse.Timeutil.First.{first_after-some}
use quotapulse.Scheduler.{Zone, Task, enabled, occurrence, following_run, is_due}

search_days_later :
    (instant : Date → ClockTime → ℕ) (today : Date) (now : ℕ) (cs : List ClockTime)
    (weekdays : List ℕ)
    → (days offset t : ℕ) → search_days instant today now cs weekdays days offset ≡ some t
    → now < t
unfolding search_days
search_days_later instant today now cs weekdays zero offset t e = absurd (ground arith)
search_days_later instant today now cs weekdays (suc days) offset t e =
    elim (Option-cases (first_after (instant (add_days offset today)) now cs)) [
      | inl f ↦
          ground (arith, e, f, search_days_later instant today now cs weekdays days (suc offset) t)
      | inr (u, f) ↦ ground (
        arith,
        e,
        f,
        (first_after-some (instant (add_days offset today)) now cs u f).3,
        search_days_later instant today now cs weekdays days (suc offset) t,
      )
    ]

next_occurrence_later :
    (instant : Date → ClockTime → ℕ) (today : Date) (now : ℕ) (times : List ClockTime)
    (weekdays : List ℕ) (t : ℕ)
    → next_occurrence instant today now times weekdays ≡ some t
    → now < t
unfolding next_occurrence
next_occurrence_later instant today now times weekdays t e =
    ground (arith, e, search_days_later instant today now (sort_clocks times) weekdays 8 0 t)

module _ (Z : Zone) where
  following_run_later :
      (now : ℕ) (t : Task) (next : ℕ) → following_run Z now t ≡ some next → now < next
  unfolding following_run occurrence
  following_run_later now t next e =
      ground (
        arith,
        e,
        next_occurrence_later Z.instant (Z.date_of now) now t.daily_times t.weekdays next,
      )

-- A time that is still to come, or none.
unfoldable pub IsLater : ℕ → Option ℕ → Type 0
IsLater now none = Unit
IsLater now (some next) = now < next

-- The task repeats or has times of the day.
unfoldable pub IsEnabled : Task → Type 0
IsEnabled t = (1 ≤ t.interval) ⊎ (t.daily_times ≢ [])

-- The task has a next time, and it has come.
unfoldable pub IsDue : ℕ → Task → Type 0
IsDue now t = IsEnabled t × ((n : ℕ) × (t.next_run ≡ some n) × (n ≤ now))

-- The next time: an interval from now, or the next of the times of the day; none only of the latter.
unfoldable pub IsFollowing : Zone → ℕ → Task → Option ℕ → Type 0
IsFollowing Z now t next =
    IsLater now next
    × (((1 ≤ t.interval) × (next ≡ some (now + t.interval)))
        ⊎ ((t.interval ≡ 0)
            × (next ≡ next_occurrence Z.instant (Z.date_of now) now t.daily_times t.weekdays)))

is_enabled :
    (i : ℕ) (cs : List ClockTime) → (ltb 0 i || ltb 0 (length cs)) ≡ true → (1 ≤ i) ⊎ (cs ≢ [])
is_enabled i (c ∷ cs) h = inr (λ e. cc)
is_enabled i [] h = inl (ground (arith, h))

not_enabled :
    (i : ℕ) (cs : List ClockTime) → (ltb 0 i || ltb 0 (length cs)) ≡ false → (1 ≤ i) ⊎ (cs ≢ []) → ⊥
not_enabled i cs h (inl g) = ground (arith, h, g)
not_enabled i [] h (inr g) = g refl
not_enabled i (c ∷ cs) h (inr g) = ground (arith, h)

enabled-true : (t : Task) → enabled t ≡ true → IsEnabled t
unfolding enabled IsEnabled
enabled-true t h = is_enabled t.interval t.daily_times h

enabled-false : (t : Task) → enabled t ≡ false → IsEnabled t → ⊥
unfolding enabled IsEnabled
enabled-false t h e = not_enabled t.interval t.daily_times h e

pub is_due-true : (now : ℕ) (t : Task) → is_due now t ≡ true → IsDue now t
unfolding is_due IsDue
is_due-true now t h = elim (Option-cases t.next_run) [
  | inl e ↦ absurd (ground (arith, h, e))
  | inr (n, e) ↦ (enabled-true t (ground (arith, h)), (n, e, ground (arith, h, e)))
]

pub is_due-false : (now : ℕ) (t : Task) → is_due now t ≡ false → IsDue now t → ⊥
unfolding is_due IsDue
is_due-false now t h (on, (n, e, le)) = elim (Bool-cases (enabled t)) [
  | inl f ↦ ground (arith, h, e, le, f)
  | inr f ↦ enabled-false t f on
]

pub is_due-enabled : (now : ℕ) (t : Task) → is_due now t ≡ true → enabled t ≡ true
unfolding is_due
is_due-enabled now t e = ground (arith, e)

module _ (Z : Zone) where
  following_run-IsLater : (now : ℕ) (t : Task) → IsLater now (following_run Z now t)
  unfolding IsLater
  following_run-IsLater now t = elim (Option-cases (following_run Z now t)) [
    | inl f ↦ rw f tt
    | inr (next, f) ↦ rw f (following_run_later Z now t next f)
  ]

  following_run-kind :
      (now : ℕ) (t : Task)
      → ((1 ≤ t.interval) × (following_run Z now t ≡ some (now + t.interval)))
        ⊎ ((t.interval ≡ 0)
            × (following_run Z now t
                ≡ next_occurrence Z.instant (Z.date_of now) now t.daily_times t.weekdays))
  unfolding following_run occurrence
  following_run-kind now t = elim (Bool-cases (ltb 0 t.interval)) [
    | inl e ↦ inl (ground (arith, e), rw e refl)
    | inr e ↦ inr (ground (arith, e), rw e refl)
  ]

  pub following_run-IsFollowing : (now : ℕ) (t : Task) → IsFollowing Z now t (following_run Z now t)
  unfolding IsFollowing
  following_run-IsFollowing now t = (following_run-IsLater now t, following_run-kind now t)
