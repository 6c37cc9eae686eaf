-- ===== src/Timeutil/Parse/Fires.antt =====
-- A weekly schedule that is read by `parse_weekly_schedule` and then waited for by `next_occurrence`.
use quotapulse.Base.{ℕ, ◌≤◌, ◌≡◌, inl, inr, sym, subst, some, List, [], ◌∷◌, All}
use quotapulse.Base.Text.{Text}
use quotapulse.Calendar.{Date, IsDate}
use quotapulse.Timeutil.{ClockTime, IsClock, ZoneLaws, next_occurrence}
use quotapulse.Timeutil.Sorting.{Mem}
use quotapulse.Timeutil.Next.{IsFire, next_occurrence-IsNext}
use quotapulse.Timeutil.Parse.{schedule, parse_weekly_schedule}
use quotapulse.Timeutil.Parse.Weekdays.{IsWeekday}
use quotapulse.Timeutil.Parse.Sound.{IsSound}
use quotapulse.Timeutil.Parse.Weekly.{IsSchedule, parse_weekly_schedule-IsSchedule}

All-Mem : (cs : List ClockTime) → All IsClock cs → (c : ClockTime) → Mem c cs → IsClock c
unfolding Mem
All-Mem (d ∷ cs) h c (inl q) = subst IsClock (sym q) h.0
All-Mem (d ∷ cs) h c (inr m) = All-Mem cs h.1 c m
All-Mem [] h c m = elim m [ ]

fires_of :
    (instant : Date → ClockTime → ℕ) (today : Date) (now : ℕ)
    → ZoneLaws instant today now
    → IsDate today
    → (days : List ℕ) (c : ClockTime) (cs : List ClockTime)
    → All IsWeekday days × All IsClock (c ∷ cs)
    → (t : ℕ) × (next_occurrence instant today now (c ∷ cs) days ≡ some t)
      × IsFire instant today now days (c ∷ cs) 0 t
      × ((u : ℕ) → IsFire instant today now days (c ∷ cs) 0 u → t ≤ u)
fires_of instant today now laws v days c cs h =
    next_occurrence-IsNext instant today now laws v (c ∷ cs) days (All-Mem (c ∷ cs) h.1) h.0
      (λ e. cc)

-- In a zone in whose eight days from today on later clocks are later instants, each day ends before any
-- later day, and no later day has come (days further off may have gaps), a schedule that was read with
-- at least one time has the weekdays and times that its text says, and fires again: there is an instant
-- after now at one of its times on one of its weekdays, or on any day if it names none, and no other such
-- instant comes before it.
pub parsed_schedule_fires :
    (instant : Date → ClockTime → ℕ) (today : Date) (now : ℕ)
    → ZoneLaws instant today now
    → IsDate today
    → (s : Text) (days : List ℕ) (c : ClockTime) (cs : List ClockTime)
    → parse_weekly_schedule s ≡ schedule days (c ∷ cs)
    → IsSchedule s (schedule days (c ∷ cs))
      × ((t : ℕ) × (next_occurrence instant today now (c ∷ cs) days ≡ some t)
          × IsFire instant today now days (c ∷ cs) 0 t
          × ((u : ℕ) → IsFire instant today now days (c ∷ cs) 0 u → t ≤ u))
parsed_schedule_fires instant today now laws v s days c cs h =
    let read : IsSchedule s (schedule days (c ∷ cs)) =
      subst (IsSchedule s) h (parse_weekly_schedule-IsSchedule s) in
    (
      read,
      fires_of instant today now laws v days c cs
          (unfold IsSchedule IsSound in (read.0.0, read.0.1)),
    )
