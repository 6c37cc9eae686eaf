-- ===== src/Timeutil.antt =====
-- The next time that a schedule fires: `NextOccurrence` of internal/timeutil/timeutil.go. The zone is
-- a parameter: it gives the instant of a date and a clock time. The set of weekdays is a list.
pub mod Sorting
pub mod First
pub mod Allowed
pub mod Next
pub mod Parse
mod Tests
use quotapulse.Base.{
  ℕ, zero, suc, ◌+◌, ◌<◌, ◌≤◌, ◌≡◌, Bool, true, false, ◌&&◌, ◌||◌, Option, none, some, List, [],
  ◌∷◌, ltb, ◌==◌, if◌then◌else◌, length, any,
}
use quotapulse.Calendar.{Date, IsDate, ordinal, weekday, add_days}

pub record ClockTime : Type 0 where
  pub hour : ℕ
  pub minute : ℕ

abbrev pub clock_before : ClockTime → ClockTime → Bool
clock_before a b = ltb a.hour b.hour || ((a.hour == b.hour) && ltb a.minute b.minute)

-- `sort.Slice` by `before`.
unfoldable pub insert : ClockTime → List ClockTime → List ClockTime
insert c [] = c ∷ []
insert c (d ∷ ds) = let rest = insert c ds in if clock_before c d then c ∷ d ∷ ds else d ∷ rest

unfoldable pub sort_clocks : List ClockTime → List ClockTime
sort_clocks [] = []
sort_clocks (c ∷ cs) = insert c (sort_clocks cs)

-- `ISOWeekday`
unfoldable pub iso_weekday : Date → ℕ
iso_weekday t = if weekday t == 0 then 7 else weekday t

-- The day's check: no restriction, or a day of the set.
unfoldable pub fires_on : List ℕ → Date → Bool
fires_on weekdays day = (length weekdays == 0) || any (λ w. w == iso_weekday day) weekdays

-- The inner loop: the first of the day's times that is after now.
unfoldable pub first_after : (ClockTime → ℕ) → ℕ → List ClockTime → Option ℕ
first_after instant now [] = none
first_after instant now (c ∷ cs) =
    let rest = first_after instant now cs in if ltb now (instant c) then some (instant c) else rest

module _ (instant : Date → ClockTime → ℕ) (today : Date) (now : ℕ) (ordered : List ClockTime)
    (weekdays : List ℕ) where
  -- The outer loop: `days` more days from `offset` on.
  unfoldable pub search_days : ℕ → ℕ → Option ℕ
  search_days zero offset = none
  search_days (suc days) offset =
      let rest = search_days days (suc offset) in
      let day = add_days offset today in
      if fires_on weekdays day
      then elim (first_after (instant day) now ordered) [ none ↦ rest | some t ↦ some t ]
      else rest

unfoldable pub next_occurrence :
    (Date → ClockTime → ℕ) → Date → ℕ → List ClockTime → List ℕ → Option ℕ
next_occurrence instant today now times weekdays =
    if length times == 0
    then none
    else search_days instant today now (sort_clocks times) weekdays 8 0

-- A time of day that exists, as the parsers make them.
pub record IsClock (c : ClockTime) : Type 0 where
  pub hour : c.hour ≤ 23
  pub minute : c.minute ≤ 59

-- A zone in the eight days from today on: each of these days has later clocks at later instants and ends
-- before any time of a later day, and only today has times that have come. Other days may have gaps.
pub record ZoneLaws (instant : Date → ClockTime → ℕ) (today : Date) (now : ℕ) : Type 0 where
  pub later_day :
      (a b : Date) (c d : ClockTime)
      → IsClock c
      → IsClock d
      → ordinal today ≤ ordinal a
      → ordinal a ≤ ordinal today + 7
      → ordinal a < ordinal b
      → instant a c < instant b d
  pub later_clock :
      (a : Date) (c d : ClockTime)
      → IsClock c
      → IsClock d
      → ordinal today ≤ ordinal a
      → ordinal a ≤ ordinal today + 7
      → clock_before c d ≡ true
      → instant a c < instant a d
  pub not_yet :
      (a : Date) (c : ClockTime)
      → ordinal today < ordinal a
      → ordinal a ≤ ordinal today + 7
      → now < instant a c
