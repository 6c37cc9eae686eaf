-- ===== src/Timeutil/Tests.antt =====
-- A schedule of two times on two weekdays, in a zone of minutes.
use quotapulse.Base.{
  ℕ, ◌+◌, ◌*◌, ◌≤◌, ◌≡◌, inl, inr, refl, some, List, [], ◌∷◌, ◌&&◌, ◌==◌, if◌then◌else◌, Bool-cases,
  arith,
}
use quotapulse.Calendar.{
  Date, date, IsDate, ordinal, days_before_year, days_through, month_length, weekday, next_day,
  add_days,
}
use quotapulse.Timeutil.{
  ClockTime, IsClock, ZoneLaws, insert, sort_clocks, iso_weekday, fires_on, first_after,
  search_days, next_occurrence,
}
use quotapulse.Base.Text.{
  text, eq_text, trim_space, trim_left, trim_right, to_lower, split_on, one_of, starts_with,
}
use quotapulse.Base.Digits.{atoi, signed, digits_value}
use quotapulse.Calendar.Format.{two_digits}
use quotapulse.Timeutil.Parse.{
  is_off, match_time, seen, clock_of, parse_parts, parse_daily_times, day_named, commas_from,
  day_of, add_day, parse_days, parse_weekdays, schedule, with_days, cut_space,
  parse_weekly_schedule,
}
use quotapulse.Timeutil.Parse.Weekly.{IsSchedule}
use quotapulse.Timeutil.Parse.Fires.{parsed_schedule_fires}
use quotapulse.Timeutil.Sorting.{Mem}
use quotapulse.Timeutil.Next.{IsFire, next_occurrence-IsNext}

-- On 28 March 2027 the clock is put forward: the hour from two to three is the next one.
unfoldable put_forward : Date → ClockTime → ℕ
put_forward d c = if (ordinal d == ordinal (date 2027 3 28)) && (c.hour == 2) then 60 else 0

abbrev zone : Date → ClockTime → ℕ
zone d c = ordinal d * 1440 + (c.hour * 60 + c.minute) + put_forward d c

abbrev today : Date
today = date 2026 11 25

abbrev clock : ℕ → ℕ → ClockTime
clock h m = record { hour = h; minute = m }

abbrev times : List ClockTime
times = clock 18 0 ∷ clock 9 30 ∷ []

abbrev now : ℕ
now = zone today (clock 12 0)

-- Wednesday at noon: the next Monday or Wednesday time is the same day's second.
runs :
    (next_occurrence zone today now times (1 ∷ 3 ∷ []) ≡ some (zone today (clock 18 0)))
    × (next_occurrence zone today now times (1 ∷ []) ≡ some (zone (date 2026 11 30) (clock 9 30)))
unfolding put_forward ordinal days_before_year days_through month_length weekday next_day add_days
    insert sort_clocks iso_weekday fires_on first_after search_days next_occurrence
runs = (refl, refl)

today-IsDate : IsDate today
unfolding month_length
today-IsDate = omega arith

put_forward-le :
    (d : Date) (c : ClockTime) → IsClock c → c.hour * 60 + c.minute + put_forward d c ≤ 1439
unfolding put_forward
put_forward-le d c v = elim (Bool-cases (c.hour == 2)) [
  | inl e ↦ ground (arith, e, v.minute)
  | inr e ↦ rw e ground (arith, v.hour, v.minute)
]

far : ordinal (date 2027 3 28) ≡ ordinal today + 123
unfolding ordinal days_before_year days_through month_length
far = refl

put_forward-zero : (d : Date) (c : ClockTime) → ordinal d ≤ ordinal today + 7 → put_forward d c ≡ 0
unfolding put_forward
put_forward-zero d c h = ground (arith, far, h)

zone_lem : ZoneLaws zone today now
zone_lem = record {
  later_day = λ a b c d vc vd le near lt. omega (arith, lt, put_forward-le a c vc);
  later_clock = λ a c d vc vd le near lt.
      let zc = put_forward-zero a c near in
      let zd = put_forward-zero a d near in ground (arith, zc, zd, vc.minute, vd.minute, lt);
  not_yet = λ a c lt near. omega (arith, lt, put_forward-zero today (clock 12 0) (omega arith));
}

times_exist : (c : ClockTime) → Mem c times → IsClock c
unfolding Mem
times_exist c (inl e) = rw e (record { hour = omega arith; minute = omega arith })
times_exist c (inr (inl e)) = rw e (record { hour = omega arith; minute = omega arith })
times_exist c (inr (inr e)) = elim e [ ]

next_occurrence-IsNext_example :
    (t : ℕ) × (next_occurrence zone today now times (1 ∷ 3 ∷ []) ≡ some t)
    × IsFire zone today now (1 ∷ 3 ∷ []) times 0 t
    × ((u : ℕ) → IsFire zone today now (1 ∷ 3 ∷ []) times 0 u → t ≤ u)
next_occurrence-IsNext_example =
    next_occurrence-IsNext zone today now zone_lem today-IsDate times (1 ∷ 3 ∷ []) times_exist
      ((omega arith, omega arith), ((omega arith, omega arith), tt)) (λ e. cc)

reads_schedule :
    parse_weekly_schedule (text "Mon,3 9:30,18:00")
    ≡ schedule (1 ∷ 3 ∷ []) (clock 9 30 ∷ clock 18 0 ∷ [])
unfolding parse_weekly_schedule parse_weekdays parse_days day_of day_named commas_from starts_with
    atoi signed digits_value add_day with_days cut_space parse_daily_times is_off eq_text one_of
    to_lower trim_space trim_left trim_right split_on parse_parts match_time two_digits clock_of
    seen insert sort_clocks
reads_schedule = refl

parsed_schedule_fires_example :
    IsSchedule (text "Mon,3 9:30,18:00") (schedule (1 ∷ 3 ∷ []) (clock 9 30 ∷ clock 18 0 ∷ []))
    × ((t : ℕ) × (next_occurrence zone today now (clock 9 30 ∷ clock 18 0 ∷ []) (1 ∷ 3 ∷ [])
          ≡ some t)
        × IsFire zone today now (1 ∷ 3 ∷ []) (clock 9 30 ∷ clock 18 0 ∷ []) 0 t
        × ((u : ℕ) → IsFire zone today now (1 ∷ 3 ∷ []) (clock 9 30 ∷ clock 18 0 ∷ []) 0 u → t ≤ u))
parsed_schedule_fires_example =
    parsed_schedule_fires zone today now zone_lem today-IsDate (text "Mon,3 9:30,18:00")
      (1 ∷ 3 ∷ []) (clock 9 30) (clock 18 0 ∷ []) reads_schedule
