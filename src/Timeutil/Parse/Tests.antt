-- ===== src/Timeutil/Parse/Tests.antt =====
-- Schedules that are read, and one that is written and read again.
use quotapulse.Base.{ℕ, ◌≡◌, inl, inr, refl, [], ◌∷◌, map, some, arith}
use quotapulse.Base.Text.{
  text, eq_text, trim_space, trim_left, trim_right, to_lower, split_on, join, one_of, starts_with,
}
use quotapulse.Base.Digits.{atoi, signed, digits_value}
use quotapulse.Calendar.Format.{two_digits}
use quotapulse.Timeutil.{ClockTime, insert, sort_clocks}
use quotapulse.Timeutil.Sorting.{Mem}
use quotapulse.Timeutil.Parse.{
  is_off, match_time, times, out_of_range, seen, clock_of, parse_parts, parse_daily_times,
  day_named, commas_from, day_of, add_day, parse_days, parse_weekdays, schedule, with_days,
  cut_space, parse_weekly_schedule, two_places, clock_text, labels_of, insert_day, sort_days,
  describe,
}
use quotapulse.Timeutil.Parse.Ordered.{IsIncreasing}
use quotapulse.Timeutil.Parse.Clocks.{IsTimes, parse_daily_times-IsTimes}
use quotapulse.Timeutil.Parse.Weekly.{IsSchedule, parse_weekly_schedule-IsSchedule}
use quotapulse.Timeutil.Parse.Print.{parse_daily_times-clock_text}

abbrev at : ℕ → ℕ → ClockTime
at h m = record { hour = h; minute = m }

reads_times : parse_daily_times (text " 9:30, 07:05,,9:30 ") ≡ times (at 7 5 ∷ at 9 30 ∷ [])
unfolding parse_daily_times is_off eq_text one_of to_lower trim_space trim_left trim_right split_on
    parse_parts match_time two_digits clock_of seen insert sort_clocks
reads_times = refl

refuses_times : parse_daily_times (text "9:30,24:00") ≡ out_of_range (text "24:00")
unfolding parse_daily_times is_off eq_text one_of to_lower trim_space trim_left trim_right split_on
    parse_parts match_time two_digits clock_of seen insert sort_clocks
refuses_times = refl

reads_weekly : parse_weekly_schedule (text "Mon,4 09:00") ≡ schedule (1 ∷ 4 ∷ []) (at 9 0 ∷ [])
unfolding parse_weekly_schedule parse_weekdays parse_days day_of day_named commas_from starts_with
    atoi signed digits_value add_day with_days cut_space parse_daily_times is_off eq_text one_of
    to_lower trim_space trim_left trim_right split_on parse_parts match_time two_digits clock_of
    seen insert sort_clocks
reads_weekly = refl

describes_weekly : describe (at 9 0 ∷ []) (4 ∷ 1 ∷ []) ≡ some (text "Weekly Mon, Thu 09:00")
unfolding describe labels_of insert_day sort_days join clock_text two_places
describes_weekly = refl

parse_daily_times-IsTimes_example :
    IsTimes (text "9:30,24:00") (parse_daily_times (text "9:30,24:00"))
parse_daily_times-IsTimes_example = parse_daily_times-IsTimes (text "9:30,24:00")

parse_weekly_schedule-IsSchedule_example :
    IsSchedule (text "Mon,4 09:00") (parse_weekly_schedule (text "Mon,4 09:00"))
parse_weekly_schedule-IsSchedule_example = parse_weekly_schedule-IsSchedule (text "Mon,4 09:00")

parse_daily_times-clock_text_example :
    parse_daily_times (join (text ",") (map clock_text (at 7 5 ∷ at 18 30 ∷ [])))
    ≡ times (at 7 5 ∷ at 18 30 ∷ [])
parse_daily_times-clock_text_example =
    parse_daily_times-clock_text (at 7 5) (at 18 30 ∷ [])
      (
        record { hour = omega arith; minute = omega arith },
        (record { hour = omega arith; minute = omega arith }, tt),
      )
      (unfold IsIncreasing Mem in
        (
          λ d m. elim m [ inl q ↦ rw q (ground arith) | inr k ↦ elim k [ ] ],
          (λ d m. elim m [ ], tt),
        ))
