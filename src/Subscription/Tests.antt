-- ===== src/Subscription/Tests.antt =====
-- Runs of the renewal calendar, and its theorems at concrete schedules.
use quotapulse.Base.{min, ◌≡◌, refl, true, none, some, arith}
use quotapulse.Base.Int.{pos, negsuc, ◌+ℤ◌, ◌-ℤ◌, ◌*ℤ◌}
use quotapulse.Calendar.{
  Date, date, IsDate, month_length, ordinal, days_before_year, days_through, weekday, add_date,
  next_day, previous_day,
}
use quotapulse.Calendar.Slots.{IsFirst, IsLast}
use quotapulse.Subscription.Date.{
  weekly, yearly, lunar_yearly, monthly, Schedule, split_mmdd, days_in_month, safe_month_date, quot,
  rem, floor_div, floor_mod, shift_month, safe_replace_year, iso_weekday, days_between,
  new_schedule, lunar_date, next_lunar_yearly_date, previous_lunar_yearly_date, on_or_after,
  renewal_before, renewal_after, covering, evaluate, next_renewal,
}
use quotapulse.Subscription.Sample.{toy, toy_laws}
use quotapulse.Subscription.Date.Months.{shift_month-eq}
use quotapulse.Subscription.Date.Spec.{IsRenewal}
use quotapulse.Subscription.Date.Search.{on_or_after-IsFirst}
use quotapulse.Subscription.Date.Previous.{renewal_before-IsLast}
use quotapulse.Subscription.Date.Cover.{IsCovered, covering-IsCovered}
use quotapulse.Subscription.Date.Marks.{
  IsNextAfter, IsEvaluated, evaluate_paid_ahead, evaluate-IsEvaluated,
}

methods : Unit {0}
unfolding ordinal days_before_year days_through month_length weekday add_date next_day previous_day
    split_mmdd days_in_month safe_month_date quot rem floor_div floor_mod shift_month
    safe_replace_year iso_weekday days_between new_schedule lunar_date next_lunar_yearly_date
    previous_lunar_yearly_date on_or_after renewal_before renewal_after covering evaluate
    next_renewal ◌+ℤ◌ ◌-ℤ◌ ◌*ℤ◌
methods = tt

abbrev leap_eve : Date
leap_eve = date 2028 2 28

abbrev monthly_31 : Schedule
monthly_31 = record { cycle = monthly; renewal_day = pos 31; anchor = none }

runs :
    (on_or_after toy monthly_31 leap_eve ≡ date 2028 2 29)
    × (renewal_before toy monthly_31 (date 2028 2 29) ≡ date 2028 1 31)
    × (iso_weekday (date 2026 11 25) ≡ 3)
    × (split_mmdd (pos 315) ≡ some (3, 15))
    × ((next_renewal toy yearly (pos 229) (date 2027 3 1) none).1 ≡ date 2028 2 29)
    × ((evaluate toy weekly (pos 5) (date 2026 11 25) none (pos 3)).days ≡ pos 2)
    × ((evaluate toy lunar_yearly (pos 105) (date 2026 2 1) none (pos 3)).next ≡ date 2027 1 5)
unfolding methods
runs = (refl, refl, refl, refl, refl, refl, refl)

leap_eve-IsDate : IsDate leap_eve
unfolding methods
leap_eve-IsDate = omega arith

abbrev leap_end : Date
leap_end = date 2028 2 29

leap_end-IsDate : IsDate leap_end
unfolding methods
leap_end-IsDate = omega arith

on_or_after-IsFirst_example :
    IsFirst (IsRenewal toy monthly_31) leap_eve (on_or_after toy monthly_31 leap_eve)
on_or_after-IsFirst_example =
    on_or_after-IsFirst toy toy_laws leap_eve leap_eve-IsDate (omega arith) monthly_31
      (31, refl, omega arith)

renewal_before-IsLast_example :
    IsLast (IsRenewal toy monthly_31) leap_end (renewal_before toy monthly_31 leap_end)
unfolding methods
renewal_before-IsLast_example =
    renewal_before-IsLast leap_end leap_end-IsDate (omega arith) toy toy_laws monthly_31
      (31, refl, omega arith) (31, refl, refl)

covering-IsCovered_example :
    IsCovered toy monthly_31 leap_eve (pos 3) (covering toy monthly_31 leap_eve (pos 3))
covering-IsCovered_example =
    covering-IsCovered toy toy_laws monthly_31 (31, refl, omega arith) leap_eve leap_eve-IsDate
      (omega arith) (pos 3)

abbrev march : Date
march = date 2028 3 20

march-IsDate : IsDate march
unfolding methods
march-IsDate = omega arith

evaluate-IsEvaluated_example :
    IsEvaluated toy
      (new_schedule yearly (pos 229) (some leap_eve))
      march
      (evaluate toy yearly (pos 229) march (some leap_eve) (pos 3))
unfolding methods
evaluate-IsEvaluated_example =
    evaluate-IsEvaluated toy toy_laws yearly (pos 229) march march-IsDate (omega arith)
      (some leap_eve) (pos 3) tt (leap_eve-IsDate, omega arith)

abbrev first_of_march : Date
first_of_march = date 2028 3 1

first_of_march-IsDate : IsDate first_of_march
unfolding methods
first_of_march-IsDate = omega arith

-- Day 5, marked on the first of March: it pays for the renewal of the fifth.
evaluate_paid_ahead_example :
    let s = new_schedule monthly (pos 5) (some first_of_march) in
    let r = evaluate toy monthly (pos 5) leap_eve (some first_of_march) (pos 6) in
    (r.already_renewed ≡ true) × IsNextAfter toy s (covering toy s first_of_march (pos 6)) r.next
unfolding methods
evaluate_paid_ahead_example =
    evaluate_paid_ahead toy toy_laws monthly (pos 5) leap_eve leap_eve-IsDate (omega arith)
      first_of_march (5, refl, omega arith) first_of_march-IsDate (omega arith) (pos 6)
      (omega arith)

shift_month-eq_example :
    shift_month (date 2028 1 31) (negsuc 1) (pos 31) ≡ date 2027 11 (min 31 (month_length 2027 11))
unfolding methods
shift_month-eq_example =
    shift_month-eq (date 2028 1 31) (negsuc 1) 31 24334 (omega arith) (omega arith) refl
