-- ===== src/Calendar.antt =====
-- Days of Go's `time` package: what internal/subscription/date.go and internal/timeutil/timeutil.go
-- use of it. A `time.Time` at local midnight is the calendar day that it starts.
pub mod Order
pub mod Slots
pub mod Format
use quotapulse.Base.{
  ℕ, zero, suc, ◌+◌, ◌-◌, ◌*◌, ◌/◌, ◌%◌, ◌≤◌, Bool, not, ◌&&◌, ◌||◌, ltb, ◌==◌, if◌then◌else◌,
}
use quotapulse.Base.Int.{ℤ, pos, negsuc}

pub record Date : Type 0 where
  pub year : ℕ
  pub month : ℕ
  pub day : ℕ

abbrev pub date : ℕ → ℕ → ℕ → Date
date y m n = record { day = n; month = m; year = y }

-- `isLeap` of the package.
pub is_leap : ℕ → Bool
is_leap y = (y % 4 == 0) && (not (y % 100 == 0) || (y % 400 == 0))

-- The length of a month, 1 to 12: the even ones have 30 days up to July, the odd ones from August.
unfoldable pub month_length : ℕ → ℕ → ℕ
unfolding is_leap
month_length y m = if m == 2 then (if is_leap y then 29 else 28) else 30 + (m + m / 8) % 2

-- Days of the years before `y`, from 0001-01-01.
unfoldable pub days_before_year : ℕ → ℕ
days_before_year y = let p = y - 1 in 365 * p + (p / 4 + p / 400 - p / 100)

-- Days of the first `k` months of a year.
unfoldable pub days_through : ℕ → ℕ → ℕ
days_through y zero = 0
days_through y (suc k) = days_through y k + month_length y (suc k)

-- The number of a day: 0001-01-01 is day 1. Two midnights compare as their days' numbers do.
unfoldable pub ordinal : Date → ℕ
ordinal t = days_before_year t.year + days_through t.year (t.month - 1) + t.day

-- `a.Before(b)`
abbrev pub before : Date → Date → Bool
before a b = ltb (ordinal a) (ordinal b)

-- `a.Equal(b)`
abbrev pub equal : Date → Date → Bool
equal a b = ordinal a == ordinal b

-- `t.Weekday()`: 0 is Sunday.
unfoldable pub weekday : Date → ℕ
weekday t = ordinal t % 7

unfoldable pub next_day : Date → Date
next_day t =
    if ltb t.day (month_length t.year t.month)
    then record t { day = t.day + 1 }
    else if ltb t.month 12
    then date t.year (t.month + 1) 1
    else date (t.year + 1) 1 1

unfoldable pub previous_day : Date → Date
previous_day t =
    if ltb 1 t.day
    then record t { day = t.day - 1 }
    else if ltb 1 t.month
    then date t.year (t.month - 1) (month_length t.year (t.month - 1))
    else date (t.year - 1) 12 31

-- `n` days later, and `n` days earlier.
unfoldable pub add_days : ℕ → Date → Date
add_days zero t = t
add_days (suc n) t = add_days n (next_day t)

unfoldable pub sub_days : ℕ → Date → Date
sub_days zero t = t
sub_days (suc n) t = sub_days n (previous_day t)

-- `t.AddDate(0, 0, n)`
unfoldable pub add_date : ℤ → Date → Date
unfolding add_days sub_days
add_date (pos n) t = add_days n t
add_date (negsuc n) t = sub_days (suc n) t

-- `t.AddDate(-1, 0, 0)`: February 29th overflows into March.
unfoldable pub year_back : Date → Date
unfolding is_leap
year_back t =
    if (t.month == 2) && (t.day == 29) && not (is_leap (t.year - 1))
    then date (t.year - 1) 3 1
    else record t { year = t.year - 1 }

-- `time.Date(y, m, 1, …)`, where month 13 is the next January.
abbrev pub month_start : ℕ → ℕ → Date
month_start y m = if ltb 12 m then date (y + 1) (m - 12) 1 else date y m 1

-- A day that exists.
pub record IsDate (t : Date) : Type 0 where
  pub year_pos : 1 ≤ t.year
  pub month_in : (1 ≤ t.month) × (t.month ≤ 12)
  pub day_in : (1 ≤ t.day) × (t.day ≤ month_length t.year t.month)
