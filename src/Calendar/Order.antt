-- ===== src/Calendar/Order.antt =====
-- Day numbers order the days that exist as the calendar does, and count them without gaps.
use native.Mathlib.Numerals.{add-one}
use native.Mathlib.Nat.{le_refl, le_trans}
use native.Mathlib.Decide.{le_ind}
use quotapulse.Base.{ℕ, zero, suc, ◌+◌, ◌-◌, ◌*◌, ◌≤◌, ◌<◌, ◌≡◌, refl, arith, dec_lt, sym}
use quotapulse.Calendar.{
  Date, IsDate, is_leap, month_length, days_before_year, days_through, ordinal, next_day,
  previous_day, add_days, sub_days,
}

pub month_length_bounds : (y m : ℕ) → (28 ≤ month_length y m) × (month_length y m ≤ 31)
unfolding month_length
month_length_bounds y m = ground arith

days_through-suc : (y k : ℕ) → days_through y (suc k) ≡ days_through y k + month_length y (suc k)
unfolding days_through
days_through-suc y k = refl

days_through-zero : (y : ℕ) → days_through y 0 ≡ 0
unfolding days_through
days_through-zero y = refl

pub month_length-december : (y : ℕ) → month_length y 12 ≡ 31
unfolding month_length
month_length-december y = refl

days_through_mono : (y i j : ℕ) → i ≤ j → days_through y i ≤ days_through y j
days_through_mono y i j =
    le_ind (λ k. days_through y i ≤ days_through y k) (le_refl _)
      (λ k le ih. omega (arith, days_through-suc y k)) j

days_before_year-suc :
    (y : ℕ) → 1 ≤ y → days_before_year (suc y) ≡ days_before_year y + days_through y 12
unfolding days_before_year days_through month_length is_leap
days_before_year-suc y h = ground arith

days_before_year_mono : (i j : ℕ) → 1 ≤ i → i ≤ j → days_before_year i ≤ days_before_year j
days_before_year_mono i j h =
    le_ind (λ y. days_before_year i ≤ days_before_year y) (le_refl _)
      (λ y le ih. omega (arith, days_before_year-suc y (le_trans h le))) j

-- The day's place within its year, from 1.
abbrev day_of_year : Date → ℕ
day_of_year t = days_through t.year (t.month - 1) + t.day

days_through-pred : (y m : ℕ) → 1 ≤ m → days_through y m ≡ days_through y (m - 1) + month_length y m
days_through-pred y zero h = absurd (omega arith)
days_through-pred y (suc k) h = let e : suc k - 1 ≡ k = omega arith in rw e (days_through-suc y k)

months_step :
    (t : Date)
    → IsDate t
    → days_through t.year t.month ≡ days_through t.year (t.month - 1) + month_length t.year t.month
months_step t v = days_through-pred t.year t.month v.month_in.0

day_of_year_range :
    (t : Date) → IsDate t → (1 ≤ day_of_year t) × (day_of_year t ≤ days_through t.year 12)
day_of_year_range t v =
    omega (arith, months_step t v, days_through_mono t.year t.month 12 v.month_in.1)

pub ordinal-lt_of_year :
    (a b : Date) → IsDate a → IsDate b → a.year < b.year → ordinal a < ordinal b
unfolding ordinal
ordinal-lt_of_year a b va vb h = omega (
  arith,
  day_of_year_range a va,
  day_of_year_range b vb,
  days_before_year-suc a.year va.year_pos,
  days_before_year_mono (suc a.year) b.year (omega arith) h,
)

pub ordinal-lt_of_month :
    (a b : Date) → IsDate a → IsDate b → a.year ≡ b.year → a.month < b.month → ordinal a < ordinal b
unfolding ordinal
ordinal-lt_of_month a b va vb e h =
    rw (← e) (
      omega (arith, months_step a va, days_through_mono a.year a.month (b.month - 1) (omega arith)))

-- A later number is not of an earlier year; within a year, not of an earlier month; and so on.
pub year_of_le : (a b : Date) → IsDate a → IsDate b → ordinal a ≤ ordinal b → a.year ≤ b.year
year_of_le a b va vb h = elim (dec_lt b.year a.year) [
  | yes p ↦ absurd (omega (arith, ordinal-lt_of_year b a vb va p))
  | no p ↦ omega arith
]

pub month_of_le :
    (a b : Date) → IsDate a → IsDate b → ordinal a ≤ ordinal b → a.year ≡ b.year → a.month ≤ b.month
month_of_le a b va vb h e = elim (dec_lt b.month a.month) [
  | yes p ↦ absurd (omega (arith, ordinal-lt_of_month b a vb va (sym e) p))
  | no p ↦ omega arith
]

-- Within one month the numbers differ as the days do.
pub ordinal-same_month :
    (a b : Date) → a.year ≡ b.year → a.month ≡ b.month → ordinal a + b.day ≡ ordinal b + a.day
unfolding ordinal
ordinal-same_month a b e f = rw (e, f) (omega arith)

-- Two days that exist with one number are one day.
pub ordinal_inj : (a b : Date) → IsDate a → IsDate b → ordinal a ≡ ordinal b → a ≡ b
ordinal_inj a b va vb e =
    let ey : a.year ≡ b.year =
      omega (arith, year_of_le a b va vb (omega arith), year_of_le b a vb va (omega arith)) in
    let em : a.month ≡ b.month = omega (
      arith,
      month_of_le a b va vb (omega arith) ey,
      month_of_le b a vb va (omega arith) (sym ey),
    ) in
    let ed : a.day ≡ b.day = omega (arith, ordinal-same_month a b ey em) in
    λ i. record { year = ey i; month = em i; day = ed i }

pub next_day-IsDate : (t : Date) → IsDate t → IsDate (next_day t)
unfolding next_day
next_day-IsDate t v =
    ground (arith, month_length_bounds t.year (t.month + 1), month_length_bounds (t.year + 1) 1)

pub ordinal-next_day : (t : Date) → IsDate t → ordinal (next_day t) ≡ suc (ordinal t)
unfolding next_day ordinal
ordinal-next_day t v = ground (
  arith,
  months_step t v,
  month_length-december t.year,
  days_through-zero (t.year + 1),
  add-one t.year,
  days_before_year-suc t.year v.year_pos,
)

pub previous_day-IsDate : (t : Date) → IsDate t → 2 ≤ t.year → IsDate (previous_day t)
unfolding previous_day
previous_day-IsDate t v h =
    ground (arith, month_length_bounds t.year (t.month - 1), month_length-december (t.year - 1))

days_before_year-pred :
    (y : ℕ) → 2 ≤ y → days_before_year y ≡ days_before_year (y - 1) + days_through (y - 1) 12
days_before_year-pred zero h = absurd (omega arith)
days_before_year-pred (suc p) h =
    let e : suc p - 1 ≡ p = omega arith in rw e (days_before_year-suc p (omega arith))

pub ordinal-previous_day :
    (t : Date) → IsDate t → 2 ≤ t.year → suc (ordinal (previous_day t)) ≡ ordinal t
unfolding previous_day ordinal
ordinal-previous_day t v h = ground (
  arith,
  days_through-pred t.year (t.month - 1),
  days_through-pred (t.year - 1) 12,
  days_through-zero t.year,
  month_length-december (t.year - 1),
  days_before_year-pred t.year h,
)

pub add_days-IsDate : (n : ℕ) (t : Date) → IsDate t → IsDate (add_days n t)
unfolding add_days
add_days-IsDate zero t v = v
add_days-IsDate (suc n) t v = add_days-IsDate n (next_day t) (next_day-IsDate t v)

-- `AddDate(0, 0, n)` moves the day's number by `n`.
pub ordinal-add_days : (n : ℕ) (t : Date) → IsDate t → ordinal (add_days n t) ≡ ordinal t + n
unfolding add_days
ordinal-add_days zero t v = omega arith
ordinal-add_days (suc n) t v =
    omega (arith, ordinal-add_days n (next_day t) (next_day-IsDate t v), ordinal-next_day t v)

-- The year that a few days back may fall into exists.
previous_day_year : (t : Date) → 2 ≤ t.year → t.year ≤ (previous_day t).year + 1
unfolding previous_day
previous_day_year t h = ground arith

pub sub_days-IsDate : (n : ℕ) (t : Date) → IsDate t → n + 2 ≤ t.year → IsDate (sub_days n t)
unfolding sub_days
sub_days-IsDate zero t v h = v
sub_days-IsDate (suc n) t v h =
    sub_days-IsDate n (previous_day t) (previous_day-IsDate t v (omega arith))
      (omega (arith, previous_day_year t (omega arith)))

pub ordinal-sub_days :
    (n : ℕ) (t : Date) → IsDate t → n + 2 ≤ t.year → ordinal (sub_days n t) + n ≡ ordinal t
unfolding sub_days
ordinal-sub_days zero t v h = omega arith
ordinal-sub_days (suc n) t v h = omega (
  arith,
  ordinal-previous_day t v (omega arith),
  ordinal-sub_days n (previous_day t) (previous_day-IsDate t v (omega arith))
      (omega (arith, previous_day_year t (omega arith))),
)

-- Months counted from year 0.
abbrev pub month_index : Date → ℕ
month_index t = 12 * t.year + (t.month - 1)

-- A day of an earlier month comes first.
pub ordinal-lt_of_index :
    (a b : Date) → IsDate a → IsDate b → month_index a < month_index b → ordinal a < ordinal b
ordinal-lt_of_index a b va vb h = elim (dec_lt a.year b.year) [
  | yes p ↦ ordinal-lt_of_year a b va vb p
  | no p ↦ ordinal-lt_of_month a b va vb (omega arith) (omega arith)
]
