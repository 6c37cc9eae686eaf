-- ===== src/Subscription/Date/Months.antt =====
-- Days clamped to a month, and shifts by months.
use mathlib.Core.Path.{ap₂}
use quotapulse.Base.{ℕ, ◌+◌, ◌/◌, ◌%◌, ◌≤◌, ◌≡◌, ◌∙◌, min, ap, arith}
use quotapulse.Base.Int.{
  ℤ, pos, pos_part, neg_part, ◌+ℤ◌, ◌-ℤ◌, int_laws, eq_of_parts, *ℤ-pos_parts,
}
use quotapulse.Calendar.{Date, date, IsDate, month_length, previous_day}
use quotapulse.Calendar.Order.{month_length_bounds, month_length-december, month_index}
use quotapulse.Subscription.Date.{days_in_month, safe_month_date, shift_month, floor_div, floor_mod}
use quotapulse.Subscription.Date.Floor.{floor_div_mod}

-- Day zero of the next month counts the days of this one, December included.
pub days_in_month-eq : (y m : ℕ) → 1 ≤ m → m ≤ 12 → days_in_month y m ≡ month_length y m
unfolding days_in_month previous_day
days_in_month-eq y m lo hi = ground (arith, month_length-december y, month_12 y m)
  where
    month_12 : (y m : ℕ) → m ≡ 12 → month_length y m ≡ 31
    month_12 y m e = rw e (month_length-december y)

-- For the months from 1 to 12 and days from 1 on: a day past the end of its month falls back to the
-- last day, so it does not overflow.
pub safe_month_date-eq :
    (y m dom : ℕ)
    → 1 ≤ m
    → m ≤ 12
    → 1 ≤ dom
    → safe_month_date y m (pos dom) ≡ date y m (min dom (month_length y m))
unfolding safe_month_date
safe_month_date-eq y m dom lo hi h =
    rw (days_in_month-eq y m lo hi) (ground (arith, month_length_bounds y m))

pub safe_month_date-IsDate :
    (y m dom : ℕ) → 1 ≤ y → 1 ≤ m → m ≤ 12 → 1 ≤ dom → IsDate (safe_month_date y m (pos dom))
safe_month_date-IsDate y m dom hy lo hi h =
    rw (safe_month_date-eq y m dom lo hi h) (omega (arith, month_length_bounds y m))

-- The renewal of a monthly plan on day `dom` in month number `i`.
abbrev pub monthly_occ : ℕ → ℕ → Date
monthly_occ dom i = safe_month_date (i / 12) (i % 12 + 1) (pos dom)

shift_index :
    (base : Date) (months : ℤ) (i : ℕ)
    → 1 ≤ base.month
    → pos i ≡ pos (month_index base) +ℤ months
    → let total = pos base.month -ℤ pos 1 +ℤ months in
      (pos_part (pos base.year +ℤ floor_div total (pos 12)) ≡ i / 12)
      × (pos_part (floor_mod total (pos 12) +ℤ pos 1) ≡ i % 12 + 1)
shift_index base months i h e =
    let total = pos base.month -ℤ pos 1 +ℤ months in
    let (made_up, lo, hi) = floor_div_mod total in
    let year_is : pos base.year +ℤ floor_div total (pos 12) ≡ pos (i / 12) = eq_of_parts _ _ (
      omega (
        int_laws,
        *ℤ-pos_parts (floor_div total (pos 12)) 12,
        ap pos_part e,
        ap neg_part e,
        ap pos_part made_up,
        ap neg_part made_up,
      )) in
    let month_is : floor_mod total (pos 12) +ℤ pos 1 ≡ pos (i % 12 + 1) = eq_of_parts _ _ (
      omega (
        int_laws,
        *ℤ-pos_parts (floor_div total (pos 12)) 12,
        ap pos_part e,
        ap neg_part e,
        ap pos_part made_up,
        ap neg_part made_up,
      )) in
    (ap pos_part year_is, ap pos_part month_is)

pub shift_month-occ :
    (base : Date) (months : ℤ) (dom i : ℕ)
    → 1 ≤ base.month
    → pos i ≡ pos (month_index base) +ℤ months
    → shift_month base months (pos dom) ≡ monthly_occ dom i
unfolding shift_month
shift_month-occ base months dom i h e =
    let (year_is, month_is) = shift_index base months i h e in
    ap₂ (λ y m. safe_month_date y m (pos dom)) year_is month_is

-- For a day from 1 on, `shiftMonth` lands in the month that lies `months` further, forward or back, as
-- long as that is not before year 0, on that day or, if the month is shorter, on its last one.
pub shift_month-eq :
    (base : Date) (months : ℤ) (dom i : ℕ)
    → 1 ≤ base.month
    → 1 ≤ dom
    → pos i ≡ pos (month_index base) +ℤ months
    → shift_month base months (pos dom)
      ≡ date (i / 12) (i % 12 + 1) (min dom (month_length (i / 12) (i % 12 + 1)))
shift_month-eq base months dom i h hd e =
    shift_month-occ base months dom i h e
    ∙ safe_month_date-eq (i / 12) (i % 12 + 1) dom (omega arith) (omega arith) hd
