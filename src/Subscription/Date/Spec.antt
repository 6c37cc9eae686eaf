-- ===== src/Subscription/Date/Spec.antt =====
-- Which days are renewals, described without the code that looks for them.
use mathlib.Core.Path.{ap₂}
use quotapulse.Base.{ℕ, ◌+◌, ◌/◌, ◌%◌, ◌≤◌, ◌<◌, ◌≡◌, refl, min, Option, none, some, arith}
use quotapulse.Base.Int.{pos}
use quotapulse.Calendar.{Date, date, IsDate, ordinal, month_length}
use quotapulse.Calendar.Order.{
  month_length_bounds, month_index, ordinal-lt_of_index, ordinal-lt_of_year,
}
use quotapulse.Calendar.Slots.{Slots}
use quotapulse.Subscription.Date.{
  Cycle, weekly, yearly, lunar_yearly, monthly, Lunar, Schedule, split_mmdd, iso_weekday,
}

-- The `dom`-th of a month, or its last day where it is shorter.
abbrev pub clamped : ℕ → ℕ → ℕ → Date
clamped y m dom = date y m (min dom (month_length y m))

-- What the code relies on of the lunar calendar: a lunar day that its month holds is a solar day
-- of that lunar year, and lunar years follow one another, at most one year behind the solar ones.
pub record LunarLaws (L : Lunar) : Type 0 where
  pub solar-IsDate :
      (y m d c : ℕ) → 1 ≤ y → L.day_count y m ≡ some c → 1 ≤ d → d ≤ c → IsDate (L.solar y m d)
  pub lunar_year-solar :
      (y m d c : ℕ)
      → 1 ≤ y
      → L.day_count y m ≡ some c
      → 1 ≤ d
      → d ≤ c
      → L.lunar_year (L.solar y m d) ≡ y
  pub lunar_year_lt :
      (a b : Date) → IsDate a → IsDate b → L.lunar_year a < L.lunar_year b → ordinal a < ordinal b
  pub lunar_year_lag : (d : Date) → IsDate d → d.year ≤ L.lunar_year d + 1

-- Every lunar year has that day: so it is for days up to the 29th.
abbrev pub EveryYear : Lunar → ℕ → ℕ → Type 0
EveryYear L m dom = (y : ℕ) → 1 ≤ y → (c : ℕ) × (L.day_count y m ≡ some c) × (dom ≤ c)

abbrev pub IsYearlyPlan : Option (ℕ × ℕ) → Option Date → Type 0
IsYearlyPlan (some _) anchor = Unit {0}
IsYearlyPlan none (some anchor) = IsDate anchor
IsYearlyPlan none none = ⊥

abbrev pub IsLunarPlan : Lunar → Option (ℕ × ℕ) → Type 0
IsLunarPlan L (some (m, dom)) = EveryYear L m dom
IsLunarPlan L none = ⊥

-- The schedules that name their renewals: all that the API accepts, but for a yearly one with neither
-- day nor anchor, whose date is unknown, and a lunar day that not every year has.
abbrev pub IsPlan : Lunar → Cycle → Schedule → Type 0
IsPlan L weekly s = (n : ℕ) × (s.renewal_day ≡ pos n) × (1 ≤ n) × (n ≤ 7)
IsPlan L yearly s = IsYearlyPlan (split_mmdd s.renewal_day) s.anchor
IsPlan L lunar_yearly s = IsLunarPlan L (split_mmdd s.renewal_day)
IsPlan L monthly s = (n : ℕ) × (s.renewal_day ≡ pos n) × (1 ≤ n)

abbrev pub YearlyRenewal : Option (ℕ × ℕ) → Option Date → Date → Type 0
YearlyRenewal (some (m, dom)) anchor d = d ≡ clamped d.year m dom
YearlyRenewal none (some anchor) d = d ≡ clamped d.year anchor.month anchor.day
YearlyRenewal none none d = ⊥

abbrev pub LunarRenewal : Lunar → Option (ℕ × ℕ) → Date → Type 0
LunarRenewal L (some (m, dom)) d = d ≡ L.solar (L.lunar_year d) m dom
LunarRenewal L none d = ⊥

-- The day `d` is a renewal.
abbrev pub RenewalOf : Lunar → Cycle → Schedule → Date → Type 0
RenewalOf L weekly s d = pos (iso_weekday d) ≡ s.renewal_day
RenewalOf L yearly s d = YearlyRenewal (split_mmdd s.renewal_day) s.anchor d
RenewalOf L lunar_yearly s d = LunarRenewal L (split_mmdd s.renewal_day) d
RenewalOf L monthly s d = (n : ℕ) × (s.renewal_day ≡ pos n) × (d ≡ clamped d.year d.month n)

abbrev pub IsRenewal : Lunar → Schedule → Date → Type 0
IsRenewal L s d = RenewalOf L s.cycle s d

pub clamped-IsDate : (y m dom : ℕ) → 1 ≤ y → 1 ≤ m → m ≤ 12 → 1 ≤ dom → IsDate (clamped y m dom)
clamped-IsDate y m dom hy lo hi h = omega (arith, month_length_bounds y m)

-- One day each year.
abbrev pub yearly_slots : (m dom : ℕ) → 1 ≤ m → m ≤ 12 → 1 ≤ dom → Slots
yearly_slots m dom lo hi h = record {
  slot = λ d. d.year;
  occ = λ y. clamped y m dom;
  start = 1;
  occ-IsDate = λ y hy. clamped-IsDate y m dom hy lo hi h;
  slot-occ = λ y hy. refl;
  slot_lt = ordinal-lt_of_year;
}

-- One day each month.
abbrev pub monthly_slots : (dom : ℕ) → 1 ≤ dom → Slots
monthly_slots dom h = record {
  slot = month_index;
  occ = λ i. clamped (i / 12) (i % 12 + 1) dom;
  start = 12;
  occ-IsDate =
      λ i hi. clamped-IsDate (i / 12) (i % 12 + 1) dom (omega arith) (omega arith) (omega arith) h;
  slot-occ = λ i hi. omega arith;
  slot_lt = ordinal-lt_of_index;
}

-- One day each lunar year.
abbrev pub lunar_slots :
    (L : Lunar) → LunarLaws L → (m dom : ℕ) → 1 ≤ dom → EveryYear L m dom → Slots
lunar_slots L laws m dom h every = record {
  slot = L.lunar_year;
  occ = λ y. L.solar y m dom;
  start = 1;
  occ-IsDate = λ y hy. let (c, has, le) = every y hy in laws.solar-IsDate y m dom c hy has h le;
  slot-occ = λ y hy. let (c, has, le) = every y hy in laws.lunar_year-solar y m dom c hy has h le;
  slot_lt = laws.lunar_year_lt;
}

-- A month's number gives the month back.
pub clamped-index :
    (dom : ℕ) (d : Date)
    → IsDate d
    → clamped (month_index d / 12) (month_index d % 12 + 1) dom ≡ clamped d.year d.month dom
clamped-index dom d v =
    let y : month_index d / 12 ≡ d.year = omega arith in
    let m : month_index d % 12 + 1 ≡ d.month = omega arith in ap₂ (λ a b. clamped a b dom) y m
