-- ===== src/Subscription/Date.antt =====
-- The renewal calendar: internal/subscription/date.go. A `time.Time` is the local day that it
-- falls on, so `startOfDay` is the identity; days, months and offsets are Go's `int`. The lunar
-- calendar is a third-party package, and a parameter.
pub mod Floor
pub mod Months
pub mod Spec
pub mod Search
pub mod Previous
pub mod Cover
pub mod Marks
use quotapulse.Base.{
  ℕ, suc, ◌+◌, ◌-◌, ◌*◌, ◌/◌, ◌%◌, Bool, true, false, not, ◌&&◌, Option, none, some, ltb, leb, ◌==◌,
  if◌then◌else◌,
}
use quotapulse.Base.Int.{ℤ, pos, negsuc, pos_part, neg_part, ◌+ℤ◌, ◌-ℤ◌, ◌*ℤ◌, ltb_ℤ, leb_ℤ, eqb_ℤ}
use quotapulse.Calendar.{
  Date, date, ordinal, before, equal, weekday, previous_day, add_days, add_date, year_back,
  month_start,
}

-- `SplitMMDD`
unfoldable pub split_mmdd : ℤ → Option (ℕ × ℕ)
split_mmdd renewal_day =
    if leb_ℤ renewal_day (pos 31)
    then none
    else let month = pos_part renewal_day / 100 in
      let day = pos_part renewal_day % 100 in
      if leb 1 month && (leb month 12 && (leb 1 day && leb day 31)) then some (month, day) else none

-- Day zero of the next month is the last day of this one.
unfoldable pub days_in_month : ℕ → ℕ → ℕ
days_in_month year month = (previous_day (month_start year (month + 1))).day

unfoldable pub safe_month_date : ℕ → ℕ → ℤ → Date
safe_month_date year month day =
    let max_day = pos (days_in_month year month) in
    let day' = if ltb_ℤ max_day day then max_day else day in
    let day'' = if ltb_ℤ day' (pos 1) then pos 1 else day' in date year month (pos_part day'')

-- Go's `a / b` and `a % b` truncate toward zero.
unfoldable pub quot : ℤ → ℤ → ℤ
quot a b =
    let q = (pos_part a + neg_part a) / (pos_part b + neg_part b) in
    let negative = ltb_ℤ a (pos 0) in
    if (if ltb_ℤ b (pos 0) then not negative else negative) then pos 0 -ℤ pos q else pos q

unfoldable pub rem : ℤ → ℤ → ℤ
rem a b =
    let r = (pos_part a + neg_part a) % (pos_part b + neg_part b) in
    if ltb_ℤ a (pos 0) then pos 0 -ℤ pos r else pos r

unfoldable pub floor_div : ℤ → ℤ → ℤ
floor_div a b =
    let quotient = quot a b in
    let differ = if ltb_ℤ a (pos 0) then not (ltb_ℤ b (pos 0)) else ltb_ℤ b (pos 0) in
    if not (eqb_ℤ (rem a b) (pos 0)) && differ then quotient -ℤ pos 1 else quotient

unfoldable pub floor_mod : ℤ → ℤ → ℤ
floor_mod a b = a -ℤ floor_div a b *ℤ b

unfoldable pub shift_month : Date → ℤ → ℤ → Date
shift_month base months day =
    let total = pos base.month -ℤ pos 1 +ℤ months in
    let year = pos base.year +ℤ floor_div total (pos 12) in
    let month = floor_mod total (pos 12) +ℤ pos 1 in
    safe_month_date (pos_part year) (pos_part month) day

unfoldable pub safe_replace_year : Date → ℕ → Date
safe_replace_year base year = safe_month_date year base.month (pos base.day)

unfoldable pub iso_weekday : Date → ℕ
iso_weekday t = if weekday t == 0 then 7 else weekday t

unfoldable pub days_between : Date → Date → ℤ
days_between from to = pos (ordinal to) -ℤ pos (ordinal from)

-- The cycle names; any other name is handled as monthly.
pub data Cycle : Type 0 where
  weekly yearly lunar_yearly monthly : Cycle

-- What the code calls of lunar-go: the lunar year of a day, the length of a month of a lunar year
-- (`none` for a nil month), and the solar day of a lunar one.
pub record Lunar : Type 0 where
  pub lunar_year : Date → ℕ
  pub day_count : ℕ → ℕ → Option ℕ
  pub solar : ℕ → ℕ → ℕ → Date

pub record Schedule : Type 0 where
  pub cycle : Cycle
  pub renewal_day : ℤ
  pub anchor : Option Date

pub record Renewal : Type 0 where
  pub next : Date
  pub days : ℤ
  pub already_renewed : Bool

abbrev schedule_anchor : Cycle → Option (ℕ × ℕ) → Option Date → Option Date
schedule_anchor yearly none last_renewed = last_renewed
schedule_anchor _ _ _ = none

unfoldable pub new_schedule : Cycle → ℤ → Option Date → Schedule
new_schedule cycle renewal_day last_renewed = record {
  cycle = cycle;
  renewal_day = renewal_day;
  anchor = schedule_anchor cycle (split_mmdd renewal_day) last_renewed;
}

module _ (L : Lunar) where
  lunar_date_in : ℕ → Option (ℕ × ℕ) → Option Date
  lunar_date_in year none = none
  lunar_date_in year (some (month, day)) = elim (L.day_count year month) [
    | none ↦ none
    | some count ↦ if ltb count day then none else some (L.solar year month day)
  ]

  unfoldable pub lunar_date : ℕ → ℤ → Option Date
  unfolding lunar_date_in
  lunar_date year renewal_day = lunar_date_in year (split_mmdd renewal_day)

  lunar_next_year : Option Date → Date → Date
  lunar_next_year (some candidate) today = candidate
  lunar_next_year none today = safe_replace_year today (today.year + 1)

  lunar_this_year : Option Date → Option Date → Date → Date
  unfolding lunar_next_year
  lunar_this_year (some candidate) next today =
      if not (before candidate today) then candidate else lunar_next_year next today
  lunar_this_year none next today = lunar_next_year next today

  unfoldable pub next_lunar_yearly_date : ℤ → Date → Date
  unfolding lunar_this_year
  next_lunar_yearly_date renewal_day today =
      let year = L.lunar_year today in
      lunar_this_year (lunar_date year renewal_day) (lunar_date (year + 1) renewal_day) today

  or_year_back : Option Date → Date → Date
  or_year_back (some previous) next = previous
  or_year_back none next = year_back next

  unfoldable pub previous_lunar_yearly_date : ℤ → Date → Date
  unfolding or_year_back
  previous_lunar_yearly_date renewal_day next =
      or_year_back (lunar_date (L.lunar_year next - 1) renewal_day) next

  yearly_on_or_after : Option (ℕ × ℕ) → Option Date → Date → Date
  yearly_on_or_after (some (month, dom)) anchor day =
      let candidate = safe_month_date day.year month (pos dom) in
      if before candidate day then safe_month_date (day.year + 1) month (pos dom) else candidate
  yearly_on_or_after none (some anchor) day =
      let candidate = safe_replace_year anchor day.year in
      if before candidate day then safe_replace_year anchor (day.year + 1) else candidate
  yearly_on_or_after none none day = safe_replace_year day (day.year + 1)

  on_or_after_by : Cycle → Schedule → Date → Date
  unfolding yearly_on_or_after
  on_or_after_by weekly s day =
      let ahead = s.renewal_day -ℤ pos (iso_weekday day) in
      add_date (if ltb_ℤ ahead (pos 0) then ahead +ℤ pos 7 else ahead) day
  on_or_after_by yearly s day = yearly_on_or_after (split_mmdd s.renewal_day) s.anchor day
  on_or_after_by lunar_yearly s day = next_lunar_yearly_date s.renewal_day day
  on_or_after_by monthly s day =
      shift_month day (if ltb_ℤ s.renewal_day (pos day.day) then pos 1 else pos 0) s.renewal_day

  -- `schedule.onOrAfter`
  unfoldable pub on_or_after : Schedule → Date → Date
  unfolding on_or_after_by
  on_or_after s day = on_or_after_by s.cycle s day

  yearly_before : Option (ℕ × ℕ) → Option Date → Date → Date
  yearly_before (some (month, dom)) anchor next = safe_month_date (next.year - 1) month (pos dom)
  yearly_before none (some anchor) next = safe_replace_year anchor (next.year - 1)
  yearly_before none none next = safe_replace_year next (next.year - 1)

  before_by : Cycle → Schedule → Date → Date
  unfolding yearly_before
  before_by weekly s next = add_date (negsuc 6) next
  before_by yearly s next = yearly_before (split_mmdd s.renewal_day) s.anchor next
  before_by lunar_yearly s next = previous_lunar_yearly_date s.renewal_day next
  before_by monthly s next = shift_month next (negsuc 0) s.renewal_day

  -- `schedule.before`
  unfoldable pub renewal_before : Schedule → Date → Date
  unfolding before_by
  renewal_before s next = before_by s.cycle s next

  -- `schedule.after`
  unfoldable pub renewal_after : Schedule → Date → Date
  renewal_after s occurrence = on_or_after s (add_date (pos 1) occurrence)

  -- `schedule.covering`
  unfoldable pub covering : Schedule → Date → ℤ → Date
  covering s day alert_days_before =
      let next = on_or_after s day in
      let ahead = days_between day next in
      let previous = renewal_before s next in
      if leb_ℤ ahead alert_days_before
      then next
      else if ltb_ℤ (days_between previous day) ahead
      then previous
      else next

  -- The switch of `Evaluate`: the new `Next` and `AlreadyRenewed`.
  mark_effect : Schedule → Date → Date → Option Date → ℤ → Date × Bool
  mark_effect s today upcoming none alert_days_before = (upcoming, false)
  mark_effect s today upcoming (some last_renewed) alert_days_before =
      let covered = covering s last_renewed alert_days_before in
      if not (before covered upcoming)
      then (renewal_after s covered, true)
      else if equal covered (renewal_before s upcoming)
      then (upcoming, ltb_ℤ alert_days_before (days_between today upcoming))
      else (upcoming, false)

  unfoldable pub evaluate : Cycle → ℤ → Date → Option Date → ℤ → Renewal
  unfolding mark_effect
  evaluate cycle renewal_day today last_renewed alert_days_before =
      let cal = new_schedule cycle renewal_day last_renewed in
      let (next, already_renewed) =
        mark_effect cal today (on_or_after cal today) last_renewed alert_days_before in
      record { next = next; days = days_between today next; already_renewed = already_renewed }

  unfoldable pub next_renewal : Cycle → ℤ → Date → Option Date → ℤ × Date
  next_renewal cycle renewal_day today last_renewed =
      let next = on_or_after (new_schedule cycle renewal_day last_renewed) today in
      (days_between today next, next)
