-- ===== src/Subscription/Date/Search.antt =====
-- `onOrAfter` finds the first renewal from a day on.
use native.Mathlib.Nat.{add-zero}
use quotapulse.Base.{
  ℕ, ◌+◌, ◌-◌, ◌/◌, ◌%◌, ◌≤◌, ◌≡◌, refl, sym, ap, subst, ◌∙◌, Option, none, some, arith,
  if◌then◌else◌, Bool-cases, inl, inr, if_not,
}
use quotapulse.Base.Int.{ℤ, pos, pos_part, ◌+ℤ◌, ◌-ℤ◌, ltb_ℤ}
use quotapulse.Calendar.{Date, IsDate, ordinal, weekday, add_date, before}
use quotapulse.Calendar.Order.{add_days-IsDate, ordinal-add_days, ordinal-same_month, month_index}
use quotapulse.Calendar.Slots.{IsFirst, IsFirst-map, Occurs, first}
use quotapulse.Subscription.Date.{
  Cycle, weekly, yearly, lunar_yearly, monthly, Lunar, Schedule, split_mmdd, iso_weekday,
  safe_month_date, shift_month, on_or_after, on_or_after_by, yearly_on_or_after, safe_replace_year,
  next_lunar_yearly_date, lunar_date, lunar_date_in,
}
use quotapulse.Subscription.Date.Months.{monthly_occ, safe_month_date-eq, shift_month-occ}
use quotapulse.Subscription.Date.Spec.{
  clamped, clamped-index, LunarLaws, EveryYear, IsYearlyPlan, IsLunarPlan, YearlyRenewal,
  LunarRenewal, IsPlan, RenewalOf, IsRenewal, yearly_slots, monthly_slots, lunar_slots,
}

pub iso_weekday-eq : (d : Date) → iso_weekday d ≡ (ordinal d + 6) % 7 + 1
unfolding iso_weekday weekday
iso_weekday-eq d = ground arith

-- The days from weekday `w` on to weekday `n`.
abbrev ahead : ℕ → ℕ → ℕ
ahead n w = (n + 7 - w) % 7

ahead-eq :
    (n w : ℕ)
    → 1 ≤ n
    → n ≤ 7
    → 1 ≤ w
    → w ≤ 7
    → (let a = pos n -ℤ pos w in if ltb_ℤ a (pos 0) then a +ℤ pos 7 else a) ≡ pos (ahead n w)
unfolding ◌-ℤ◌ ◌+ℤ◌
ahead-eq n w a b c d = ground arith

module _ (n : ℕ) (lo : 1 ≤ n) (hi : n ≤ 7) (day : Date) (v : IsDate day) where
  weekly_next : Date
  weekly_next = add_date (pos (ahead n (iso_weekday day))) day

  weekly_next-IsFirst : IsFirst (λ d. pos (iso_weekday d) ≡ pos n) day weekly_next
  unfolding add_date weekly_next
  weekly_next-IsFirst = record {
    exists = add_days-IsDate (ahead n (iso_weekday day)) day v;
    occurs = ap pos (omega (arith, moved, iso_weekday-eq day, iso_weekday-eq weekly_next));
    not_before = omega (arith, moved);
    least = λ d vd o le. omega (arith, moved, iso_weekday-eq day, iso_weekday-eq d, ap pos_part o);
  }
    where
      moved : ordinal weekly_next ≡ ordinal day + ahead n (iso_weekday day)
      moved = ordinal-add_days (ahead n (iso_weekday day)) day v

iso_weekday_range : (d : Date) → (1 ≤ iso_weekday d) × (iso_weekday d ≤ 7)
iso_weekday_range d = omega (arith, iso_weekday-eq d)

weekly_step :
    (n : ℕ) (day : Date)
    → 1 ≤ n
    → n ≤ 7
    → IsDate day
    → IsFirst
        (λ d. pos (iso_weekday d) ≡ pos n)
        day
        (let a = pos n -ℤ pos (iso_weekday day) in
          add_date (if ltb_ℤ a (pos 0) then a +ℤ pos 7 else a) day)
unfolding weekly_next
weekly_step n day lo hi v =
    subst (λ k. IsFirst (λ d. pos (iso_weekday d) ≡ pos n) day (add_date k day))
      (sym (ahead-eq n (iso_weekday day) lo hi (iso_weekday_range day).0 (iso_weekday_range day).1))
      (weekly_next-IsFirst n lo hi day v)

pub split_mmdd-range :
    (r : ℤ) (m dom : ℕ) → split_mmdd r ≡ some (m, dom) → (1 ≤ m) × (m ≤ 12) × (1 ≤ dom) × (dom ≤ 31)
unfolding split_mmdd
split_mmdd-range r m dom e = ground arith

-- The candidate of this year, or of the next one if it is past.
yearly_step :
    (m dom : ℕ) (day : Date)
    → 1 ≤ m
    → m ≤ 12
    → 1 ≤ dom
    → IsDate day
    → IsFirst
        (λ d. d ≡ clamped d.year m dom)
        day
        (let candidate = safe_month_date day.year m (pos dom) in
          if before candidate day then safe_month_date (day.year + 1) m (pos dom) else candidate)
yearly_step m dom day lo hi h v =
    rw (safe_month_date-eq day.year m dom lo hi h, safe_month_date-eq (day.year + 1) m dom lo hi h)
      (first (yearly_slots m dom lo hi h) day v v.year_pos)

pub monthly_occ-eq : (dom i : ℕ) → 1 ≤ dom → monthly_occ dom i ≡ clamped (i / 12) (i % 12 + 1) dom
monthly_occ-eq dom i h = safe_month_date-eq (i / 12) (i % 12 + 1) dom (omega arith) (omega arith) h

sum_pos : (a b : ℕ) → pos (a + b) ≡ pos a +ℤ pos b
unfolding ◌+ℤ◌
sum_pos a b = ground arith

module _ (dom : ℕ) (day : Date) (h : 1 ≤ dom) (v : IsDate day) where
  -- This month's renewal is past just when its day of the month is.
  past_iff :
      before (clamped (month_index day / 12) (month_index day % 12 + 1) dom) day
      ≡ ltb_ℤ (pos dom) (pos day.day)
  past_iff =
      rw (clamped-index dom day v) (
        ground (arith, ordinal-same_month (clamped day.year day.month dom) day refl refl, v.day_in))

  monthly_step :
      IsFirst
        (λ d. d ≡ clamped d.year d.month dom)
        day
        (shift_month day (if ltb_ℤ (pos dom) (pos day.day) then pos 1 else pos 0) (pos dom))
  monthly_step =
      IsFirst-map (Occurs (monthly_slots dom h)) (λ d. d ≡ clamped d.year d.month dom)
        (λ d vd o. o ∙ clamped-index dom d vd) (λ d vd o. o ∙ sym (clamped-index dom d vd)) day _
        (rw shifted (first (monthly_slots dom h) day v (omega arith)))
    where
      shifted :
          shift_month day (if ltb_ℤ (pos dom) (pos day.day) then pos 1 else pos 0) (pos dom) ≡ (
            let i = month_index day in
            if before (clamped (i / 12) (i % 12 + 1) dom) day
            then clamped ((i + 1) / 12) ((i + 1) % 12 + 1) dom
            else clamped (i / 12) (i % 12 + 1) dom)
      shifted = elim (Bool-cases (ltb_ℤ (pos dom) (pos day.day))) [
        | inl e ↦ rw (past_iff, e) (moved 1)
        | inr e ↦ rw (past_iff, e) (moved 0 ∙ stays)
      ]
        where
          moved :
              (k : ℕ)
              → shift_month day (pos k) (pos dom)
                ≡ clamped ((month_index day + k) / 12) ((month_index day + k) % 12 + 1) dom
          moved k =
              shift_month-occ day (pos k) dom (month_index day + k) v.month_in.0 (sum_pos _ k)
              ∙ monthly_occ-eq dom (month_index day + k) h

          stays :
              clamped ((month_index day + 0) / 12) ((month_index day + 0) % 12 + 1) dom
              ≡ clamped (month_index day / 12) (month_index day % 12 + 1) dom
          stays = ap (λ i. clamped (i / 12) (i % 12 + 1) dom) (add-zero (month_index day))

module _ (L : Lunar) where
  pub lunar_date-eq :
      (y : ℕ) (r : ℤ) (m dom : ℕ)
      → 1 ≤ y
      → split_mmdd r ≡ some (m, dom)
      → EveryYear L m dom
      → lunar_date L y r ≡ some (L.solar y m dom)
  unfolding lunar_date
  lunar_date-eq y r m dom hy e every =
      let (c, has, le) = every y hy in rw e (rw (has, lunar_date_in) (ground arith))

  module _ (laws : LunarLaws L) (day : Date) (v : IsDate day) (hy : 2 ≤ day.year) where
    lunar_from : 1 ≤ L.lunar_year day
    lunar_from = omega (arith, laws.lunar_year_lag day v)

    lunar_step :
        (r : ℤ) (m dom : ℕ) (e : split_mmdd r ≡ some (m, dom))
        → EveryYear L m dom
        → IsFirst (λ d. d ≡ L.solar (L.lunar_year d) m dom) day (next_lunar_yearly_date L r day)
    unfolding next_lunar_yearly_date
    lunar_step r m dom e every =
        rw
          (
            lunar_date-eq (L.lunar_year day) r m dom lunar_from e every,
            lunar_date-eq (L.lunar_year day + 1) r m dom (omega arith) e every,
          )
          (rw (if_not (before (L.solar (L.lunar_year day) m dom) day) _ _) (
            first (lunar_slots L laws m dom (split_mmdd-range r m dom e).2 every) day v lunar_from))

    yearly_case :
        (r : ℤ) (p : Option (ℕ × ℕ)) (anchor : Option Date)
        → split_mmdd r ≡ p
        → IsYearlyPlan p anchor
        → IsFirst (YearlyRenewal p anchor) day (yearly_on_or_after L p anchor day)
    unfolding yearly_on_or_after safe_replace_year
    yearly_case r (some (m, dom)) anchor e h =
        let (lo, hi, pos_dom, _) = split_mmdd-range r m dom e in
        yearly_step m dom day lo hi pos_dom v
    yearly_case r none (some a) e h =
        yearly_step a.month a.day day h.month_in.0 h.month_in.1 h.day_in.0 v
    yearly_case r none none e h = absurd h

    lunar_case :
        (r : ℤ) (p : Option (ℕ × ℕ))
        → split_mmdd r ≡ p
        → IsLunarPlan L p
        → IsFirst (LunarRenewal L p) day (next_lunar_yearly_date L r day)
    lunar_case r (some (m, dom)) e every = lunar_step r m dom e every
    lunar_case r none e h = absurd h

    by_cycle :
        (c : Cycle) (s : Schedule)
        → IsPlan L c s
        → IsFirst (RenewalOf L c s) day (on_or_after_by L c s day)
    unfolding on_or_after_by
    by_cycle weekly s (n, e, lo, hi) = rw e (weekly_step n day lo hi v)
    by_cycle yearly s h = yearly_case s.renewal_day (split_mmdd s.renewal_day) s.anchor refl h
    by_cycle lunar_yearly s h = lunar_case s.renewal_day (split_mmdd s.renewal_day) refl h
    by_cycle monthly s (n, e, lo) =
        IsFirst-map (λ d. d ≡ clamped d.year d.month n) (RenewalOf L monthly s) (λ d _ o. (n, e, o))
          (λ d _ (n', e', o). same e' o) day _
          (subst
            (λ r.
              IsFirst (λ d. d ≡ clamped d.year d.month n) day
                (shift_month day (if ltb_ℤ r (pos day.day) then pos 1 else pos 0) r))
            (sym e) (monthly_step n day lo v))
      where
        same :
            {n' : ℕ} {d : Date}
            → s.renewal_day ≡ pos n'
            → d ≡ clamped d.year d.month n'
            → d ≡ clamped d.year d.month n
        same {n' = n'} {d = d} e' o = o ∙ ap (clamped d.year d.month) (ap pos_part (sym e' ∙ e))

    -- For a plan of any cycle and a day from year 9 on, over a lunar calendar with the laws:
    -- `onOrAfter` gives a renewal that is not before the day, and no renewal lies between.
    pub on_or_after-IsFirst :
        (s : Schedule) → IsPlan L s.cycle s → IsFirst (IsRenewal L s) day (on_or_after L s day)
    unfolding on_or_after
    on_or_after-IsFirst s h = by_cycle s.cycle s h
