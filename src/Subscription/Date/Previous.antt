-- ===== src/Subscription/Date/Previous.antt =====
-- `before` steps back by one renewal.
use quotapulse.Base.{
  ℕ, ◌+◌, ◌-◌, ◌/◌, ◌%◌, ◌≤◌, ◌≡◌, refl, sym, ap, subst, ◌∙◌, Option, none, some, arith,
}
use quotapulse.Base.Int.{ℤ, pos, negsuc, pos_part, ◌+ℤ◌}
use quotapulse.Calendar.{Date, IsDate, ordinal, add_date, sub_days}
use quotapulse.Calendar.Order.{sub_days-IsDate, ordinal-sub_days, month_index}
use quotapulse.Calendar.Slots.{IsLast, IsLast-map, Occurs, last}
use quotapulse.Subscription.Date.{
  Cycle, weekly, yearly, lunar_yearly, monthly, Lunar, Schedule, split_mmdd, iso_weekday,
  safe_month_date, safe_replace_year, shift_month, yearly_before, before_by, renewal_before,
  previous_lunar_yearly_date,
}
use quotapulse.Subscription.Date.Months.{safe_month_date-eq, shift_month-occ}
use quotapulse.Subscription.Date.Spec.{
  clamped, clamped-index, LunarLaws, IsYearlyPlan, IsLunarPlan, YearlyRenewal, LunarRenewal, IsPlan,
  RenewalOf, IsRenewal, yearly_slots, monthly_slots, lunar_slots,
}
use quotapulse.Subscription.Date.Search.{
  iso_weekday-eq, split_mmdd-range, monthly_occ-eq, lunar_date-eq,
}

module _ (next : Date) (v : IsDate next) (hy : 9 ≤ next.year) where
  weekly_back :
      (n : ℕ)
      → pos (iso_weekday next) ≡ pos n
      → IsLast (λ d. pos (iso_weekday d) ≡ pos n) next (add_date (negsuc 6) next)
  unfolding add_date
  weekly_back n e = record {
    exists = sub_days-IsDate 7 next v hy;
    occurs = ap pos (
        omega (arith, moved, iso_weekday-eq next, iso_weekday-eq (sub_days 7 next), ap pos_part e));
    earlier = omega (arith, moved);
    greatest = λ d vd o lt.
        omega (arith, moved, iso_weekday-eq next, iso_weekday-eq d, ap pos_part o, ap pos_part e);
  }
    where
      moved : ordinal (sub_days 7 next) + 7 ≡ ordinal next
      moved = ordinal-sub_days 7 next v hy

  yearly_back :
      (m dom : ℕ)
      → 1 ≤ m
      → m ≤ 12
      → 1 ≤ dom
      → next ≡ clamped next.year m dom
      → IsLast (λ d. d ≡ clamped d.year m dom) next (safe_month_date (next.year - 1) m (pos dom))
  yearly_back m dom lo hi h o =
      rw (safe_month_date-eq (next.year - 1) m dom lo hi h)
        (last (yearly_slots m dom lo hi h) next v o (omega arith))

  monthly_back :
      (dom : ℕ)
      → 1 ≤ dom
      → next ≡ clamped next.year next.month dom
      → IsLast (λ d. d ≡ clamped d.year d.month dom) next (shift_month next (negsuc 0) (pos dom))
  monthly_back dom h o =
      IsLast-map (Occurs (monthly_slots dom h)) (λ d. d ≡ clamped d.year d.month dom)
        (λ d vd q. q ∙ clamped-index dom d vd) (λ d vd q. q ∙ sym (clamped-index dom d vd)) next _
        (rw shifted
          (last (monthly_slots dom h) next v (o ∙ sym (clamped-index dom next v)) (omega arith)))
    where
      back : (i : ℕ) → 1 ≤ i → pos (i - 1) ≡ pos i +ℤ negsuc 0
      back i hi = unfold ◌+ℤ◌ in ground arith

      shifted :
          shift_month next (negsuc 0) (pos dom)
          ≡ (let i = month_index next - 1 in clamped (i / 12) (i % 12 + 1) dom)
      shifted =
          shift_month-occ next (negsuc 0) dom (month_index next - 1) v.month_in.0
            (back (month_index next) (omega arith))
          ∙ monthly_occ-eq dom (month_index next - 1) h

  module _ (L : Lunar) (laws : LunarLaws L) where
    yearly_case :
        (r : ℤ) (p : Option (ℕ × ℕ)) (anchor : Option Date)
        → split_mmdd r ≡ p
        → IsYearlyPlan p anchor
        → YearlyRenewal p anchor next
        → IsLast (YearlyRenewal p anchor) next (yearly_before L p anchor next)
    unfolding yearly_before safe_replace_year
    yearly_case r (some (m, dom)) anchor e h o =
        let (lo, hi, pos_dom, _) = split_mmdd-range r m dom e in yearly_back m dom lo hi pos_dom o
    yearly_case r none (some a) e h o =
        yearly_back a.month a.day h.month_in.0 h.month_in.1 h.day_in.0 o
    yearly_case r none none e h o = absurd h

    lunar_case :
        (r : ℤ) (p : Option (ℕ × ℕ))
        → split_mmdd r ≡ p
        → IsLunarPlan L p
        → LunarRenewal L p next
        → IsLast (LunarRenewal L p) next (previous_lunar_yearly_date L r next)
    unfolding previous_lunar_yearly_date
    lunar_case r (some (m, dom)) e every o =
        rw (lunar_date-eq L (L.lunar_year next - 1) r m dom from e every) (
          last (lunar_slots L laws m dom (split_mmdd-range r m dom e).2 every) next v o
            (omega (arith, laws.lunar_year_lag next v)))
      where
        from : 1 ≤ L.lunar_year next - 1
        from = omega (arith, laws.lunar_year_lag next v)
    lunar_case r none e h o = absurd h

    by_cycle :
        (c : Cycle) (s : Schedule)
        → IsPlan L c s
        → RenewalOf L c s next
        → IsLast (RenewalOf L c s) next (before_by L c s next)
    unfolding before_by
    by_cycle weekly s (n, e, lo, hi) o =
        subst (λ r. IsLast (λ d. pos (iso_weekday d) ≡ r) next (add_date (negsuc 6) next)) (sym e)
          (weekly_back n (o ∙ e))
    by_cycle yearly s h o = yearly_case s.renewal_day (split_mmdd s.renewal_day) s.anchor refl h o
    by_cycle lunar_yearly s h o = lunar_case s.renewal_day (split_mmdd s.renewal_day) refl h o
    by_cycle monthly s (n, e, lo) (k, e', o) =
        IsLast-map (λ d. d ≡ clamped d.year d.month n) (RenewalOf L monthly s) (λ d _ q. (n, e, q))
          (λ d _ (n', e'', q). same e'' q) next _
          (subst
            (λ r. IsLast (λ d. d ≡ clamped d.year d.month n) next (shift_month next (negsuc 0) r))
            (sym e) (monthly_back n lo (same e' o)))
      where
        same :
            {n' : ℕ} {d : Date}
            → s.renewal_day ≡ pos n'
            → d ≡ clamped d.year d.month n'
            → d ≡ clamped d.year d.month n
        same {n' = n'} {d = d} e' o = o ∙ ap (clamped d.year d.month) (ap pos_part (sym e' ∙ e))

    -- For a plan of any cycle and one of its renewals, from year 9 on, over a lunar calendar with the
    -- laws: `before` gives a renewal that is earlier, and no renewal lies between.
    pub renewal_before-IsLast :
        (s : Schedule)
        → IsPlan L s.cycle s
        → IsRenewal L s next
        → IsLast (IsRenewal L s) next (renewal_before L s next)
    unfolding renewal_before
    renewal_before-IsLast s h o = by_cycle s.cycle s h o
