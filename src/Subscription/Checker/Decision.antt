-- ===== src/Subscription/Checker/Decision.antt =====
-- When a check sends, and what it reports.
use quotapulse.Base.{◌-◌, ◌≤◌, ◌≡◌, ◌≢◌, ◌⊎◌, inl, Bool, false, [], arith, subst}
use quotapulse.Base.Int.{pos, ◌≤ℤ◌}
use quotapulse.Calendar.{Date, IsDate, ordinal}
use quotapulse.Store.{AlertStore}
use quotapulse.Subscription.Date.{Renewal, on_or_after, new_schedule}
use quotapulse.Subscription.Date.Spec.{LunarLaws, IsPlan}
use quotapulse.Subscription.Date.Marks.{IsMark, IsEvaluated, evaluate-IsEvaluated}
use quotapulse.Subscription.Checker.{
  Subscription, Checker, Attempt, parse_renewed_date, location, renewal_on, is_snoozed,
  need_alert_of, check_one,
}

module _ (A : AlertStore) (C : Checker) (sub : Subscription) (dry_run : Bool) (a : Attempt)
    (st : A.State) where
  abbrev today : Date
  today = location C sub a.started

  abbrev renewal : Renewal
  renewal = renewal_on C sub today

  -- A check that sends anything, or changes the store, was due: no dry run, not snoozed, not paid
  -- for, and the renewal no further away than the subscription's window.
  pub check_one_due :
      ((check_one A C sub dry_run a st).effects ≢ [])
        ⊎ ((check_one A C sub dry_run a st).store ≢ st)
      → (dry_run ≡ false)
        × (is_snoozed sub today ≡ false)
        × (renewal.already_renewed ≡ false)
        × (pos 0 ≤ℤ renewal.days)
        × (renewal.days ≤ℤ sub.alert_days_before)
  unfolding check_one need_alert_of
  check_one_due h = ground arith

  -- For a plan of any cycle, with today and the mark from year 9 on, over a lunar calendar with the
  -- laws: a check that sends does so no earlier than the subscription's window before the first
  -- renewal from today on.
  pub check_one_reminds :
      LunarLaws C.lunar
      → (let last = parse_renewed_date sub.last_renewed_date in
          IsPlan C.lunar sub.cycle (new_schedule sub.cycle sub.renewal_day last) × IsMark last)
      → IsDate today
      → 9 ≤ today.year
      → (check_one A C sub dry_run a st).effects ≢ []
      → let s = new_schedule sub.cycle sub.renewal_day (parse_renewed_date sub.last_renewed_date) in
        pos (ordinal (on_or_after C.lunar s today) - ordinal today) ≤ℤ sub.alert_days_before
  check_one_reminds laws (plan, mark) v hy sends =
      subst (λ d. pos (ordinal d - ordinal today) ≤ℤ sub.alert_days_before) (evaluated.unpaid due.2)
        (subst (λ n. n ≤ℤ sub.alert_days_before) evaluated.counts due.4)
    where
      evaluated :
          IsEvaluated C.lunar
            (new_schedule sub.cycle sub.renewal_day (parse_renewed_date sub.last_renewed_date))
            today
            renewal
      evaluated =
          unfold renewal_on in
          evaluate-IsEvaluated C.lunar laws sub.cycle sub.renewal_day today v hy
            (parse_renewed_date sub.last_renewed_date) sub.alert_days_before plan mark

      due :
          (dry_run ≡ false)
          × (is_snoozed sub today ≡ false)
          × (renewal.already_renewed ≡ false)
          × (pos 0 ≤ℤ renewal.days)
          × (renewal.days ≤ℤ sub.alert_days_before)
      due = check_one_due (inl sends)
