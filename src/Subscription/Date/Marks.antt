-- ===== src/Subscription/Date/Marks.antt =====
-- `Evaluate`: what a renewal mark changes.
use native.Mathlib.Nat.{le_of_eq}
use quotapulse.Base.{
  ◌+◌, ◌-◌, ◌≤◌, ◌<◌, ◌≡◌, refl, sym, ap, subst, ◌⊎◌, inl, inr, Bool, true, false, Option, none,
  some, arith,
}
use quotapulse.Base.Int.{ℤ, pos, ◌-ℤ◌, ◌≤ℤ◌}
use quotapulse.Calendar.{Date, IsDate, ordinal, add_date}
use quotapulse.Calendar.Order.{year_of_le, add_days-IsDate, ordinal-add_days}
use quotapulse.Calendar.Slots.{IsFirst}
use quotapulse.Subscription.Date.{
  Cycle, Lunar, Schedule, Renewal, days_between, on_or_after, renewal_after, covering, new_schedule,
  mark_effect, evaluate,
}
use quotapulse.Subscription.Date.Spec.{LunarLaws, IsPlan, IsRenewal}
use quotapulse.Subscription.Date.Search.{on_or_after-IsFirst}
use quotapulse.Subscription.Date.Cover.{IsCovered, covering-IsCovered, upcoming-IsFirst}

-- The first renewal later than `d`.
abbrev pub IsNextAfter : (L : Lunar) → Schedule → Date → Date → Type 0
IsNextAfter L s d r =
    IsDate r
    × IsRenewal L s r
    × (ordinal d < ordinal r)
    × ((e : Date) → IsDate e → IsRenewal L s e → ordinal d < ordinal e → ordinal r ≤ ordinal e)

module _ (L : Lunar) (laws : LunarLaws L) (s : Schedule) (plan : IsPlan L s.cycle s) where
  -- `after` skips the renewal that it starts from.
  renewal_after-IsNextAfter :
      (d : Date) → IsDate d → 9 ≤ d.year → IsNextAfter L s d (renewal_after L s d)
  unfolding renewal_after add_date
  renewal_after-IsNextAfter d v hy = (
    found.exists,
    found.occurs,
    omega (arith, moved, found.not_before),
    λ e ve o lt. found.least e ve o (omega (arith, moved)),
  )
    where
      tomorrow : Date
      tomorrow = add_date (pos 1) d

      moved : ordinal tomorrow ≡ ordinal d + 1
      moved = ordinal-add_days 1 d v

      vt : IsDate tomorrow
      vt = add_days-IsDate 1 d v

      found : IsFirst (IsRenewal L s) tomorrow (on_or_after L s tomorrow)
      found =
          on_or_after-IsFirst L laws tomorrow vt
            (omega (arith, year_of_le d tomorrow v vt (omega (arith, moved)))) s plan

-- The two things that a mark can do.
mark_effect-cases :
    (L : Lunar) (s : Schedule) (today up m : Date) (alert : ℤ)
    → let covered = covering L s m alert in
      let effect = mark_effect L s today up (some m) alert in
      ((ordinal up ≤ ordinal covered) × (effect.0 ≡ renewal_after L s covered) × (effect.1 ≡ true))
      ⊎ ((ordinal covered < ordinal up)
          × (effect.0 ≡ up)
          × (days_between today up ≤ℤ alert → effect.1 ≡ false))
unfolding mark_effect
mark_effect-cases L s today up m alert = ground arith

abbrev pub IsMark : Option Date → Type 0
IsMark none = Unit {0}
IsMark (some m) = IsDate m × (9 ≤ m.year)

-- What `Evaluate` promises of the renewal that needs attention next.
pub record IsEvaluated (L : Lunar) (s : Schedule) (today : Date) (r : Renewal) : Type 0 where
  pub exists : IsDate r.next
  pub occurs : IsRenewal L s r.next
  pub not_past : ordinal today ≤ ordinal r.next
  pub counts : r.days ≡ pos (ordinal r.next - ordinal today)
  pub unpaid : r.already_renewed ≡ false → r.next ≡ on_or_after L s today

days_between_forward :
    (a b : Date) → ordinal a ≤ ordinal b → days_between a b ≡ pos (ordinal b - ordinal a)
unfolding days_between ◌-ℤ◌
days_between_forward a b h = ground arith

module _ (L : Lunar) (laws : LunarLaws L) (cycle : Cycle) (renewal_day : ℤ) (today : Date)
    (v : IsDate today) (hy : 9 ≤ today.year) where
  abbrev calendar : Option Date → Schedule
  calendar = new_schedule cycle renewal_day

  cases :
      (m : Date) (alert : ℤ)
      → let s = new_schedule cycle renewal_day (some m) in
        let up = on_or_after L s today in
        let covered = covering L s m alert in
        let effect = mark_effect L s today up (some m) alert in
        ((ordinal up ≤ ordinal covered)
          × (effect.0 ≡ renewal_after L s covered)
          × (effect.1 ≡ true))
        ⊎ ((ordinal covered < ordinal up)
            × (effect.0 ≡ up)
            × (days_between today up ≤ℤ alert → effect.1 ≡ false))
  cases m alert =
      mark_effect-cases L (calendar (some m)) today (on_or_after L (calendar (some m)) today) m
        alert

  module _ (last : Option Date) (plan : IsPlan L cycle (new_schedule cycle renewal_day last)) where
    upcoming_lem : IsFirst (IsRenewal L (calendar last)) today (on_or_after L (calendar last) today)
    upcoming_lem = upcoming-IsFirst L laws (calendar last) (unfold new_schedule in plan) today v hy

    evaluated :
        (next : Date) (paid : Bool)
        → IsDate next
        → IsRenewal L (calendar last) next
        → ordinal today ≤ ordinal next
        → (paid ≡ false → next ≡ on_or_after L (calendar last) today)
        → IsEvaluated L
            (calendar last)
            today
            (record { next = next; days = days_between today next; already_renewed = paid })
    evaluated next paid ex oc le un = record {
      exists = ex;
      occurs = oc;
      not_past = le;
      counts = days_between_forward today next le;
      unpaid = un;
    }

    -- A renewal no earlier than the upcoming one is of a year that the calendar knows.
    covered_year :
        (c : Date)
        → IsDate c
        → ordinal (on_or_after L (calendar last) today) ≤ ordinal c
        → 9 ≤ c.year
    covered_year c vc le =
        omega (arith, year_of_le today c v vc (omega (arith, upcoming_lem.not_before)))

  module _ (m : Date) (plan : IsPlan L cycle (new_schedule cycle renewal_day (some m)))
      (vm : IsDate m) (my : 9 ≤ m.year) (alert : ℤ) where
    pub mark-IsCovered :
        IsCovered L (calendar (some m)) m alert (covering L (calendar (some m)) m alert)
    mark-IsCovered =
        covering-IsCovered L laws (calendar (some m)) (unfold new_schedule in plan) m vm my alert

    -- For a plan of any cycle, with today and the mark from year 9 on, over a lunar calendar with the
    -- laws: a mark that pays for the upcoming renewal or a later one counts as paid, and the renewal
    -- after the one it pays for is next.
    pub evaluate_paid_ahead :
        ordinal (on_or_after L (calendar (some m)) today)
          ≤ ordinal (covering L (calendar (some m)) m alert)
        → let r = evaluate L cycle renewal_day today (some m) alert in
          (r.already_renewed ≡ true)
          × IsNextAfter L (calendar (some m)) (covering L (calendar (some m)) m alert) r.next
    unfolding evaluate
    evaluate_paid_ahead le = elim (cases m alert) [
      | inl (_, e, paid) ↦ (
        paid,
        subst (IsNextAfter L (calendar (some m)) (covering L (calendar (some m)) m alert)) (sym e) (
            renewal_after-IsNextAfter L laws (calendar (some m)) (unfold new_schedule in plan)
              (covering L (calendar (some m)) m alert) mark-IsCovered.exists
              (covered_year (some m) plan _ mark-IsCovered.exists le)),
      )
      | inr (lt, _, _) ↦ absurd (omega arith)
    ]

  module _ (m : Date) (plan : IsPlan L cycle (new_schedule cycle renewal_day (some m)))
      (vm : IsDate m) (my : 9 ≤ m.year) (alert : ℤ) where
    abbrev effect : Date × Bool
    effect =
        mark_effect L (calendar (some m)) today (on_or_after L (calendar (some m)) today) (some m)
          alert

    marked :
        IsEvaluated L (calendar (some m)) today (record {
          next = effect.0;
          days = days_between today effect.0;
          already_renewed = effect.1;
        })
    marked = elim (cases m alert) [
      | inl (le, e, paid) ↦
          let (ex, oc, lt, _) =
            renewal_after-IsNextAfter L laws (calendar (some m)) (unfold new_schedule in plan)
              (covering L (calendar (some m)) m alert) (mark-IsCovered m plan vm my alert).exists
              (covered_year (some m) plan _ (mark-IsCovered m plan vm my alert).exists le) in
          rw (e, paid)
            (evaluated (some m) plan _ true ex oc
              (omega (arith, (upcoming_lem (some m) plan).not_before)) (λ no. cc))
      | inr (lt, e, _) ↦
          let up = upcoming_lem (some m) plan in
          rw e (evaluated (some m) plan _ effect.1 up.exists up.occurs up.not_before (λ _. refl))
    ]

  -- For a plan of any cycle and today from year 9 on, over a lunar calendar with the laws: marked today
  -- inside the reminder window, the upcoming renewal counts as paid, and the one after it is next.
  pub evaluate_marked_today :
      (alert : ℤ)
      → IsPlan L cycle (new_schedule cycle renewal_day (some today))
      → days_between today (on_or_after L (new_schedule cycle renewal_day (some today)) today)
        ≤ℤ alert
      → let s = new_schedule cycle renewal_day (some today) in
        let r = evaluate L cycle renewal_day today (some today) alert in
        (r.already_renewed ≡ true) × IsNextAfter L s (on_or_after L s today) r.next
  evaluate_marked_today alert plan window =
      let same = (mark-IsCovered today plan v hy alert).in_window window in
      subst
        (λ c.
          let r = evaluate L cycle renewal_day today (some today) alert in
          (r.already_renewed ≡ true) × IsNextAfter L (calendar (some today)) c r.next)
        same (evaluate_paid_ahead today plan v hy alert (le_of_eq (sym (ap ordinal same))))

  -- For a plan of any cycle, with today and the mark, if there is one, from year 9 on, over a lunar
  -- calendar with the laws: what `Evaluate` reports as next is a renewal that is not past, its days
  -- are counted from today, and while it is not paid for it is the first renewal from today on.
  pub evaluate-IsEvaluated :
      (last : Option Date) (alert : ℤ)
      → IsPlan L cycle (new_schedule cycle renewal_day last)
      → IsMark last
      → IsEvaluated L
          (new_schedule cycle renewal_day last)
          today
          (evaluate L cycle renewal_day today last alert)
  unfolding evaluate mark_effect
  evaluate-IsEvaluated none alert plan mark =
      let up = upcoming_lem none plan in
      evaluated none plan _ false up.exists up.occurs up.not_before (λ _. refl)
  evaluate-IsEvaluated (some m) alert plan (vm, my) = marked m plan vm my alert
