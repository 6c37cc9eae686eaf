-- ===== src/Subscription/Date/Cover.antt =====
-- `covering` chooses the renewal that a mark pays for.
use quotapulse.Base.{ℕ, ◌+◌, ◌-◌, ◌≤◌, ◌<◌, ◌≡◌, refl, ◌⊎◌, inl, inr, arith, dec_lt}
use quotapulse.Base.Int.{ℤ, pos, pos_part, neg_part, ◌≤ℤ◌, ◌<ℤ◌, -ℤ_parts}
use quotapulse.Calendar.{Date, IsDate, ordinal}
use quotapulse.Calendar.Order.{year_of_le}
use quotapulse.Calendar.Slots.{IsFirst, IsLast}
use quotapulse.Subscription.Date.{
  Lunar, Schedule, days_between, on_or_after, renewal_before, covering,
}
use quotapulse.Subscription.Date.Spec.{LunarLaws, IsPlan, IsRenewal}
use quotapulse.Subscription.Date.Search.{on_or_after-IsFirst}
use quotapulse.Subscription.Date.Previous.{renewal_before-IsLast}

-- The days between two days, in either direction.
abbrev pub gap : Date → Date → ℕ
gap a b = (ordinal a - ordinal b) + (ordinal b - ordinal a)

-- `c` is what a mark on `day` pays for.
pub record IsCovered (L : Lunar) (s : Schedule) (day : Date) (alert : ℤ) (c : Date) : Type 0 where
  pub exists : IsDate c
  pub occurs : IsRenewal L s c
  pub in_window : days_between day (on_or_after L s day) ≤ℤ alert → c ≡ on_or_after L s day
  pub nearest :
      alert <ℤ days_between day (on_or_after L s day)
      → (d : Date) → IsDate d
      → IsRenewal L s d
      → gap day c ≤ gap day d

-- The distances that the code compares, as numbers of days.
days_between_parts :
    (a b : Date) → pos_part (days_between a b) + ordinal a ≡ neg_part (days_between a b) + ordinal b
unfolding days_between
days_between_parts a b = omega (arith, -ℤ_parts (pos (ordinal b)) (pos (ordinal a)))

-- The three ways through `covering`.
covering-cases :
    (L : Lunar) (s : Schedule) (day : Date) (alert : ℤ)
    → let next = on_or_after L s day in
      let ahead = days_between day next in
      let previous = renewal_before L s next in
      ((ahead ≤ℤ alert) × (covering L s day alert ≡ next))
      ⊎ (((alert <ℤ ahead)
            × (days_between previous day <ℤ ahead)
            × (covering L s day alert ≡ previous))
          ⊎ ((alert <ℤ ahead)
              × (ahead ≤ℤ days_between previous day)
              × (covering L s day alert ≡ next)))
unfolding covering
covering-cases L s day alert = ground arith

module _ (L : Lunar) (laws : LunarLaws L) (s : Schedule) (plan : IsPlan L s.cycle s) (day : Date)
    (v : IsDate day) (hy : 9 ≤ day.year) where
  pub upcoming-IsFirst : IsFirst (IsRenewal L s) day (on_or_after L s day)
  upcoming-IsFirst = on_or_after-IsFirst L laws day v (omega arith) s plan

  pub upcoming_year : 9 ≤ (on_or_after L s day).year
  upcoming_year =
      omega (arith, year_of_le day _ v upcoming-IsFirst.exists upcoming-IsFirst.not_before)

  pub previous-IsLast :
      IsLast (IsRenewal L s) (on_or_after L s day) (renewal_before L s (on_or_after L s day))
  previous-IsLast =
      renewal_before-IsLast (on_or_after L s day) upcoming-IsFirst.exists upcoming_year L laws s
        plan upcoming-IsFirst.occurs

  -- A renewal lies at the upcoming one or beyond, or at the previous one or before.
  sides :
      (d : Date)
      → IsDate d
      → IsRenewal L s d
      → (ordinal (on_or_after L s day) ≤ ordinal d)
        ⊎ (ordinal d ≤ ordinal (renewal_before L s (on_or_after L s day)))
  sides d vd o = elim (dec_lt (ordinal d) (ordinal (on_or_after L s day))) [
    | yes p ↦ inr (previous-IsLast.greatest d vd o p)
    | no p ↦ inl (omega arith)
  ]

  previous_past : ordinal (renewal_before L s (on_or_after L s day)) < ordinal day
  previous_past = elim (dec_lt (ordinal (renewal_before L s (on_or_after L s day))) (ordinal day)) [
    | yes p ↦ p
    | no p ↦ absurd (
        omega (
          arith,
          previous-IsLast.earlier,
          upcoming-IsFirst.least _ previous-IsLast.exists previous-IsLast.occurs (omega arith),
        ))
  ]

  -- For a plan of any cycle and a mark from year 9 on, over a lunar calendar with the laws: a mark in
  -- the reminder window pays for the upcoming renewal, and any other for the nearest renewal of all.
  pub covering-IsCovered : (alert : ℤ) → IsCovered L s day alert (covering L s day alert)
  covering-IsCovered alert = elim (covering-cases L s day alert) [
    | inl (window, e) ↦ rw e record {
      exists = upcoming-IsFirst.exists;
      occurs = upcoming-IsFirst.occurs;
      in_window = λ _. refl;
      nearest = λ out. absurd (omega (arith, window, out));
    }
    | inr (inl (out, closer, e)) ↦ rw e record {
      exists = previous-IsLast.exists;
      occurs = previous-IsLast.occurs;
      in_window = λ window. absurd (omega (arith, window, out));
      nearest = λ _ d vd o. nearest_previous d closer (sides d vd o);
    }
    | inr (inr (out, closer, e)) ↦ rw e record {
      exists = upcoming-IsFirst.exists;
      occurs = upcoming-IsFirst.occurs;
      in_window = λ _. refl;
      nearest = λ _ d vd o. nearest_next d closer (sides d vd o);
    }
  ]
    where
      next : Date
      next = on_or_after L s day

      previous : Date
      previous = renewal_before L s (on_or_after L s day)

      nearest_previous :
          (d : Date)
          → days_between previous day <ℤ days_between day next
          → (ordinal next ≤ ordinal d) ⊎ (ordinal d ≤ ordinal previous)
          → gap day previous ≤ gap day d
      nearest_previous d closer side =
          omega (arith, previous_past, days_between_parts previous day, days_between_parts day next)

      nearest_next :
          (d : Date)
          → days_between day next ≤ℤ days_between previous day
          → (ordinal next ≤ ordinal d) ⊎ (ordinal d ≤ ordinal previous)
          → gap day next ≤ gap day d
      nearest_next d closer side = omega (
        arith,
        previous_past,
        upcoming-IsFirst.not_before,
        days_between_parts previous day,
        days_between_parts day next,
      )
