-- ===== src/Calendar/Slots.antt =====
-- Calendars with one day in each period: a period is numbered by `slot`, and `occ k` is the day that
-- period `k` holds. Months and years are such periods.
use quotapulse.Base.{
  ℕ, ◌+◌, ◌-◌, ◌≤◌, ◌<◌, ◌≡◌, arith, if◌then◌else◌, Bool-cases, inl, inr, dec_lt, ltb→lt, sym, ap,
  ◌∙◌,
}
use quotapulse.Calendar.{Date, IsDate, ordinal, before}

-- The first day on or after `day` of those that `P` names.
pub record IsFirst (P : Date → Type 0) (day r : Date) : Type 0 where
  pub exists : IsDate r
  pub occurs : P r
  pub not_before : ordinal day ≤ ordinal r
  pub least : (d : Date) → IsDate d → P d → ordinal day ≤ ordinal d → ordinal r ≤ ordinal d

-- The last day before `day` of those that `P` names.
pub record IsLast (P : Date → Type 0) (day r : Date) : Type 0 where
  pub exists : IsDate r
  pub occurs : P r
  pub earlier : ordinal r < ordinal day
  pub greatest : (d : Date) → IsDate d → P d → ordinal d < ordinal day → ordinal d ≤ ordinal r

-- Predicates that agree on the days that exist have the same first and last days.
module _ (P Q : Date → Type 0) (to : (d : Date) → IsDate d → P d → Q d)
    (from : (d : Date) → IsDate d → Q d → P d) where
  pub IsFirst-map : (day r : Date) → IsFirst P day r → IsFirst Q day r
  IsFirst-map day r f = record {
    exists = f.exists;
    occurs = to r f.exists f.occurs;
    not_before = f.not_before;
    least = λ d v q. f.least d v (from d v q);
  }

  pub IsLast-map : (day r : Date) → IsLast P day r → IsLast Q day r
  IsLast-map day r f = record {
    exists = f.exists;
    occurs = to r f.exists f.occurs;
    earlier = f.earlier;
    greatest = λ d v q. f.greatest d v (from d v q);
  }

pub record Slots : Type 0 where
  pub slot : Date → ℕ
  pub occ : ℕ → Date
  pub start : ℕ
  pub occ-IsDate : (k : ℕ) → start ≤ k → IsDate (occ k)
  pub slot-occ : (k : ℕ) → start ≤ k → slot (occ k) ≡ k
  pub slot_lt : (a b : Date) → IsDate a → IsDate b → slot a < slot b → ordinal a < ordinal b

abbrev pub Occurs : Slots → Date → Type 0
Occurs S d = d ≡ S.occ (S.slot d)

module _ (S : Slots) where
  open S use {slot, occ, start, occ-IsDate, slot-occ, slot_lt}

  slot_mono : (a b : Date) → IsDate a → IsDate b → ordinal a ≤ ordinal b → slot a ≤ slot b
  slot_mono a b va vb h = elim (dec_lt (slot b) (slot a)) [
    | yes p ↦ absurd (omega (arith, slot_lt b a vb va p))
    | no p ↦ omega arith
  ]

  occ-Occurs : (k : ℕ) → start ≤ k → Occurs S (occ k)
  occ-Occurs k h = rw (slot-occ k h)

  -- An occurrence of slot `k` or later is not before `occ k`.
  occ-le :
      (k : ℕ) (d : Date)
      → start ≤ k
      → IsDate d
      → Occurs S d
      → k ≤ slot d
      → ordinal (occ k) ≤ ordinal d
  occ-le k d h v o le = elim (dec_lt k (slot d)) [
    | yes p ↦ omega (arith, slot_lt (occ k) d (occ-IsDate k h) v (rw (slot-occ k h) p))
    | no p ↦ let e : k ≡ slot d = omega arith in omega (arith, ap ordinal (ap occ e ∙ sym o))
  ]

  -- The day of this period, if it is not past, and else that of the next one.
  pub first :
      (day : Date)
      → IsDate day
      → start ≤ slot day
      → IsFirst
          (Occurs S)
          day
          (if before (occ (slot day)) day then occ (slot day + 1) else occ (slot day))
  first day v h = elim (Bool-cases (before (occ (slot day)) day)) [
    | inl e ↦ rw e (later (ltb→lt _ _ e))
    | inr e ↦ rw e record {
      exists = occ-IsDate (slot day) h;
      occurs = occ-Occurs (slot day) h;
      not_before = ground arith;
      least = λ d vd o le. occ-le (slot day) d h vd o (slot_mono day d v vd le);
    }
  ]
    where
      next_from : start ≤ slot day + 1
      next_from = omega arith

      later : ordinal (occ (slot day)) < ordinal day → IsFirst (Occurs S) day (occ (slot day + 1))
      later past = record {
        exists = occ-IsDate (slot day + 1) next_from;
        occurs = occ-Occurs (slot day + 1) next_from;
        not_before = omega (
          arith,
          slot_lt day (occ (slot day + 1)) v (occ-IsDate (slot day + 1) next_from)
              (omega (arith, slot-occ (slot day + 1) next_from)),
        );
        least = λ d vd o le. occ-le (slot day + 1) d next_from vd o (beyond d vd o le);
      }
        where
          beyond :
              (d : Date) → IsDate d → Occurs S d → ordinal day ≤ ordinal d → slot day + 1 ≤ slot d
          beyond d vd o le = elim (dec_lt (slot day) (slot d)) [
            | yes p ↦ omega arith
            | no p ↦
                let e : slot d ≡ slot day = omega (arith, slot_mono day d v vd le) in
                absurd (omega (arith, ap ordinal (o ∙ ap occ e)))
          ]

  -- From a day that occurs, the period before it holds the last one before.
  pub last :
      (day : Date)
      → IsDate day
      → Occurs S day
      → start < slot day
      → IsLast (Occurs S) day (occ (slot day - 1))
  last day v o h = record {
    exists = occ-IsDate (slot day - 1) from;
    occurs = occ-Occurs (slot day - 1) from;
    earlier =
        slot_lt (occ (slot day - 1)) day (occ-IsDate (slot day - 1) from) v
          (omega (arith, slot-occ (slot day - 1) from));
    greatest = λ d vd od lt. below d vd od lt;
  }
    where
      from : start ≤ slot day - 1
      from = omega arith

      below :
          (d : Date)
          → IsDate d
          → Occurs S d
          → ordinal d < ordinal day
          → ordinal d ≤ ordinal (occ (slot day - 1))
      below d vd od lt = elim (dec_lt (slot d) (slot day - 1)) [
        | yes p ↦ omega (
          arith,
          slot_lt d (occ (slot day - 1)) vd (occ-IsDate (slot day - 1) from)
              (omega (arith, slot-occ (slot day - 1) from)),
        )
        | no p ↦ elim (dec_lt (slot d) (slot day)) [
          | yes q ↦
              let e : slot d ≡ slot day - 1 = omega arith in
              omega (arith, ap ordinal (od ∙ ap occ e))
          | no q ↦
              let e : slot d ≡ slot day = omega (arith, slot_mono d day vd v (omega arith)) in
              absurd (omega (arith, ap ordinal (od ∙ ap occ e ∙ sym o)))
        ]
      ]
