-- ===== src/Timeutil/First.antt =====
-- One day's times, and the days that a set of weekdays allows: the inner loop of `NextOccurrence`.
use quotapulse.Base.{
  ℕ, ◌+◌, ◌-◌, ◌%◌, ◌≤◌, ◌<◌, ◌≡◌, inl, inr, refl, sym, ◌∙◌, subst, true, false, none, some, List,
  [], ◌∷◌, ltb, ◌==◌, any, All, Bool-cases, arith,
}
use quotapulse.Calendar.{Date, IsDate, ordinal, weekday, add_days}
use quotapulse.Calendar.Order.{ordinal-add_days}
use quotapulse.Timeutil.{ClockTime, clock_before, iso_weekday, fires_on, first_after, IsClock}
use quotapulse.Timeutil.Sorting.{Mem, IsSorted}

module _ (f : ClockTime → ℕ) (now : ℕ) where
  pub first_after-none :
      (cs : List ClockTime) → first_after f now cs ≡ none → (c : ClockTime) → Mem c cs → f c ≤ now
  unfolding Mem first_after
  first_after-none [] e c m = absurd m
  first_after-none (d ∷ ds) e c (inl h) = rw h ground arith
  first_after-none (d ∷ ds) e c (inr h) = elim (Bool-cases (ltb now (f d))) [
    | inl b ↦ ground (arith, e, b)
    | inr b ↦ first_after-none ds (sym (rw b refl) ∙ e) c h
  ]

  pub first_after-some :
      (cs : List ClockTime) (t : ℕ)
      → first_after f now cs ≡ some t
      → (c : ClockTime) × Mem c cs × (t ≡ f c) × (now < t)
  unfolding Mem first_after
  first_after-some [] t e = absurd (ground arith)
  first_after-some (d ∷ ds) t e = elim (Bool-cases (ltb now (f d))) [
    | inl b ↦ (d, inl refl, ground arith, ground arith)
    | inr b ↦ let (c, m, is, lt) = first_after-some ds t (sym (rw b refl) ∙ e) in (c, inr m, is, lt)
  ]

  head_least :
      (d c : ClockTime)
      → IsClock d
      → IsClock c
      → ((c d : ClockTime) → IsClock c → IsClock d → clock_before c d ≡ true → f c < f d)
      → clock_before c d ≡ false
      → f d ≤ f c
  head_least d c vd vc mono e = elim (Bool-cases (clock_before d c)) [
    | inl b ↦ omega (arith, mono d c vd vc b)
    | inr b ↦ subst (λ x. f d ≤ f x) (same b) (omega arith)
  ]
    where
      same : clock_before d c ≡ false → d ≡ c
      same b = ground arith

  pub first_after_least :
      (cs : List ClockTime) (t : ℕ)
      → ((c : ClockTime) → Mem c cs → IsClock c)
      → ((c d : ClockTime) → IsClock c → IsClock d → clock_before c d ≡ true → f c < f d)
      → IsSorted cs
      → first_after f now cs ≡ some t
      → (c : ClockTime) → Mem c cs
      → now < f c
      → t ≤ f c
  unfolding Mem first_after IsSorted
  first_after_least [] t ok mono s e c m lt = absurd m
  first_after_least (d ∷ ds) t ok mono s e c m lt = elim (Bool-cases (ltb now (f d))) [
    | inl b ↦ elim m [
      | inl h ↦ subst (λ x. t ≤ f x) (sym h) (ground arith)
      | inr h ↦ ground (arith, head_least d c (ok d (inl refl)) (ok c (inr h)) mono (s.0 c h))
    ]
    | inr b ↦ elim m [
      | inl h ↦ absurd (ground (arith, subst (λ x. now < f x) h lt))
      | inr h ↦ first_after_least ds t (λ x i. ok x (inr i)) mono s.1 (sym (rw b refl) ∙ e) c h lt
    ]
  ]

-- A day of the week that the schedule allows comes within a week.
any_equal : (n w : ℕ) (ws : List ℕ) → w ≡ n → any (λ x. x == n) (w ∷ ws) ≡ true
any_equal n w ws e = ground arith

pub fires_within :
    (today : Date) (weekdays : List ℕ)
    → IsDate today
    → All (λ w. (1 ≤ w) × (w ≤ 7)) weekdays
    → (i : ℕ) × (1 ≤ i) × (i ≤ 7) × (fires_on weekdays (add_days i today) ≡ true)
unfolding fires_on
fires_within today [] v h = (1, omega arith, omega arith, refl)
fires_within today (w ∷ ws) v h = (
  i,
  omega arith,
  omega arith,
  ground (arith, any_equal (iso_weekday (add_days i today)) w ws (sym on)),
)
  where
    i : ℕ
    i = (w + 6 - ordinal today % 7) % 7 + 1

    on : iso_weekday (add_days i today) ≡ w
    on = unfold iso_weekday in unfold weekday in rw (ordinal-add_days i today v) ground (arith, h.0)
