-- ===== src/Timeutil/Allowed.antt =====
-- Which days a set of weekdays allows: the check of a day in `NextOccurrence`.
use quotapulse.Base.{
  ℕ, ◌≤◌, ◌≡◌, ◌⊎◌, inl, inr, refl, true, List, [], ◌∷◌, ◌==◌, any, Any, Bool-cases, arith,
}
use quotapulse.Calendar.{Date, weekday}
use quotapulse.Timeutil.{iso_weekday, fires_on}

-- The ISO number of the day's weekday: Monday is 1 and Sunday is 7.
unfoldable pub IsIsoDay : ℕ → Date → Type 0
IsIsoDay w day = ((w ≡ 7) × (weekday day ≡ 0)) ⊎ ((1 ≤ w) × (weekday day ≡ w))

-- There is no restriction, or the day's weekday is one of the set.
unfoldable pub IsAllowed : List ℕ → Date → Type 0
IsAllowed weekdays day = (weekdays ≡ []) ⊎ Any (λ w. IsIsoDay w day) weekdays

iso_weekday-IsIsoDay : (w : ℕ) (day : Date) → (w == iso_weekday day) ≡ true → IsIsoDay w day
unfolding iso_weekday IsIsoDay
iso_weekday-IsIsoDay w day h = elim (Bool-cases (weekday day == 0)) [
  | inl e ↦ inl (ground (arith, h, e), ground (arith, e))
  | inr e ↦ inr (ground (arith, h, e), ground (arith, h, e))
]

IsIsoDay-iso_weekday : (w : ℕ) (day : Date) → IsIsoDay w day → (w == iso_weekday day) ≡ true
unfolding iso_weekday IsIsoDay
IsIsoDay-iso_weekday w day (inl m) = ground (arith, m.0, m.1)
IsIsoDay-iso_weekday w day (inr m) = ground (arith, m.0, m.1)

any-Any :
    (ws : List ℕ) (day : Date)
    → any (λ w. w == iso_weekday day) ws ≡ true
    → Any (λ w. IsIsoDay w day) ws
any-Any [] day h = cc
any-Any (w ∷ ws) day h = elim (Bool-cases (w == iso_weekday day)) [
  | inl e ↦ inl (iso_weekday-IsIsoDay w day e)
  | inr e ↦ inr (any-Any ws day (ground (arith, h, e)))
]

Any-any :
    (ws : List ℕ) (day : Date)
    → Any (λ w. IsIsoDay w day) ws
    → any (λ w. w == iso_weekday day) ws ≡ true
Any-any (w ∷ ws) day (inl m) = ground (arith, IsIsoDay-iso_weekday w day m)
Any-any (w ∷ ws) day (inr m) = ground (arith, Any-any ws day m)
Any-any [] day m = elim m [ ]

pub fires_on-IsAllowed : (ws : List ℕ) (day : Date) → fires_on ws day ≡ true → IsAllowed ws day
unfolding fires_on IsAllowed
fires_on-IsAllowed [] day h = inl refl
fires_on-IsAllowed (w ∷ ws) day h = inr (any-Any (w ∷ ws) day (ground (arith, h)))

pub IsAllowed-fires_on : (ws : List ℕ) (day : Date) → IsAllowed ws day → fires_on ws day ≡ true
unfolding fires_on IsAllowed
IsAllowed-fires_on [] day h = refl
IsAllowed-fires_on (w ∷ ws) day (inl e) = cc
IsAllowed-fires_on (w ∷ ws) day (inr m) = ground (arith, Any-any (w ∷ ws) day m)
