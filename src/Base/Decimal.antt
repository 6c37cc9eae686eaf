-- ===== src/Base/Decimal.antt =====
-- A number that is written in the base ten is read back.
use Prim.Native.Nat.{ℕ, zero, suc, ◌+◌, ◌*◌, ◌/◌, ◌%◌, ◌^◌, ◌≤◌, ◌<◌}
use mathlib.Core.Path.{◌≡◌, refl, ap, ◌∙◌}
use mathlib.Core.Logic.{inl, inr}
use mathlib.Core.Bool.{true, false}
use mathlib.Core.Option.{some}
use mathlib.Core.List.{[], ◌∷◌}
use native.Mathlib.Omega.{arith}
use quotapulse.Base.Tests.{ltb, ◌==◌, Bool-cases}
use quotapulse.Base.Lists.{length, All}
use quotapulse.Base.Int.{pos}
use quotapulse.Base.Text.{Text}
use quotapulse.Base.Digits.{digit, is_digit, digits_value, signed, atoi, decimal_onto, decimal}

abbrev pub IsNumeral : Text → Type 0
IsNumeral s = All (λ c. is_digit c ≡ true) s

digit-IsDigit : (n : ℕ) → is_digit (digit n) ≡ true
digit-IsDigit n = ground arith

digits_value-digit :
    (m n : ℕ) (s : Text) → m * 10 + n % 10 ≡ n → digits_value m (digit n ∷ s) ≡ digits_value n s
unfolding digits_value
digits_value-digit m n s h =
    rw (digits_value, digit-IsDigit n) (ap (λ x. digits_value x s) (omega (arith, h)))

digits_value-onto :
    (fuel n : ℕ) (s : Text) → n < fuel → digits_value 0 (decimal_onto fuel n s) ≡ digits_value n s
unfolding decimal_onto
digits_value-onto zero n s h = ground (arith, h)
digits_value-onto (suc fuel) n s h = elim (Bool-cases (ltb n 10)) [
  | inl e ↦ rw e (digits_value-digit 0 n s (ground (arith, e)))
  | inr e ↦ rw e (
      digits_value-onto fuel (n / 10) (digit n ∷ s) (ground (arith, h, e))
      ∙ digits_value-digit (n / 10) n s (omega arith))
]

onto-IsNumeral : (fuel n : ℕ) (s : Text) → IsNumeral s → IsNumeral (decimal_onto fuel n s)
unfolding decimal_onto
onto-IsNumeral zero n s h = h
onto-IsNumeral (suc fuel) n s h = elim (Bool-cases (ltb n 10)) [
  | inl e ↦ rw e (digit-IsDigit n, h)
  | inr e ↦ rw e (onto-IsNumeral fuel (n / 10) (digit n ∷ s) (digit-IsDigit n, h))
]

pub decimal-IsNumeral : (n : ℕ) → IsNumeral (decimal n)
unfolding decimal
decimal-IsNumeral n = onto-IsNumeral (suc n) n [] tt

onto_longer : (fuel n : ℕ) (s : Text) → length s ≤ length (decimal_onto fuel n s)
unfolding decimal_onto
onto_longer zero n s = omega arith
onto_longer (suc fuel) n s = elim (Bool-cases (ltb n 10)) [
  | inl e ↦ rw e (omega arith)
  | inr e ↦ rw e (omega (arith, onto_longer fuel (n / 10) (digit n ∷ s)))
]

decimal_filled : (n : ℕ) → 1 ≤ length (decimal n)
unfolding decimal decimal_onto
decimal_filled n = elim (Bool-cases (ltb n 10)) [
  | inl e ↦ rw e (omega arith)
  | inr e ↦ rw e (omega (arith, onto_longer n (n / 10) (digit n ∷ [])))
]

-- Digits without a sign that an int64 holds.
atoi-numeral :
    (s : Text) (n : ℕ)
    → IsNumeral s
    → 1 ≤ length s
    → digits_value 0 s ≡ some n
    → n < 2 ^ 63
    → atoi s ≡ some (pos n)
unfolding atoi signed
atoi-numeral [] n d f v h = ground (arith, f)
atoi-numeral (c ∷ cs) n d f v h =
    let minus : (c == b'-') ≡ false = ground (arith, d.0) in
    let plus : (c == b'+') ≡ false = ground (arith, d.0) in
    let held : ltb n (2 ^ 63) ≡ true = ground (arith, h) in rw (minus, plus, signed, v, held) refl

pub atoi-decimal : (n : ℕ) → n < 2 ^ 63 → atoi (decimal n) ≡ some (pos n)
atoi-decimal n h =
    atoi-numeral (decimal n) n (decimal-IsNumeral n) (decimal_filled n)
      (unfold decimal digits_value in digits_value-onto (suc n) n [] (omega arith)) h
