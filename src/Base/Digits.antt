-- ===== src/Base/Digits.antt =====
-- Numbers as they are written in the base ten.
use Prim.Native.Nat.{ℕ, zero, suc, ◌+◌, ◌*◌, ◌-◌, ◌/◌, ◌%◌, ◌^◌}
use mathlib.Core.Bool.{Bool, true, false, ◌&&◌}
use mathlib.Core.Option.{Option, none, some}
use mathlib.Core.List.{[], ◌∷◌}
use quotapulse.Base.Tests.{ltb, leb, ◌==◌, if◌then◌else◌}
use quotapulse.Base.Int.{ℤ, pos, negsuc}
use quotapulse.Base.Text.{Text}

abbrev pub digit : ℕ → ℕ
digit n = b'0' + n % 10

abbrev pub is_digit : ℕ → Bool
is_digit c = leb b'0' c && leb c b'9'

-- The number that the digits spell after `n`; none at a byte that is no digit.
unfoldable pub digits_value : ℕ → Text → Option ℕ
digits_value n [] = some n
digits_value n (c ∷ cs) =
    let rest = digits_value (n * 10 + (c - b'0')) cs in if is_digit c then rest else none

-- A sign and digits: `strconv.Atoi`, with an error for what an int64 does not hold.
unfoldable pub signed : Bool → Text → Option ℤ
signed negative [] = none
signed negative (c ∷ cs) = elim (digits_value 0 (c ∷ cs)) [
  | none ↦ none
  | some n ↦
      if negative
      then if leb n (2 ^ 63) then some (if n == 0 then pos 0 else negsuc (n - 1)) else none
      else if ltb n (2 ^ 63)
      then some (pos n)
      else none
]

unfoldable pub atoi : Text → Option ℤ
atoi [] = none
atoi (c ∷ cs) =
    if c == b'-'
    then signed true cs
    else if c == b'+'
    then signed false cs
    else signed false (c ∷ cs)

-- The digits of a number, the last one first read: `fuel` of them at most.
unfoldable pub decimal_onto : ℕ → ℕ → Text → Text
decimal_onto zero n s = s
decimal_onto (suc fuel) n s =
    let more = decimal_onto fuel (n / 10) (digit n ∷ s) in if ltb n 10 then digit n ∷ s else more

-- `%d`
unfoldable pub decimal : ℕ → Text
decimal n = decimal_onto (suc n) n []
