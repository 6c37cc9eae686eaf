-- ===== src/Subscription/Date/Floor.antt =====
-- Division that rounds down, and the month arithmetic on it.
use quotapulse.Base.{ℕ, suc, ◌-◌, ◌/◌, ◌%◌, ◌≡◌, arith}
use quotapulse.Base.Int.{ℤ, pos, negsuc, ◌+ℤ◌, ◌-ℤ◌, ◌*ℤ◌, ◌≤ℤ◌, ◌<ℤ◌}
use quotapulse.Subscription.Date.{quot, rem, floor_div, floor_mod}

floor_div-pos : (n : ℕ) → floor_div (pos n) (pos 12) ≡ pos (n / 12)
unfolding floor_div quot rem
floor_div-pos n = ground arith

quot-negsuc : (n : ℕ) → quot (negsuc n) (pos 12) ≡ pos 0 -ℤ pos (suc n / 12)
unfolding quot
quot-negsuc n = ground arith

rem-negsuc : (n : ℕ) → rem (negsuc n) (pos 12) ≡ pos 0 -ℤ pos (suc n % 12)
unfolding rem
rem-negsuc n = ground arith

floor_div-negsuc : (n : ℕ) → floor_div (negsuc n) (pos 12) ≡ negsuc (n / 12)
unfolding floor_div ◌-ℤ◌
floor_div-negsuc n = rw (quot-negsuc n, rem-negsuc n) (ground arith)

floor_mod-pos : (n : ℕ) → floor_mod (pos n) (pos 12) ≡ pos (n % 12)
unfolding floor_mod ◌-ℤ◌ ◌*ℤ◌
floor_mod-pos n = rw (floor_div-pos n) (ground arith)

floor_mod-negsuc : (n : ℕ) → floor_mod (negsuc n) (pos 12) ≡ pos (11 - n % 12)
unfolding floor_mod ◌-ℤ◌ ◌*ℤ◌
floor_mod-negsuc n = rw (floor_div-negsuc n) (ground arith)

-- Dividing by the months of a year rounds down for both signs: the remainder is a month offset
-- from 0 to 11, and quotient and remainder make up the number.
pub floor_div_mod :
    (a : ℤ)
    → (floor_div a (pos 12) *ℤ pos 12 +ℤ floor_mod a (pos 12) ≡ a)
      × (pos 0 ≤ℤ floor_mod a (pos 12))
      × (floor_mod a (pos 12) <ℤ pos 12)
unfolding ◌+ℤ◌ ◌*ℤ◌
floor_div_mod (pos n) = rw (floor_div-pos n, floor_mod-pos n) (ground arith)
floor_div_mod (negsuc n) = rw (floor_div-negsuc n, floor_mod-negsuc n) (ground arith)
