-- ===== src/Calendar/Format.antt =====
-- Go's `2006-01-02` layout, both ways, for years of four digits.
use quotapulse.Base.{
  ℕ, ◌+◌, ◌-◌, ◌*◌, ◌/◌, ◌%◌, ◌≤◌, ◌≡◌, ◌&&◌, Option, none, some, [], ◌∷◌, leb, ◌==◌, if◌then◌else◌,
  arith,
}
use quotapulse.Base.Text.{Text}
use quotapulse.Base.Digits.{digit, is_digit}
use quotapulse.Calendar.{Date, date, IsDate, month_length}
use quotapulse.Calendar.Order.{month_length_bounds}

-- `t.Format("2006-01-02")`
unfoldable pub format_date : Date → Text
format_date t =
    digit (t.year / 1000)
    ∷ digit (t.year / 100)
    ∷ digit (t.year / 10)
    ∷ digit t.year
    ∷ b'-'
    ∷ digit (t.month / 10)
    ∷ digit t.month
    ∷ b'-'
    ∷ digit (t.day / 10)
    ∷ digit t.day
    ∷ []

-- The number that two digits spell.
unfoldable pub two_digits : ℕ → ℕ → Option ℕ
two_digits a b = if is_digit a && is_digit b then some ((a - b'0') * 10 + (b - b'0')) else none

-- The parts of a date: each range is checked.
unfoldable pub date_of_parts : Option ℕ → Option ℕ → Option ℕ → Option ℕ → Option Date
date_of_parts (some c) (some y) (some m) (some d) =
    if leb 1 m && (leb m 12 && (leb 1 d && leb d (month_length (c * 100 + y) m)))
    then some (date (c * 100 + y) m d)
    else none
date_of_parts _ _ _ _ = none

-- `time.ParseInLocation("2006-01-02", …)`
unfoldable pub parse_date : Text → Option Date
parse_date (a ∷ b ∷ c ∷ d ∷ s ∷ e ∷ f ∷ t ∷ g ∷ h ∷ []) =
    if (s == b'-') && (t == b'-')
    then date_of_parts (two_digits a b) (two_digits c d) (two_digits e f) (two_digits g h)
    else none
parse_date _ = none

two_digits-digit : (q n k : ℕ) → k ≡ q % 10 * 10 + n % 10 → two_digits (digit q) (digit n) ≡ some k
unfolding two_digits
two_digits-digit q n k h = ground arith

-- Reading a written date gives the date back.
pub parse_date-format_date :
    (t : Date) → IsDate t → t.year ≤ 9999 → parse_date (format_date t) ≡ some t
unfolding parse_date format_date date_of_parts
parse_date-format_date t v h =
    rw
      (
        two_digits-digit (t.year / 1000) (t.year / 100) (t.year / 100) (omega arith),
        two_digits-digit (t.year / 10) t.year (t.year % 100) (omega arith),
        two_digits-digit (t.month / 10) t.month t.month (omega arith),
        two_digits-digit (t.day / 10) t.day t.day
            (omega (arith, month_length_bounds t.year t.month)),
      )
      (parts (t.year / 100 * 100 + t.year % 100) (omega arith))
  where
    parts :
        (y : ℕ)
        → y ≡ t.year
        → (if leb 1 t.month
              && (leb t.month 12 && (leb 1 t.day && leb t.day (month_length y t.month)))
            then some (date y t.month t.day)
            else none)
          ≡ some t
    parts y e = rw e (ground arith)
