-- ===== src/Timeutil/Parse/Weekly.antt =====
-- What `parse_weekly_schedule` returns for a text.
use quotapulse.Base.{
  ℕ, ◌≡◌, ◌≢◌, ◌⊎◌, ◌++◌, true, false, ap, inl, inr, refl, Option, none, some, List, [], ◌∷◌, ◌==◌,
  All, Any, Bool-cases, arith,
}
use quotapulse.Base.Text.{
  Text, text, trim_space, to_lower, eq_text, eq_text_iff, one_of-Any, Any-one_of,
}
use quotapulse.Timeutil.Parse.{
  is_off, off_values, ParsedTimes, times, bad_format, out_of_range, parse_daily_times, ParsedDays,
  weekdays, bad_weekday, parse_weekdays, ParsedSchedule, schedule, wrong_day, wrong_format,
  wrong_range, with_days, cut_space, parse_weekly_schedule,
}
use quotapulse.Timeutil.Parse.Ordered.{IsIncreasing}
use quotapulse.Timeutil.Parse.Clocks.{IsTimes, parse_daily_times-IsTimes}
use quotapulse.Timeutil.Parse.Weekdays.{IsDayLoop, IsDays, parse_weekdays-IsDays}
use quotapulse.Timeutil.Parse.Sound.{IsSound, with_days-IsSound, describe_exists}

-- The text says that there is no schedule.
unfoldable pub IsOff : Text → Type 0
IsOff raw =
    (raw ≡ [])
    ⊎ Any (λ v. v ≡ to_lower raw)
        (text "off" ∷ text "none" ∷ text "disabled" ∷ text "false" ∷ text "0" ∷ text "-" ∷ [])

-- No space in the text.
unfoldable pub IsWord : Text → Type 0
IsWord s = All (λ c. c ≢ b' ') s

-- The result has these weekdays and the times of this text, or the error of the times.
unfoldable pub IsTimed : List ℕ → Text → ParsedSchedule → Type 0
IsTimed days s (schedule ds cs) = (ds ≡ days) × IsTimes s (times cs)
IsTimed days s (wrong_day part) = ⊥
IsTimed days s (wrong_format part) = IsTimes s (bad_format part)
IsTimed days s (wrong_range part) = IsTimes s (out_of_range part)

-- The result has the weekdays of the first text and the times of the second, or the error of either.
unfoldable pub IsPaired : Text → Text → ParsedSchedule → Type 0
IsPaired first second r =
    ((days : List ℕ) × IsDays first (weekdays days) × IsTimed days second r)
    ⊎ ((part : Text) × IsDays first (bad_weekday part) × (r ≡ wrong_day part))

-- What a text without a space, or one split at its first, has to be read as.
unfoldable pub IsSplit : Text → ParsedSchedule → Type 0
IsSplit raw r =
    (IsWord raw × IsTimed [] raw r)
    ⊎ ((first : Text) × (second : Text) × (raw ≡ first ++ b' ' ∷ second)
        × IsWord first
        × IsPaired first (trim_space second) r)

-- What the parse of a weekly schedule has to return for a text.
unfoldable pub IsSchedule : Text → ParsedSchedule → Type 0
IsSchedule s r =
    IsSound r
    × ((IsOff (trim_space s) × (r ≡ schedule [] []))
        ⊎ ((IsOff (trim_space s) → ⊥) × IsSplit (trim_space s) r))

is_off-true : (raw : Text) → is_off raw ≡ true → IsOff raw
unfolding is_off IsOff
is_off-true raw h = elim (Bool-cases (eq_text raw [])) [
  | inl e ↦ inl ((eq_text_iff raw []).0 e)
  | inr e ↦ inr (one_of-Any (to_lower raw) off_values (ground (arith, h, e)))
]

is_off-false : (raw : Text) → is_off raw ≡ false → IsOff raw → ⊥
unfolding is_off IsOff
is_off-false raw h (inl e) = ground (arith, h, (eq_text_iff raw []).1 e)
is_off-false raw h (inr m) = ground (arith, h, Any-one_of (to_lower raw) off_values m)

-- What the cut at the first space returns.
unfoldable IsCut : Text → Option (Text × Text) → Type 0
IsCut raw none = IsWord raw
IsCut raw (some (first, second)) = (raw ≡ first ++ b' ' ∷ second) × IsWord first

longer-IsCut :
    (c : ℕ) (cs : Text) (o : Option (Text × Text))
    → c ≢ b' '
    → IsCut cs o
    → IsCut (c ∷ cs) (elim o [ none ↦ none | some (a, b) ↦ some (c ∷ a, b) ])
unfolding IsCut IsWord
longer-IsCut c cs none ne h = (ne, h)
longer-IsCut c cs (some (a, b)) ne h = (ap (λ x. c ∷ x) h.0, (ne, h.1))

cut_space-IsCut : (raw : Text) → IsCut raw (cut_space raw)
unfolding cut_space
cut_space-IsCut [] = unfold IsCut IsWord in tt
cut_space-IsCut (c ∷ cs) = elim (Bool-cases (c == b' ')) [
  | inl e ↦ rw e (unfold IsCut IsWord in (ground (arith, e), tt))
  | inr e ↦ rw e (longer-IsCut c cs (cut_space cs) (ground (arith, e)) (cut_space-IsCut cs))
]

with_days-IsTimed :
    (days : List ℕ) (s : Text) (r : ParsedTimes) → IsTimes s r → IsTimed days s (with_days days r)
unfolding with_days IsTimed
with_days-IsTimed days s (times cs) h = (refl, h)
with_days-IsTimed days s (bad_format part) h = h
with_days-IsTimed days s (out_of_range part) h = h

-- The two parts of a text, from what was read of the first.
abbrev pair_of : Text → ParsedDays → ParsedSchedule
pair_of second r = elim r [
  | bad_weekday part ↦ wrong_day part
  | weekdays days ↦ with_days days (parse_daily_times second)
]

pair_of-IsSound :
    (second : Text) (first : Text) (r : ParsedDays) → IsDays first r → IsSound (pair_of second r)
unfolding IsDays IsDayLoop IsSound
pair_of-IsSound second first (weekdays []) (inl (blank, e)) =
    with_days-IsSound [] second (parse_daily_times second) tt (parse_daily_times-IsTimes second)
pair_of-IsSound second first (weekdays (d ∷ ds)) (inl (blank, e)) = cc
pair_of-IsSound second first (weekdays ds) (inr (more, l)) =
    with_days-IsSound ds second (parse_daily_times second) l.0 (parse_daily_times-IsTimes second)
pair_of-IsSound second first (bad_weekday part) (inl (blank, e)) = cc
pair_of-IsSound second first (bad_weekday part) (inr (more, l)) = (l.0, l.1)

pair_of-IsPaired :
    (second : Text) (first : Text) (r : ParsedDays)
    → IsDays first r
    → IsPaired first second (pair_of second r)
unfolding IsPaired
pair_of-IsPaired second first (weekdays days) h = inl (
  days,
  h,
  with_days-IsTimed days second (parse_daily_times second) (parse_daily_times-IsTimes second),
)
pair_of-IsPaired second first (bad_weekday part) h = inr (part, h, refl)

abbrev cut_of : Text → Option (Text × Text) → ParsedSchedule
cut_of raw o = elim o [
  | none ↦ with_days [] (parse_daily_times raw)
  | some (first, second) ↦ pair_of (trim_space second) (parse_weekdays first)
]

cut_of-IsSplit :
    (raw : Text) (o : Option (Text × Text))
    → IsCut raw o
    → IsSound (cut_of raw o) × IsSplit raw (cut_of raw o)
unfolding IsSplit IsCut
cut_of-IsSplit raw none h = (
  with_days-IsSound [] raw (parse_daily_times raw) tt (parse_daily_times-IsTimes raw),
  inl (h, with_days-IsTimed [] raw (parse_daily_times raw) (parse_daily_times-IsTimes raw)),
)
cut_of-IsSplit raw (some (first, second)) h = (
  pair_of-IsSound (trim_space second) first (parse_weekdays first) (parse_weekdays-IsDays first),
  inr (
    first,
    second,
    h.0,
    h.1,
    pair_of-IsPaired (trim_space second) first (parse_weekdays first) (parse_weekdays-IsDays first),
  ),
)

-- Without the spaces around it, a text that is empty or one of the words for off is read to no weekdays
-- and no times. Any other is split at its first space: the weekdays are those of what stands before it,
-- the times those of what follows, and without a space the text holds times and no weekdays; a part that
-- is no weekday, that is not in the pattern of a time, or that names no time of day is the error that is
-- returned, that of the weekdays first. The weekdays are from 1 to 7, the times exist, each once and
-- earliest first, and the description finds a label for every weekday.
pub parse_weekly_schedule-IsSchedule : (s : Text) → IsSchedule s (parse_weekly_schedule s)
unfolding parse_weekly_schedule IsSchedule
parse_weekly_schedule-IsSchedule s = elim (Bool-cases (is_off (trim_space s))) [
  | inl e ↦
      rw (parse_weekly_schedule, e)
        (
          unfold IsSound IsIncreasing in (tt, tt, tt, describe_exists [] [] tt),
          inl (is_off-true (trim_space s) e, refl),
        )
  | inr e ↦
      let split =
        cut_of-IsSplit (trim_space s) (cut_space (trim_space s)) (cut_space-IsCut (trim_space s)) in
      rw (parse_weekly_schedule, e) (split.0, inr (is_off-false (trim_space s) e, split.1))
]
