-- ===== src/Timeutil/Parse/Sound.antt =====
-- What a schedule that was read is good for: its times exist, and `describe` has a label for every weekday of it.
use quotapulse.Base.{
  ℕ, zero, suc, ◌≤◌, ◌≡◌, ◌≢◌, inl, inr, refl, none, some, List, [], ◌∷◌, ltb, ◌==◌, length, All,
  Bool-cases, arith,
}
use quotapulse.Base.Text.{Text}
use quotapulse.Timeutil.{ClockTime, IsClock}
use quotapulse.Timeutil.Parse.{
  match_time, clock_of, ParsedTimes, times, bad_format, out_of_range, day_of, ParsedSchedule,
  schedule, wrong_day, wrong_format, wrong_range, with_days, weekday_labels, label_at, labels_of,
  insert_day, sort_days, describe,
}
use quotapulse.Timeutil.Parse.Ordered.{IsIncreasing}
use quotapulse.Timeutil.Parse.Clocks.{IsLoop, IsTimes}
use quotapulse.Timeutil.Parse.Weekdays.{IsWeekday}

label_exists : (d : ℕ) → d ≤ 6 → (t : Text) × (label_at d weekday_labels ≡ some t)
label_exists zero h = (_, refl)
label_exists (suc zero) h = (_, refl)
label_exists (suc (suc zero)) h = (_, refl)
label_exists (suc (suc (suc zero))) h = (_, refl)
label_exists (suc (suc (suc (suc zero)))) h = (_, refl)
label_exists (suc (suc (suc (suc (suc zero))))) h = (_, refl)
label_exists (suc (suc (suc (suc (suc (suc zero)))))) h = (_, refl)
label_exists (suc (suc (suc (suc (suc (suc (suc d))))))) h = ground (arith, h)

labels_exist : (ds : List ℕ) → All IsWeekday ds → (ts : List Text) × (labels_of ds ≡ some ts)
unfolding labels_of
labels_exist [] h = ([], refl)
labels_exist (zero ∷ ds) h = ground (arith, h.0)
labels_exist (suc d ∷ ds) h =
    let (t, e) = label_exists d (omega (arith, h.0.1)) in
    let (ts, f) = labels_exist ds h.1 in (t ∷ ts, rw (e, f) refl)

insert_day-All :
    (d : ℕ) (ds : List ℕ) → IsWeekday d → All IsWeekday ds → All IsWeekday (insert_day d ds)
unfolding insert_day
insert_day-All d [] k h = (k, tt)
insert_day-All d (e ∷ es) k h = elim (Bool-cases (ltb e d)) [
  | inl q ↦ rw q (h.0, insert_day-All d es k h.1)
  | inr q ↦ rw q (k, h)
]

sort_days-All : (ds : List ℕ) → All IsWeekday ds → All IsWeekday (sort_days ds)
unfolding sort_days
sort_days-All [] h = tt
sort_days-All (d ∷ ds) h = insert_day-All d (sort_days ds) h.0 (sort_days-All ds h.1)

pub describe_exists :
    (cs : List ClockTime) (days : List ℕ)
    → All IsWeekday days
    → (t : Text) × (describe cs days ≡ some t)
unfolding describe
describe_exists cs days h = elim (Bool-cases (length cs == 0)) [
  | inl e ↦ rw (describe, e) (_, refl)
  | inr e ↦ elim (Bool-cases (length days == 0)) [
    | inl f ↦ rw (describe, e, f) (_, refl)
    | inr f ↦
        let (ts, g) = labels_exist (sort_days days) (sort_days-All days h) in
        rw (describe, e, f, g) (_, refl)
  ]
]

-- What holds of any result: a schedule can be waited for and described, and an error names a part that is
-- wrong.
unfoldable pub IsSound : ParsedSchedule → Type 0
IsSound (schedule days cs) =
    All IsWeekday days
    × All IsClock cs
    × IsIncreasing cs
    × ((t : Text) × (describe cs days ≡ some t))
IsSound (wrong_day part) = (part ≢ []) × (day_of part ≡ none)
IsSound (wrong_format part) = (part ≢ []) × (match_time part ≡ none)
IsSound (wrong_range part) = (hm : ℕ × ℕ) × (match_time part ≡ some hm) × (clock_of hm ≡ none)

pub with_days-IsSound :
    (days : List ℕ) (s : Text) (r : ParsedTimes)
    → All IsWeekday days
    → IsTimes s r
    → IsSound (with_days days r)
unfolding with_days IsSound IsTimes IsLoop IsIncreasing
with_days-IsSound days s (times []) h t = (h, tt, tt, describe_exists [] days h)
with_days-IsSound days s (times (c ∷ cs)) h (inl (off, e)) = cc
with_days-IsSound days s (times (c ∷ cs)) h (inr (on, l)) =
    (h, l.0, l.1, describe_exists (c ∷ cs) days h)
with_days-IsSound days s (bad_format part) h (inl (off, e)) = cc
with_days-IsSound days s (bad_format part) h (inr (on, l)) = (l.0, l.1)
with_days-IsSound days s (out_of_range part) h (inl (off, e)) = cc
with_days-IsSound days s (out_of_range part) h (inr (on, l)) = (l.0, l.1, l.2)
