-- ===== src/Timeutil/Parse.antt =====
-- Schedules as they are written: the parsers, `String` and `Describe` of internal/timeutil/timeutil.go.
-- A set of weekdays is a list without repetitions; the message of an error is its kind and the part.
pub mod Ordered
pub mod Clocks
pub mod Weekdays
pub mod Sound
pub mod Weekly
pub mod Print
pub mod Fires
mod Tests
use quotapulse.Base.{
  ℕ, zero, suc, ◌+◌, ◌*◌, ◌-◌, ◌/◌, ◌%◌, Bool, true, false, not, ◌&&◌, ◌||◌, Option, none, some,
  List, [], ◌∷◌, ◌++◌, map, ltb, leb, ◌==◌, if◌then◌else◌, any, length,
}
use quotapulse.Base.Int.{ℤ, pos, negsuc}
use quotapulse.Base.Text.{
  Text, text, eq_text, starts_with, trim_space, to_lower, split_on, join, one_of,
}
use quotapulse.Base.Digits.{digit, is_digit, atoi, decimal}
use quotapulse.Calendar.Format.{two_digits}
use quotapulse.Timeutil.{ClockTime, sort_clocks}

-- `offValues`
abbrev pub off_values : List Text
off_values = text "off" ∷ text "none" ∷ text "disabled" ∷ text "false" ∷ text "0" ∷ text "-" ∷ []

-- `raw == "" || offValues[strings.ToLower(raw)]`
unfoldable pub is_off : Text → Bool
is_off raw = eq_text raw [] || one_of (to_lower raw) off_values

-- `timePattern`: one or two digits, a colon and two digits.
unfoldable pub match_time : Text → Option (ℕ × ℕ)
match_time (h ∷ c ∷ m ∷ n ∷ []) =
    if is_digit h && (c == b':')
    then elim (two_digits m n) [ none ↦ none | some minute ↦ some (h - b'0', minute) ]
    else none
match_time (g ∷ h ∷ c ∷ m ∷ n ∷ []) =
    if c == b':'
    then elim (two_digits g h) [
      | none ↦ none
      | some hour ↦ elim (two_digits m n) [ none ↦ none | some minute ↦ some (hour, minute) ]
    ]
    else none
match_time _ = none

pub data ParsedTimes : Type 0 where
  times : List ClockTime → ParsedTimes
  bad_format : Text → ParsedTimes
  out_of_range : Text → ParsedTimes

unfoldable pub seen : ClockTime → List ClockTime → Bool
seen c cs = any (λ d. (d.hour == c.hour) && (d.minute == c.minute)) cs

-- The body of the loop after the pattern has matched: the time of a part, or none out of range.
unfoldable pub clock_of : ℕ × ℕ → Option ClockTime
clock_of (hour, minute) =
    if ltb 23 hour || ltb 59 minute then none else some record { hour = hour; minute = minute }

-- The loop over the parts: `result` so far is also what was seen.
unfoldable pub parse_parts : List Text → List ClockTime → ParsedTimes
parse_parts [] result = times (sort_clocks result)
parse_parts (p ∷ ps) result =
    let part = trim_space p in
    if eq_text part [] then parse_parts ps result else elim (match_time part) [
      | none ↦ bad_format part
      | some hm ↦ elim (clock_of hm) [
        | none ↦ out_of_range part
        | some c ↦ parse_parts ps (if seen c result then result else result ++ c ∷ [])
      ]
    ]

unfoldable pub parse_daily_times : Text → ParsedTimes
parse_daily_times s =
    let raw = trim_space s in if is_off raw then times [] else parse_parts (split_on b',' raw) []

-- `weekdayNames`, those in Chinese by the bytes of UTF-8.
abbrev pub weekday_names : List (Text × ℕ)
weekday_names =
    (text "mon", 1)
    ∷ (text "monday", 1)
    ∷ (229 ∷ 145 ∷ 168 ∷ 228 ∷ 184 ∷ 128 ∷ [], 1)
    ∷ (228 ∷ 184 ∷ 128 ∷ [], 1)
    ∷ (text "tue", 2)
    ∷ (text "tues", 2)
    ∷ (text "tuesday", 2)
    ∷ (229 ∷ 145 ∷ 168 ∷ 228 ∷ 186 ∷ 140 ∷ [], 2)
    ∷ (228 ∷ 186 ∷ 140 ∷ [], 2)
    ∷ (text "wed", 3)
    ∷ (text "wednesday", 3)
    ∷ (229 ∷ 145 ∷ 168 ∷ 228 ∷ 184 ∷ 137 ∷ [], 3)
    ∷ (228 ∷ 184 ∷ 137 ∷ [], 3)
    ∷ (text "thu", 4)
    ∷ (text "thur", 4)
    ∷ (text "thurs", 4)
    ∷ (text "thursday", 4)
    ∷ (229 ∷ 145 ∷ 168 ∷ 229 ∷ 155 ∷ 155 ∷ [], 4)
    ∷ (229 ∷ 155 ∷ 155 ∷ [], 4)
    ∷ (text "fri", 5)
    ∷ (text "friday", 5)
    ∷ (229 ∷ 145 ∷ 168 ∷ 228 ∷ 186 ∷ 148 ∷ [], 5)
    ∷ (228 ∷ 186 ∷ 148 ∷ [], 5)
    ∷ (text "sat", 6)
    ∷ (text "saturday", 6)
    ∷ (229 ∷ 145 ∷ 168 ∷ 229 ∷ 133 ∷ 173 ∷ [], 6)
    ∷ (229 ∷ 133 ∷ 173 ∷ [], 6)
    ∷ (text "sun", 7)
    ∷ (text "sunday", 7)
    ∷ (229 ∷ 145 ∷ 168 ∷ 230 ∷ 151 ∷ 165 ∷ [], 7)
    ∷ (229 ∷ 145 ∷ 168 ∷ 229 ∷ 164 ∷ 169 ∷ [], 7)
    ∷ (230 ∷ 151 ∷ 165 ∷ [], 7)
    ∷ (229 ∷ 164 ∷ 169 ∷ [], 7)
    ∷ []

unfoldable pub day_named : Text → List (Text × ℕ) → Option ℕ
day_named part [] = none
day_named part ((name, day) ∷ names) =
    let rest = day_named part names in if eq_text part name then some day else rest

-- `strings.ReplaceAll(text, "、", ",")`: what is left of a mark is skipped.
unfoldable pub commas_from : ℕ → Text → Text
commas_from skip [] = []
commas_from (suc skip) (c ∷ cs) = commas_from skip cs
commas_from zero (c ∷ cs) =
    let after = commas_from 2 cs in
    let kept = commas_from 0 cs in
    if starts_with (227 ∷ 128 ∷ 129 ∷ []) (c ∷ cs) then b',' ∷ after else c ∷ kept

-- The day of a part: a number first, then a name.
unfoldable pub day_of : Text → Option ℕ
day_of part = elim (atoi part) [
  | some (pos n) ↦ if ltb n 1 || ltb 7 n then none else some n
  | some (negsuc n) ↦ none
  | none ↦ day_named part weekday_names
]

pub data ParsedDays : Type 0 where
  weekdays : List ℕ → ParsedDays
  bad_weekday : Text → ParsedDays

-- `result[day] = true`
unfoldable pub add_day : ℕ → List ℕ → List ℕ
add_day d ds = if any (λ e. e == d) ds then ds else ds ++ d ∷ []

unfoldable pub parse_days : List Text → List ℕ → ParsedDays
parse_days [] result = weekdays result
parse_days (p ∷ ps) result =
    let part = to_lower (trim_space p) in
    if eq_text part []
    then parse_days ps result
    else elim (day_of part) [ none ↦ bad_weekday part | some d ↦ parse_days ps (add_day d result) ]

unfoldable pub parse_weekdays : Text → ParsedDays
parse_weekdays s =
    if eq_text (trim_space s) []
    then weekdays []
    else parse_days (split_on b',' (commas_from 0 s)) []

pub data ParsedSchedule : Type 0 where
  schedule : List ℕ → List ClockTime → ParsedSchedule
  wrong_day : Text → ParsedSchedule
  wrong_format : Text → ParsedSchedule
  wrong_range : Text → ParsedSchedule

unfoldable pub with_days : List ℕ → ParsedTimes → ParsedSchedule
with_days days (times cs) = schedule days cs
with_days days (bad_format part) = wrong_format part
with_days days (out_of_range part) = wrong_range part

-- `strings.SplitN(raw, " ", 2)`: what stands before the first space and what behind it.
unfoldable pub cut_space : Text → Option (Text × Text)
cut_space [] = none
cut_space (c ∷ cs) =
    let rest = cut_space cs in
    if c == b' ' then some ([], cs) else elim rest [ none ↦ none | some (a, b) ↦ some (c ∷ a, b) ]

unfoldable pub parse_weekly_schedule : Text → ParsedSchedule
parse_weekly_schedule s =
    let raw = trim_space s in
    if is_off raw then schedule [] [] else elim (cut_space raw) [
      | none ↦ with_days [] (parse_daily_times raw)
      | some (first, second) ↦ elim (parse_weekdays first) [
        | bad_weekday part ↦ wrong_day part
        | weekdays days ↦ with_days days (parse_daily_times (trim_space second))
      ]
    ]

-- `%02d`
unfoldable pub two_places : ℕ → Text
two_places n = if ltb n 100 then digit (n / 10) ∷ digit n ∷ [] else decimal n

-- `ClockTime.String`
unfoldable pub clock_text : ClockTime → Text
clock_text c = two_places c.hour ++ b':' ∷ two_places c.minute

-- `weekdayLabels[d-1]`; none is the panic of an index out of range.
abbrev pub weekday_labels : List Text
weekday_labels =
    text "Mon" ∷ text "Tue" ∷ text "Wed" ∷ text "Thu" ∷ text "Fri" ∷ text "Sat" ∷ text "Sun" ∷ []

abbrev pub label_at : ℕ → List Text → Option Text
label_at n [] = none
label_at zero (t ∷ ts) = some t
label_at (suc n) (t ∷ ts) = label_at n ts

unfoldable pub labels_of : List ℕ → Option (List Text)
labels_of [] = some []
labels_of (zero ∷ ds) = none
labels_of (suc d ∷ ds) = elim (label_at d weekday_labels) [
  | none ↦ none
  | some t ↦ elim (labels_of ds) [ none ↦ none | some ts ↦ some (t ∷ ts) ]
]

-- `sort.Ints`
unfoldable pub insert_day : ℕ → List ℕ → List ℕ
insert_day d [] = d ∷ []
insert_day d (e ∷ es) = let rest = insert_day d es in if ltb e d then e ∷ rest else d ∷ e ∷ es

unfoldable pub sort_days : List ℕ → List ℕ
sort_days [] = []
sort_days (d ∷ ds) = insert_day d (sort_days ds)

unfoldable pub describe : List ClockTime → List ℕ → Option Text
describe cs days =
    let clock = join (text " / ") (map clock_text cs) in
    if length cs == 0
    then some (text "Disabled")
    else if length days == 0
    then some (text "Daily " ++ clock)
    else elim (labels_of (sort_days days)) [
      | none ↦ none
      | some labels ↦ some (text "Weekly " ++ join (text ", ") labels ++ text " " ++ clock)
    ]
