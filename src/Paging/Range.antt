-- ===== src/Paging/Range.antt =====
-- The window that a history tool is asked for: `parse` and `parseBound` of internal/mcpserver/paging.go.
-- The quotient of hours is exact here, where the code has a float64.
use quotapulse.Base.{
  ℕ, ◌+◌, ◌*◌, ◌-◌, ◌/◌, ◌≤◌, ◌<◌, subst, min, max, ◌≡◌, ◌≢◌, ◌⊎◌, inl, inr, refl, Bool, true,
  false, not, Option, none, some, [], ltb, ◌==◌, if◌then◌else◌, Bool-cases, Option-cases, arith,
}
use quotapulse.Base.Int.{ℤ, pos, negsuc, ltb_ℤ, eqb_ℤ}
use quotapulse.Base.Text.{Text, eq_text, eq_text_iff, eq_text-empty, trim_space}
use quotapulse.Paging.{Window, bounded}
use quotapulse.Paging.Cursor.{Codec, decode_cursor}

-- `timeRange`
pub record TimeRange : Type 0 where
  pub since : Text
  pub until : Text
  pub days : ℤ
  pub cursor : Text

-- What the code calls of the time package, in the zone of the server: a time, the start of a date, and
-- the day after.
pub record Times : Type 0 where
  pub read_time : Text → Option ℕ
  pub read_date : Text → Option ℕ
  pub next_day : ℕ → ℕ

pub data Parsed : Type 0 where
  parsed : Window → ℤ → Parsed
  since_invalid : Parsed
  until_invalid : Parsed
  since_not_earlier : Parsed
  cursor_invalid : Parsed

-- A bound that was read; `none` in it is the zero time.
pub data Bound : Type 0 where
  bound : Option ℕ → Bound
  bound_invalid : Bound

unfoldable pub parse_bound : Times → Text → Bool → Bound
parse_bound T raw ends =
    let s = trim_space raw in
    if eq_text s [] then bound none else elim (T.read_time s) [
      | some at ↦ bound (some at)
      | none ↦ elim (T.read_date s) [
        | none ↦ bound_invalid
        | some day ↦ bound (some (if ends then T.next_day day else day))
      ]
    ]

-- The nanoseconds of 24 hours.
abbrev day_length : ℕ
day_length = 86400000000000

-- Whole days from `since` to `now`, rounded up; none if `since` is later.
unfoldable pub days_between : ℕ → ℕ → ℕ
days_between since now = ((now - since) + (day_length - 1)) / day_length

-- How many days back the store read reaches.
unfoldable pub reach : ℤ → Option ℕ → ℕ → ℤ
reach days none now = bounded days (pos 30) (pos 1) (pos 365)
reach days (some since) now = pos (min 365 (max 1 (days_between since now + 1)))

-- `!w.since.IsZero() && !w.until.IsZero() && !w.since.Before(w.until)`
unfoldable pub is_empty_range : Option ℕ → Option ℕ → Bool
is_empty_range none until = false
is_empty_range (some s) none = false
is_empty_range (some s) (some u) = not (ltb s u)

unfoldable pub parse_cursor : Codec → TimeRange → Option ℕ → Option ℕ → ℕ → Parsed
parse_cursor C r since until now =
    if eq_text r.cursor []
    then parsed record { since = since; until = until; after = none } (reach r.days since now)
    else elim (decode_cursor C r.cursor) [
      | none ↦ cursor_invalid
      | some p ↦
          parsed record { since = since; until = until; after = some p } (reach r.days since now)
    ]

unfoldable pub parse_range : Codec → Times → TimeRange → ℕ → Parsed
parse_range C T r now = elim (parse_bound T r.since false) [
  | bound_invalid ↦ since_invalid
  | bound since ↦ elim (parse_bound T r.until true) [
    | bound_invalid ↦ until_invalid
    | bound until ↦
        if is_empty_range since until then since_not_earlier else parse_cursor C r since until now
  ]
]

-- A number of days from 1 to 365 that reaches back to `since`, or 365.
Covers : Option ℕ → ℕ → ℕ → Type 0
Covers none now n = Unit
Covers (some since) now n = (now ≤ since + n * day_length) ⊎ (n ≡ 365)

pub IsReach : Option ℕ → ℕ → ℤ → Type 0
IsReach since now d = (n : ℕ) × (d ≡ pos n) × (1 ≤ n) × (n ≤ 365) × Covers since now n

-- What a bound that is written has to be read as: nothing, a time, or a date's start or end.
pub IsBound : Times → Text → Bool → Bound → Type 0
IsBound T raw ends (bound none) = trim_space raw ≡ []
IsBound T raw ends (bound (some at)) =
    (trim_space raw ≢ [])
    × ((T.read_time (trim_space raw) ≡ some at)
        ⊎ ((T.read_time (trim_space raw) ≡ none)
            × ((day : ℕ) × (T.read_date (trim_space raw) ≡ some day)
                × (((ends ≡ true) × (at ≡ T.next_day day)) ⊎ ((ends ≡ false) × (at ≡ day))))))
IsBound T raw ends bound_invalid =
    (trim_space raw ≢ [])
    × (T.read_time (trim_space raw) ≡ none)
    × (T.read_date (trim_space raw) ≡ none)

-- Two bounds that are there stand in order.
pub AreOrdered : Option ℕ → Option ℕ → Type 0
AreOrdered none until = Unit
AreOrdered (some s) none = Unit
AreOrdered (some s) (some u) = s < u

-- The cursor that was asked for: none, or the position that it stands for.
pub IsAfter : Codec → Text → Window → Type 0
IsAfter C cursor w =
    ((cursor ≡ []) × (w.after ≡ none))
    ⊎ ((cursor ≢ []) × (w.after ≢ none) × (decode_cursor C cursor ≡ w.after))

-- What the parse of a range has to return.
pub IsParse : Codec → Times → TimeRange → ℕ → Parsed → Type 0
IsParse C T r now (parsed w d) =
    IsBound T r.since false (bound w.since)
    × IsBound T r.until true (bound w.until)
    × AreOrdered w.since w.until
    × IsReach w.since now d
    × IsAfter C r.cursor w
IsParse C T r now since_invalid = IsBound T r.since false bound_invalid
IsParse C T r now until_invalid = IsBound T r.until true bound_invalid
IsParse C T r now since_not_earlier =
    (since : ℕ) × (until : ℕ) × IsBound T r.since false (bound (some since))
    × IsBound T r.until true (bound (some until))
    × (until ≤ since)
IsParse C T r now cursor_invalid = (r.cursor ≢ []) × (decode_cursor C r.cursor ≡ none)

start_or_end :
    (T : Times) (ends : Bool) (day : ℕ)
    → let at = if ends then T.next_day day else day in
      ((ends ≡ true) × (at ≡ T.next_day day)) ⊎ ((ends ≡ false) × (at ≡ day))
start_or_end T true day = inl (refl, refl)
start_or_end T false day = inr (refl, refl)

parse_bound-IsBound :
    (T : Times) (raw : Text) (ends : Bool) → IsBound T raw ends (parse_bound T raw ends)
unfolding parse_bound
parse_bound-IsBound T raw ends = elim (Bool-cases (eq_text (trim_space raw) [])) [
  | inl e ↦ rw (parse_bound, e) (unfold IsBound in (eq_text_iff (trim_space raw) []).0 e)
  | inr e ↦ elim (Option-cases (T.read_time (trim_space raw))) [
    | inr (at, f) ↦
        rw (parse_bound, e, f) (unfold IsBound in (eq_text-empty (trim_space raw) e, inl f))
    | inl f ↦ elim (Option-cases (T.read_date (trim_space raw))) [
      | inl g ↦
          rw (parse_bound, e, f, g) (unfold IsBound in (eq_text-empty (trim_space raw) e, f, g))
      | inr (day, g) ↦
          rw (parse_bound, e, f, g)
            (unfold IsBound in
              (eq_text-empty (trim_space raw) e, inr (f, (day, g, start_or_end T ends day))))
    ]
  ]
]

is_empty_range-AreOrdered :
    (since until : Option ℕ) → is_empty_range since until ≡ false → AreOrdered since until
unfolding is_empty_range AreOrdered
is_empty_range-AreOrdered none until h = tt
is_empty_range-AreOrdered (some s) none h = tt
is_empty_range-AreOrdered (some s) (some u) h = ground (arith, h)

days_between_covers : (since now : ℕ) → now ≤ since + days_between since now * day_length
unfolding days_between
days_between_covers since now = omega arith

min-max-IsReach :
    (since now n : ℕ)
    → now ≤ since + n * day_length
    → IsReach (some since) now (pos (min 365 (max 1 (n + 1))))
unfolding IsReach Covers
min-max-IsReach since now n h = (
  min 365 (max 1 (n + 1)),
  refl,
  omega arith,
  omega arith,
  elim (Bool-cases (ltb n 365)) [
    | inl l ↦ inl (ground (arith, h, l))
    | inr l ↦ inr (ground (arith, l))
  ],
)

bounded-IsReach : (v : ℤ) (now : ℕ) → IsReach none now (bounded v (pos 30) (pos 1) (pos 365))
unfolding IsReach Covers bounded ltb_ℤ eqb_ℤ
bounded-IsReach (pos n) now = elim (Bool-cases (n == 0)) [
  | inl z ↦ (30, ground (arith, z), omega arith, omega arith, tt)
  | inr z ↦ elim (Bool-cases (ltb 365 n)) [
    | inl l ↦ (365, ground (arith, z, l), omega arith, omega arith, tt)
    | inr l ↦ (n, ground (arith, z, l), ground (arith, z), ground (arith, l), tt)
  ]
]
bounded-IsReach (negsuc n) now = (1, ground arith, omega arith, omega arith, tt)

reach-IsReach : (days : ℤ) (since : Option ℕ) (now : ℕ) → IsReach since now (reach days since now)
unfolding reach
reach-IsReach days none now = bounded-IsReach days now
reach-IsReach days (some since) now =
    min-max-IsReach since now (days_between since now) (days_between_covers since now)

Bound-cases : (b : Bound) → (b ≡ bound_invalid) ⊎ ((o : Option ℕ) × (b ≡ bound o))
Bound-cases (bound o) = inr (o, refl)
Bound-cases bound_invalid = inl refl

parse_cursor-IsParse :
    (C : Codec) (T : Times) (r : TimeRange) (since until : Option ℕ) (now : ℕ)
    → IsBound T r.since false (bound since)
    → IsBound T r.until true (bound until)
    → is_empty_range since until ≡ false
    → IsParse C T r now (parse_cursor C r since until now)
unfolding parse_cursor
parse_cursor-IsParse C T r since until now hs hu he =
    let ordered = is_empty_range-AreOrdered since until he in
    let reaches = reach-IsReach r.days since now in
    elim (Bool-cases (eq_text r.cursor [])) [
      | inl e ↦
          rw (parse_cursor, e)
            (unfold IsParse IsAfter in
              (hs, hu, ordered, reaches, inl ((eq_text_iff r.cursor []).0 e, refl)))
      | inr e ↦ elim (Option-cases (decode_cursor C r.cursor)) [
        | inl d ↦ rw (parse_cursor, e, d) (unfold IsParse in (eq_text-empty r.cursor e, d))
        | inr (p, d) ↦
            rw (parse_cursor, e, d)
              (unfold IsParse IsAfter in
                (hs, hu, ordered, reaches, inr (eq_text-empty r.cursor e, (λ q. cc), d)))
      ]
    ]

empty_range_bounds :
    (C : Codec) (T : Times) (r : TimeRange) (since until : Option ℕ) (now : ℕ)
    → IsBound T r.since false (bound since)
    → IsBound T r.until true (bound until)
    → is_empty_range since until ≡ true
    → IsParse C T r now since_not_earlier
unfolding IsParse is_empty_range
empty_range_bounds C T r none until now hs hu he = cc
empty_range_bounds C T r (some s) none now hs hu he = cc
empty_range_bounds C T r (some s) (some u) now hs hu he = (s, u, hs, hu, ground (arith, he))

bound_read :
    (T : Times) (raw : Text) (ends : Bool) (b : Bound)
    → parse_bound T raw ends ≡ b
    → IsBound T raw ends b
bound_read T raw ends b e = subst (IsBound T raw ends) e (parse_bound-IsBound T raw ends)

-- The parse of a range rejects a bound that is neither blank nor read as a time or a date, a range whose
-- end is not after its start, and a cursor that cannot be decoded. What it accepts has the bounds that
-- were written, a date in the end standing for the day after it, the start before the end, the position
-- of the cursor if there is one, and a number of days from 1 to 365 that reaches back to the start of the
-- range, if 365 do.
pub parse_range-IsParse :
    (C : Codec) (T : Times) (r : TimeRange) (now : ℕ) → IsParse C T r now (parse_range C T r now)
unfolding parse_range
parse_range-IsParse C T r now = elim (Bound-cases (parse_bound T r.since false)) [
  | inl e ↦ rw (parse_range, e) (unfold IsParse in bound_read T r.since false _ e)
  | inr (since, e) ↦ elim (Bound-cases (parse_bound T r.until true)) [
    | inl f ↦ rw (parse_range, e, f) (unfold IsParse in bound_read T r.until true _ f)
    | inr (until, f) ↦
        let from = bound_read T r.since false _ e in
        let to = bound_read T r.until true _ f in
        elim (Bool-cases (is_empty_range since until)) [
          | inl g ↦ rw (parse_range, e, f, g) (empty_range_bounds C T r since until now from to g)
          | inr g ↦ rw (parse_range, e, f, g) (parse_cursor-IsParse C T r since until now from to g)
        ]
  ]
]
