-- ===== src/Timeutil/Parse/Weekdays.antt =====
-- What `parse_weekdays` returns: the days of the parts, or a part that is no day.
use quotapulse.Base.{
  ℕ, ◌≤◌, ◌≡◌, ◌≢◌, ◌⊎◌, ◌↔◌, inl, inr, refl, sym, subst, true, ◌||◌, Option, none, some, List, [],
  ◌∷◌, ◌++◌, ltb, ◌==◌, if◌then◌else◌, any, All, All-append, Any, Bool-cases, Option-cases, arith,
}
use quotapulse.Base.Int.{pos, negsuc}
use quotapulse.Base.Text.{Text, eq_text, eq_text_iff, eq_text-empty, trim_space, to_lower, split_on}
use quotapulse.Base.Digits.{atoi}
use quotapulse.Timeutil.Parse.{
  day_named, weekday_names, commas_from, day_of, ParsedDays, weekdays, bad_weekday, add_day,
  parse_days, parse_weekdays,
}

-- An ISO number of a weekday.
abbrev pub IsWeekday : ℕ → Type 0
IsWeekday d = (1 ≤ d) × (d ≤ 7)

abbrev pub Has : ℕ → List ℕ → Type 0
Has d ds = Any (λ e. e ≡ d) ds

-- The part is a day, and the day is this one.
unfoldable pub Names : ℕ → Text → Type 0
Names d p = day_of (to_lower (trim_space p)) ≡ some d

unfoldable pub IsDayLoop : List Text → List ℕ → ParsedDays → Type 0
IsDayLoop ps result (weekdays ds) =
    All IsWeekday ds
    × ((d : ℕ) → Has d ds ↔ (Has d result ⊎ Any (Names d) ps))
    × All (λ p. (to_lower (trim_space p) ≡ []) ⊎ ((d : ℕ) × Names d p)) ps
IsDayLoop ps result (bad_weekday part) =
    (part ≢ []) × (day_of part ≡ none) × Any (λ p. to_lower (trim_space p) ≡ part) ps

OnWeekday : Option ℕ → Type 0
OnWeekday none = Unit
OnWeekday (some d) = IsWeekday d

day_named-OnWeekday :
    (part : Text) (names : List (Text × ℕ))
    → All (λ n. IsWeekday n.1) names
    → OnWeekday (day_named part names)
unfolding day_named
day_named-OnWeekday part [] h = unfold OnWeekday in tt
day_named-OnWeekday part ((name, day) ∷ names) h = elim (Bool-cases (eq_text part name)) [
  | inl q ↦ rw (day_named, q) (unfold OnWeekday in h.0)
  | inr q ↦ rw (day_named, q) (day_named-OnWeekday part names h.1)
]

number-OnWeekday : (n : ℕ) → OnWeekday (if ltb n 1 || ltb 7 n then none else some n)
number-OnWeekday n = elim (Bool-cases (ltb n 1 || ltb 7 n)) [
  | inl q ↦ rw q (unfold OnWeekday in tt)
  | inr q ↦ rw q (unfold OnWeekday in ground (arith, q))
]

day_of-OnWeekday : (part : Text) → OnWeekday (day_of part)
unfolding day_of
day_of-OnWeekday part = elim (Option-cases (atoi part)) [
  | inl a ↦ rw (day_of, a) (day_named-OnWeekday part weekday_names (omega arith))
  | inr (pos n, a) ↦ rw (day_of, a) (number-OnWeekday n)
  | inr (negsuc n, a) ↦ rw (day_of, a) (unfold OnWeekday in tt)
]

day_of-IsWeekday : (part : Text) (d : ℕ) → day_of part ≡ some d → IsWeekday d
day_of-IsWeekday part d e = unfold OnWeekday in subst OnWeekday e (day_of-OnWeekday part)

day_of_empty : day_of [] ≡ none
unfolding day_of atoi day_named eq_text
day_of_empty = refl

Has-append : (d e : ℕ) (ds : List ℕ) → Has d (ds ++ e ∷ []) ↔ (Has d ds ⊎ (e ≡ d))
Has-append d e [] =
    (λ m. elim m [ inl h ↦ inr h | inr h ↦ inl h ], λ m. elim m [ inl h ↦ inr h | inr h ↦ inl h ])
Has-append d e (f ∷ ds) = (
  λ m. elim m [
    | inl h ↦ inl (inl h)
    | inr h ↦ elim ((Has-append d e ds).0 h) [ inl k ↦ inl (inr k) | inr k ↦ inr k ]
  ],
  λ m. elim m [
    | inl (inl h) ↦ inl h
    | inl (inr h) ↦ inr ((Has-append d e ds).1 (inl h))
    | inr h ↦ inr ((Has-append d e ds).1 (inr h))
  ],
)

any-Has : (d : ℕ) (ds : List ℕ) → any (λ e. e == d) ds ≡ true → Has d ds
any-Has d [] h = cc
any-Has d (e ∷ ds) h = elim (Bool-cases (e == d)) [
  | inl q ↦ inl (ground (arith, q))
  | inr q ↦ inr (any-Has d ds (ground (arith, h, q)))
]

Has-add_day : (d e : ℕ) (ds : List ℕ) → Has d (add_day e ds) ↔ (Has d ds ⊎ (e ≡ d))
unfolding add_day
Has-add_day d e ds = elim (Bool-cases (any (λ x. x == e) ds)) [
  | inl q ↦
      rw (add_day, q)
        (λ m. inl m, λ m. elim m [ inl h ↦ h | inr h ↦ subst (λ x. Has x ds) h (any-Has e ds q) ])
  | inr q ↦ rw (add_day, q) (Has-append d e ds)
]

add_day-All : (d : ℕ) (ds : List ℕ) → IsWeekday d → All IsWeekday ds → All IsWeekday (add_day d ds)
unfolding add_day
add_day-All d ds k h = elim (Bool-cases (any (λ x. x == d) ds)) [
  | inl q ↦ rw (add_day, q) h
  | inr q ↦ rw (add_day, q) (All-append IsWeekday ds (d ∷ []) h (k, tt))
]

-- One part before the others, from what it adds to the result.
day_step :
    (p : Text) (ps : List Text) (before after : List ℕ) (r : ParsedDays)
    → ((d : ℕ) → Has d after ↔ (Has d before ⊎ Names d p))
    → (to_lower (trim_space p) ≡ []) ⊎ ((d : ℕ) × Names d p)
    → IsDayLoop ps after r
    → IsDayLoop (p ∷ ps) before r
unfolding IsDayLoop
day_step p ps before after (weekdays ds) f good h = (
  h.0,
  λ d. (
    λ m. elim ((h.1 d).0 m) [
      | inl k ↦ elim ((f d).0 k) [ inl q ↦ inl q | inr q ↦ inr (inl q) ]
      | inr k ↦ inr (inr k)
    ],
    λ m. (h.1 d).1 (elim m [
      | inl k ↦ inl ((f d).1 (inl k))
      | inr (inl k) ↦ inl ((f d).1 (inr k))
      | inr (inr k) ↦ inr k
    ]),
  ),
  (good, h.2),
)
day_step p ps before after (bad_weekday part) f good h = (h.0, h.1, inr h.2)

Names-nothing :
    (p : Text) (ds : List ℕ)
    → to_lower (trim_space p) ≡ []
    → (d : ℕ) → Has d ds ↔ (Has d ds ⊎ Names d p)
unfolding Names
Names-nothing p ds e d = (
  λ m. inl m,
  λ m. elim m [
    | inl k ↦ k
    | inr k ↦
        let none_named : day_of (to_lower (trim_space p)) ≡ none =
          subst (λ s. day_of s ≡ none) (sym e) day_of_empty in
        cc
  ],
)

Names-one :
    (p : Text) (e : ℕ) (ds : List ℕ)
    → day_of (to_lower (trim_space p)) ≡ some e
    → (d : ℕ) → Has d (add_day e ds) ↔ (Has d ds ⊎ Names d p)
unfolding Names
Names-one p e ds q d = (
  λ m. elim ((Has-add_day d e ds).0 m) [ inl k ↦ inl k | inr k ↦ inr (rw (sym k) q) ],
  λ m. (Has-add_day d e ds).1 (elim m [ inl k ↦ inl k | inr k ↦ inr cc ]),
)

parse_days-IsDayLoop :
    (ps : List Text) (result : List ℕ)
    → All IsWeekday result
    → IsDayLoop ps result (parse_days ps result)
unfolding parse_days
parse_days-IsDayLoop [] result ok =
    unfold IsDayLoop in (ok, λ d. (λ m. inl m, λ m. elim m [ inl k ↦ k | inr k ↦ elim k [ ] ]), tt)
parse_days-IsDayLoop (p ∷ ps) result ok = elim (Bool-cases (eq_text (to_lower (trim_space p)) [])) [
  | inl e ↦
      let empty = (eq_text_iff (to_lower (trim_space p)) []).0 e in
      rw (parse_days, e)
        (day_step p ps result result _ (Names-nothing p result empty) (inl empty)
          (parse_days-IsDayLoop ps result ok))
  | inr e ↦ elim (Option-cases (day_of (to_lower (trim_space p)))) [
    | inl f ↦
        rw (parse_days, e, f)
          (unfold IsDayLoop in (eq_text-empty (to_lower (trim_space p)) e, f, inl refl))
    | inr (d, f) ↦
        rw (parse_days, e, f)
          (day_step p ps result (add_day d result) _ (Names-one p d result f)
            (inr (d, unfold Names in f))
            (parse_days-IsDayLoop ps (add_day d result)
              (add_day-All d result (day_of-IsWeekday (to_lower (trim_space p)) d f) ok)))
  ]
]

-- What a list of weekdays has to be read as.
unfoldable pub IsDays : Text → ParsedDays → Type 0
IsDays s r =
    ((trim_space s ≡ []) × (r ≡ weekdays []))
    ⊎ ((trim_space s ≢ []) × IsDayLoop (split_on b',' (commas_from 0 s)) [] r)

-- A blank text restricts nothing. Any other is read to the weekdays that its parts, between commas of
-- either kind, name or number, if every part that is not empty is one, all from 1 to 7; or to a part
-- of it that is no weekday.
pub parse_weekdays-IsDays : (s : Text) → IsDays s (parse_weekdays s)
unfolding parse_weekdays
parse_weekdays-IsDays s = elim (Bool-cases (eq_text (trim_space s) [])) [
  | inl e ↦
      rw (parse_weekdays, e) (unfold IsDays in inl ((eq_text_iff (trim_space s) []).0 e, refl))
  | inr e ↦
      rw (parse_weekdays, e)
        (unfold IsDays in
          inr (
            eq_text-empty (trim_space s) e,
            parse_days-IsDayLoop (split_on b',' (commas_from 0 s)) [] tt,
          ))
]
