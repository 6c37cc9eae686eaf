-- ===== src/Timeutil/Parse/Clocks.antt =====
-- What `parse_daily_times` returns: the times of the parts, each once, in order, or the first bad part.
use quotapulse.Base.{
  ℕ, ◌≡◌, ◌≢◌, ◌⊎◌, ◌↔◌, inl, inr, refl, sym, subst, true, false, none, some, List, [], ◌∷◌, ◌++◌,
  if◌then◌else◌, All, All-append, Any, Bool-cases, Option-cases, arith,
}
use quotapulse.Base.Text.{Text, eq_text, eq_text-empty, eq_text_iff, trim_space, split_on}
use quotapulse.Timeutil.{ClockTime, IsClock, sort_clocks}
use quotapulse.Timeutil.Parse.Ordered.{
  IsIncreasing, IsNew, sort_clocks-IsIncreasing, Mem-append, append-IsNew, seen_iff,
  sort_clocks-All,
}
use quotapulse.Timeutil.Sorting.{Mem, Mem-sort_clocks}
use quotapulse.Timeutil.Parse.{
  is_off, match_time, ParsedTimes, times, bad_format, out_of_range, seen, clock_of, parse_parts,
  parse_daily_times,
}

-- The part is a time of day in the source's pattern, and the time is this one.
unfoldable pub Spells : ClockTime → Text → Type 0
Spells c p = (hm : ℕ × ℕ) × (match_time (trim_space p) ≡ some hm) × (clock_of hm ≡ some c)

-- A part that the loop does not stop at.
unfoldable pub IsGood : Text → Type 0
IsGood p = (trim_space p ≡ []) ⊎ ((c : ClockTime) × Spells c p)

-- The result of the loop from `result` on.
unfoldable pub IsLoop : List Text → List ClockTime → ParsedTimes → Type 0
IsLoop ps result (times cs) =
    All IsClock cs
    × IsIncreasing cs
    × ((c : ClockTime) → Mem c cs ↔ (Mem c result ⊎ Any (Spells c) ps))
    × All IsGood ps
IsLoop ps result (bad_format part) =
    (part ≢ []) × (match_time part ≡ none) × Any (λ p. trim_space p ≡ part) ps
IsLoop ps result (out_of_range part) =
    (hm : ℕ × ℕ) × (match_time part ≡ some hm)
    × (clock_of hm ≡ none)
    × Any (λ p. trim_space p ≡ part) ps

clock_of-IsClock : (hm : ℕ × ℕ) (c : ClockTime) → clock_of hm ≡ some c → IsClock c
unfolding clock_of
clock_of-IsClock (h, m) c e = ground (arith, e)

-- One part before the others, from what it adds to the result.
IsLoop-step :
    (p : Text) (ps : List Text) (before after : List ClockTime) (r : ParsedTimes)
    → ((x : ClockTime) → Mem x after ↔ (Mem x before ⊎ Spells x p))
    → IsGood p
    → IsLoop ps after r
    → IsLoop (p ∷ ps) before r
unfolding IsLoop
IsLoop-step p ps before after (times cs) f good h = (
  h.0,
  h.1,
  λ c. (
    λ m. elim ((h.2 c).0 m) [
      | inl k ↦ elim ((f c).0 k) [ inl q ↦ inl q | inr q ↦ inr (inl q) ]
      | inr k ↦ inr (inr k)
    ],
    λ m. (h.2 c).1 (elim m [
      | inl k ↦ inl ((f c).1 (inl k))
      | inr (inl k) ↦ inl ((f c).1 (inr k))
      | inr (inr k) ↦ inr k
    ]),
  ),
  (good, h.3),
)
IsLoop-step p ps before after (bad_format part) f good h = (h.0, h.1, inr h.2)
IsLoop-step p ps before after (out_of_range part) f good h = (h.0, h.1, h.2, inr h.3)

-- An empty part spells nothing.
match_time-empty : (p : Text) → eq_text (trim_space p) [] ≡ true → match_time (trim_space p) ≡ none
match_time-empty p e =
    subst (λ s. match_time s ≡ none) (sym ((eq_text_iff (trim_space p) []).0 e))
      (unfold match_time in refl)

Spells-nothing :
    (p : Text) (cs : List ClockTime)
    → match_time (trim_space p) ≡ none
    → (x : ClockTime) → Mem x cs ↔ (Mem x cs ⊎ Spells x p)
unfolding Spells
Spells-nothing p cs e x = (λ m. inl m, λ m. elim m [ inl k ↦ k | inr (hm, f, g) ↦ cc ])

-- A part that spells `c` spells no other time.
Spells-one :
    (p : Text) (hm : ℕ × ℕ) (c x : ClockTime)
    → match_time (trim_space p) ≡ some hm
    → clock_of hm ≡ some c
    → Spells x p ↔ (x ≡ c)
unfolding Spells
Spells-one p hm c x e f = (λ (k, g, h). cc, λ q. (hm, e, rw q f))

-- What the loop adds for a part that is a time.
added :
    (p : Text) (hm : ℕ × ℕ) (c : ClockTime) (cs : List ClockTime)
    → match_time (trim_space p) ≡ some hm
    → clock_of hm ≡ some c
    → (x : ClockTime) → Mem x (if seen c cs then cs else cs ++ c ∷ []) ↔ (Mem x cs ⊎ Spells x p)
added p hm c cs e f x = elim (Bool-cases (seen c cs)) [
  | inl s ↦ rw s (
    λ m. inl m,
    λ m. elim m [
      | inl k ↦ k
      | inr k ↦ subst (λ y. Mem y cs) (sym ((Spells-one p hm c x e f).0 k)) ((seen_iff c cs).0 s)
    ],
  )
  | inr s ↦ rw s (
    λ m. elim ((Mem-append x c cs).0 m) [
      | inl k ↦ inl k
      | inr k ↦ inr ((Spells-one p hm c x e f).1 k)
    ],
    λ m.
        (Mem-append x c cs).1
          (elim m [ inl k ↦ inl k | inr k ↦ inr ((Spells-one p hm c x e f).0 k) ]),
  )
]

added-IsNew :
    (c : ClockTime) (cs : List ClockTime)
    → IsNew cs
    → IsNew (if seen c cs then cs else cs ++ c ∷ [])
added-IsNew c cs h = elim (Bool-cases (seen c cs)) [
  | inl s ↦ rw s h
  | inr s ↦ rw s (append-IsNew c cs (λ m. let k = (seen_iff c cs).1 m in cc) h)
]

All-IsClock-added :
    (c : ClockTime) (cs : List ClockTime)
    → IsClock c
    → All IsClock cs
    → All IsClock (if seen c cs then cs else cs ++ c ∷ [])
All-IsClock-added c cs k h = elim (Bool-cases (seen c cs)) [
  | inl s ↦ rw s h
  | inr s ↦ rw s (All-append IsClock cs (c ∷ []) h (k, tt))
]

nothing_left :
    (result : List ClockTime)
    → IsNew result
    → All IsClock result
    → IsLoop [] result (times (sort_clocks result))
unfolding IsLoop
nothing_left result new ok = (
  sort_clocks-All result ok,
  sort_clocks-IsIncreasing result new,
  λ c. (
    λ m. inl ((Mem-sort_clocks c result).0 m),
    λ m. elim m [ inl k ↦ (Mem-sort_clocks c result).1 k | inr k ↦ elim k [ ] ],
  ),
  tt,
)

parse_parts-IsLoop :
    (ps : List Text) (result : List ClockTime)
    → IsNew result
    → All IsClock result
    → IsLoop ps result (parse_parts ps result)
unfolding parse_parts
parse_parts-IsLoop [] result new ok = nothing_left result new ok
parse_parts-IsLoop (p ∷ ps) result new ok = elim (Bool-cases (eq_text (trim_space p) [])) [
  | inl e ↦
      rw (parse_parts, e)
        (IsLoop-step p ps result result _ (Spells-nothing p result (match_time-empty p e))
          (unfold IsGood in inl ((eq_text_iff (trim_space p) []).0 e))
          (parse_parts-IsLoop ps result new ok))
  | inr e ↦ elim (Option-cases (match_time (trim_space p))) [
    | inl f ↦
        rw (parse_parts, e, f) (unfold IsLoop in (eq_text-empty (trim_space p) e, f, inl refl))
    | inr (hm, f) ↦ elim (Option-cases (clock_of hm)) [
      | inl g ↦ rw (parse_parts, e, f, g) (unfold IsLoop in (hm, f, g, inl refl))
      | inr (c, g) ↦
          rw (parse_parts, e, f, g)
            (IsLoop-step p ps result (if seen c result then result else result ++ c ∷ []) _
              (added p hm c result f g) (unfold IsGood Spells in inr (c, (hm, f, g)))
              (parse_parts-IsLoop ps (if seen c result then result else result ++ c ∷ [])
                (added-IsNew c result new)
                (All-IsClock-added c result (clock_of-IsClock hm c g) ok)))
    ]
  ]
]

-- What a schedule of times has to be read as: nothing if it is off, else what its parts are.
unfoldable pub IsTimes : Text → ParsedTimes → Type 0
IsTimes s r =
    ((is_off (trim_space s) ≡ true) × (r ≡ times []))
    ⊎ ((is_off (trim_space s) ≡ false) × IsLoop (split_on b',' (trim_space s)) [] r)

-- A text that is off has no times. Any other is read to the times that its parts spell, each once and
-- earliest first, all of them times that exist, if every part that is not empty spells one; or to a
-- part of it that is not in the pattern or names no time.
pub parse_daily_times-IsTimes : (s : Text) → IsTimes s (parse_daily_times s)
unfolding parse_daily_times
parse_daily_times-IsTimes s = elim (Bool-cases (is_off (trim_space s))) [
  | inl e ↦ rw (parse_daily_times, e) (unfold IsTimes in inl (e, refl))
  | inr e ↦
      rw (parse_daily_times, e)
        (unfold IsTimes in
          inr (e, parse_parts-IsLoop (split_on b',' (trim_space s)) [] (unfold IsNew in tt) tt))
]
