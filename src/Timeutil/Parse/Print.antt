-- ===== src/Timeutil/Parse/Print.antt =====
-- Times of day that are written out, `ClockTime.String`, and read again.
use quotapulse.Base.{
  ℕ, ◌/◌, ◌≡◌, inl, inr, refl, sym, ap, subst, ◌∙◌, true, false, some, List, [], ◌∷◌, ◌++◌, map,
  All, append_nil, append_step, Bool-cases, arith,
}
use quotapulse.Base.Text.{Text, text, eq_text, lower_byte, to_lower, join, one_of}
use quotapulse.Base.Joined.{IsInk, IsFree, trim_space-ink, split_on-join, join-IsInk}
use quotapulse.Base.Digits.{digit, is_digit}
use quotapulse.Calendar.Format.{two_digits}
use quotapulse.Timeutil.{ClockTime, IsClock, clock_before, insert, sort_clocks}
use quotapulse.Timeutil.Sorting.{Mem, insert_first}
use quotapulse.Timeutil.Parse.{
  is_off, match_time, times, seen, clock_of, parse_parts, parse_daily_times, two_places, clock_text,
}
use quotapulse.Timeutil.Parse.Ordered.{IsIncreasing, IsNew, seen_iff}

-- A time that exists, written out.
abbrev five : ClockTime → Text
five c = digit (c.hour / 10) ∷ digit c.hour ∷ b':' ∷ digit (c.minute / 10) ∷ digit c.minute ∷ []

clock_text-five : (c : ClockTime) → IsClock c → clock_text c ≡ five c
unfolding clock_text two_places
clock_text-five c h = ground (arith, h.hour, h.minute)

five-IsInk : (c : ClockTime) → IsInk (five c)
five-IsInk c = ground arith

five-IsFree : (c : ClockTime) → IsFree b',' (five c)
five-IsFree c = ground arith

match_time-five : (c : ClockTime) → IsClock c → match_time (five c) ≡ some (c.hour, c.minute)
unfolding match_time two_digits
match_time-five c h = ground (arith, h.hour, h.minute)

clock_of-clock : (c : ClockTime) → IsClock c → clock_of (c.hour, c.minute) ≡ some c
unfolding clock_of
clock_of-clock c h = ground (arith, h.hour, h.minute)

digit_space : (n : ℕ) → is_digit (digit n) ≡ true
digit_space n = ground arith

-- A text of two bytes and more that starts with a digit is not one of those that mean off.
digit-lower : (c : ℕ) → is_digit c ≡ true → lower_byte c ≡ c
digit-lower c h = ground (arith, h)

not_off : (c d : ℕ) (cs : Text) → is_digit c ≡ true → is_off (c ∷ d ∷ cs) ≡ false
unfolding is_off eq_text one_of to_lower
not_off c d cs h = rw (digit-lower c h) (ground (arith, h))

five_not_off : (c : ClockTime) (s : Text) → is_off (five c ++ s) ≡ false
five_not_off c s = not_off (digit (c.hour / 10)) (digit c.hour) _ (digit_space (c.hour / 10))

Mem-here : (c : ClockTime) (before after : List ClockTime) → Mem c (before ++ c ∷ after)
unfolding Mem
Mem-here c [] after = inl refl
Mem-here c (d ∷ ds) after = inr (Mem-here c ds after)

IsNew-middle :
    (c : ClockTime) (before after : List ClockTime) → IsNew (before ++ c ∷ after) → Mem c before → ⊥
unfolding IsNew Mem
IsNew-middle c [] after new m = elim m [ ]
IsNew-middle c (d ∷ ds) after new (inl q) =
    new.0 (subst (λ x. Mem x (ds ++ c ∷ after)) q (Mem-here c ds after))
IsNew-middle c (d ∷ ds) after new (inr m) = IsNew-middle c ds after new.1 m

not_seen :
    (c : ClockTime) (before after : List ClockTime)
    → IsNew (before ++ c ∷ after)
    → seen c before ≡ false
not_seen c before after new = elim (Bool-cases (seen c before)) [
  | inl e ↦ elim (IsNew-middle c before after new ((seen_iff c before).0 e)) [ ]
  | inr e ↦ e
]

-- The loop adds the times of parts that are written out.
parse_parts-five :
    (cs result : List ClockTime)
    → All IsClock cs
    → IsNew (result ++ cs)
    → parse_parts (map five cs) result ≡ times (sort_clocks (result ++ cs))
unfolding parse_parts eq_text
parse_parts-five [] result ok new = rw (append_nil result) refl
parse_parts-five (c ∷ cs) result ok new =
    rw
      (
        parse_parts,
        trim_space-ink (five c) (five-IsInk c),
        match_time-five c ok.0,
        clock_of-clock c ok.0,
        not_seen c result cs new,
      )
      (parse_parts-five cs (result ++ c ∷ []) ok.1 (subst IsNew (sym (append_step result c cs)) new)
        ∙ ap (λ xs. times (sort_clocks xs)) (append_step result c cs))

before_irrefl : (c : ClockTime) → clock_before c c ≡ false
before_irrefl c = ground arith

IsIncreasing-IsNew : (cs : List ClockTime) → IsIncreasing cs → IsNew cs
unfolding IsIncreasing IsNew
IsIncreasing-IsNew [] h = tt
IsIncreasing-IsNew (c ∷ cs) h =
    (λ m. let k = h.0 c m in let e = before_irrefl c in cc, IsIncreasing-IsNew cs h.1)

sort_clocks-increasing : (cs : List ClockTime) → IsIncreasing cs → sort_clocks cs ≡ cs
unfolding IsIncreasing sort_clocks Mem
sort_clocks-increasing [] h = refl
sort_clocks-increasing (c ∷ []) h = unfold insert in refl
sort_clocks-increasing (c ∷ d ∷ ds) h =
    ap (insert c) (sort_clocks-increasing (d ∷ ds) h.1) ∙ insert_first c d ds (h.0 d (inl refl))

clock_texts : (cs : List ClockTime) → All IsClock cs → map clock_text cs ≡ map five cs
clock_texts [] h = refl
clock_texts (c ∷ cs) h = rw (clock_text-five c h.0, clock_texts cs h.1) refl

five-All-IsInk : (cs : List ClockTime) → All IsInk (map five cs)
five-All-IsInk [] = tt
five-All-IsInk (c ∷ cs) = (five-IsInk c, five-All-IsInk cs)

five-All-IsFree : (cs : List ClockTime) → All (IsFree b',') (map five cs)
five-All-IsFree [] = tt
five-All-IsFree (c ∷ cs) = (five-IsFree c, five-All-IsFree cs)

joined_not_off :
    (c : ClockTime) (cs : List ClockTime) → is_off (join (b',' ∷ []) (map five (c ∷ cs))) ≡ false
unfolding join
joined_not_off c [] = five_not_off c []
joined_not_off c (d ∷ ds) = five_not_off c ((b',' ∷ []) ++ join (b',' ∷ []) (map five (d ∷ ds)))

parse_daily_times-five :
    (c : ClockTime) (cs : List ClockTime)
    → All IsClock (c ∷ cs)
    → IsIncreasing (c ∷ cs)
    → parse_daily_times (join (b',' ∷ []) (map five (c ∷ cs))) ≡ times (c ∷ cs)
unfolding parse_daily_times
parse_daily_times-five c cs ok order =
    let raw = join (b',' ∷ []) (map five (c ∷ cs)) in
    rw
      (
        parse_daily_times,
        trim_space-ink raw (join-IsInk b',' (map five (c ∷ cs)) refl (five-All-IsInk (c ∷ cs))),
        joined_not_off c cs,
        split_on-join b',' (five c) (map five cs) (five-IsFree c) (five-All-IsFree cs),
      )
      (parse_parts-five (c ∷ cs) [] ok (IsIncreasing-IsNew (c ∷ cs) order)
        ∙ ap times (sort_clocks-increasing (c ∷ cs) order))

-- Times of day that exist, at least one, each once and earliest first, are read back from their texts
-- with commas between.
pub parse_daily_times-clock_text :
    (c : ClockTime) (cs : List ClockTime)
    → All IsClock (c ∷ cs)
    → IsIncreasing (c ∷ cs)
    → parse_daily_times (join (text ",") (map clock_text (c ∷ cs))) ≡ times (c ∷ cs)
parse_daily_times-clock_text c cs ok order =
    ap (λ ts. parse_daily_times (join (text ",") ts)) (clock_texts (c ∷ cs) ok)
    ∙ parse_daily_times-five c cs ok order
