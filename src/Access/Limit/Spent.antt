-- ===== src/Access/Limit/Spent.antt =====
-- How many requests a limit lets through in a span of time.
use native.Mathlib.Nat.{div-lt_iff_lt-mul}
use quotapulse.Base.{
  ℕ, suc, ◌+◌, ◌*◌, ◌-◌, ◌≤◌, ◌<◌, ◌/◌, ◌≡◌, ◌⊎◌, true, inl, inr, refl, Bool, false, ◌&&◌, List, [],
  ◌∷◌, ◌==◌, if◌then◌else◌, Bool-cases, arith,
}
use quotapulse.Base.Int.{ℤ, pos, pos_part, ltb_ℤ, ◌+ℤ◌, ◌-ℤ◌, -ℤ_parts, +ℤ_parts}
use quotapulse.Base.Text.{Text, eq_text}
use quotapulse.Access.Limit.{
  token, has_token, Bucket, Limiter, bucket_of, refill, spend, known_or_full, store, take,
}
use quotapulse.Access.Limit.Bound.{level}
use quotapulse.Access.Limit.Levels.{
  limiter, finds_token, spent, InOrder, left_by, take-limiter, level_capped, spent_by_level,
}

-- The bucket lacks less of a token than a nanosecond adds, so that the time to wait rounds to none.
unfoldable pub is_short : ℕ → ℤ → Bool
is_short pm t = ltb_ℤ t (pos token) && ltb_ℤ (pos token) (t +ℤ pos pm)

-- How many requests of this name are answered with no time to wait.
unfoldable pub let_through : Text → Limiter → List (Text × ℕ) → ℕ
let_through name l [] = 0
let_through name l ((n, t) ∷ rs) =
    let more = let_through name (take l n t).0 rs in
    if eq_text n name && ((take l n t).1 == 0) then suc more else more

-- How many requests of this name find a bucket that is short.
unfoldable pub rounded : Text → Limiter → List (Text × ℕ) → ℕ
rounded name l [] = 0
rounded name l ((n, t) ∷ rs) =
    let more = rounded name (take l n t).0 rs in
    if eq_text n name && is_short l.per_minute (level l n t) then suc more else more

quotient_zero : (x k : ℕ) → 1 ≤ k → (x / k == 0) ≡ true → x < k
quotient_zero x k h e =
    let none_whole : x / k ≡ 0 = ground (arith, e) in
    let below : x < 1 * k = (div-lt_iff_lt-mul h).0 (omega (arith, none_whole)) in
    omega (arith, below)

-- No time to wait: a token was there, or the bucket was short.
spend-wait :
    (pm : ℕ) (b : Bucket) (t : ℕ)
    → 1 ≤ pm
    → ((spend pm b t).1 == 0) ≡ true
    → (has_token (refill pm b t) ≡ true) ⊎ (is_short pm (refill pm b t) ≡ true)
unfolding spend is_short
spend-wait pm b t h w = elim (Bool-cases (has_token (refill pm b t))) [
  | inl e ↦ inl e
  | inr e ↦
      let waits : (pos_part (pos token -ℤ refill pm b t) / pm == 0) ≡ true = rewritten e w in
      let less = quotient_zero (pos_part (pos token -ℤ refill pm b t)) pm h waits in
      inr (
        ground
          (arith, e, less, -ℤ_parts (pos token) (refill pm b t), +ℤ_parts (refill pm b t) (pos pm)))
]
  where
    rewritten :
        has_token (refill pm b t) ≡ false
        → ((spend pm b t).1 == 0) ≡ true
        → (pos_part (pos token -ℤ refill pm b t) / pm == 0) ≡ true
    rewritten e w = ground (arith, e, w)

take-wait :
    (pm : ℕ) (bs : List (Text × Bucket)) (name : Text) (t : ℕ)
    → 1 ≤ pm
    → ((take (limiter pm bs) name t).1 == 0) ≡ true
    → (finds_token (limiter pm bs) name t ≡ true)
      ⊎ (is_short pm (level (limiter pm bs) name t) ≡ true)
unfolding take store level
take-wait pm bs name t h w =
    let positive : (pm == 0) ≡ false = ground (arith, h) in
    spend-wait pm (known_or_full pm t (bucket_of name bs)) t h (ground (arith, positive, w))

let_through_step :
    (mine through finds short : Bool) (more spend round : ℕ)
    → (through ≡ true → (finds ≡ true) ⊎ (short ≡ true))
    → more ≤ spend + round
    → (if mine && through then suc more else more)
      ≤ (if mine && finds then suc spend else spend) + (if mine && short then suc round else round)
let_through_step false through finds short more spend round f h = h
let_through_step true false finds short more spend round f h = ground (arith, h)
let_through_step true true finds short more spend round f h = elim (f refl) [
  | inl e ↦ ground (arith, e, h)
  | inr e ↦ ground (arith, e, h)
]

let_through_le :
    (pm : ℕ) (bs : List (Text × Bucket)) (name : Text) (rs : List (Text × ℕ))
    → 1 ≤ pm
    → let_through name (limiter pm bs) rs
      ≤ spent name (limiter pm bs) rs + rounded name (limiter pm bs) rs
unfolding let_through spent rounded
let_through_le pm bs name [] h = omega arith
let_through_le pm bs name ((n, t) ∷ rs) h = rw (take-limiter pm bs n t h) (
    let_through_step (eq_text n name) ((take (limiter pm bs) n t).1 == 0)
      (finds_token (limiter pm bs) n t) (is_short pm (level (limiter pm bs) n t)) _ _ _
      (take-wait pm bs n t h) (let_through_le pm (left_by pm bs n t) name rs h))

scale_le : (x y k : ℕ) → x ≤ y → x * k ≤ y * k
scale_le x y k h = grind arith

-- With a limit of at least one a minute, whatever the buckets hold: of requests from `start` to `end` in
-- the order of their times, of this name and of others, those of this name that are answered with no time
-- to wait are at most what a minute's tokens and those that pass between the two instants pay for, and
-- the requests that find the bucket short of a token by less than a nanosecond adds.
pub take_is_bounded :
    (pm : ℕ) (bs : List (Text × Bucket)) (name : Text) (rs : List (Text × ℕ)) (start end : ℕ)
    → 1 ≤ pm
    → InOrder start rs end
    → let l : Limiter = record { per_minute = pm; buckets = bs } in
      let_through name l rs * token ≤ pm * token + (end - start) * pm + rounded name l rs * token
take_is_bounded pm bs name rs start end h o =
    let l = limiter pm bs in
    omega (
      arith,
      let_through_le pm bs name rs h,
      spent_by_level pm bs name rs start end h o,
      level_capped pm bs name start,
    )
