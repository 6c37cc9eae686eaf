-- ===== src/Access/Limit.antt =====
-- The rate limit of agents: internal/httpapi/ratelimit.go. Tokens are counted in the sixtieth part of a
-- thousand-millionth, so that a nanosecond adds a whole number of them; the code has a float64, which is
-- taken to be exact here. A limit of zero stands for every limit that is not positive.
pub mod Bound
pub mod Levels
pub mod Spent
use quotapulse.Base.{
  ℕ, ◌+◌, ◌*◌, ◌-◌, ◌/◌, Bool, true, false, Option, none, some, List, [], ◌∷◌, ◌==◌, if◌then◌else◌,
}
use quotapulse.Base.Int.{ℤ, pos, pos_part, sub_ℕ, ltb_ℤ, leb_ℤ, ◌+ℤ◌, ◌-ℤ◌, ◌*ℤ◌}
use quotapulse.Base.Text.{Text, eq_text}

-- One token: what a request spends, and what a limit of one a minute adds in a minute of nanoseconds.
abbrev pub token : ℕ
token = 60000000000

pub record Bucket : Type 0 where
  pub tokens : ℤ
  pub at : ℕ

pub record Limiter : Type 0 where
  pub per_minute : ℕ
  pub buckets : List (Text × Bucket)

-- `newRateLimiter`
unfoldable pub new_limiter : ℕ → Limiter
new_limiter per_minute = record { per_minute = per_minute; buckets = [] }

unfoldable pub bucket_of : Text → List (Text × Bucket) → Option Bucket
bucket_of name [] = none
bucket_of name ((n, b) ∷ bs) =
    let rest = bucket_of name bs in if eq_text n name then some b else rest

unfoldable pub put_bucket : Text → Bucket → List (Text × Bucket) → List (Text × Bucket)
put_bucket name b [] = (name, b) ∷ []
put_bucket name b ((n, c) ∷ bs) =
    let rest = put_bucket name b bs in if eq_text n name then (n, b) ∷ bs else (n, c) ∷ rest

unfoldable pub least : ℤ → ℤ → ℤ
least a b = if ltb_ℤ a b then a else b

-- The tokens of a bucket at `now`, at most a minute's.
unfoldable pub refill : ℕ → Bucket → ℕ → ℤ
refill per_minute b now =
    least (pos (per_minute * token)) (b.tokens +ℤ (sub_ℕ now b.at *ℤ pos per_minute))

-- `b.tokens >= 1`
abbrev pub has_token : ℤ → Bool
has_token t = leb_ℤ (pos token) t

-- A request at `now` of a bucket: what is left in it, and the nanoseconds to wait.
unfoldable pub spend : ℕ → Bucket → ℕ → Bucket × ℕ
spend per_minute b now =
    let t = refill per_minute b now in
    if has_token t
    then (record { tokens = t -ℤ pos token; at = now }, 0)
    else (record { tokens = t; at = now }, pos_part (pos token -ℤ t) / per_minute)

-- The bucket of a name, which is full at first.
unfoldable pub known_or_full : ℕ → ℕ → Option Bucket → Bucket
known_or_full per_minute now none = record { tokens = pos (per_minute * token); at = now }
known_or_full per_minute now (some b) = b

unfoldable pub store : Text → Limiter → Bucket × ℕ → Limiter × ℕ
store name l (left, wait) =
    (record { per_minute = l.per_minute; buckets = put_bucket name left l.buckets }, wait)

-- `take`
unfoldable pub take : Limiter → Text → ℕ → Limiter × ℕ
take l name now =
    let b = known_or_full l.per_minute now (bucket_of name l.buckets) in
    if l.per_minute == 0 then (l, 0) else store name l (spend l.per_minute b now)
