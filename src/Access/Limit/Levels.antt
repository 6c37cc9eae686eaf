-- ===== src/Access/Limit/Levels.antt =====
-- How many requests spend a token of a name in a span of time: `take`, by the level of the bucket.
use quotapulse.Base.{
  ℕ, suc, ◌+◌, ◌*◌, ◌-◌, ◌≤◌, ◌≡◌, inl, inr, refl, sym, ap, subst, ◌∙◌, Bool, false, ◌&&◌, List, [],
  ◌∷◌, ◌==◌, if◌then◌else◌, Bool-cases, arith,
}
use quotapulse.Base.Int.{ℤ, pos, pos_part, ◌-ℤ◌, -ℤ_parts}
use quotapulse.Base.Text.{Text, eq_text, eq_text_iff}
use quotapulse.Access.Limit.{
  token, has_token, Bucket, Limiter, bucket_of, put_bucket, refill, spend, known_or_full, store,
  take,
}
use quotapulse.Access.Limit.Bound.{
  level, scale_add, refill_capped, refill-now, least_below, refill_known_drift,
  bucket_of-put_bucket, bucket_of-put_other,
}

abbrev pub limiter : ℕ → List (Text × Bucket) → Limiter
limiter pm bs = record { per_minute = pm; buckets = bs }

-- The request finds a token, which it spends.
abbrev pub finds_token : Limiter → Text → ℕ → Bool
finds_token l name now = has_token (level l name now)

-- How many requests of this name spend a token, one request after the other.
unfoldable pub spent : Text → Limiter → List (Text × ℕ) → ℕ
spent name l [] = 0
spent name l ((n, t) ∷ rs) =
    let more = spent name (take l n t).0 rs in
    if eq_text n name && finds_token l n t then suc more else more

-- The requests come in the order of their times, from `start` to `end`.
abbrev pub InOrder : ℕ → List (Text × ℕ) → ℕ → Type 0
InOrder start [] end = start ≤ end
InOrder start ((n, t) ∷ rs) end = (start ≤ t) × InOrder t rs end

-- What a request leaves in the buckets.
unfoldable pub left_by : ℕ → List (Text × Bucket) → Text → ℕ → List (Text × Bucket)
left_by pm bs name t = put_bucket name (spend pm (known_or_full pm t (bucket_of name bs)) t).0 bs

pub take-limiter :
    (pm : ℕ) (bs : List (Text × Bucket)) (name : Text) (t : ℕ)
    → 1 ≤ pm
    → (take (limiter pm bs) name t).0 ≡ limiter pm (left_by pm bs name t)
unfolding take store left_by
take-limiter pm bs name t h =
    let positive : (pm == 0) ≡ false = ground (arith, h) in rw positive refl

level-drift :
    (pm : ℕ) (bs : List (Text × Bucket)) (name : Text) (now t : ℕ)
    → now ≤ t
    → pos_part (level (limiter pm bs) name t)
      ≤ pos_part (level (limiter pm bs) name now) + (t - now) * pm
unfolding level
level-drift pm bs name now t h = refill_known_drift pm (bucket_of name bs) now t h

-- A request of another name does not touch the bucket.
level-other :
    (pm : ℕ) (bs : List (Text × Bucket)) (name other : Text) (t : ℕ)
    → eq_text other name ≡ false
    → level (limiter pm (left_by pm bs other t)) name t ≡ level (limiter pm bs) name t
unfolding level left_by
level-other pm bs name other t ne =
    ap (λ o. refill pm (known_or_full pm t o) t) (bucket_of-put_other name other _ bs ne)

left_bound :
    (pm : ℕ) (x : ℤ) (t d : ℕ) (y : ℤ)
    → pos_part x + d ≤ pos_part y
    → pos_part (refill pm record { tokens = x; at = t } t) + d ≤ pos_part y
left_bound pm x t d y h = rw (refill-now pm x t) (omega (arith, h, least_below (pm * token) x))

spend_left :
    (pm : ℕ) (b : Bucket) (t : ℕ)
    → pos_part (refill pm (spend pm b t).0 t) + (if has_token (refill pm b t) then token else 0)
      ≤ pos_part (refill pm b t)
unfolding spend
spend_left pm b t = elim (Bool-cases (has_token (refill pm b t))) [
  | inl e ↦
      rw (spend, e)
        (left_bound pm (refill pm b t -ℤ pos token) t token (refill pm b t)
          (ground (arith, e, -ℤ_parts (refill pm b t) (pos token))))
  | inr e ↦ rw (spend, e) (left_bound pm (refill pm b t) t 0 (refill pm b t) (omega arith))
]

own_level :
    (pm : ℕ) (bs : List (Text × Bucket)) (name : Text) (t : ℕ)
    → pos_part (level (limiter pm (left_by pm bs name t)) name t)
        + (if finds_token (limiter pm bs) name t then token else 0)
      ≤ pos_part (level (limiter pm bs) name t)
unfolding level left_by known_or_full
own_level pm bs name t =
    rw (bucket_of-put_bucket name (spend pm (known_or_full pm t (bucket_of name bs)) t).0 bs)
      (spend_left pm (known_or_full pm t (bucket_of name bs)) t)

pub level_capped :
    (pm : ℕ) (bs : List (Text × Bucket)) (name : Text) (t : ℕ)
    → pos_part (level (limiter pm bs) name t) ≤ pm * token
unfolding level
level_capped pm bs name t = refill_capped pm (known_or_full pm t (bucket_of name bs)) t

-- The token of a request of this name, if it spends one.
cost_of : Bool → Bool → ℕ
cost_of mine finds = if mine && finds then token else 0

level-after :
    (pm : ℕ) (bs : List (Text × Bucket)) (name other : Text) (t : ℕ)
    → pos_part (level (limiter pm (left_by pm bs other t)) name t)
        + cost_of (eq_text other name) (finds_token (limiter pm bs) other t)
      ≤ pos_part (level (limiter pm bs) name t)
unfolding cost_of
level-after pm bs name other t = elim (Bool-cases (eq_text other name)) [
  | inr e ↦ rw (e, level-other pm bs name other t e) (omega arith)
  | inl e ↦ rw e (
      subst
        (λ n.
          pos_part (level (limiter pm (left_by pm bs n t)) name t)
            + (if finds_token (limiter pm bs) n t then token else 0)
          ≤ pos_part (level (limiter pm bs) name t))
        (sym ((eq_text_iff other name).0 e)) (own_level pm bs name t))
]

spent-step :
    (name n : Text) (l : Limiter) (t : ℕ) (rs : List (Text × ℕ)) (after : Limiter)
    → (take l n t).0 ≡ after
    → spent name l ((n, t) ∷ rs) * token
      ≡ cost_of (eq_text n name) (finds_token l n t) + spent name after rs * token
unfolding spent cost_of
spent-step name n l t rs after h = elim (Bool-cases (eq_text n name && finds_token l n t)) [
  | inl e ↦ rw (e, sym h) (omega arith)
  | inr e ↦ rw (e, sym h) (omega arith)
]

span_scale : (now t end k : ℕ) → now ≤ t → t ≤ end → (end - now) * k ≡ (end - t) * k + (t - now) * k
span_scale now t end k h g = ap (λ x. x * k) (omega (arith, h, g)) ∙ scale_add (end - t) (t - now) k

InOrder-ends : (now : ℕ) (rs : List (Text × ℕ)) (end : ℕ) → InOrder now rs end → now ≤ end
InOrder-ends now [] end h = h
InOrder-ends now ((n, t) ∷ rs) end h = omega (arith, h.0, InOrder-ends t rs end h.1)

pub spent_by_level :
    (pm : ℕ) (bs : List (Text × Bucket)) (name : Text) (rs : List (Text × ℕ)) (start end : ℕ)
    → 1 ≤ pm
    → InOrder start rs end
    → spent name (limiter pm bs) rs * token
      ≤ pos_part (level (limiter pm bs) name start) + (end - start) * pm
spent_by_level pm bs name [] start end h o = unfold spent in omega arith
spent_by_level pm bs name ((n, t) ∷ rs) start end h o = omega (
  arith,
  spent-step name n (limiter pm bs) t rs (limiter pm (left_by pm bs n t))
      (take-limiter pm bs n t h),
  spent_by_level pm (left_by pm bs n t) name rs t end h o.1,
  level-after pm bs name n t,
  level-drift pm bs name start t o.0,
  span_scale start t end pm o.0 (InOrder-ends t rs end o.1),
)
