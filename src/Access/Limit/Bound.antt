-- ===== src/Access/Limit/Bound.antt =====
-- The tokens of a bucket: a minute's at most, and what passes between two instants.
use quotapulse.Base.{
  ℕ, ◌+◌, ◌*◌, ◌-◌, ◌≤◌, ◌≡◌, inl, inr, refl, sym, ap, subst, ◌∙◌, false, Option, none, some, List,
  [], ◌∷◌, Bool-cases, arith,
}
use quotapulse.Base.Int.{
  ℤ, pos, pos_part, neg_part, sub_ℕ, ltb_ℤ, ◌+ℤ◌, ◌*ℤ◌, ◌≤ℤ◌, eq_of_parts, +ℤ_parts, *ℤ-pos_parts,
}
use quotapulse.Base.Text.{Text, eq_text, eq_text_iff, eq_text_refl}
use quotapulse.Access.Limit.{
  token, Bucket, Limiter, bucket_of, put_bucket, least, refill, known_or_full,
}

-- The tokens that a request of this name would find.
unfoldable pub level : Limiter → Text → ℕ → ℤ
level l name now =
    refill l.per_minute (known_or_full l.per_minute now (bucket_of name l.buckets)) now

pub scale_add : (p q k : ℕ) → (p + q) * k ≡ p * k + q * k
scale_add p q k = grind arith

sub_parts :
    (at now t : ℕ)
    → now ≤ t
    → pos_part (sub_ℕ t at) + neg_part (sub_ℕ now at)
      ≡ pos_part (sub_ℕ now at) + neg_part (sub_ℕ t at) + (t - now)
sub_parts at now t h = ground (arith, h)

nat_scale : (p q r s d k : ℕ) → p + q ≡ r + s + d → p * k + q * k ≡ r * k + s * k + d * k
nat_scale p q r s d k h =
    sym (scale_add p q k)
    ∙ ap (λ x. x * k) h
    ∙ scale_add (r + s) d k
    ∙ ap (λ x. x + d * k) (scale_add r s k)

-- What passes between two instants adds at most its share.
elapsed_scale :
    (at now t k : ℕ)
    → now ≤ t
    → sub_ℕ t at *ℤ pos k ≤ℤ (sub_ℕ now at *ℤ pos k) +ℤ pos ((t - now) * k)
elapsed_scale at now t k h = omega (
  arith,
  *ℤ-pos_parts (sub_ℕ t at) k,
  *ℤ-pos_parts (sub_ℕ now at) k,
  +ℤ_parts (sub_ℕ now at *ℤ pos k) (pos ((t - now) * k)),
  nat_scale (pos_part (sub_ℕ t at)) (neg_part (sub_ℕ now at)) (pos_part (sub_ℕ now at))
      (neg_part (sub_ℕ t at)) (t - now) k (sub_parts at now t h),
)

least_drift :
    (cap : ℕ) (tokens x y : ℤ) (d : ℕ)
    → x ≤ℤ y +ℤ pos d
    → pos_part (least (pos cap) (tokens +ℤ x)) ≤ pos_part (least (pos cap) (tokens +ℤ y)) + d
unfolding least
least_drift cap tokens x y d h =
    let sx = +ℤ_parts tokens x in
    let sy = +ℤ_parts tokens y in
    let sd = +ℤ_parts y (pos d) in
    elim (Bool-cases (ltb_ℤ (pos cap) (tokens +ℤ x))) [
      | inl a ↦ elim (Bool-cases (ltb_ℤ (pos cap) (tokens +ℤ y))) [
        | inl b ↦ rw (a, b) (omega arith)
        | inr b ↦ rw (a, b) (ground (arith, a, b, h, sx, sy, sd))
      ]
      | inr a ↦ elim (Bool-cases (ltb_ℤ (pos cap) (tokens +ℤ y))) [
        | inl b ↦ rw (a, b) (ground (arith, a, b, h, sx, sy, sd))
        | inr b ↦ rw (a, b) (ground (arith, a, b, h, sx, sy, sd))
      ]
    ]

refill_drift :
    (pm : ℕ) (b : Bucket) (now t : ℕ)
    → now ≤ t
    → pos_part (refill pm b t) ≤ pos_part (refill pm b now) + (t - now) * pm
unfolding refill
refill_drift pm b now t h =
    least_drift (pm * token) b.tokens (sub_ℕ t b.at *ℤ pos pm) (sub_ℕ now b.at *ℤ pos pm)
      ((t - now) * pm) (elapsed_scale b.at now t pm h)

least_capped : (cap : ℕ) (x : ℤ) → pos_part (least (pos cap) x) ≤ cap
unfolding least
least_capped cap x = ground arith

pub refill_capped : (pm : ℕ) (b : Bucket) (now : ℕ) → pos_part (refill pm b now) ≤ pm * token
unfolding refill
refill_capped pm b now = least_capped (pm * token) (b.tokens +ℤ (sub_ℕ now b.at *ℤ pos pm))

-- Nothing is added at the instant of the bucket itself.
no_time : (t k : ℕ) → (pos_part (sub_ℕ t t *ℤ pos k) ≡ 0) × (neg_part (sub_ℕ t t *ℤ pos k) ≡ 0)
unfolding ◌*ℤ◌
no_time t k = ground arith

add_no_time : (x : ℤ) (t k : ℕ) → x +ℤ (sub_ℕ t t *ℤ pos k) ≡ x
add_no_time x t k =
    eq_of_parts (x +ℤ (sub_ℕ t t *ℤ pos k)) x
      (omega (arith, +ℤ_parts x (sub_ℕ t t *ℤ pos k), (no_time t k).0, (no_time t k).1))

pub refill-now :
    (pm : ℕ) (x : ℤ) (t : ℕ)
    → refill pm record { tokens = x; at = t } t ≡ least (pos (pm * token)) x
unfolding refill
refill-now pm x t = ap (least (pos (pm * token))) (add_no_time x t pm)

pub least_below : (cap : ℕ) (x : ℤ) → pos_part (least (pos cap) x) ≤ pos_part x
unfolding least
least_below cap x = ground arith

least_same : (cap : ℕ) → least (pos cap) (pos cap) ≡ pos cap
unfolding least
least_same cap = ground arith

pub refill_full :
    (pm t : ℕ) → refill pm record { tokens = pos (pm * token); at = t } t ≡ pos (pm * token)
refill_full pm t = refill-now pm (pos (pm * token)) t ∙ least_same (pm * token)

pub refill_known_drift :
    (pm : ℕ) (o : Option Bucket) (now t : ℕ)
    → now ≤ t
    → pos_part (refill pm (known_or_full pm t o) t)
      ≤ pos_part (refill pm (known_or_full pm now o) now) + (t - now) * pm
unfolding known_or_full
refill_known_drift pm none now t h = rw (refill_full pm t, refill_full pm now) (omega arith)
refill_known_drift pm (some b) now t h = refill_drift pm b now t h

pub bucket_of-put_bucket :
    (name : Text) (b : Bucket) (bs : List (Text × Bucket))
    → bucket_of name (put_bucket name b bs) ≡ some b
unfolding bucket_of put_bucket
bucket_of-put_bucket name b [] = rw (eq_text_refl name) refl
bucket_of-put_bucket name b ((n, c) ∷ bs) = elim (Bool-cases (eq_text n name)) [
  | inl e ↦ rw (put_bucket, e, bucket_of, e) refl
  | inr e ↦ rw (put_bucket, e, bucket_of, e) (bucket_of-put_bucket name b bs)
]

pub bucket_of-put_other :
    (name other : Text) (b : Bucket) (bs : List (Text × Bucket))
    → eq_text other name ≡ false
    → bucket_of name (put_bucket other b bs) ≡ bucket_of name bs
unfolding bucket_of put_bucket
bucket_of-put_other name other b [] ne = rw ne refl
bucket_of-put_other name other b ((n, c) ∷ bs) ne = elim (Bool-cases (eq_text n other)) [
  | inl e ↦
      let f : eq_text n name ≡ false =
        subst (λ x. eq_text x name ≡ false) (sym ((eq_text_iff n other).0 e)) ne in
      rw (put_bucket, e, bucket_of, f) refl
  | inr e ↦ rw (put_bucket, e, bucket_of, bucket_of-put_other name other b bs ne) refl
]
