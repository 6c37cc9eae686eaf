-- ===== src/Monitor/Redact/Leaks.antt =====
-- No key of the project is left in a redacted message.
use quotapulse.Base.{
  ℕ, zero, suc, ◌≤◌, ◌≡◌, inl, inr, refl, ◌∙◌, ap, true, false, List, [], ◌∷◌, ◌++◌, ltb, leb,
  length, All, Any, if◌then◌else◌, Bool-cases, le→leb, arith,
}
use quotapulse.Base.Text.{Text, starts_with, contains, trim_space}
use quotapulse.Monitor.Redact.{
  replace_from, replace_all, redact_part, redact_parts, fields_from, redact_keys, apply_patterns,
  take_runes, count_runes, cap_length, redact_secrets, ellipsis, is_first, max_error_length,
}
use quotapulse.Monitor.Redact.Replaced.{
  IsPlain, contains-none, contains-replace_from, replace_from-contains,
}

module _ (x : ℕ) (xs : Text) (plain : IsPlain (x ∷ xs)) where
  abbrev key : Text
  key = x ∷ xs

  -- The key stands nowhere in a message.
  abbrev IsAbsent : Text → Type 0
  IsAbsent m = contains key m ≡ false

  replace_all-IsAbsent : (part m : Text) → IsAbsent m → IsAbsent (replace_all part m)
  unfolding replace_all
  replace_all-IsAbsent part m h = elim (Bool-cases (contains key (replace_from part 0 m))) [
    | inl e ↦ absurd (cc (contains-replace_from part x xs 0 m plain e))
    | inr e ↦ e
  ]

  redact_part-IsAbsent : (part m : Text) → IsAbsent m → IsAbsent (redact_part part m)
  unfolding redact_part
  redact_part-IsAbsent part m h = elim (Bool-cases (leb 6 (length (trim_space part)))) [
    | inl e ↦ rw e (replace_all-IsAbsent (trim_space part) m h)
    | inr e ↦ rw e h
  ]

  redact_part_clears :
      (part m : Text) → trim_space part ≡ key → 6 ≤ length key → IsAbsent (redact_part part m)
  unfolding redact_part replace_all
  redact_part_clears part m e long =
      rw (e, le→leb 6 (length key) long) (replace_from-contains x xs 0 m plain)

  redact_parts-IsAbsent :
      (parts : List Text) (m : Text) → IsAbsent m → IsAbsent (redact_parts parts m)
  unfolding redact_parts
  redact_parts-IsAbsent [] m h = h
  redact_parts-IsAbsent (p ∷ ps) m h = redact_parts-IsAbsent ps _ (redact_part-IsAbsent p m h)

  redact_parts_clears :
      (parts : List Text) (m : Text)
      → 6 ≤ length key
      → Any (λ p. trim_space p ≡ key) parts
      → IsAbsent (redact_parts parts m)
  unfolding redact_parts
  redact_parts_clears [] m long h = elim h [ ]
  redact_parts_clears (p ∷ ps) m long (inl e) =
      redact_parts-IsAbsent ps _ (redact_part_clears p m e long)
  redact_parts_clears (p ∷ ps) m long (inr h) = redact_parts_clears ps _ long h

  -- The key is a secret, or a part of one.
  abbrev pub IsPartOf : Text → Type 0
  IsPartOf secret = Any (λ p. trim_space p ≡ key) (secret ∷ fields_from [] secret)

  redact_keys-IsAbsent :
      (secrets : List Text) (m : Text) → IsAbsent m → IsAbsent (redact_keys secrets m)
  unfolding redact_keys
  redact_keys-IsAbsent [] m h = h
  redact_keys-IsAbsent (s ∷ ss) m h =
      redact_keys-IsAbsent ss _ (redact_parts-IsAbsent (s ∷ fields_from [] s) m h)

  redact_keys_clears :
      (secrets : List Text) (m : Text)
      → 6 ≤ length key
      → Any IsPartOf secrets
      → IsAbsent (redact_keys secrets m)
  unfolding redact_keys
  redact_keys_clears [] m long h = elim h [ ]
  redact_keys_clears (s ∷ ss) m long (inl h) =
      redact_keys-IsAbsent ss _ (redact_parts_clears (s ∷ fields_from [] s) m long h)
  redact_keys_clears (s ∷ ss) m long (inr h) = redact_keys_clears ss _ long h

  apply_patterns-IsAbsent :
      (patterns : List (Text → Text)) (m : Text)
      → All (λ f. (t : Text) → IsAbsent t → IsAbsent (f t)) patterns
      → IsAbsent m
      → IsAbsent (apply_patterns patterns m)
  unfolding apply_patterns
  apply_patterns-IsAbsent [] m keep h = h
  apply_patterns-IsAbsent (f ∷ fs) m keep h = apply_patterns-IsAbsent fs _ keep.1 (keep.0 m h)

starts_with-take :
    (s : Text) (n : ℕ) (m : Text)
    → IsPlain s
    → starts_with s (take_runes n m ++ ellipsis) ≡ true
    → starts_with s m ≡ true
unfolding starts_with take_runes
starts_with-take [] n m plain h = refl
starts_with-take (x ∷ xs) zero [] plain h = absurd (ground (arith, plain.0))
starts_with-take (x ∷ xs) (suc n) [] plain h = absurd (ground (arith, plain.0))
starts_with-take (x ∷ xs) zero (c ∷ cs) plain h = elim (Bool-cases (is_first c)) [
  | inl e ↦ absurd (ground (arith, plain.0, h, e))
  | inr e ↦ ground (arith, h, e, starts_with-take xs zero cs plain.1)
]
starts_with-take (x ∷ xs) (suc n) (c ∷ cs) plain h =
    ground (arith, h, starts_with-take xs (if is_first c then n else suc n) cs plain.1)

-- A rune that is cut off, and one that is taken.
take_runes-cut : (c : ℕ) (cs : Text) → is_first c ≡ true → take_runes 0 (c ∷ cs) ≡ []
unfolding take_runes
take_runes-cut c cs e = rw e refl

take_runes-next :
    (n c : ℕ) (cs : Text)
    → take_runes (suc n) (c ∷ cs) ≡ c ∷ take_runes (if is_first c then n else suc n) cs
unfolding take_runes
take_runes-next n c cs = refl

take_runes-kept :
    (c : ℕ) (cs : Text) → is_first c ≡ false → take_runes 0 (c ∷ cs) ≡ c ∷ take_runes 0 cs
unfolding take_runes
take_runes-kept c cs e = rw e refl

module _ (x : ℕ) (xs : Text) (plain : IsPlain (x ∷ xs)) where
  contains-ellipsis : contains (x ∷ xs) ellipsis ≡ false
  unfolding contains starts_with
  contains-ellipsis = ground (arith, plain.0)

  contains-rest_none :
      (s : Text) (c : ℕ) (cs : Text) → contains s (c ∷ cs) ≡ false → contains s cs ≡ false
  unfolding contains
  contains-rest_none s c cs h = ground arith

  contains-starts :
      (s : Text) (c : ℕ) (cs : Text) → contains s (c ∷ cs) ≡ false → starts_with s (c ∷ cs) ≡ false
  unfolding contains
  contains-starts s c cs h = ground arith

  taken :
      (n k c : ℕ) (cs : Text)
      → take_runes n (c ∷ cs) ≡ c ∷ take_runes k cs
      → contains (x ∷ xs) (c ∷ cs) ≡ false
      → contains (x ∷ xs) (take_runes k cs ++ ellipsis) ≡ false
      → contains (x ∷ xs) (c ∷ (take_runes k cs ++ ellipsis)) ≡ false
  taken n k c cs e h rest =
      elim (Bool-cases (starts_with (x ∷ xs) (c ∷ (take_runes k cs ++ ellipsis)))) [
        | inr no_match ↦ contains-none (x ∷ xs) c _ no_match rest
        | inl match ↦ absurd (
            cc (
              contains-starts (x ∷ xs) c cs h,
              starts_with-take (x ∷ xs) n (c ∷ cs) plain
                  (ap (λ t. starts_with (x ∷ xs) (t ++ ellipsis)) e ∙ match),
            ))
      ]

  -- Cutting a message brings no occurrence in.
  contains-take :
      (n : ℕ) (m : Text)
      → contains (x ∷ xs) m ≡ false
      → contains (x ∷ xs) (take_runes n m ++ ellipsis) ≡ false
  contains-take n [] h = unfold take_runes in contains-ellipsis
  contains-take zero (c ∷ cs) h = elim (Bool-cases (is_first c)) [
    | inl e ↦
        ap (λ t. contains (x ∷ xs) (t ++ ellipsis)) (take_runes-cut c cs e) ∙ contains-ellipsis
    | inr e ↦
        ap (λ t. contains (x ∷ xs) (t ++ ellipsis)) (take_runes-kept c cs e)
        ∙ taken zero zero c cs (take_runes-kept c cs e) h
            (contains-take zero cs (contains-rest_none (x ∷ xs) c cs h))
  ]
  contains-take (suc n) (c ∷ cs) h =
      ap (λ t. contains (x ∷ xs) (t ++ ellipsis)) (take_runes-next n c cs)
      ∙ taken (suc n) (if is_first c then n else suc n) c cs (take_runes-next n c cs) h
          (contains-take (if is_first c then n else suc n) cs (contains-rest_none (x ∷ xs) c cs h))

  cap_length-IsAbsent :
      (m : Text) → contains (x ∷ xs) m ≡ false → contains (x ∷ xs) (cap_length m) ≡ false
  unfolding cap_length
  cap_length-IsAbsent m h = elim (Bool-cases (ltb max_error_length (count_runes m))) [
    | inl e ↦ rw e (contains-take max_error_length m h)
    | inr e ↦ rw e h
  ]

  -- A message that is redacted with secrets does not contain any key of at least 6 bytes that is one
  -- of them or a part of one between colons and bars, wherever it stood and however often, also not
  -- across the place where a long message is cut: for keys of ASCII without a star, and patterns that
  -- bring no key in.
  pub redact_secrets_clears :
      (patterns : List (Text → Text)) (m : Text) (secrets : List Text)
      → 6 ≤ length (x ∷ xs)
      → Any (IsPartOf x xs plain) secrets
      → All
          (λ f. (t : Text) → contains (x ∷ xs) t ≡ false → contains (x ∷ xs) (f t) ≡ false)
          patterns
      → contains (x ∷ xs) (redact_secrets patterns m secrets) ≡ false
  unfolding redact_secrets
  redact_secrets_clears patterns m secrets long names keep = cap_length-IsAbsent _ (
      apply_patterns-IsAbsent x xs plain patterns _ keep
        (redact_keys_clears x xs plain secrets m long names))
