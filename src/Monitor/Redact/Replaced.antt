-- ===== src/Monitor/Redact/Replaced.antt =====
-- What a replacement by stars leaves of a text: internal/monitor/redact.go.
use quotapulse.Base.{
  ℕ, zero, suc, ◌-◌, ◌<◌, ◌≡◌, ◌≢◌, inl, inr, refl, sym, ◌∙◌, ap, subst, true, false, [], ◌∷◌,
  length, All, Bool-cases, arith,
}
use quotapulse.Base.Text.{Text, starts_with, contains}
use quotapulse.Monitor.Redact.{replace_from}

-- A text of ASCII with no star.
abbrev pub IsPlain : Text → Type 0
IsPlain s = All (λ c. (c ≢ b'*') × (c < 128)) s

replaced :
    (part : Text) (c : ℕ) (cs : Text)
    → starts_with part (c ∷ cs) ≡ true
    → replace_from part 0 (c ∷ cs) ≡ b'*' ∷ b'*' ∷ b'*' ∷ replace_from part (length part - 1) cs
unfolding replace_from
replaced part c cs e = rw e refl

kept :
    (part : Text) (c : ℕ) (cs : Text)
    → starts_with part (c ∷ cs) ≡ false
    → replace_from part 0 (c ∷ cs) ≡ c ∷ replace_from part 0 cs
unfolding replace_from
kept part c cs e = rw e refl

-- A text does not begin at a star that it does not begin with.
contains-star :
    (x : ℕ) (xs t : Text) → x ≢ b'*' → contains (x ∷ xs) (b'*' ∷ t) ≡ contains (x ∷ xs) t
unfolding contains starts_with
contains-star x xs t ne = ground arith

contains-stars :
    (x : ℕ) (xs t : Text)
    → x ≢ b'*'
    → contains (x ∷ xs) (b'*' ∷ b'*' ∷ b'*' ∷ t) ≡ contains (x ∷ xs) t
contains-stars x xs t ne =
    contains-star x xs (b'*' ∷ b'*' ∷ t) ne
    ∙ contains-star x xs (b'*' ∷ t) ne
    ∙ contains-star x xs t ne

skipped :
    (part : Text) (k c : ℕ) (cs : Text)
    → replace_from part (suc k) (c ∷ cs) ≡ replace_from part k cs
unfolding replace_from
skipped part k c cs = refl

pub contains-none :
    (s : Text) (c : ℕ) (cs : Text)
    → starts_with s (c ∷ cs) ≡ false
    → contains s cs ≡ false
    → contains s (c ∷ cs) ≡ false
unfolding contains
contains-none s c cs n h = ground arith

contains-tail : (s : Text) (c : ℕ) (cs : Text) → contains s cs ≡ true → contains s (c ∷ cs) ≡ true
unfolding contains
contains-tail s c cs h = ground arith

contains-rest :
    (s : Text) (c : ℕ) (cs : Text)
    → starts_with s (c ∷ cs) ≡ false
    → contains s (c ∷ cs) ≡ true
    → contains s cs ≡ true
unfolding contains
contains-rest s c cs n h = ground arith

starts_with-replace_from :
    (part s m : Text)
    → IsPlain s
    → starts_with s (replace_from part 0 m) ≡ true
    → starts_with s m ≡ true
unfolding starts_with
starts_with-replace_from part [] m plain h = refl
starts_with-replace_from part (x ∷ xs) [] plain h = unfold replace_from in h
starts_with-replace_from part (x ∷ xs) (c ∷ cs) plain h =
    elim (Bool-cases (starts_with part (c ∷ cs))) [
      | inl e ↦
          ground
            (arith, plain.0, subst (λ r. starts_with (x ∷ xs) r ≡ true) (replaced part c cs e) h)
      | inr e ↦ ground (
        arith,
        subst (λ r. starts_with (x ∷ xs) r ≡ true) (kept part c cs e) h,
        starts_with-replace_from part xs cs plain.1,
      )
    ]

-- An occurrence of a plain text after a replacement was there before.
pub contains-replace_from :
    (part : Text) (x : ℕ) (xs : Text) (k : ℕ) (m : Text)
    → IsPlain (x ∷ xs)
    → contains (x ∷ xs) (replace_from part k m) ≡ true
    → contains (x ∷ xs) m ≡ true
contains-replace_from part x xs zero [] plain h = unfold replace_from in h
contains-replace_from part x xs (suc k) [] plain h = unfold replace_from in h
contains-replace_from part x xs (suc k) (c ∷ cs) plain h =
    contains-tail (x ∷ xs) c cs
      (contains-replace_from part x xs k cs plain (unfold replace_from in h))
contains-replace_from part x xs zero (c ∷ cs) plain h =
    elim (Bool-cases (starts_with part (c ∷ cs))) [
      | inl e ↦
          contains-tail (x ∷ xs) c cs
            (contains-replace_from part x xs (length part - 1) cs plain (after e))
      | inr e ↦ elim (Bool-cases (starts_with (x ∷ xs) (c ∷ replace_from part 0 cs))) [
        | inl begins ↦
            unfold contains in
            ground (
              arith,
              starts_with-replace_from part (x ∷ xs) (c ∷ cs) plain
                  (ap (starts_with (x ∷ xs)) (kept part c cs e) ∙ begins),
            )
        | inr not_here ↦
            contains-tail (x ∷ xs) c cs
              (contains-replace_from part x xs zero cs plain (later e not_here))
      ]
    ]
  where
    after :
        starts_with part (c ∷ cs) ≡ true
        → contains (x ∷ xs) (replace_from part (length part - 1) cs) ≡ true
    after e =
        sym (contains-stars x xs _ plain.0.0)
        ∙ sym (ap (contains (x ∷ xs)) (replaced part c cs e))
        ∙ h

    later :
        starts_with part (c ∷ cs) ≡ false
        → starts_with (x ∷ xs) (c ∷ replace_from part 0 cs) ≡ false
        → contains (x ∷ xs) (replace_from part 0 cs) ≡ true
    later e n = contains-rest (x ∷ xs) c _ n (sym (ap (contains (x ∷ xs)) (kept part c cs e)) ∙ h)

-- A replacement leaves no occurrence of its part.
pub replace_from-contains :
    (x : ℕ) (xs : Text) (k : ℕ) (m : Text)
    → IsPlain (x ∷ xs)
    → contains (x ∷ xs) (replace_from (x ∷ xs) k m) ≡ false
replace_from-contains x xs zero [] plain =
    unfold replace_from in unfold contains in unfold starts_with in refl
replace_from-contains x xs (suc k) [] plain =
    unfold replace_from in unfold contains in unfold starts_with in refl
replace_from-contains x xs (suc k) (c ∷ cs) plain =
    let ih = replace_from-contains x xs k cs plain in unfold_skip ih
  where
    unfold_skip :
        contains (x ∷ xs) (replace_from (x ∷ xs) k cs) ≡ false
        → contains (x ∷ xs) (replace_from (x ∷ xs) (suc k) (c ∷ cs)) ≡ false
    unfold_skip ih = ap (contains (x ∷ xs)) (skipped (x ∷ xs) k c cs) ∙ ih
replace_from-contains x xs zero (c ∷ cs) plain = elim (Bool-cases (starts_with (x ∷ xs) (c ∷ cs))) [
  | inl e ↦
      ap (contains (x ∷ xs)) (replaced (x ∷ xs) c cs e)
      ∙ contains-stars x xs _ plain.0.0
      ∙ replace_from-contains x xs (length (x ∷ xs) - 1) cs plain
  | inr e ↦
      ap (contains (x ∷ xs)) (kept (x ∷ xs) c cs e)
      ∙ contains-none (x ∷ xs) c _ (not_here e) (replace_from-contains x xs zero cs plain)
]
  where
    not_here :
        starts_with (x ∷ xs) (c ∷ cs) ≡ false
        → starts_with (x ∷ xs) (c ∷ replace_from (x ∷ xs) 0 cs) ≡ false
    not_here e = elim (Bool-cases (starts_with (x ∷ xs) (c ∷ replace_from (x ∷ xs) 0 cs))) [
      | inl h ↦ absurd (
          cc (
            starts_with-replace_from (x ∷ xs) (x ∷ xs) (c ∷ cs) plain
              (ap (starts_with (x ∷ xs)) (kept (x ∷ xs) c cs e) ∙ h)))
      | inr h ↦ h
    ]
