-- ===== src/Access/Session/Checked.antt =====
-- A session is accepted only from a signature by a configured key, and until it ends.
use quotapulse.Base.{
  ◌≡◌, ◌≢◌, inl, inr, refl, sym, ap, subst, ◌∙◌, false, Option, none, some, List, [], ◌∷◌, All, Any,
  Bool-cases, Option-cases, arith,
}
use quotapulse.Base.Int.{ℤ, leb_ℤ, ◌<ℤ◌}
use quotapulse.Base.Text.{Text, eq_text, eq_text_iff, split_on}
use quotapulse.Base.Digits.{atoi}
use quotapulse.Base.Joined.{IsFree}
use quotapulse.Base.Decimal.{IsNumeral}
use quotapulse.Access.Session.{
  Crypto, Accepted, session_version, signed_text, find_signer, check_parts, session_signer,
}

pub numeral-IsFree : (s : Text) → IsNumeral s → IsFree b':' s
numeral-IsFree [] h = tt
numeral-IsFree (c ∷ cs) h = (ground (arith, h.0), numeral-IsFree cs h.1)

module _ (C : Crypto) where
  -- The key is one of the configured ones, and signed this.
  unfoldable pub IsSigner : Text → Text → ℤ → List Text → Option Accepted → Type 0
  IsSigner stamp signature expires ks none = All (λ k. signature ≢ C.mac k (signed_text stamp)) ks
  IsSigner stamp signature expires ks (some s) =
      (s.expires ≡ expires)
      × Any (λ k. k ≡ s.signer) ks
      × (signature ≡ C.mac s.signer (signed_text stamp))

  later-IsSigner :
      (stamp signature : Text) (expires : ℤ) (k : Text) (ks : List Text) (o : Option Accepted)
      → signature ≢ C.mac k (signed_text stamp)
      → IsSigner stamp signature expires ks o
      → IsSigner stamp signature expires (k ∷ ks) o
  unfolding IsSigner
  later-IsSigner stamp signature expires k ks none ne h = (ne, h)
  later-IsSigner stamp signature expires k ks (some s) ne h = (h.0, inr h.1, h.2)

  pub find_signer-IsSigner :
      (stamp signature : Text) (expires : ℤ) (ks : List Text)
      → IsSigner stamp signature expires ks (find_signer C stamp signature expires ks)
  unfolding find_signer
  find_signer-IsSigner stamp signature expires [] = unfold IsSigner in tt
  find_signer-IsSigner stamp signature expires (k ∷ ks) =
      elim (Bool-cases (eq_text signature (C.mac k (signed_text stamp)))) [
        | inl e ↦
            rw (find_signer, e)
              (unfold IsSigner in
                (refl, inl refl, (eq_text_iff signature (C.mac k (signed_text stamp))).0 e))
        | inr e ↦
            rw (find_signer, e)
              (later-IsSigner stamp signature expires k ks _
                (λ q. let i = (eq_text_iff signature (C.mac k (signed_text stamp))).1 q in cc)
                (find_signer-IsSigner stamp signature expires ks))
      ]

  -- What an accepted session shows of the cookie.
  unfoldable pub IsSession : List Text → List Text → ℤ → Option Accepted → Type 0
  IsSession parts ks now none = Unit
  IsSession parts ks now (some s) =
      (stamp : Text) × (sum : Text) × (parts ≡ session_version ∷ stamp ∷ sum ∷ [])
      × (atoi stamp ≡ some s.expires)
      × (now <ℤ s.expires)
      × Any (λ k. k ≡ s.signer) ks
      × (C.read_hex sum ≡ some (C.mac s.signer (signed_text stamp)))

  signer-IsSession :
      (stamp sum signature : Text) (expires : ℤ) (ks : List Text) (now : ℤ) (o : Option Accepted)
      → atoi stamp ≡ some expires
      → leb_ℤ expires now ≡ false
      → C.read_hex sum ≡ some signature
      → IsSigner stamp signature expires ks o
      → IsSession (session_version ∷ stamp ∷ sum ∷ []) ks now o
  unfolding IsSigner IsSession
  signer-IsSession stamp sum signature expires ks now none a b c h = tt
  signer-IsSession stamp sum signature expires ks now (some s) a b c h = (
    stamp,
    sum,
    refl,
    a ∙ ap some (sym h.0),
    subst (λ x. now <ℤ x) (sym h.0) (ground (arith, b)),
    h.1,
    c ∙ ap some h.2,
  )

  check_three :
      (version stamp sum : Text) (ks : List Text) (now : ℤ)
      → IsSession
          (version ∷ stamp ∷ sum ∷ [])
          ks
          now
          (check_parts C (version ∷ stamp ∷ sum ∷ []) ks now)
  unfolding check_parts
  check_three version stamp sum ks now = elim (Bool-cases (eq_text version session_version)) [
    | inr v ↦ rw (check_parts, v) (unfold IsSession in tt)
    | inl v ↦ elim (Option-cases (atoi stamp)) [
      | inl a ↦ rw (check_parts, v, a) (unfold IsSession in tt)
      | inr (expires, a) ↦ elim (Bool-cases (leb_ℤ expires now)) [
        | inl b ↦ rw (check_parts, v, a, b) (unfold IsSession in tt)
        | inr b ↦ elim (Option-cases (C.read_hex sum)) [
          | inl c ↦ rw (check_parts, v, a, b, c) (unfold IsSession in tt)
          | inr (signature, c) ↦
              rw (check_parts, v, a, b, c)
                (subst
                  (λ x.
                    IsSession (x ∷ stamp ∷ sum ∷ []) ks now
                      (find_signer C stamp signature expires ks))
                  (sym ((eq_text_iff version session_version).0 v))
                  (signer-IsSession stamp sum signature expires ks now _ a b c
                    (find_signer-IsSigner stamp signature expires ks)))
        ]
      ]
    ]
  ]

  check_parts-IsSession :
      (parts : List Text) (ks : List Text) (now : ℤ)
      → IsSession parts ks now (check_parts C parts ks now)
  check_parts-IsSession [] ks now = unfold check_parts IsSession in tt
  check_parts-IsSession (a ∷ []) ks now = unfold check_parts IsSession in tt
  check_parts-IsSession (a ∷ b ∷ []) ks now = unfold check_parts IsSession in tt
  check_parts-IsSession (a ∷ b ∷ c ∷ []) ks now = check_three a b c ks now
  check_parts-IsSession (a ∷ b ∷ c ∷ d ∷ ds) ks now = unfold check_parts IsSession in tt

  pub session_signer-IsSession :
      (token : Text) (ks : List Text) (now : ℤ)
      → IsSession (split_on b':' token) ks now (session_signer C token ks now)
  unfolding session_signer
  session_signer-IsSession token ks now = check_parts-IsSession (split_on b':' token) ks now
