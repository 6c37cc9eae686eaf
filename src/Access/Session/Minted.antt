-- ===== src/Access/Session/Minted.antt =====
-- A session that was minted with a configured key is accepted until it ends, and never after.
use quotapulse.Base.{
  ℕ, ◌^◌, ◌≤◌, ◌<◌, ◌≡◌, inl, inr, refl, sym, ap, ◌∙◌, true, false, Option, none, some, List, [],
  ◌∷◌, Any, if◌then◌else◌, arith,
}
use quotapulse.Base.Int.{ℤ, pos, leb_ℤ}
use quotapulse.Base.Text.{Text, eq_text, split_on}
use quotapulse.Base.Digits.{decimal}
use quotapulse.Base.Joined.{split_on-join}
use quotapulse.Base.Decimal.{decimal-IsNumeral, atoi-decimal}
use quotapulse.Access.Session.{
  Crypto, CryptoLaws, Accepted, session_version, signed_text, session_token, find_signer,
  check_parts, session_signer,
}
use quotapulse.Access.Session.Checked.{numeral-IsFree, IsSigner, find_signer-IsSigner}

module _ (C : Crypto) (L : CryptoLaws C) where
  token_parts :
      (key : Text) (e : ℕ)
      → split_on b':' (session_token C key e)
        ≡ session_version ∷ decimal e ∷ C.write_hex (C.mac key (signed_text (decimal e))) ∷ []
  unfolding session_token
  token_parts key e =
      split_on-join b':' session_version
        (decimal e ∷ C.write_hex (C.mac key (signed_text (decimal e))) ∷ []) (ground arith)
        (
          numeral-IsFree (decimal e) (decimal-IsNumeral e),
          (L.hex_free (C.mac key (signed_text (decimal e))), tt),
        )

  -- What is left to decide of a token that was minted.
  token_decided :
      (key : Text) (e : ℕ) (ks : List Text) (now : ℤ)
      → e < 2 ^ 63
      → session_signer C (session_token C key e) ks now ≡ (
          if leb_ℤ (pos e) now
          then none
          else find_signer C (decimal e) (C.mac key (signed_text (decimal e))) (pos e) ks)
  unfolding session_signer check_parts eq_text
  token_decided key e ks now h =
      rw
        (
          token_parts key e,
          check_parts,
          atoi-decimal e h,
          L.hex_read (C.mac key (signed_text (decimal e))),
        )
        refl

  signer_found :
      (stamp signature key : Text) (expires : ℤ) (ks : List Text) (o : Option Accepted)
      → signature ≡ C.mac key (signed_text stamp)
      → Any (λ k. k ≡ key) ks
      → IsSigner C stamp signature expires ks o
      → (s : Accepted) × (o ≡ some s) × (s.expires ≡ expires)
  unfolding IsSigner
  signer_found stamp signature key expires ks (some s) e m h = (s, refl, h.0)
  signer_found stamp signature key expires [] none e m h = elim m [ ]
  signer_found stamp signature key expires (k ∷ ks) none e (inl q) h =
      elim (h.0 (e ∙ ap (λ x. C.mac x (signed_text stamp)) (sym q))) [ ]
  signer_found stamp signature key expires (k ∷ ks) none e (inr m) h =
      signer_found stamp signature key expires ks none e m h.1

  -- A session that was minted with one of the keys, to end at a time that an int64 holds, is accepted
  -- at every time before its end, with that end; if hex is read back and has no colon.
  pub session_signer-session_token :
      (key : Text) (e : ℕ) (ks : List Text) (now : ℕ)
      → e < 2 ^ 63
      → Any (λ k. k ≡ key) ks
      → now < e
      → (s : Accepted) × (session_signer C (session_token C key e) ks (pos now) ≡ some s)
        × (s.expires ≡ pos e)
  session_signer-session_token key e ks now h m k =
      let open_yet : leb_ℤ (pos e) (pos now) ≡ false = ground (arith, k) in
      rw (token_decided key e ks (pos now) h, open_yet)
        (signer_found (decimal e) (C.mac key (signed_text (decimal e))) key (pos e) ks _ refl m
          (find_signer-IsSigner C (decimal e) (C.mac key (signed_text (decimal e))) (pos e) ks))

  -- From its end on, a session that was minted with any key is refused, whatever keys are configured; if
  -- hex is read back and has no colon.
  pub session_token_ends :
      (key : Text) (e : ℕ) (ks : List Text) (now : ℕ)
      → e < 2 ^ 63
      → e ≤ now
      → session_signer C (session_token C key e) ks (pos now) ≡ none
  session_token_ends key e ks now h k =
      let over : leb_ℤ (pos e) (pos now) ≡ true = ground (arith, k) in
      rw (token_decided key e ks (pos now) h, over) refl
