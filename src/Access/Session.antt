-- ===== src/Access/Session.antt =====
-- The session cookie of a browser: `sessionToken` and `sessionSigner` of internal/httpapi/session.go. An
-- instant is in seconds; the sum of hmac and sha256 is a parameter, and so is the hex package.
pub mod Checked
pub mod Minted
use quotapulse.Base.{
  ℕ, zero, suc, ◌+◌, ◌*◌, ◌-◌, ◌/◌, ◌%◌, ◌^◌, ◌≤◌, ◌<◌, ◌≡◌, ◌≢◌, ◌⊎◌, inl, inr, refl, sym, ap,
  subst, ◌∙◌, Bool, true, false, not, ◌&&◌, ◌||◌, Option, none, some, List, [], ◌∷◌, ◌++◌, ltb, leb,
  ◌==◌, All, All-append, Any, if◌then◌else◌, Bool-cases, Option-cases, arith,
}
use quotapulse.Base.Int.{ℤ, pos, negsuc, leb_ℤ, ltb_ℤ}
use quotapulse.Base.Text.{Text, text, eq_text, eq_text_iff, eq_text_refl, split_on, join}
use quotapulse.Base.Digits.{digit, is_digit, digits_value, signed, atoi, decimal_onto, decimal}
use quotapulse.Base.Joined.{IsFree, split_on-join}

-- What the code calls of crypto/hmac over sha256, and of encoding/hex.
pub record Crypto : Type 0 where
  pub mac : Text → Text → Text
  pub write_hex : Text → Text
  pub read_hex : Text → Option Text

-- Reading takes back writing, and hex has no colon.
pub record CryptoLaws (C : Crypto) : Type 0 where
  pub hex_read : (s : Text) → C.read_hex (C.write_hex s) ≡ some s
  pub hex_free : (s : Text) → IsFree b':' (C.write_hex s)

-- `sessionVersion`
abbrev pub session_version : Text
session_version = text "v1"

-- What is signed.
abbrev pub signed_text : Text → Text
signed_text stamp = session_version ++ b'|' ∷ stamp

-- A session that was accepted: the key that signed it, and its end.
pub record Accepted : Type 0 where
  pub signer : Text
  pub expires : ℤ

module _ (C : Crypto) where
  unfoldable pub session_token : Text → ℕ → Text
  session_token key expires =
      let stamp = decimal expires in
      join (text ":") (session_version ∷ stamp ∷ C.write_hex (C.mac key (signed_text stamp)) ∷ [])

  -- The loop over the keys.
  unfoldable pub find_signer : Text → Text → ℤ → List Text → Option Accepted
  find_signer stamp signature expires [] = none
  find_signer stamp signature expires (k ∷ ks) =
      let rest = find_signer stamp signature expires ks in
      if eq_text signature (C.mac k (signed_text stamp))
      then some record { signer = k; expires = expires }
      else rest

  unfoldable pub check_parts : List Text → List Text → ℤ → Option Accepted
  check_parts (version ∷ stamp ∷ sum ∷ []) ks now =
      if not (eq_text version session_version) then none else elim (atoi stamp) [
        | none ↦ none
        | some expires ↦ if leb_ℤ expires now then none else elim (C.read_hex sum) [
          | none ↦ none
          | some signature ↦ find_signer stamp signature expires ks
        ]
      ]
  check_parts _ ks now = none

  unfoldable pub session_signer : Text → List Text → ℤ → Option Accepted
  session_signer token ks now = check_parts (split_on b':' token) ks now
