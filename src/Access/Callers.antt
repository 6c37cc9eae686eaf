-- ===== src/Access/Callers.antt =====
-- Who an agent's token stands for: what `mcp_caller` answers.
use quotapulse.Base.{
  ℕ, ◌≡◌, ◌≢◌, ◌⊎◌, inl, inr, refl, subst, Bool, true, false, not, ◌&&◌, Option, none, some, List,
  [], ◌∷◌, ltb, if◌then◌else◌, All, Any, ◌<◌, ◌≤◌, Bool-cases, Option-cases, arith,
}
use quotapulse.Base.Text.{Text, text, eq_text, eq_text_iff, eq_text-empty, one_of, one_of-Any}
use quotapulse.Access.Keys.{McpKey, is_expired}
use quotapulse.Access.{
  Settings, Caller, Authenticated, caller, caller_expired, caller_unknown, api_keys, full_caller,
  find_key, mcp_caller,
}

-- A key that has no end, or has not come to it.
unfoldable pub IsLive : Option ℕ → ℕ → Type 0
IsLive none now = Unit
IsLive (some e) now = now < e

-- A key that has come to its end.
unfoldable pub IsOver : Option ℕ → ℕ → Type 0
IsOver none now = ⊥
IsOver (some e) now = e ≤ now

is_expired-false : (k : McpKey) (now : ℕ) → is_expired k now ≡ false → IsLive k.expires now
unfolding is_expired IsLive
is_expired-false k now =
    elim k.expires
      as (λ o.
        (elim o as (λ _. Bool) [ none ↦ false | some e ↦ not (ltb now e) ]) ≡ false
        → IsLive o now) [ none ↦ λ h. tt | some e ↦ λ h. ground (arith, h) ]

is_expired-true : (k : McpKey) (now : ℕ) → is_expired k now ≡ true → IsOver k.expires now
unfolding is_expired IsOver
is_expired-true k now =
    elim k.expires
      as (λ o.
        (elim o as (λ _. Bool) [ none ↦ false | some e ↦ not (ltb now e) ]) ≡ true → IsOver o now) [
          | none ↦ λ h. absurd (ground (arith, h))
          | some e ↦ λ h. ground (arith, h)
        ]

-- A caller that a token stands for: an agent's key that has not expired, or the web key if it may be used.
unfoldable pub IsCaller : Settings → Text → ℕ → Caller → Type 0
IsCaller S token now c =
    ((k : McpKey) × Any (λ l. l ≡ k) S.mcp_keys
      × (token ≡ k.key)
      × IsLive k.expires now
      × (c ≡ record { name = k.name; scopes = k.scopes }))
    ⊎ ((S.mcp_require_scoped_key ≡ false)
        × Any (λ k. k ≡ token) (api_keys S)
        × (c ≡ full_caller (text "web")))

OnKey : Text → List McpKey → Option McpKey → Type 0
OnKey token ks none = All (λ k. token ≢ k.key) ks
OnKey token ks (some k) = Any (λ l. l ≡ k) ks × (token ≡ k.key)

later_key :
    (token : Text) (k : McpKey) (ks : List McpKey) (o : Option McpKey)
    → token ≢ k.key
    → OnKey token ks o
    → OnKey token (k ∷ ks) o
unfolding OnKey
later_key token k ks none ne h = (ne, h)
later_key token k ks (some l) ne h = (inr h.0, h.1)

find_key-OnKey : (token : Text) (ks : List McpKey) → OnKey token ks (find_key token ks)
unfolding find_key
find_key-OnKey token [] = unfold OnKey in tt
find_key-OnKey token (k ∷ ks) = elim (Bool-cases (eq_text token k.key)) [
  | inl e ↦ rw (find_key, e) (unfold OnKey in (inl refl, (eq_text_iff token k.key).0 e))
  | inr e ↦
      rw (find_key, e)
        (later_key token k ks _ (λ q. let i = (eq_text_iff token k.key).1 q in cc)
          (find_key-OnKey token ks))
]

-- An agent's token that is refused: none, one that is no agent's key, or one that has expired.
unfoldable pub IsStranger : Settings → Text → Type 0
IsStranger S token = (token ≡ []) ⊎ All (λ k. token ≢ k.key) S.mcp_keys

unfoldable pub IsExpiredKey : Settings → Text → ℕ → Type 0
IsExpiredKey S token now =
    (k : McpKey) × Any (λ l. l ≡ k) S.mcp_keys × (token ≡ k.key) × IsOver k.expires now

-- What is true of the answer of `mcp_caller`.
unfoldable pub OnAnswer : Settings → Text → ℕ → Authenticated → Type 0
OnAnswer S token now (caller c) = (token ≢ []) × IsCaller S token now c
OnAnswer S token now caller_expired = IsExpiredKey S token now
OnAnswer S token now caller_unknown = IsStranger S token

no_key-OnAnswer :
    (S : Settings) (token : Text) (now : ℕ) (allowed : Bool)
    → token ≢ []
    → All (λ k. token ≢ k.key) S.mcp_keys
    → (not S.mcp_require_scoped_key && one_of token (api_keys S)) ≡ allowed
    → OnAnswer S token now (if allowed then caller (full_caller (text "web")) else caller_unknown)
unfolding OnAnswer IsCaller IsStranger
no_key-OnAnswer S token now true ne others g =
    (ne, inr (ground (arith, g), one_of-Any token (api_keys S) (ground (arith, g)), refl))
no_key-OnAnswer S token now false ne others g = inr others

key-OnAnswer :
    (S : Settings) (token : Text) (now : ℕ) (k : McpKey) (over : Bool)
    → token ≢ []
    → Any (λ l. l ≡ k) S.mcp_keys × (token ≡ k.key)
    → is_expired k now ≡ over
    → OnAnswer S token now
        (if over then caller_expired else caller record { name = k.name; scopes = k.scopes })
unfolding OnAnswer IsCaller IsExpiredKey
key-OnAnswer S token now k true ne found g = (k, found.0, found.1, is_expired-true k now g)
key-OnAnswer S token now k false ne found g =
    (ne, inl (k, found.0, found.1, is_expired-false k now g, refl))

pub mcp_caller-OnAnswer :
    (S : Settings) (token : Text) (now : ℕ) → OnAnswer S token now (mcp_caller S token now)
unfolding mcp_caller
mcp_caller-OnAnswer S token now = elim (Bool-cases (eq_text token [])) [
  | inl e ↦ rw (mcp_caller, e) (unfold OnAnswer IsStranger in inl ((eq_text_iff token []).0 e))
  | inr e ↦ elim (Option-cases (find_key token S.mcp_keys)) [
    | inl f ↦
        let none_equal = subst (OnKey token S.mcp_keys) f (find_key-OnKey token S.mcp_keys) in
        rw (mcp_caller, e, f)
          (no_key-OnAnswer S token now _ (eq_text-empty token e) (unfold OnKey in none_equal) refl)
    | inr (k, f) ↦
        let found = subst (OnKey token S.mcp_keys) f (find_key-OnKey token S.mcp_keys) in
        rw (mcp_caller, e, f)
          (key-OnAnswer S token now k _ (eq_text-empty token e) (unfold OnKey in found) refl)
  ]
]
