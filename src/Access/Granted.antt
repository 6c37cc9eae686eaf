-- ===== src/Access/Granted.antt =====
-- What a request has to show for each answer of the guard, and what the guard's tests show of it.
use quotapulse.Base.{
  ℕ, ◌/◌, ◌≡◌, ◌≢◌, ◌⊎◌, inl, inr, refl, true, false, not, ◌&&◌, some, List, [], ◌∷◌, ◌++◌, ap,
  ◌||◌, ◌==◌, length, Any, Bool-cases, arith,
}
use quotapulse.Base.Int.{pos}
use quotapulse.Base.Text.{
  Text, text, eq_text, eq_text_iff, one_of, starts_with, one_of-Any, Any-one_of, starts_with-append,
  starts_with-rest,
}
use quotapulse.Access.Session.{Crypto, Accepted, session_signer}
use quotapulse.Access.{
  Settings, Request, Caller, Outcome, served, served_to, not_configured, unauthorized, key_expired,
  cross_site, rate_limited, api_keys, extract_api_key, safe_method, same_site_request, is_public,
  is_mcp,
}
use quotapulse.Access.Callers.{IsCaller, IsStranger, IsExpiredKey}

abbrev methods : List Text
methods = text "GET" ∷ text "HEAD" ∷ text "OPTIONS" ∷ []

abbrev sites : List Text
sites = [] ∷ text "same-origin" ∷ text "none" ∷ []

-- A method that changes nothing, and a request that no browser marked as from another site.
abbrev pub IsSafe : Request → Type 0
IsSafe r = Any (λ m. m ≡ r.method) methods

abbrev pub IsSameSite : Request → Type 0
IsSameSite r = Any (λ s. s ≡ r.fetch_site) sites

pub passes_session_guard :
    (r : Request)
    → (not (safe_method r.method) && not (same_site_request r)) ≡ false
    → IsSafe r ⊎ IsSameSite r
unfolding safe_method same_site_request
passes_session_guard r h = elim (Bool-cases (safe_method r.method)) [
  | inl e ↦ inl (one_of-Any r.method methods e)
  | inr e ↦ inr (one_of-Any r.fetch_site sites (ground (arith, h, e)))
]

pub fails_session_guard :
    (r : Request)
    → (not (safe_method r.method) && not (same_site_request r)) ≡ true
    → (IsSafe r → ⊥) × (IsSameSite r → ⊥)
unfolding safe_method same_site_request
fails_session_guard r h = (
  λ m. absurd (ground (arith, h, Any-one_of r.method methods m)),
  λ m. absurd (ground (arith, h, Any-one_of r.fetch_site sites m)),
)

-- A browser's session: signed by a key of the settings, and not used to change anything from another site.
unfoldable pub IsBrowser : Crypto → Settings → Request → ℕ → Type 0
IsBrowser C S r now =
    (value : Text) × (s : Accepted) × (r.cookie ≡ some value)
    × (session_signer C value (api_keys S) (pos (now / 1000000000)) ≡ some s)
    × (IsSafe r ⊎ IsSameSite r)

-- A path that is not guarded, or a request for options.
unfoldable pub IsOpen : Request → Type 0
IsOpen r =
    (((rest : Text) → r.path ≢ text "/api/" ++ rest) × (r.path ≢ text "/mcp"))
    ⊎ (r.method ≡ text "OPTIONS")

abbrev pub IsMcp : Request → Type 0
IsMcp r = r.path ≡ text "/mcp"

-- The token of a request is one of the web keys.
abbrev pub HasWebKey : Settings → Request → Type 0
HasWebKey S r = Any (λ k. k ≡ extract_api_key r) (api_keys S)

-- Why a request may have come to this.
unfoldable pub IsGranted : Crypto → Settings → Request → ℕ → Outcome → Type 0
IsGranted C S r now served =
    IsOpen r ⊎ ((IsMcp r → ⊥) × (HasWebKey S r ⊎ ((extract_api_key r ≡ []) × IsBrowser C S r now)))
IsGranted C S r now (served_to c) =
    IsMcp r × (extract_api_key r ≢ []) × IsCaller S (extract_api_key r) now c
IsGranted C S r now not_configured = api_keys S ≡ []
IsGranted C S r now unauthorized =
    (IsMcp r × IsStranger S (extract_api_key r)) ⊎ ((IsMcp r → ⊥) × (HasWebKey S r → ⊥))
IsGranted C S r now key_expired = IsMcp r × IsExpiredKey S (extract_api_key r) now
IsGranted C S r now cross_site = (IsSafe r → ⊥) × (IsSameSite r → ⊥)
IsGranted C S r now (rate_limited wait) =
    IsMcp r × ((c : Caller) × IsCaller S (extract_api_key r) now c)

pub empty_of : (ks : List Text) → (length ks == 0) ≡ true → ks ≡ []
empty_of [] h = refl
empty_of (k ∷ ks) h = ground (arith, h)

-- What the tests of the guard show of a request.
pub is_mcp-true : (r : Request) → is_mcp r ≡ true → IsMcp r
unfolding is_mcp
is_mcp-true r h = (eq_text_iff r.path (text "/mcp")).0 h

pub is_mcp-false : (r : Request) → is_mcp r ≡ false → IsMcp r → ⊥
unfolding is_mcp
is_mcp-false r h q = let i = (eq_text_iff r.path (text "/mcp")).1 q in cc

unguarded-IsOpen :
    (r : Request)
    → (starts_with (text "/api/") r.path || eq_text r.path (text "/mcp")) ≡ false
    → IsOpen r
unfolding IsOpen
unguarded-IsOpen r h = inl (
  λ rest q. absurd (
      ground (arith, h, ap (starts_with (text "/api/")) q, starts_with-append (text "/api/") rest)),
  λ q. absurd (ground (arith, h, (eq_text_iff r.path (text "/mcp")).1 q)),
)

pub is_public-IsOpen : (r : Request) → is_public r ≡ true → IsOpen r
unfolding is_public
is_public-IsOpen r h =
    elim (Bool-cases (starts_with (text "/api/") r.path || eq_text r.path (text "/mcp"))) [
      | inr e ↦ unguarded-IsOpen r e
      | inl e ↦
          unfold IsOpen in inr ((eq_text_iff r.method (text "OPTIONS")).0 (ground (arith, h, e)))
    ]

pub no_web_key :
    (S : Settings) (r : Request)
    → one_of (extract_api_key r) (api_keys S) ≡ false
    → HasWebKey S r
    → ⊥
no_web_key S r h m = let i = Any-one_of (extract_api_key r) (api_keys S) m in cc

pub IsOpen-is_public : (r : Request) → IsOpen r → is_public r ≡ true
unfolding IsOpen is_public
IsOpen-is_public r (inr m) = ground (arith, (eq_text_iff r.method (text "OPTIONS")).1 m)
IsOpen-is_public r (inl (no_api, no_mcp)) = elim (Bool-cases (starts_with (text "/api/") r.path)) [
  | inl e ↦ let (rest, q) = starts_with-rest (text "/api/") r.path e in absurd (no_api rest q)
  | inr e ↦ elim (Bool-cases (eq_text r.path (text "/mcp"))) [
    | inl f ↦ absurd (no_mcp ((eq_text_iff r.path (text "/mcp")).0 f))
    | inr f ↦ ground (arith, e, f)
  ]
]
