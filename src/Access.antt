-- ===== src/Access.antt =====
-- Who may use the web server: `withAPIKey`, `serveMCP`, `mcpCaller` and `extractAPIKey` of
-- internal/httpapi/server.go, with the keys of internal/config and the sessions of session.go. The calls
-- of time.Now of one request are one instant, in nanoseconds; the headers other than those of the
-- decision, and what is served, are left out.
pub mod Keys
pub mod Session
pub mod Limit
pub mod Callers
pub mod Granted
pub mod Guard
mod Tests
use quotapulse.Base.{
  ℕ, zero, suc, ◌+◌, ◌*◌, ◌-◌, ◌/◌, ◌^◌, Bool, true, false, not, ◌&&◌, ◌||◌, Option, none, some,
  List, [], ◌∷◌, ltb, ◌==◌, length, if◌then◌else◌, is_some,
}
use quotapulse.Base.Int.{ℤ, pos, ltb_ℤ, ◌-ℤ◌, ◌*ℤ◌}
use quotapulse.Base.Text.{Text, text, eq_text, starts_with, trim_space, to_lower, split_on, one_of}
use quotapulse.Access.Keys.{McpKey, is_expired, all_scopes}
use quotapulse.Access.Session.{Crypto, Accepted, session_signer}
use quotapulse.Access.Limit.{Limiter, take}

-- The settings that the decision reads.
pub record Settings : Type 0 where
  pub web_api_key : Text
  pub mcp_keys : List McpKey
  pub mcp_require_scoped_key : Bool

-- `splitList`
unfoldable pub items_of : List Text → List Text
items_of [] = []
items_of (p ∷ ps) =
    let rest = items_of ps in if eq_text (trim_space p) [] then rest else trim_space p ∷ rest

unfoldable pub split_list : Text → List Text
split_list s = items_of (split_on b',' s)

-- `APIKeys`
unfoldable pub api_keys : Settings → List Text
api_keys S = split_list S.web_api_key

pub record Request : Type 0 where
  pub path : Text
  pub method : Text
  pub x_api_key : Text
  pub authorization : Text
  pub cookie : Option Text
  pub fetch_site : Text

abbrev first_bytes : ℕ → Text → Text
first_bytes zero s = []
first_bytes (suc n) [] = []
first_bytes (suc n) (c ∷ cs) = c ∷ first_bytes n cs

abbrev bytes_from : ℕ → Text → Text
bytes_from zero s = s
bytes_from (suc n) [] = []
bytes_from (suc n) (c ∷ cs) = bytes_from n cs

unfoldable pub extract_api_key : Request → Text
extract_api_key r =
    let auth = trim_space r.authorization in
    if not (eq_text (trim_space r.x_api_key) [])
    then trim_space r.x_api_key
    else if ltb 7 (length auth) && eq_text (to_lower (first_bytes 7 auth)) (text "bearer ")
    then trim_space (bytes_from 7 auth)
    else []

-- `MCPCaller`
pub record Caller : Type 0 where
  pub name : Text
  pub scopes : List Text

-- `FullMCPCaller`
abbrev pub full_caller : Text → Caller
full_caller name = record { name = name; scopes = all_scopes }

pub data Authenticated : Type 0 where
  caller : Caller → Authenticated
  caller_expired : Authenticated
  caller_unknown : Authenticated

unfoldable pub find_key : Text → List McpKey → Option McpKey
find_key token [] = none
find_key token (k ∷ ks) =
    let rest = find_key token ks in if eq_text token k.key then some k else rest

unfoldable pub mcp_caller : Settings → Text → ℕ → Authenticated
mcp_caller S token now =
    if eq_text token [] then caller_unknown else elim (find_key token S.mcp_keys) [
      | some k ↦
          if is_expired k now
          then caller_expired
          else caller record { name = k.name; scopes = k.scopes }
      | none ↦
          if not S.mcp_require_scoped_key && one_of token (api_keys S)
          then caller (full_caller (text "web"))
          else caller_unknown
    ]

pub data Outcome : Type 0 where
  served : Outcome
  served_to : Caller → Outcome
  not_configured : Outcome
  unauthorized : Outcome
  key_expired : Outcome
  cross_site : Outcome
  rate_limited : ℕ → Outcome

-- What the limiter answers to a caller.
unfoldable pub admit : Caller → Limiter × ℕ → Limiter × Outcome
admit c (left, wait) =
    if wait == 0
    then (left, served_to c)
    else (left, rate_limited ((wait + 999999999) / 1000000000))

unfoldable pub serve_caller : Limiter → ℕ → Authenticated → Limiter × Outcome
serve_caller l now caller_expired = (l, key_expired)
serve_caller l now caller_unknown = (l, unauthorized)
serve_caller l now (caller c) = admit c (take l c.name now)

-- `serveMCP`
unfoldable pub serve_mcp : Settings → Limiter → Text → ℕ → Limiter × Outcome
serve_mcp S l token now =
    if (length S.mcp_keys == 0) && (length (api_keys S) == 0)
    then (l, not_configured)
    else serve_caller l now (mcp_caller S token now)

-- `safeMethod` and `sameSiteRequest`
unfoldable pub safe_method : Text → Bool
safe_method m = one_of m (text "GET" ∷ text "HEAD" ∷ text "OPTIONS" ∷ [])

unfoldable pub same_site_request : Request → Bool
same_site_request r = one_of r.fetch_site ([] ∷ text "same-origin" ∷ text "none" ∷ [])

-- What a request comes to, and the key of a session cookie that is set on the way.
pub record Response : Type 0 where
  pub outcome : Outcome
  pub renewed : Option Text

abbrev plain : Outcome → Response
plain o = record { outcome = o; renewed = none }

-- A session in its last week is renewed.
unfoldable pub renewal : Accepted → ℕ → Option Text
renewal s now =
    if ltb_ℤ ((s.expires *ℤ pos 1000000000) -ℤ pos now) (pos 604800000000000)
    then some s.signer
    else none

-- A request that carries no key, by the session of its cookie.
unfoldable pub serve_accepted : Request → ℕ → Option Accepted → Response
serve_accepted r now none = plain unauthorized
serve_accepted r now (some s) =
    if not (safe_method r.method) && not (same_site_request r)
    then record { outcome = cross_site; renewed = renewal s now }
    else record { outcome = served; renewed = renewal s now }

unfoldable pub serve_session : Crypto → Settings → Request → ℕ → Option Text → Response
serve_session C S r now none = plain unauthorized
serve_session C S r now (some value) =
    serve_accepted r now (session_signer C value (api_keys S) (pos (now / 1000000000)))

-- A request under /api/.
unfoldable pub serve_api : Crypto → Settings → Request → ℕ → Response
serve_api C S r now =
    let token = extract_api_key r in
    if length (api_keys S) == 0
    then plain not_configured
    else if one_of token (api_keys S)
    then plain served
    else if eq_text token []
    then serve_session C S r now r.cookie
    else plain unauthorized

-- `!protected || r.Method == http.MethodOptions`
unfoldable pub is_public : Request → Bool
is_public r =
    not (starts_with (text "/api/") r.path || eq_text r.path (text "/mcp"))
    || eq_text r.method (text "OPTIONS")

unfoldable pub is_mcp : Request → Bool
is_mcp r = eq_text r.path (text "/mcp")

unfoldable pub answer : Limiter × Outcome → Limiter × Response
answer (l, o) = (l, plain o)

-- `withAPIKey`
unfoldable pub with_api_key : Crypto → Settings → Limiter → Request → ℕ → Limiter × Response
with_api_key C S l r now =
    if is_public r
    then (l, plain served)
    else if is_mcp r
    then answer (serve_mcp S l (extract_api_key r) now)
    else (l, serve_api C S r now)
