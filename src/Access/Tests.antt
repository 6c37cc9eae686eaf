-- ===== src/Access/Tests.antt =====
-- A server with one web key and one agent's key, and requests to it.
use quotapulse.Base.{
  ℕ, zero, suc, ◌+◌, ◌*◌, ◌≤◌, ◌≡◌, inl, inr, refl, true, none, some, List, [], ◌∷◌, ◌++◌, arith,
  ap, ◌-◌, ◌==◌, ◌∙◌, if◌then◌else◌,
}
use quotapulse.Base.Int.{pos}
use quotapulse.Base.Text.{
  Text, text, eq_text, trim_space, trim_left, trim_right, split_on, one_of, to_lower,
}
use quotapulse.Base.Joined.{IsFree}
use quotapulse.Access.Keys.{
  Clock, parse_mcp_keys, parse_entries, entries_from, read_entry, merge_parts, with_expiry,
  parse_scopes, parse_scopes_from, scope_turn, add_scope, add_scopes, is_key_name, has_blank, keys,
}
use quotapulse.Access.Keys.Parsed.{IsParsed, parse_mcp_keys-IsParsed}
use quotapulse.Access.Session.{Crypto, CryptoLaws, Accepted, session_token, session_signer}
use quotapulse.Access.Session.Minted.{session_signer-session_token, session_token_ends}
use quotapulse.Access.Limit.{token}
use quotapulse.Access.Limit.Spent.{let_through, rounded, take_is_bounded}
use quotapulse.Access.{Settings, Request}

abbrev clock : Clock
clock = record { read_date = λ s. none; read_time = λ s. none }

abbrev configured : Text
configured = text "bot:0123456789abcdef:alerts; ;ci:fedcba9876543210"

reads_keys :
    parse_mcp_keys clock configured
    ≡ keys (
        record {
          name = text "bot";
          key = text "0123456789abcdef";
          scopes = text "alerts" ∷ [];
          expires = none;
        }
        ∷ record {
          name = text "ci";
          key = text "fedcba9876543210";
          scopes =
              text "balance"
              ∷ text "alerts"
              ∷ text "subscriptions"
              ∷ text "email"
              ∷ text "config"
              ∷ [];
          expires = none;
        }
        ∷ [])
unfolding parse_mcp_keys parse_entries entries_from read_entry merge_parts with_expiry parse_scopes
    parse_scopes_from scope_turn add_scope add_scopes is_key_name has_blank eq_text trim_space
    trim_left trim_right split_on one_of to_lower
reads_keys = refl

parse_mcp_keys-IsParsed_example : IsParsed configured (parse_mcp_keys clock configured)
parse_mcp_keys-IsParsed_example = parse_mcp_keys-IsParsed clock configured

-- Hex that writes each byte as so many letters, and a sum that is no secret.
abbrev letters : ℕ → Text → Text
letters zero s = s
letters (suc n) s = b'a' ∷ letters n s

abbrev tally : Text → Text
tally [] = []
tally (c ∷ cs) = letters c (b'b' ∷ tally cs)

abbrev untally : ℕ → Text → Text
untally n [] = []
untally n (c ∷ cs) =
    let more = untally (suc n) cs in let next = untally 0 cs in if c == b'b' then n ∷ next else more

untally-letters : (n c : ℕ) (s : Text) → untally n (letters c (b'b' ∷ s)) ≡ (n + c) ∷ untally 0 s
untally-letters n zero s = ap (λ m. m ∷ untally 0 s) (omega arith)
untally-letters n (suc c) s = untally-letters (suc n) c s ∙ ap (λ m. m ∷ untally 0 s) (omega arith)

untally-tally : (s : Text) → untally 0 (tally s) ≡ s
untally-tally [] = refl
untally-tally (c ∷ cs) =
    untally-letters 0 c (tally cs)
    ∙ ap (λ m. m ∷ untally 0 (tally cs)) (omega arith)
    ∙ ap (λ t. c ∷ t) (untally-tally cs)

letters-IsFree : (n : ℕ) (s : Text) → IsFree b':' s → IsFree b':' (letters n s)
letters-IsFree zero s h = h
letters-IsFree (suc n) s h = (omega arith, letters-IsFree n s h)

tally-IsFree : (s : Text) → IsFree b':' (tally s)
tally-IsFree [] = tt
tally-IsFree (c ∷ cs) = letters-IsFree c (b'b' ∷ tally cs) (omega arith, tally-IsFree cs)

abbrev crypto : Crypto
crypto = record { mac = λ k m. k ++ m; write_hex = tally; read_hex = λ s. some (untally 0 s) }

crypto-CryptoLaws : CryptoLaws crypto
crypto-CryptoLaws = record { hex_read = λ s. ap some (untally-tally s); hex_free = tally-IsFree }

session_signer-session_token_example :
    (s : Accepted) × (session_signer crypto
        (session_token crypto (text "k") 1000)
        (text "j" ∷ text "k" ∷ [])
        (pos 999)
      ≡ some s)
    × (s.expires ≡ pos 1000)
session_signer-session_token_example =
    session_signer-session_token crypto crypto-CryptoLaws (text "k") 1000 (text "j" ∷ text "k" ∷ [])
      999 (omega arith) (inr (inl refl)) (omega arith)

session_token_ends_example :
    session_signer crypto (session_token crypto (text "k") 1000) (text "k" ∷ []) (pos 1000) ≡ none
session_token_ends_example =
    session_token_ends crypto crypto-CryptoLaws (text "k") 1000 (text "k" ∷ []) 1000 (omega arith)
      (omega arith)

abbrev settings : Settings
settings = record {
  web_api_key = text "secret";
  mcp_keys =
      record {
        name = text "bot";
        key = text "0123456789abcdef";
        scopes = text "alerts" ∷ [];
        expires = some 50;
      }
      ∷ [];
  mcp_require_scoped_key = true;
}

abbrev asks : Text → Text → Request
asks path key = record {
  path = path;
  method = text "POST";
  x_api_key = key;
  authorization = [];
  cookie = none;
  fetch_site = [];
}

abbrev agent : Request
agent = asks (text "/mcp") (text "0123456789abcdef")

-- Two requests of one agent and one of another, in a minute.
abbrev requests : List (Text × ℕ)
requests = (text "bot", 5) ∷ (text "ci", 6) ∷ (text "bot", 60000000005) ∷ []

take_is_bounded_example :
    let_through (text "bot") record { per_minute = 1; buckets = [] } requests * token
    ≤ 1 * token
      + (60000000010 - 0) * 1
      + rounded (text "bot") record { per_minute = 1; buckets = [] } requests * token
take_is_bounded_example =
    take_is_bounded 1 [] (text "bot") requests 0 60000000010 (omega arith) (omega arith)
