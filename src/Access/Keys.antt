-- ===== src/Access/Keys.antt =====
-- The keys of agents: internal/config/mcpkeys.go. A set of scopes is a list; the message of an error is
-- its kind. An instant is in nanoseconds.
pub mod Scopes
pub mod Parsed
use quotapulse.Base.{
  ℕ, zero, suc, ◌+◌, Bool, true, false, not, ◌&&◌, ◌||◌, Option, none, some, List, [], ◌∷◌, ◌++◌,
  ltb, leb, ◌==◌, length, any, map, if◌then◌else◌,
}
use quotapulse.Base.Text.{Text, text, eq_text, trim_space, to_lower, split_on, join, one_of}

pub record McpKey : Type 0 where
  pub name : Text
  pub key : Text
  pub scopes : List Text
  pub expires : Option ℕ

-- `Expired`
unfoldable pub is_expired : McpKey → ℕ → Bool
is_expired k now = elim k.expires [ none ↦ false | some e ↦ not (ltb now e) ]

-- `AllScopes`
abbrev pub all_scopes : List Text
all_scopes =
    text "balance" ∷ text "alerts" ∷ text "subscriptions" ∷ text "email" ∷ text "config" ∷ []

-- `scopes[scope] = true`, of one scope and of several.
unfoldable pub add_scope : Text → List Text → List Text
add_scope s ss = if one_of s ss then ss else ss ++ s ∷ []

unfoldable pub add_scopes : List Text → List Text → List Text
add_scopes [] ss = ss
add_scopes (s ∷ more) ss = add_scopes more (add_scope s ss)

-- One turn of the switch; none is a scope that is not known.
unfoldable pub scope_turn : Text → List Text → Option (List Text)
scope_turn scope ss =
    if eq_text scope []
    then some ss
    else if eq_text scope (text "all")
    then some (add_scopes all_scopes ss)
    else if one_of scope all_scopes
    then some (add_scope scope ss)
    else none

pub data ParsedScopes : Type 0 where
  scopes : List Text → ParsedScopes
  unknown_scope : Text → ParsedScopes
  no_scopes : ParsedScopes

unfoldable pub parse_scopes_from : List Text → List Text → ParsedScopes
parse_scopes_from [] ss = if length ss == 0 then no_scopes else scopes ss
parse_scopes_from (p ∷ ps) ss = elim (scope_turn (to_lower (trim_space p)) ss) [
  | none ↦ unknown_scope (to_lower (trim_space p))
  | some more ↦ parse_scopes_from ps more
]

unfoldable pub parse_scopes : Text → ParsedScopes
parse_scopes raw = parse_scopes_from (split_on b',' raw) []

-- What the code calls of the time package: a date in UTC and an RFC 3339 time.
pub record Clock : Type 0 where
  pub read_date : Text → Option ℕ
  pub read_time : Text → Option ℕ

unfoldable pub parse_expiry : Clock → Text → Option ℕ
parse_expiry C raw = elim (C.read_date raw) [
  | some day ↦ some (day + 86400000000000)
  | none ↦ C.read_time raw
]

-- `mcpKeyName`
abbrev pub is_name_byte : ℕ → Bool
is_name_byte c =
    (leb b'A' c && leb c b'Z')
    || ((leb b'a' c && leb c b'z')
        || ((leb b'0' c && leb c b'9') || ((c == b'_') || ((c == b'.') || (c == b'-')))))

unfoldable pub is_key_name : Text → Bool
is_key_name s = leb 1 (length s) && (leb (length s) 40 && not (any (λ c. not (is_name_byte c)) s))

-- `strings.ContainsAny(s, " \t")`
unfoldable pub has_blank : Text → Bool
has_blank s = any (λ c. (c == 32) || (c == 9)) s

pub data KeyError : Type 0 where
  no_key : KeyError
  bad_name : KeyError
  bad_key : KeyError
  name_used : KeyError
  key_used : KeyError
  bad_scopes : KeyError
  bad_expiry : KeyError

pub data Entry : Type 0 where
  entry : McpKey → Entry
  refused : KeyError → Entry

-- Everything after the scopes is the time.
unfoldable pub merge_parts : List Text → List Text
merge_parts (a ∷ b ∷ c ∷ d ∷ e ∷ more) = a ∷ b ∷ c ∷ join (text ":") (d ∷ e ∷ more) ∷ []
merge_parts parts = parts

abbrev pub part_at : ℕ → List Text → Text
part_at n [] = []
part_at zero (p ∷ ps) = p
part_at (suc n) (p ∷ ps) = part_at n ps

-- The expiry of an entry: absent, read, or refused.
unfoldable pub with_expiry : Clock → Text → Text → Text → List Text → Entry
with_expiry C raw name key ss =
    if eq_text (trim_space raw) []
    then entry record { name = name; key = key; scopes = ss; expires = none }
    else elim (parse_expiry C (trim_space raw)) [
      | none ↦ refused bad_expiry
      | some e ↦ entry record { name = name; key = key; scopes = ss; expires = some e }
    ]

-- The turn of the loop, after the entry is known not to be blank.
unfoldable pub read_entry : Clock → List McpKey → List Text → Entry
read_entry C keys parts =
    let name = trim_space (part_at 0 parts) in
    let key = trim_space (part_at 1 parts) in
    let asked = if eq_text (trim_space (part_at 2 parts)) [] then text "all" else part_at 2 parts in
    if ltb (length parts) 2
    then refused no_key
    else if not (is_key_name name)
    then refused bad_name
    else if ltb (length key) 16 || has_blank key
    then refused bad_key
    else if any (λ k. eq_text k.name name) keys
    then refused name_used
    else if any (λ k. eq_text k.key key) keys
    then refused key_used
    else elim (parse_scopes asked) [
      | scopes ss ↦ with_expiry C (part_at 3 parts) name key ss
      | unknown_scope s ↦ refused bad_scopes
      | no_scopes ↦ refused bad_scopes
    ]

-- `strings.FieldsFunc` at semicolons and line ends; `field` is the one that is being read.
unfoldable pub entries_from : Text → Text → List Text
entries_from field [] = if length field == 0 then [] else field ∷ []
entries_from field (c ∷ cs) =
    let cut = entries_from [] cs in
    let more = entries_from (field ++ c ∷ []) cs in
    if (c == b';') || (c == 10) then (if length field == 0 then cut else field ∷ cut) else more

pub data ParsedKeys : Type 0 where
  keys : List McpKey → ParsedKeys
  failed : KeyError → ParsedKeys

-- The loop: the names and keys in use are those of the keys read so far.
unfoldable pub parse_entries : Clock → List Text → List McpKey → ParsedKeys
parse_entries C [] ks = keys ks
parse_entries C (e ∷ es) ks =
    if eq_text (trim_space e) []
    then parse_entries C es ks
    else elim (read_entry C ks (merge_parts (split_on b':' (trim_space e)))) [
      | entry k ↦ parse_entries C es (ks ++ k ∷ [])
      | refused r ↦ failed r
    ]

unfoldable pub parse_mcp_keys : Clock → Text → ParsedKeys
parse_mcp_keys C raw = parse_entries C (entries_from [] raw) []
