-- ===== src/Monitor/Redact.antt =====
-- `redactSecrets` of internal/monitor/redact.go. A text is its bytes; white space is that of ASCII, the
-- message is valid UTF-8, and what the regular expressions replace is a parameter.
pub mod Replaced
pub mod Leaks
use quotapulse.Base.{
  ℕ, zero, suc, ◌+◌, ◌-◌, Bool, true, false, not, ◌&&◌, ◌||◌, List, [], ◌∷◌, ◌++◌, ltb, leb, ◌==◌,
  length, if◌then◌else◌,
}
use quotapulse.Base.Text.{Text, text, starts_with, trim_space}

-- `maxErrorLength`
abbrev pub max_error_length : ℕ
max_error_length = 300

-- `strings.ReplaceAll(message, part, "***")` for a part that is not empty: what is left of an
-- occurrence is skipped.
unfoldable pub replace_from : Text → ℕ → Text → Text
replace_from part k [] = []
replace_from part (suc k) (c ∷ cs) = replace_from part k cs
replace_from part zero (c ∷ cs) =
    let masked = text "***" ++ replace_from part (length part - 1) cs in
    let kept = c ∷ replace_from part zero cs in if starts_with part (c ∷ cs) then masked else kept

unfoldable pub replace_all : Text → Text → Text
replace_all part message = replace_from part 0 message

-- `strings.FieldsFunc`, at the marks of a key in two parts; `field` is the one that is being read.
unfoldable pub fields_from : Text → Text → List Text
fields_from field [] = if length field == 0 then [] else field ∷ []
fields_from field (c ∷ cs) =
    let cut = fields_from [] cs in
    let more = fields_from (field ++ c ∷ []) cs in
    if (c == b':') || (c == b'|') then (if length field == 0 then cut else field ∷ cut) else more

-- One turn of the inner loop.
unfoldable pub redact_part : Text → Text → Text
redact_part part message =
    let p = trim_space part in if leb 6 (length p) then replace_all p message else message

unfoldable pub redact_parts : List Text → Text → Text
redact_parts [] message = message
redact_parts (part ∷ parts) message = redact_parts parts (redact_part part message)

unfoldable pub redact_keys : List Text → Text → Text
redact_keys [] message = message
redact_keys (secret ∷ secrets) message =
    redact_keys secrets (redact_parts (secret ∷ fields_from [] secret) message)

unfoldable pub apply_patterns : List (Text → Text) → Text → Text
apply_patterns [] message = message
apply_patterns (p ∷ ps) message = apply_patterns ps (p message)

-- The first byte of a rune, in UTF-8.
abbrev pub is_first : ℕ → Bool
is_first c = ltb c 128 || leb 192 c

unfoldable pub count_runes : Text → ℕ
count_runes [] = 0
count_runes (c ∷ cs) = let rest = count_runes cs in if is_first c then suc rest else rest

-- The bytes of the first runes, of which `n` are still to come.
unfoldable pub take_runes : ℕ → Text → Text
take_runes n [] = []
take_runes zero (c ∷ cs) = if is_first c then [] else c ∷ take_runes zero cs
take_runes (suc n) (c ∷ cs) = c ∷ take_runes (if is_first c then n else suc n) cs

-- "…"
abbrev pub ellipsis : Text
ellipsis = 226 ∷ 128 ∷ 166 ∷ []

unfoldable pub cap_length : Text → Text
cap_length message =
    if ltb max_error_length (count_runes message)
    then take_runes max_error_length message ++ ellipsis
    else message

unfoldable pub redact_secrets : List (Text → Text) → Text → List Text → Text
redact_secrets patterns message secrets =
    cap_length (apply_patterns patterns (redact_keys secrets message))
