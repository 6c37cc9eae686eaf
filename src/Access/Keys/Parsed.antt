-- ===== src/Access/Keys/Parsed.antt =====
-- The keys that `parse_mcp_keys` returns: well formed, and each name and each key used once.
use quotapulse.Base.{
  ◌≤◌, ◌≡◌, ◌≢◌, ◌⊎◌, inl, inr, refl, sym, ap, subst, ◌∙◌, true, false, not, ◌||◌, List, [], ◌∷◌,
  ◌++◌, ltb, length, any, count_if, append_nil, append_step, All, if◌then◌else◌, Bool-cases,
  Option-cases, arith,
}
use quotapulse.Base.Text.{Text, text, eq_text, eq_text_iff, trim_space, split_on}
use quotapulse.Access.Keys.Scopes.{IsScope, OnParsed, parse_scopes-OnParsed}
use quotapulse.Access.Keys.{
  McpKey, Clock, KeyError, bad_scopes, ParsedScopes, scopes, unknown_scope, no_scopes, Entry, entry,
  refused, ParsedKeys, keys, failed, parse_scopes, parse_expiry, is_key_name, has_blank,
  merge_parts, part_at, with_expiry, read_entry, entries_from, parse_entries, parse_mcp_keys,
}

-- A key as the server relies on it.
unfoldable pub IsKey : McpKey → Type 0
IsKey k =
    (is_key_name k.name ≡ true)
    × (16 ≤ length k.key)
    × (has_blank k.key ≡ false)
    × (1 ≤ length k.scopes)
    × All IsScope k.scopes

-- No key shares its name, or its secret, with an earlier one.
unfoldable pub IsApart : List McpKey → McpKey → Type 0
IsApart ks k = All (λ l. (l.name ≢ k.name) × (l.key ≢ k.key)) ks

unfoldable pub IsKeyring : List McpKey → List McpKey → Type 0
IsKeyring before [] = Unit
IsKeyring before (k ∷ ks) = IsKey k × IsApart before k × IsKeyring (before ++ k ∷ []) ks

-- What is true of an entry that was read after the keys `ks`.
OnEntry : List McpKey → Entry → Type 0
OnEntry ks (entry k) = IsKey k × IsApart ks k
OnEntry ks (refused r) = Unit

none_shares :
    (ks : List McpKey) (name key : Text)
    → any (λ k. eq_text k.name name) ks ≡ false
    → any (λ k. eq_text k.key key) ks ≡ false
    → All (λ l. (l.name ≢ name) × (l.key ≢ key)) ks
none_shares [] name key h g = tt
none_shares (k ∷ ks) name key h g = elim (Bool-cases (eq_text k.name name)) [
  | inl e ↦ ground (arith, h, e)
  | inr e ↦ elim (Bool-cases (eq_text k.key key)) [
    | inl f ↦ ground (arith, g, f)
    | inr f ↦ (
      (
        λ q. let i = (eq_text_iff k.name name).1 q in cc,
        λ q. let i = (eq_text_iff k.key key).1 q in cc,
      ),
      none_shares ks name key (ground (arith, h, e)) (ground (arith, g, f)),
    )
  ]
]

with_expiry-OnEntry :
    (C : Clock) (raw name key : Text) (ss : List Text) (ks : List McpKey)
    → is_key_name name ≡ true
    → 16 ≤ length key
    → has_blank key ≡ false
    → (1 ≤ length ss) × All IsScope ss
    → All (λ l. (l.name ≢ name) × (l.key ≢ key)) ks
    → OnEntry ks (with_expiry C raw name key ss)
unfolding with_expiry OnEntry IsKey IsApart
with_expiry-OnEntry C raw name key ss ks n k b s a =
    elim (Bool-cases (eq_text (trim_space raw) [])) [
      | inl e ↦ rw (with_expiry, e) ((n, k, b, s.0, s.1), a)
      | inr e ↦ elim (Option-cases (parse_expiry C (trim_space raw))) [
        | inl f ↦ rw (with_expiry, e, f) tt
        | inr (t, f) ↦ rw (with_expiry, e, f) ((n, k, b, s.0, s.1), a)
      ]
    ]

scopes-OnEntry :
    (C : Clock) (raw name key : Text) (r : ParsedScopes) (ks : List McpKey)
    → is_key_name name ≡ true
    → 16 ≤ length key
    → has_blank key ≡ false
    → OnParsed r
    → All (λ l. (l.name ≢ name) × (l.key ≢ key)) ks
    → OnEntry ks (elim r [
      | scopes ss ↦ with_expiry C raw name key ss
      | unknown_scope s ↦ refused bad_scopes
      | no_scopes ↦ refused bad_scopes
    ])
unfolding OnParsed OnEntry
scopes-OnEntry C raw name key (scopes ss) ks n k b s a =
    with_expiry-OnEntry C raw name key ss ks n k b s a
scopes-OnEntry C raw name key (unknown_scope s) ks n k b h a = tt
scopes-OnEntry C raw name key no_scopes ks n k b h a = tt

read_entry-OnEntry :
    (C : Clock) (ks : List McpKey) (parts : List Text) → OnEntry ks (read_entry C ks parts)
unfolding read_entry
read_entry-OnEntry C ks parts =
    let name = trim_space (part_at 0 parts) in
    let key = trim_space (part_at 1 parts) in
    let asked = if eq_text (trim_space (part_at 2 parts)) [] then text "all" else part_at 2 parts in
    elim (Bool-cases (ltb (length parts) 2)) [
      | inl a ↦ rw (read_entry, a) (unfold OnEntry in tt)
      | inr a ↦ elim (Bool-cases (is_key_name name)) [
        | inr b ↦ rw (read_entry, a, b) (unfold OnEntry in tt)
        | inl b ↦ elim (Bool-cases (ltb (length key) 16 || has_blank key)) [
          | inl c ↦ rw (read_entry, a, b, c) (unfold OnEntry in tt)
          | inr c ↦ elim (Bool-cases (any (λ k. eq_text k.name name) ks)) [
            | inl d ↦ rw (read_entry, a, b, c, d) (unfold OnEntry in tt)
            | inr d ↦ elim (Bool-cases (any (λ k. eq_text k.key key) ks)) [
              | inl e ↦ rw (read_entry, a, b, c, d, e) (unfold OnEntry in tt)
              | inr e ↦
                  rw (read_entry, a, b, c, d, e)
                    (scopes-OnEntry C (part_at 3 parts) name key (parse_scopes asked) ks b
                      (ground (arith, c)) (ground (arith, c))
                      (unfold parse_scopes in parse_scopes-OnParsed (split_on b',' asked) [] tt)
                      (none_shares ks name key d e))
            ]
          ]
        ]
      ]
    ]

-- The result of the loop from the keys `ks` on.
OnResult : List McpKey → List Text → ParsedKeys → Type 0
OnResult ks es (keys all) =
    (more : List McpKey) × (all ≡ ks ++ more)
    × IsKeyring ks more
    × (length more ≡ count_if (λ e. not (eq_text (trim_space e) [])) es)
OnResult ks es (failed r) = Unit

entry_first :
    (e : Text) (es : List Text) (ks : List McpKey) (k : McpKey) (r : ParsedKeys)
    → eq_text (trim_space e) [] ≡ false
    → IsKey k × IsApart ks k
    → OnResult (ks ++ k ∷ []) es r
    → OnResult ks (e ∷ es) r
unfolding OnResult IsKeyring
entry_first e es ks k (keys all) filled h (more, split, ring, count) =
    (k ∷ more, split ∙ append_step ks k more, (h.0, h.1, ring), rw filled (omega (arith, count)))
entry_first e es ks k (failed r) filled h i = tt

blank_first :
    (e : Text) (es : List Text) (ks : List McpKey) (r : ParsedKeys)
    → eq_text (trim_space e) [] ≡ true
    → OnResult ks es r
    → OnResult ks (e ∷ es) r
unfolding OnResult
blank_first e es ks (keys all) blank (more, split, ring, count) =
    (more, split, ring, rw blank count)
blank_first e es ks (failed r) blank h = tt

Entry-cases : (e : Entry) → ((r : KeyError) × (e ≡ refused r)) ⊎ ((k : McpKey) × (e ≡ entry k))
Entry-cases (entry k) = inr (k, refl)
Entry-cases (refused r) = inl (r, refl)

parse_entries-OnResult :
    (C : Clock) (es : List Text) (ks : List McpKey) → OnResult ks es (parse_entries C es ks)
unfolding parse_entries
parse_entries-OnResult C [] ks = unfold OnResult IsKeyring in ([], sym (append_nil ks), tt, refl)
parse_entries-OnResult C (e ∷ es) ks = elim (Bool-cases (eq_text (trim_space e) [])) [
  | inl b ↦ rw (parse_entries, b) (blank_first e es ks _ b (parse_entries-OnResult C es ks))
  | inr b ↦
      let parts = merge_parts (split_on b':' (trim_space e)) in
      elim (Entry-cases (read_entry C ks parts)) [
        | inl (r, f) ↦ rw (parse_entries, b, f) (unfold OnResult in tt)
        | inr (k, f) ↦
            rw (parse_entries, b, f)
              (entry_first e es ks k _ b
                (unfold OnEntry in subst (OnEntry ks) f (read_entry-OnEntry C ks parts))
                (parse_entries-OnResult C es (ks ++ k ∷ [])))
      ]
]

-- What the configuration of keys is read to.
pub IsParsed : Text → ParsedKeys → Type 0
IsParsed raw (keys ks) =
    IsKeyring [] ks
    × (length ks ≡ count_if (λ e. not (eq_text (trim_space e) [])) (entries_from [] raw))
IsParsed raw (failed r) = Unit

result-IsParsed :
    (raw : Text) (r : ParsedKeys) → OnResult [] (entries_from [] raw) r → IsParsed raw r
unfolding OnResult IsParsed
result-IsParsed raw (keys all) (more, split, ring, count) =
    (subst (IsKeyring []) (sym split) ring, ap length split ∙ count)
result-IsParsed raw (failed r) h = tt

-- If the configuration of keys is accepted, every entry that is not blank became a key whose
-- name is in the pattern, whose secret has at least sixteen bytes and no blank, whose scopes are known
-- and at least one, and which shares neither its name nor its secret with an earlier key.
pub parse_mcp_keys-IsParsed : (C : Clock) (raw : Text) → IsParsed raw (parse_mcp_keys C raw)
unfolding parse_mcp_keys
parse_mcp_keys-IsParsed C raw =
    result-IsParsed raw (parse_mcp_keys C raw) (parse_entries-OnResult C (entries_from [] raw) [])
