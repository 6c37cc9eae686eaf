-- ===== src/Access/Keys/Scopes.antt =====
-- The scopes that `parse_scopes` returns: at least one, all of them known.
use quotapulse.Base.{
  ◌≤◌, ◌≡◌, inl, inr, refl, subst, true, false, Option, none, some, List, [], ◌∷◌, ◌==◌, length,
  All, All-append, if◌then◌else◌, Bool-cases, Option-cases, arith,
}
use quotapulse.Base.Text.{Text, text, eq_text, trim_space, to_lower, one_of}
use quotapulse.Access.Keys.{
  ParsedScopes, scopes, unknown_scope, no_scopes, all_scopes, add_scope, add_scopes, scope_turn,
  parse_scopes_from,
}

abbrev pub IsScope : Text → Type 0
IsScope s = one_of s all_scopes ≡ true

add_scope-All :
    (s : Text) (ss : List Text) → IsScope s → All IsScope ss → All IsScope (add_scope s ss)
unfolding add_scope
add_scope-All s ss k h = elim (Bool-cases (one_of s ss)) [
  | inl e ↦ rw e h
  | inr e ↦ rw e (All-append IsScope ss (s ∷ []) h (k, tt))
]

add_scopes-All :
    (more ss : List Text) → All IsScope more → All IsScope ss → All IsScope (add_scopes more ss)
unfolding add_scopes
add_scopes-All [] ss k h = h
add_scopes-All (s ∷ more) ss k h =
    add_scopes-All more (add_scope s ss) k.1 (add_scope-All s ss k.0 h)

All-known : All IsScope all_scopes
unfolding one_of eq_text
All-known = (refl, (refl, (refl, (refl, (refl, tt)))))

OnScopes : Option (List Text) → Type 0
OnScopes none = Unit
OnScopes (some ss) = All IsScope ss

scope_turn-OnScopes : (s : Text) (ss : List Text) → All IsScope ss → OnScopes (scope_turn s ss)
unfolding scope_turn OnScopes
scope_turn-OnScopes s ss h = elim (Bool-cases (eq_text s [])) [
  | inl e ↦ rw (scope_turn, e) h
  | inr e ↦ elim (Bool-cases (eq_text s (text "all"))) [
    | inl f ↦ rw (scope_turn, e, f) (add_scopes-All all_scopes ss All-known h)
    | inr f ↦ elim (Bool-cases (one_of s all_scopes)) [
      | inl g ↦ rw (scope_turn, e, f, g) (add_scope-All s ss g h)
      | inr g ↦ rw (scope_turn, e, f, g) tt
    ]
  ]
]

-- What is true of scopes that were read.
unfoldable pub OnParsed : ParsedScopes → Type 0
OnParsed (scopes ss) = (1 ≤ length ss) × All IsScope ss
OnParsed (unknown_scope s) = Unit
OnParsed no_scopes = Unit

some_scopes :
    (ss : List Text) → All IsScope ss → OnParsed (if length ss == 0 then no_scopes else scopes ss)
unfolding OnParsed
some_scopes [] h = tt
some_scopes (s ∷ ss) h =
    let nonempty : (length (s ∷ ss) == 0) ≡ false = ground arith in rw nonempty (omega arith, h)

pub parse_scopes-OnParsed :
    (ps ss : List Text) → All IsScope ss → OnParsed (parse_scopes_from ps ss)
unfolding parse_scopes_from
parse_scopes-OnParsed [] ss h = some_scopes ss h
parse_scopes-OnParsed (p ∷ ps) ss h =
    elim (Option-cases (scope_turn (to_lower (trim_space p)) ss)) [
      | inl e ↦ rw (parse_scopes_from, e) (unfold OnParsed in tt)
      | inr (more, e) ↦
          rw (parse_scopes_from, e)
            (parse_scopes-OnParsed ps more (
              unfold OnScopes in
              subst OnScopes e (scope_turn-OnScopes (to_lower (trim_space p)) ss h)))
    ]
