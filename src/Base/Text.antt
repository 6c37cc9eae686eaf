-- ===== src/Base/Text.antt =====
-- Texts as the lists of their bytes, and what the code does with them.
use Prim.Native.Char.{code}
use Prim.Native.String.{String}
use Prim.Native.Nat.{ℕ, ◌+◌}
use mathlib.Core.Path.{◌≡◌, refl, sym, subst}
use mathlib.Core.Logic.{◌↔◌, ◌≢◌, inl, inr}
use mathlib.Core.Bool.{Bool, true, false, ◌&&◌, ◌||◌}
use mathlib.Core.List.{List, [], ◌∷◌, ◌++◌}
use native.Mathlib.Omega.{arith}
use quotapulse.Base.Tests.{ltb, leb, ◌==◌, if◌then◌else◌, Bool-cases}
use quotapulse.Base.Lists.{Any}

abbrev pub Text : Type 0
Text = List ℕ

-- A literal's bytes, if it is ASCII.
abbrev pub text : String → Text
text String.[] = []
text (String.◌∷◌ c s) = code c ∷ text s

-- `a == b`
unfoldable pub eq_text : Text → Text → Bool
eq_text [] [] = true
eq_text (x ∷ xs) (y ∷ ys) = let rest = eq_text xs ys in if x == y then rest else false
eq_text _ _ = false

-- `a < b`: byte by byte.
unfoldable pub lt_text : Text → Text → Bool
lt_text _ [] = false
lt_text [] (y ∷ ys) = true
lt_text (x ∷ xs) (y ∷ ys) =
    let rest = lt_text xs ys in if ltb x y then true else if ltb y x then false else rest

pub eq_text_refl : (a : Text) → eq_text a a ≡ true
unfolding eq_text
eq_text_refl [] = refl
eq_text_refl (x ∷ xs) = ground (arith, eq_text_refl xs)

eq_text-eq : (a b : Text) → eq_text a b ≡ true → a ≡ b
unfolding eq_text
eq_text-eq [] [] h = refl
eq_text-eq [] (y ∷ ys) h = cc
eq_text-eq (x ∷ xs) [] h = cc
eq_text-eq (x ∷ xs) (y ∷ ys) h = ground (arith, eq_text-eq xs ys)

pub eq_text_iff : (a b : Text) → (eq_text a b ≡ true) ↔ (a ≡ b)
eq_text_iff a b = (eq_text-eq a b, λ e. subst (λ x. eq_text a x ≡ true) e (eq_text_refl a))

pub eq_text-empty : (s : Text) → eq_text s [] ≡ false → s ≢ []
eq_text-empty s e q = let k = (eq_text_iff s []).1 q in cc

-- `strings.HasPrefix(s, prefix)`, with the prefix first.
unfoldable pub starts_with : Text → Text → Bool
starts_with [] s = true
starts_with (x ∷ xs) [] = false
starts_with (x ∷ xs) (y ∷ ys) = let rest = starts_with xs ys in if x == y then rest else false

-- `strings.Contains(s, part)`, with the part first.
unfoldable pub contains : Text → Text → Bool
contains part [] = starts_with part []
contains part (c ∷ cs) =
    let rest = contains part cs in if starts_with part (c ∷ cs) then true else rest

-- The white space of ASCII.
abbrev pub is_space : ℕ → Bool
is_space c = (leb 9 c && leb c 13) || (c == 32)

unfoldable pub trim_left : Text → Text
trim_left [] = []
trim_left (c ∷ cs) = let rest = trim_left cs in if is_space c then rest else c ∷ cs

unfoldable pub trim_right : Text → Text
trim_right [] = []
trim_right (c ∷ cs) =
    let rest = trim_right cs in
    elim rest [ [] ↦ if is_space c then [] else c ∷ [] | d ∷ ds ↦ c ∷ d ∷ ds ]

-- `strings.TrimSpace`
unfoldable pub trim_space : Text → Text
trim_space s = trim_right (trim_left s)

-- `strings.ToLower`, of the letters of ASCII; every other byte stays.
abbrev pub lower_byte : ℕ → ℕ
lower_byte c = if leb b'A' c && leb c b'Z' then c + 32 else c

unfoldable pub to_lower : Text → Text
to_lower [] = []
to_lower (c ∷ cs) = lower_byte c ∷ to_lower cs

-- `strings.Split(s, sep)`, for a separator of one byte: at least one part.
unfoldable pub split_on : ℕ → Text → List Text
split_on sep [] = [] ∷ []
split_on sep (c ∷ cs) =
    let rest = split_on sep cs in
    if c == sep
    then [] ∷ rest
    else elim rest [ [] ↦ (c ∷ []) ∷ [] | part ∷ parts ↦ (c ∷ part) ∷ parts ]

-- `strings.Join(parts, sep)`
unfoldable pub join : Text → List Text → Text
join sep [] = []
join sep (s ∷ []) = s
join sep (s ∷ t ∷ ts) = s ++ (sep ++ join sep (t ∷ ts))

-- `slices.Contains`, or a lookup in a set of texts.
unfoldable pub one_of : Text → List Text → Bool
one_of s [] = false
one_of s (t ∷ ts) = let rest = one_of s ts in if eq_text s t then true else rest

pub one_of-Any : (s : Text) (ts : List Text) → one_of s ts ≡ true → Any (λ t. t ≡ s) ts
unfolding one_of
one_of-Any s [] h = cc
one_of-Any s (t ∷ ts) h = elim (Bool-cases (eq_text s t)) [
  | inl e ↦ inl (sym ((eq_text_iff s t).0 e))
  | inr e ↦ inr (one_of-Any s ts (ground (arith, h, e)))
]

pub Any-one_of : (s : Text) (ts : List Text) → Any (λ t. t ≡ s) ts → one_of s ts ≡ true
unfolding one_of
Any-one_of s (t ∷ ts) (inl q) = rw ((eq_text_iff s t).1 (sym q)) refl
Any-one_of s (t ∷ ts) (inr m) = ground (arith, Any-one_of s ts m)
Any-one_of s [] m = elim m [ ]

pub starts_with-append : (p s : Text) → starts_with p (p ++ s) ≡ true
unfolding starts_with
starts_with-append [] s = refl
starts_with-append (x ∷ xs) s = ground (arith, starts_with-append xs s)

pub starts_with-rest : (p s : Text) → starts_with p s ≡ true → (rest : Text) × (s ≡ p ++ rest)
unfolding starts_with
starts_with-rest [] s h = (s, refl)
starts_with-rest (x ∷ xs) [] h = cc
starts_with-rest (x ∷ xs) (y ∷ ys) h = elim (Bool-cases (x == y)) [
  | inl e ↦
      let (rest, q) = starts_with-rest xs ys (ground (arith, h, e)) in
      let same : x ≡ y = ground (arith, e) in (rest, cc)
  | inr e ↦ absurd (ground (arith, h, e))
]
