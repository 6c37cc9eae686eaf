-- ===== src/Base/Joined.antt =====
-- Texts that are joined with a separator and split again.
use Prim.Native.Nat.{ℕ}
use mathlib.Core.Path.{◌≡◌, refl, ap, ◌∙◌}
use mathlib.Core.Logic.{◌≢◌, inl, inr}
use mathlib.Core.Bool.{false}
use mathlib.Core.List.{List, [], ◌∷◌, ◌++◌}
use native.Mathlib.Omega.{arith}
use quotapulse.Base.Tests.{◌==◌, Bool-cases}
use quotapulse.Base.Lists.{All, All-append}
use quotapulse.Base.Text.{Text, is_space, trim_left, trim_right, trim_space, split_on, join}

-- A text without white space, and one without the separator.
abbrev pub IsInk : Text → Type 0
IsInk s = All (λ c. is_space c ≡ false) s

abbrev pub IsFree : ℕ → Text → Type 0
IsFree sep s = All (λ c. c ≢ sep) s

trim_left-ink : (s : Text) → IsInk s → trim_left s ≡ s
unfolding trim_left
trim_left-ink [] h = refl
trim_left-ink (c ∷ cs) h = rw h.0 refl

trim_right-ink : (s : Text) → IsInk s → trim_right s ≡ s
unfolding trim_right
trim_right-ink [] h = refl
trim_right-ink (c ∷ []) h = rw h.0 refl
trim_right-ink (c ∷ d ∷ ds) h = rw (trim_right, trim_right-ink (d ∷ ds) h.1) refl

pub trim_space-ink : (s : Text) → IsInk s → trim_space s ≡ s
unfolding trim_space
trim_space-ink s h = ap trim_right (trim_left-ink s h) ∙ trim_right-ink s h

split_on-free : (sep : ℕ) (s : Text) → IsFree sep s → split_on sep s ≡ s ∷ []
unfolding split_on
split_on-free sep [] h = refl
split_on-free sep (c ∷ cs) h = elim (Bool-cases (c == sep)) [
  | inl e ↦ ground (arith, e, h.0)
  | inr e ↦ rw (e, split_on-free sep cs h.1) refl
]

split_on-part :
    (sep : ℕ) (s rest : Text)
    → IsFree sep s
    → split_on sep (s ++ sep ∷ rest) ≡ s ∷ split_on sep rest
unfolding split_on
split_on-part sep [] rest h = elim (Bool-cases (sep == sep)) [
  | inl e ↦ rw e refl
  | inr e ↦ ground (arith, e)
]
split_on-part sep (c ∷ cs) rest h = elim (Bool-cases (c == sep)) [
  | inl e ↦ ground (arith, e, h.0)
  | inr e ↦ rw (e, split_on-part sep cs rest h.1) refl
]

pub split_on-join :
    (sep : ℕ) (p : Text) (ps : List Text)
    → IsFree sep p
    → All (IsFree sep) ps
    → split_on sep (join (sep ∷ []) (p ∷ ps)) ≡ p ∷ ps
unfolding join
split_on-join sep p [] h k = split_on-free sep p h
split_on-join sep p (q ∷ qs) h k =
    split_on-part sep p (join (sep ∷ []) (q ∷ qs)) h
    ∙ ap (λ ps. p ∷ ps) (split_on-join sep q qs k.0 k.1)

pub join-IsInk :
    (sep : ℕ) (ps : List Text) → is_space sep ≡ false → All IsInk ps → IsInk (join (sep ∷ []) ps)
unfolding join
join-IsInk sep [] h k = tt
join-IsInk sep (p ∷ []) h k = k.0
join-IsInk sep (p ∷ q ∷ qs) h k =
    All-append (λ c. is_space c ≡ false) p (sep ∷ join (sep ∷ []) (q ∷ qs)) k.0
      (h, join-IsInk sep (q ∷ qs) h k.1)
