-- ===== src/Paging/Order.antt =====
-- The order of positions is a strict total order: by time, newest first, and then by id.
use quotapulse.Base.{◌≡◌, ◌≢◌, refl, true, false, [], ◌∷◌, arith}
use quotapulse.Base.Text.{Text, lt_text}
use quotapulse.Paging.{Position, before}

lt_text_irrefl : (a : Text) → lt_text a a ≡ false
unfolding lt_text
lt_text_irrefl [] = refl
lt_text_irrefl (x ∷ xs) = ground (arith, lt_text_irrefl xs)

lt_text_trans : (a b c : Text) → lt_text a b ≡ true → lt_text b c ≡ true → lt_text a c ≡ true
unfolding lt_text
lt_text_trans a b [] h k = cc
lt_text_trans a [] (z ∷ zs) h k = cc
lt_text_trans [] (y ∷ ys) (z ∷ zs) h k = refl
lt_text_trans (x ∷ xs) (y ∷ ys) (z ∷ zs) h k = ground (arith, lt_text_trans xs ys zs)

lt_text_total : (a b : Text) → lt_text a b ≡ false → lt_text b a ≡ false → a ≡ b
unfolding lt_text
lt_text_total [] [] h k = refl
lt_text_total [] (y ∷ ys) h k = cc
lt_text_total (x ∷ xs) [] h k = cc
lt_text_total (x ∷ xs) (y ∷ ys) h k = ground (arith, lt_text_total xs ys)

pub before_irrefl : (p : Position) → before p p ≡ false
unfolding before
before_irrefl p = ground (arith, lt_text_irrefl p.id)

pub before_trans : (p q r : Position) → before p q ≡ true → before q r ≡ true → before p r ≡ true
unfolding before
before_trans p q r h k = ground (arith, lt_text_trans r.id q.id p.id)

pub before_asym : (p q : Position) → before p q ≡ true → before q p ≡ false
before_asym p q h = ground (arith, before_trans p q p h, before_irrefl p)

pub before_total : (p q : Position) → p ≢ q → before p q ≡ false → before q p ≡ true
unfolding before
before_total p q ne h = ground (arith, lt_text_total p.id q.id, lt_text_total q.id p.id)
