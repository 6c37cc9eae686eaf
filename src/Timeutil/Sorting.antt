-- ===== src/Timeutil/Sorting.antt =====
-- The order that `sort_clocks` gives.
use quotapulse.Base.{
  ◌≡◌, ◌⊎◌, ◌↔◌, inl, inr, refl, sym, subst, true, false, List, [], ◌∷◌, Bool-cases, arith,
}
use quotapulse.Timeutil.{ClockTime, clock_before, insert, sort_clocks}

unfoldable pub Mem : ClockTime → List ClockTime → Type 0
Mem c [] = ⊥
Mem c (d ∷ ds) = (c ≡ d) ⊎ Mem c ds

-- No time stands before one that it is later than.
unfoldable pub IsSorted : List ClockTime → Type 0
IsSorted [] = Unit
IsSorted (c ∷ cs) = ((d : ClockTime) → Mem d cs → clock_before d c ≡ false) × IsSorted cs

pub insert_first :
    (c d : ClockTime) (ds : List ClockTime)
    → clock_before c d ≡ true
    → insert c (d ∷ ds) ≡ c ∷ d ∷ ds
unfolding insert
insert_first c d ds e = rw e refl

pub insert_later :
    (c d : ClockTime) (ds : List ClockTime)
    → clock_before c d ≡ false
    → insert c (d ∷ ds) ≡ d ∷ insert c ds
unfolding insert
insert_later c d ds e = rw e refl

pub Mem-insert :
    (c x : ClockTime) (ds : List ClockTime) → Mem x (insert c ds) ↔ ((x ≡ c) ⊎ Mem x ds)
unfolding Mem
Mem-insert c x [] = unfold insert in (λ m. m, λ m. m)
Mem-insert c x (d ∷ ds) = elim (Bool-cases (clock_before c d)) [
  | inl e ↦ rw (insert_first c d ds e) (λ m. m, λ m. m)
  | inr e ↦ rw (insert_later c d ds e) (
    λ m. elim m [
      | inl h ↦ inr (inl h)
      | inr h ↦ elim ((Mem-insert c x ds).0 h) [ inl i ↦ inl i | inr i ↦ inr (inr i) ]
    ],
    λ m. elim m [
      | inl h ↦ inr ((Mem-insert c x ds).1 (inl h))
      | inr (inl h) ↦ inl h
      | inr (inr h) ↦ inr ((Mem-insert c x ds).1 (inr h))
    ],
  )
]

-- Sorting keeps the times.
pub Mem-sort_clocks : (x : ClockTime) (cs : List ClockTime) → Mem x (sort_clocks cs) ↔ Mem x cs
unfolding Mem sort_clocks
Mem-sort_clocks x [] = (λ m. m, λ m. m)
Mem-sort_clocks x (c ∷ cs) =
    let i = Mem-insert c x (sort_clocks cs) in
    let (back, forth) = Mem-sort_clocks x cs in
    (
      λ m. elim (i.0 m) [ inl h ↦ inl h | inr h ↦ inr (back h) ],
      λ m. i.1 (elim m [ inl h ↦ inl h | inr h ↦ inr (forth h) ]),
    )

insert-IsSorted : (c : ClockTime) (ds : List ClockTime) → IsSorted ds → IsSorted (insert c ds)
unfolding IsSorted Mem
insert-IsSorted c [] s = unfold insert in (λ d m. elim m [ ], tt)
insert-IsSorted c (d ∷ ds) s = elim (Bool-cases (clock_before c d)) [
  | inl e ↦ rw (insert_first c d ds e) (
    λ x m. elim m [
      | inl h ↦ subst (λ y. clock_before y c ≡ false) (sym h) (ground arith)
      | inr h ↦ ground (arith, s.0 x h)
    ],
    s,
  )
  | inr e ↦ rw (insert_later c d ds e) (
    λ x m. elim ((Mem-insert c x ds).0 m) [
      | inl h ↦ subst (λ y. clock_before y d ≡ false) (sym h) e
      | inr h ↦ s.0 x h
    ],
    insert-IsSorted c ds s.1,
  )
]

pub sort_clocks-IsSorted : (cs : List ClockTime) → IsSorted (sort_clocks cs)
unfolding IsSorted sort_clocks
sort_clocks-IsSorted [] = tt
sort_clocks-IsSorted (c ∷ cs) = insert-IsSorted c (sort_clocks cs) (sort_clocks-IsSorted cs)
