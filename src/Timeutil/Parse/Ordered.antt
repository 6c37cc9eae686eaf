-- ===== src/Timeutil/Parse/Ordered.antt =====
-- Times of day in order, each once: what sorting makes of a list without repetitions.
use quotapulse.Base.{
  ◌≡◌, ◌≢◌, ◌⊎◌, ◌↔◌, inl, inr, refl, sym, subst, true, false, ◌&&◌, List, [], ◌∷◌, ◌++◌, ◌==◌, All,
  Bool-cases, arith,
}
use quotapulse.Timeutil.{ClockTime, IsClock, clock_before, insert, sort_clocks}
use quotapulse.Timeutil.Sorting.{Mem, insert_first, insert_later, Mem-insert, Mem-sort_clocks}
use quotapulse.Timeutil.Parse.{seen}

unfoldable pub IsIncreasing : List ClockTime → Type 0
IsIncreasing [] = Unit
IsIncreasing (c ∷ cs) = ((d : ClockTime) → Mem d cs → clock_before c d ≡ true) × IsIncreasing cs

unfoldable pub IsNew : List ClockTime → Type 0
IsNew [] = Unit
IsNew (c ∷ cs) = (Mem c cs → ⊥) × IsNew cs

clock_total : (c d : ClockTime) → c ≢ d → clock_before c d ≡ false → clock_before d c ≡ true
clock_total c d ne h = ground (arith, h)

clock_trans :
    (c d e : ClockTime)
    → clock_before c d ≡ true
    → clock_before d e ≡ true
    → clock_before c e ≡ true
clock_trans c d e h k = ground (arith, h, k)

insert-IsIncreasing :
    (c : ClockTime) (ds : List ClockTime)
    → (Mem c ds → ⊥)
    → IsIncreasing ds
    → IsIncreasing (insert c ds)
unfolding IsIncreasing Mem
insert-IsIncreasing c [] new s = unfold insert in (λ d m. elim m [ ], tt)
insert-IsIncreasing c (d ∷ ds) new s = elim (Bool-cases (clock_before c d)) [
  | inl e ↦ rw (insert_first c d ds e) (
    λ x m. elim m [
      | inl h ↦ subst (λ y. clock_before c y ≡ true) (sym h) e
      | inr h ↦ clock_trans c d x e (s.0 x h)
    ],
    s,
  )
  | inr e ↦ rw (insert_later c d ds e) (
    λ x m. elim ((Mem-insert c x ds).0 m) [
      | inl h ↦ subst (λ y. clock_before d y ≡ true) (sym h) (clock_total c d (λ q. new (inl q)) e)
      | inr h ↦ s.0 x h
    ],
    insert-IsIncreasing c ds (λ m. new (inr m)) s.1,
  )
]

pub sort_clocks-IsIncreasing : (cs : List ClockTime) → IsNew cs → IsIncreasing (sort_clocks cs)
unfolding sort_clocks IsIncreasing IsNew
sort_clocks-IsIncreasing [] h = tt
sort_clocks-IsIncreasing (c ∷ cs) h =
    insert-IsIncreasing c (sort_clocks cs) (λ m. h.0 ((Mem-sort_clocks c cs).0 m))
      (sort_clocks-IsIncreasing cs h.1)

pub Mem-append :
    (x c : ClockTime) (cs : List ClockTime) → Mem x (cs ++ c ∷ []) ↔ (Mem x cs ⊎ (x ≡ c))
unfolding Mem
Mem-append x c [] =
    (λ m. elim m [ inl h ↦ inr h | inr h ↦ inl h ], λ m. elim m [ inl h ↦ inr h | inr h ↦ inl h ])
Mem-append x c (d ∷ cs) = (
  λ m. elim m [
    | inl h ↦ inl (inl h)
    | inr h ↦ elim ((Mem-append x c cs).0 h) [ inl k ↦ inl (inr k) | inr k ↦ inr k ]
  ],
  λ m. elim m [
    | inl (inl h) ↦ inl h
    | inl (inr h) ↦ inr ((Mem-append x c cs).1 (inl h))
    | inr h ↦ inr ((Mem-append x c cs).1 (inr h))
  ],
)

pub append-IsNew :
    (c : ClockTime) (cs : List ClockTime) → (Mem c cs → ⊥) → IsNew cs → IsNew (cs ++ c ∷ [])
unfolding IsNew Mem
append-IsNew c [] new h = (λ m. m, tt)
append-IsNew c (d ∷ cs) new h = (
  λ m. elim ((Mem-append d c cs).0 m) [ inl k ↦ h.0 k | inr k ↦ new (inl (sym k)) ],
  append-IsNew c cs (λ m. new (inr m)) h.1,
)

eq_clock_iff : (c d : ClockTime) → (((d.hour == c.hour) && (d.minute == c.minute)) ≡ true) ↔ (c ≡ d)
eq_clock_iff c d = (λ h. ground (arith, h), λ q. rw q (ground arith))

pub seen_iff : (c : ClockTime) (cs : List ClockTime) → (seen c cs ≡ true) ↔ Mem c cs
unfolding seen Mem
seen_iff c [] = (λ h. cc, λ m. elim m [ ])
seen_iff c (d ∷ cs) = elim (Bool-cases ((d.hour == c.hour) && (d.minute == c.minute))) [
  | inl e ↦ rw e (λ h. inl ((eq_clock_iff c d).0 e), λ m. refl)
  | inr e ↦ rw e (
    λ h. inr ((seen_iff c cs).0 h),
    λ m. elim m [ inl q ↦ let k = (eq_clock_iff c d).1 q in cc | inr k ↦ (seen_iff c cs).1 k ],
  )
]

insert-All :
    (c : ClockTime) (cs : List ClockTime) → IsClock c → All IsClock cs → All IsClock (insert c cs)
insert-All c [] k h = unfold insert in (k, tt)
insert-All c (d ∷ ds) k h = elim (Bool-cases (clock_before c d)) [
  | inl e ↦ rw (insert_first c d ds e) (k, h)
  | inr e ↦ rw (insert_later c d ds e) (h.0, insert-All c ds k h.1)
]

pub sort_clocks-All : (cs : List ClockTime) → All IsClock cs → All IsClock (sort_clocks cs)
unfolding sort_clocks
sort_clocks-All [] h = tt
sort_clocks-All (c ∷ cs) h = insert-All c (sort_clocks cs) h.0 (sort_clocks-All cs h.1)
