-- ===== src/Paging/Sorting.antt =====
-- `sort_entries` puts entries newest first, if no two of them stand at one position.
use quotapulse.Base.{
  suc, length, ◌≡◌, ◌≢◌, inl, inr, refl, sym, Bool, true, false, List, [], ◌∷◌, filter, All,
  Bool-cases, arith,
}
use quotapulse.Paging.{Entry, before, insert, sort_entries}
use quotapulse.Paging.Order.{before_trans, before_total}

module _ {T : Type 0} where
  -- No two entries stand at one position.
  unfoldable pub IsDistinct : List (Entry T) → Type 0
  IsDistinct [] = Unit
  IsDistinct (e ∷ es) = All (λ d. e.position ≢ d.position) es × IsDistinct es

  unfoldable pub IsNewestFirst : List (Entry T) → Type 0
  IsNewestFirst [] = Unit
  IsNewestFirst (e ∷ es) = All (λ d. before e.position d.position ≡ true) es × IsNewestFirst es

  pub All-weaken :
      (P Q : Entry T → Type 0)
      → ((e : Entry T) → P e → Q e)
      → (es : List (Entry T)) → All P es
      → All Q es
  All-weaken P Q f [] h = tt
  All-weaken P Q f (e ∷ es) h = (f e h.0, All-weaken P Q f es h.1)

  insert_first :
      (e d : Entry T) (ds : List (Entry T))
      → before d.position e.position ≡ false
      → insert e (d ∷ ds) ≡ e ∷ d ∷ ds
  unfolding insert
  insert_first e d ds h = rw h refl

  insert_later :
      (e d : Entry T) (ds : List (Entry T))
      → before d.position e.position ≡ true
      → insert e (d ∷ ds) ≡ d ∷ insert e ds
  unfolding insert
  insert_later e d ds h = rw h refl

  insert-All :
      (P : Entry T → Type 0) (e : Entry T) (es : List (Entry T))
      → P e
      → All P es
      → All P (insert e es)
  insert-All P e [] p h = unfold insert in (p, tt)
  insert-All P e (d ∷ ds) p h = elim (Bool-cases (before d.position e.position)) [
    | inl b ↦ rw (insert_later e d ds b) (h.0, insert-All P e ds p h.1)
    | inr b ↦ rw (insert_first e d ds b) (p, h)
  ]

  insert-IsNewestFirst :
      (e : Entry T) (es : List (Entry T))
      → All (λ d. e.position ≢ d.position) es
      → IsNewestFirst es
      → IsNewestFirst (insert e es)
  unfolding IsNewestFirst
  insert-IsNewestFirst e [] ne s = unfold insert in (tt, tt)
  insert-IsNewestFirst e (d ∷ ds) ne s = elim (Bool-cases (before d.position e.position)) [
    | inl b ↦ rw (insert_later e d ds b) (
      insert-All (λ x. before d.position x.position ≡ true) e ds b s.0,
      insert-IsNewestFirst e ds ne.1 s.1,
    )
    | inr b ↦ rw (insert_first e d ds b) (
      let ahead : before e.position d.position ≡ true =
            before_total d.position e.position (λ q. ne.0 (sym q)) b in
          (
            ahead,
            All-weaken (λ x. before d.position x.position ≡ true)
                (λ x. before e.position x.position ≡ true)
                (λ x h. before_trans e.position d.position x.position ahead h) ds s.0,
          ),
      s,
    )
  ]

  sort_entries-All :
      (P : Entry T → Type 0) (es : List (Entry T)) → All P es → All P (sort_entries es)
  unfolding sort_entries
  sort_entries-All P [] h = tt
  sort_entries-All P (e ∷ es) h = insert-All P e (sort_entries es) h.0 (sort_entries-All P es h.1)

  pub sort_entries-IsNewestFirst :
      (es : List (Entry T)) → IsDistinct es → IsNewestFirst (sort_entries es)
  unfolding sort_entries IsDistinct
  sort_entries-IsNewestFirst [] h = unfold IsNewestFirst in tt
  sort_entries-IsNewestFirst (e ∷ es) h =
      insert-IsNewestFirst e (sort_entries es)
        (sort_entries-All (λ d. e.position ≢ d.position) es h.0) (sort_entries-IsNewestFirst es h.1)

  -- What a test keeps stays in order, and passes the test.
  filter-All :
      (P : Entry T → Type 0) (keep : Entry T → Bool) (es : List (Entry T))
      → All P es
      → All P (filter keep es)
  filter-All P keep [] h = tt
  filter-All P keep (e ∷ es) h = elim (Bool-cases (keep e)) [
    | inl k ↦ rw k (h.0, filter-All P keep es h.1)
    | inr k ↦ rw k (filter-All P keep es h.1)
  ]

  pub filter-IsNewestFirst :
      (keep : Entry T → Bool) (es : List (Entry T))
      → IsNewestFirst es
      → IsNewestFirst (filter keep es)
  unfolding IsNewestFirst
  filter-IsNewestFirst keep [] h = tt
  filter-IsNewestFirst keep (e ∷ es) h = elim (Bool-cases (keep e)) [
    | inl k ↦ rw k (
      filter-All (λ d. before e.position d.position ≡ true) keep es h.0,
      filter-IsNewestFirst keep es h.1,
    )
    | inr k ↦ rw k (filter-IsNewestFirst keep es h.1)
  ]

  pub filter_passes :
      (keep : Entry T → Bool) (es : List (Entry T)) → All (λ e. keep e ≡ true) (filter keep es)
  filter_passes keep [] = tt
  filter_passes keep (e ∷ es) = elim (Bool-cases (keep e)) [
    | inl k ↦ rw k (k, filter_passes keep es)
    | inr k ↦ rw k (filter_passes keep es)
  ]

  length-insert : (e : Entry T) (es : List (Entry T)) → length (insert e es) ≡ suc (length es)
  length-insert e [] = unfold insert in refl
  length-insert e (d ∷ ds) = elim (Bool-cases (before d.position e.position)) [
    | inl b ↦ rw (insert_later e d ds b) (omega (arith, length-insert e ds))
    | inr b ↦ rw (insert_first e d ds b) refl
  ]

  pub length-sort_entries : (es : List (Entry T)) → length (sort_entries es) ≡ length es
  unfolding sort_entries
  length-sort_entries [] = refl
  length-sort_entries (e ∷ es) =
      omega (arith, length-insert e (sort_entries es), length-sort_entries es)
