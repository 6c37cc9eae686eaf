-- ===== src/Paging/Cut.antt =====
-- What `page_loop` returns, and what a cursor leaves of a list in order.
use quotapulse.Base.{
  ℕ, ◌+◌, ◌≡◌, ◌⊎◌, inl, inr, refl, sym, ap, ◌∙◌, Bool, true, false, none, some, List, [], ◌∷◌,
  ◌++◌, map, length, length-append, append_nil, append_step, All-front, filter, All, Bool-cases,
  ◌==◌, arith,
}
use quotapulse.Paging.{Position, Window, Entry, Page, before, is_shown, page_loop}
use quotapulse.Paging.Order.{before_irrefl, before_trans, before_asym}
use quotapulse.Paging.Sorting.{IsNewestFirst, All-weaken}

module _ {T : Type 0} where
  abbrev pub items_of : List (Entry T) → List T
  items_of es = map (λ e. e.item) es

  -- The position that a cursor after these entries carries.
  unfoldable pub end_of : Position → List (Entry T) → Position
  end_of last [] = last
  end_of last (e ∷ es) = end_of e.position es

  -- A page of what is shown, from `items` read so far: all of it, or a full page and a cursor.
  unfoldable pub IsCut : ℕ → Bool → List (Entry T) → List T → Position → Page T → Type 0
  IsCut limit capped shown items last p =
      (p ≡ record { items = items ++ items_of shown; next = none; truncated = capped })
      ⊎ ((done : List (Entry T)) × (rest : List (Entry T)) × (shown ≡ done ++ rest)
          × (length items + length done ≡ limit)
          × (p ≡ record {
            items = items ++ items_of done;
            next = some (end_of last done);
            truncated = false;
          }))

  page_passed :
      (w : Window) (limit : ℕ) (capped : Bool) (e : Entry T) (es : List (Entry T)) (items : List T)
      (last : Position)
      → is_shown w e ≡ false
      → page_loop w limit capped (e ∷ es) items last ≡ page_loop w limit capped es items last
  unfolding page_loop
  page_passed w limit capped e es items last h = rw h refl

  page_full :
      (w : Window) (limit : ℕ) (capped : Bool) (e : Entry T) (es : List (Entry T)) (items : List T)
      (last : Position)
      → is_shown w e ≡ true
      → (length items == limit) ≡ true
      → page_loop w limit capped (e ∷ es) items last
        ≡ record { items = items; next = some last; truncated = false }
  unfolding page_loop
  page_full w limit capped e es items last h k = rw (h, k) refl

  page_taken :
      (w : Window) (limit : ℕ) (capped : Bool) (e : Entry T) (es : List (Entry T)) (items : List T)
      (last : Position)
      → is_shown w e ≡ true
      → (length items == limit) ≡ false
      → page_loop w limit capped (e ∷ es) items last
        ≡ page_loop w limit capped es (items ++ e.item ∷ []) e.position
  unfolding page_loop
  page_taken w limit capped e es items last h k = rw (h, k) refl

  IsCut-taken :
      (limit : ℕ) (capped : Bool) (e : Entry T) (shown : List (Entry T)) (items : List T)
      (last : Position) (p : Page T)
      → IsCut limit capped shown (items ++ e.item ∷ []) e.position p
      → IsCut limit capped (e ∷ shown) items last p
  unfolding IsCut end_of
  IsCut-taken limit capped e shown items last p (inl h) = inl (
      h
      ∙ ap (λ xs. record { items = xs; next = none; truncated = capped })
          (append_step items e.item (items_of shown)))
  IsCut-taken limit capped e shown items last p (inr (done, rest, split, count, h)) = inr (
    e ∷ done,
    rest,
    ap (λ xs. e ∷ xs) split,
    omega (arith, count, length-append items (e.item ∷ [])),
    h
        ∙ ap (λ xs. record { items = xs; next = some (end_of e.position done); truncated = false })
            (append_step items e.item (items_of done)),
  )

  pub page_loop-IsCut :
      (w : Window) (limit : ℕ) (capped : Bool) (es : List (Entry T)) (items : List T)
      (last : Position)
      → IsCut limit capped
          (filter (is_shown w) es)
          items
          last
          (page_loop w limit capped es items last)
  page_loop-IsCut w limit capped [] items last =
      unfold IsCut page_loop in
      inl
        (ap (λ xs. record { items = xs; next = none; truncated = capped }) (sym (append_nil items)))
  page_loop-IsCut w limit capped (e ∷ es) items last = elim (Bool-cases (is_shown w e)) [
    | inr h ↦
        rw (h, page_passed w limit capped e es items last h)
          (page_loop-IsCut w limit capped es items last)
    | inl h ↦ elim (Bool-cases (length items == limit)) [
      | inl k ↦
          rw (h, page_full w limit capped e es items last h k)
            (unfold IsCut end_of in
              inr (
                [],
                e ∷ filter (is_shown w) es,
                refl,
                ground (arith, k),
                ap (λ xs. record { items = xs; next = some last; truncated = false })
                    (sym (append_nil items)),
              ))
      | inr k ↦
          rw (h, page_taken w limit capped e es items last h k)
            (IsCut-taken limit capped e (filter (is_shown w) es) items last _
              (page_loop-IsCut w limit capped es (items ++ e.item ∷ []) e.position))
    ]
  ]

  pub end_of-holds :
      (P : Position → Type 0) (last : Position) (es : List (Entry T))
      → P last
      → All (λ e. P e.position) es
      → P (end_of last es)
  unfolding end_of
  end_of-holds P last [] p h = p
  end_of-holds P last (e ∷ es) p h = end_of-holds P e.position es h.0 h.1

  -- In a list newest first, what a cursor after `done` leaves is the rest.
  unfoldable pub left_of : Position → List (Entry T) → List (Entry T)
  left_of c es = filter (λ e. before c e.position) es

  filter_whole :
      (keep : Entry T → Bool) (es : List (Entry T))
      → All (λ e. keep e ≡ true) es
      → filter keep es ≡ es
  filter_whole keep [] h = refl
  filter_whole keep (e ∷ es) h = rw h.0 (ap (λ xs. e ∷ xs) (filter_whole keep es h.1))

  front-IsNewestFirst : (xs ys : List (Entry T)) → IsNewestFirst (xs ++ ys) → IsNewestFirst xs
  unfolding IsNewestFirst
  front-IsNewestFirst [] ys s = tt
  front-IsNewestFirst (x ∷ xs) ys s = (
    All-front (λ d. before x.position d.position ≡ true) xs ys s.0,
    front-IsNewestFirst xs ys s.1,
  )

  before_end :
      (p : Position) (d : Entry T) (ds : List (Entry T))
      → before p d.position ≡ true
      → IsNewestFirst (d ∷ ds)
      → before p (end_of d.position ds) ≡ true
  unfolding IsNewestFirst
  before_end p d ds h s =
      end_of-holds (λ q. before p q ≡ true) d.position ds h
        (All-weaken (λ x. before d.position x.position ≡ true) (λ x. before p x.position ≡ true)
          (λ x k. before_trans p d.position x.position h k) ds s.0)

  pub left_of-append :
      (d : Entry T) (done rest : List (Entry T))
      → IsNewestFirst (d ∷ done ++ rest)
      → left_of (end_of d.position done) (d ∷ done ++ rest) ≡ rest
  unfolding IsNewestFirst left_of end_of
  left_of-append d [] rest s =
      rw (before_irrefl d.position) (filter_whole (λ e. before d.position e.position) rest s.0)
  left_of-append d (e ∷ done) rest s =
      rw
        (before_asym d.position (end_of e.position done)
          (before_end d.position e done s.0.0 (front-IsNewestFirst (e ∷ done) rest s.1)))
        (left_of-append e done rest s.1)
