-- ===== src/Paging/Pages.antt =====
-- A client that follows the cursors of `paginate` reads every entry of its window, each of them once.
use quotapulse.Base.{
  ℕ, zero, suc, ◌≤◌, ◌<◌, ◌≡◌, inl, inr, refl, sym, ap, subst, ◌∙◌, Bool, true, false, ◌&&◌, Option,
  none, some, List, [], ◌∷◌, ◌++◌, map, length, length-append, append_nil, length-filter,
  filter_agree, All-front, filter, All, Bool-cases, arith,
}
use quotapulse.Paging.{
  Position, Window, Entry, before, in_window, is_shown, past_cursor, sort_entries, paginate, origin,
}
use quotapulse.Paging.Order.{before_trans}
use quotapulse.Paging.Sorting.{
  IsDistinct, IsNewestFirst, All-weaken, sort_entries-IsNewestFirst, filter-IsNewestFirst,
  filter_passes, length-sort_entries,
}
use quotapulse.Paging.Cut.{
  items_of, end_of, IsCut, page_loop-IsCut, end_of-holds, left_of, left_of-append,
}

-- The window of the page after `c`.
unfoldable pub after_cursor : Window → Position → Window
after_cursor w c = record { since = w.since; until = w.until; after = some c }

-- A row that the cursor, if there is one, has not passed.
IsBehind : Option Position → Position → Type 0
IsBehind none p = Unit
IsBehind (some b) p = before b p ≡ true

-- A cursor that stands at a shown row shows what was shown and is behind it.
past_cursor-some :
    (o : Option Position) (inside : Bool) (c p : Position)
    → IsBehind o c
    → (inside && before c p) ≡ ((inside && past_cursor o p) && before c p)
unfolding IsBehind past_cursor
past_cursor-some none inside c p h = ground arith
past_cursor-some (some b) inside c p h = elim (Bool-cases (before c p)) [
  | inl k ↦ rw (k, before_trans b c p h k) (ground arith)
  | inr k ↦ rw k (ground arith)
]

past_cursor-IsBehind : (o : Option Position) (p : Position) → past_cursor o p ≡ true → IsBehind o p
unfolding IsBehind past_cursor
past_cursor-IsBehind none p h = tt
past_cursor-IsBehind (some b) p h = h

past_cursor-none :
    (b : Bool) (o : Option Position) (p : Position) → o ≡ none → (b && past_cursor o p) ≡ b
unfolding past_cursor
past_cursor-none b o p h = rw h (ground arith)

and_right : (a b : Bool) → (a && b) ≡ true → b ≡ true
and_right a b h = ground (arith, h)

module _ {T : Type 0} where
  shown_in : Window → List (Entry T) → List (Entry T)
  shown_in w es = filter (is_shown w) (sort_entries es)

  is_shown-after_cursor :
      (w : Window) (c : Position) (e : Entry T)
      → IsBehind w.after c
      → is_shown (after_cursor w c) e ≡ (is_shown w e && before c e.position)
  unfolding is_shown after_cursor in_window past_cursor
  is_shown-after_cursor w c e h = past_cursor-some w.after _ c e.position h

  is_shown-IsBehind : (w : Window) (e : Entry T) → is_shown w e ≡ true → IsBehind w.after e.position
  unfolding is_shown
  is_shown-IsBehind w e h =
      past_cursor-IsBehind w.after e.position (and_right (in_window w e.position.at) _ h)

  filter-both :
      (f g k : Entry T → Bool) (es : List (Entry T))
      → ((e : Entry T) → f e ≡ (g e && k e))
      → filter f es ≡ filter k (filter g es)
  filter-both f g k [] h = refl
  filter-both f g k (e ∷ es) h = elim (Bool-cases (g e)) [
    | inr q ↦ rw (h e, q) (filter-both f g k es h)
    | inl q ↦ elim (Bool-cases (k e)) [
      | inl r ↦ rw (h e, q, r) (ap (λ xs. e ∷ xs) (filter-both f g k es h))
      | inr r ↦ rw (h e, q, r) (filter-both f g k es h)
    ]
  ]

  -- The requests of a client that follows the cursors: what it has read in the end.
  pub follow : ℕ → List (Entry T) → Window → ℕ → Bool → List T
  follow zero es w limit capped = []
  follow (suc fuel) es w limit capped =
      let p = paginate es w limit capped in
      p.items
      ++ (elim p.next [ none ↦ [] | some c ↦ follow fuel es (after_cursor w c) limit capped ])

  end-IsBehind :
      (w : Window) (es : List (Entry T)) (d : Entry T) (done rest : List (Entry T))
      → shown_in w es ≡ d ∷ done ++ rest
      → IsBehind w.after (end_of d.position done)
  unfolding shown_in
  end-IsBehind w es d done rest split =
      let shown : All (λ e. IsBehind w.after e.position) (d ∷ done ++ rest) =
        All-weaken (λ e. is_shown w e ≡ true) (λ e. IsBehind w.after e.position)
          (is_shown-IsBehind w) (d ∷ done ++ rest)
          (subst (All (λ e. is_shown w e ≡ true)) split
            (filter_passes (is_shown w) (sort_entries es))) in
      end_of-holds (IsBehind w.after) d.position done shown.0
        (All-front (λ e. IsBehind w.after e.position) done rest shown.1)

  shown_in-after_cursor :
      (w : Window) (es : List (Entry T)) (d : Entry T) (done rest : List (Entry T))
      → IsDistinct es
      → shown_in w es ≡ d ∷ done ++ rest
      → shown_in (after_cursor w (end_of d.position done)) es ≡ rest
  unfolding shown_in left_of
  shown_in-after_cursor w es d done rest distinct split =
      filter-both (is_shown (after_cursor w (end_of d.position done))) (is_shown w)
        (λ e. before (end_of d.position done) e.position) (sort_entries es)
        (λ e.
          is_shown-after_cursor w (end_of d.position done) e (end-IsBehind w es d done rest split))
      ∙ ap (left_of (end_of d.position done)) split
      ∙ left_of-append d done rest (
          subst IsNewestFirst split (
            filter-IsNewestFirst (is_shown w) (sort_entries es)
              (sort_entries-IsNewestFirst es distinct)))

  -- One request, when it returns everything that is left.
  follow-all :
      (fuel : ℕ) (es : List (Entry T)) (w : Window) (limit : ℕ) (capped : Bool)
      → paginate es w limit capped
        ≡ record { items = items_of (shown_in w es); next = none; truncated = capped }
      → follow (suc fuel) es w limit capped ≡ items_of (shown_in w es)
  unfolding follow
  follow-all fuel es w limit capped h = rw h (append_nil (items_of (shown_in w es)))

  -- One request, when a cursor remains.
  follow-more :
      (fuel : ℕ) (es : List (Entry T)) (w : Window) (limit : ℕ) (capped : Bool) (items : List T)
      (c : Position)
      → paginate es w limit capped ≡ record { items = items; next = some c; truncated = false }
      → follow (suc fuel) es w limit capped
        ≡ items ++ follow fuel es (after_cursor w c) limit capped
  unfolding follow
  follow-more fuel es w limit capped items c h = rw h refl

  items_of-append : (xs ys : List (Entry T)) → items_of xs ++ items_of ys ≡ items_of (xs ++ ys)
  items_of-append [] ys = refl
  items_of-append (x ∷ xs) ys = ap (λ zs. x.item ∷ zs) (items_of-append xs ys)

  -- The step of the theorem below: a page with a cursor, then the pages after it.
  follow-split :
      (fuel : ℕ) (es : List (Entry T)) (w : Window) (limit : ℕ) (capped : Bool) (d : Entry T)
      (done rest : List (Entry T))
      → IsDistinct es
      → shown_in w es ≡ d ∷ done ++ rest
      → paginate es w limit capped ≡ record {
        items = items_of (d ∷ done);
        next = some (end_of d.position done);
        truncated = false;
      }
      → follow fuel es (after_cursor w (end_of d.position done)) limit capped
        ≡ items_of (shown_in (after_cursor w (end_of d.position done)) es)
      → follow (suc fuel) es w limit capped ≡ items_of (shown_in w es)
  follow-split fuel es w limit capped d done rest distinct split page later =
      follow-more fuel es w limit capped (items_of (d ∷ done)) (end_of d.position done) page
      ∙ ap (λ xs. items_of (d ∷ done) ++ xs)
          (later ∙ ap items_of (shown_in-after_cursor w es d done rest distinct split))
      ∙ items_of-append (d ∷ done) rest
      ∙ ap items_of (sym split)

  split_length :
      (w : Window) (es : List (Entry T)) (d : Entry T) (done rest : List (Entry T))
      → shown_in w es ≡ d ∷ done ++ rest
      → length rest < length (shown_in w es)
  split_length w es d done rest split = rw split (omega (arith, length-append done rest))

  follow-shown :
      (fuel : ℕ) (es : List (Entry T)) (w : Window) (limit : ℕ) (capped : Bool)
      → IsDistinct es
      → 1 ≤ limit
      → length (shown_in w es) < fuel
      → follow fuel es w limit capped ≡ items_of (shown_in w es)
  unfolding end_of IsCut shown_in paginate
  follow-shown zero es w limit capped distinct h k = ground (arith, k)
  follow-shown (suc fuel) es w limit capped distinct h k =
      let cut : IsCut limit capped (shown_in w es) [] origin (paginate es w limit capped) =
        page_loop-IsCut w limit capped (sort_entries es) [] origin in
      elim cut [
        | inl page ↦ follow-all fuel es w limit capped page
        | inr ([], rest, split, count, page) ↦ ground (arith, h, count)
        | inr (d ∷ done, rest, split, count, page) ↦
            follow-split fuel es w limit capped d done rest distinct split page (
              follow-shown fuel es (after_cursor w (end_of d.position done)) limit capped distinct h
                (rw (shown_in-after_cursor w es d done rest distinct split) omega
                  (arith, k, split_length w es d done rest split)))
      ]

  shown_in-first_page :
      (es : List (Entry T)) (w : Window)
      → w.after ≡ none
      → shown_in w es ≡ filter (λ e. in_window w e.position.at) (sort_entries es)
  unfolding shown_in is_shown
  shown_in-first_page es w h =
      filter_agree (is_shown w) (λ e. in_window w e.position.at) (sort_entries es)
        (λ e. past_cursor-none (in_window w e.position.at) w.after e.position h)

  -- A client that starts without a cursor and follows each page's cursor reads, with more requests than
  -- there are entries and pages of at least one row, every entry of the window once, newest first, if
  -- no two entries stand at one position.
  pub follow_reads_window :
      (es : List (Entry T)) (w : Window) (limit : ℕ) (capped : Bool) (fuel : ℕ)
      → IsDistinct es
      → w.after ≡ none
      → 1 ≤ limit
      → length es < fuel
      → follow fuel es w limit capped
        ≡ map (λ e. e.item) (filter (λ e. in_window w e.position.at) (sort_entries es))
  unfolding shown_in
  follow_reads_window es w limit capped fuel distinct first h k =
      follow-shown fuel es w limit capped distinct h
        (omega (arith, k, length-filter (is_shown w) (sort_entries es), length-sort_entries es))
      ∙ ap items_of (shown_in-first_page es w first)
