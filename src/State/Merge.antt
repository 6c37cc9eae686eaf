-- ===== src/State/Merge.antt =====
-- A partial refresh puts each result in the place of its project: the map of places in
-- `MergeBalance` against a pass over the list for each result.
use quotapulse.Base.{
  ℕ, zero, suc, ◌+◌, ◌≡◌, refl, sym, ◌∙◌, subst, false, Option, none, some, List, [], ◌∷◌, ◌++◌,
  if◌then◌else◌, length, Bool-cases, Option-cases, inl, inr, arith,
}
use quotapulse.Base.Text.{Text, eq_text, eq_text_iff, eq_text_refl}
use quotapulse.State.{CheckResult, set, index_from, place, merge_loop, merge}

module _ {D : Type 0} where
  -- The first place of a project's name.
  unfoldable pub find_place : Text → List (CheckResult D) → Option ℕ
  find_place name [] = none
  find_place name (p ∷ ps) =
      let rest = find_place name ps in
      if eq_text p.project name then some 0 else elim rest [ none ↦ none | some i ↦ some (suc i) ]

  -- Each name once.
  unfoldable pub IsDistinct : List (CheckResult D) → Type 0
  IsDistinct [] = Unit
  IsDistinct (p ∷ ps) = (find_place p.project ps ≡ none) × IsDistinct ps

  -- One result put in the place of its project, or at the end.
  unfoldable pub upsert : CheckResult D → List (CheckResult D) → List (CheckResult D)
  upsert r [] = r ∷ []
  upsert r (p ∷ ps) =
      let rest = upsert r ps in if eq_text p.project r.project then r ∷ ps else p ∷ rest

  unfoldable pub upserts : List (CheckResult D) → List (CheckResult D) → List (CheckResult D)
  upserts [] old = old
  upserts (r ∷ rs) old = upserts rs (upsert r old)

  upsert-replaces :
      (r : CheckResult D) (ps : List (CheckResult D)) (i : ℕ)
      → find_place r.project ps ≡ some i
      → set ps i r ≡ upsert r ps
  unfolding find_place upsert set
  upsert-replaces r [] i h = cc
  upsert-replaces r (p ∷ ps) zero h = ground arith
  upsert-replaces r (p ∷ ps) (suc i) h = ground (arith, upsert-replaces r ps i)

  upsert-appends :
      (r : CheckResult D) (ps : List (CheckResult D))
      → find_place r.project ps ≡ none
      → ps ++ r ∷ [] ≡ upsert r ps
  unfolding find_place upsert
  upsert-appends r [] h = refl
  upsert-appends r (p ∷ ps) h = ground (arith, upsert-appends r ps)

  find_place-upsert :
      (r : CheckResult D) (name : Text) (ps : List (CheckResult D))
      → find_place name (upsert r ps) ≡ elim (find_place name ps) [
        | some i ↦ some i
        | none ↦ if eq_text r.project name then some (length ps) else none
      ]
  unfolding find_place upsert
  find_place-upsert r name [] = ground arith
  find_place-upsert r name (p ∷ ps) = elim (Bool-cases (eq_text p.project r.project)) [
    | inl e ↦ rw ((eq_text_iff _ _).0 e, eq_text_refl r.project) ground arith
    | inr e ↦ ground (arith, find_place-upsert r name ps)
  ]

  upsert-IsDistinct :
      (r : CheckResult D) (ps : List (CheckResult D)) → IsDistinct ps → IsDistinct (upsert r ps)
  unfolding IsDistinct upsert find_place
  upsert-IsDistinct r [] h = (refl, tt)
  upsert-IsDistinct r (p ∷ ps) h = elim (Bool-cases (eq_text p.project r.project)) [
    | inl e ↦ rw e (subst (λ n. find_place n ps ≡ none) ((eq_text_iff _ _).0 e) h.0, h.1)
    | inr e ↦ rw e (apart e, upsert-IsDistinct r ps h.1)
  ]
    where
      apart : eq_text p.project r.project ≡ false → find_place p.project (upsert r ps) ≡ none
      apart e = ground (
        arith,
        find_place-upsert r p.project ps,
        h.0,
        eq_text_iff r.project p.project,
        eq_text_refl r.project,
      )

  -- The map of places names the place of each project of the list.
  abbrev IsIndex : List (Text × ℕ) → List (CheckResult D) → Type 0
  IsIndex index ps = (name : Text) → place index name ≡ find_place name ps

  place-index_from :
      (i : ℕ) (ps : List (CheckResult D)) (index : List (Text × ℕ)) (name : Text)
      → IsDistinct ps
      → place (index_from i ps index) name
        ≡ elim (find_place name ps) [ some k ↦ some (i + k) | none ↦ place index name ]
  unfolding IsDistinct place index_from find_place
  place-index_from i [] index name h = refl
  place-index_from i (p ∷ ps) index name h = elim (Bool-cases (eq_text p.project name)) [
    | inl e ↦ ground (
      arith,
      place-index_from (suc i) ps ((p.project, i) ∷ index) name h.1,
      (eq_text_iff p.project name).0 e,
      h.0,
    )
    | inr e ↦ ground (arith, place-index_from (suc i) ps ((p.project, i) ∷ index) name h.1)
  ]

  loop_appends :
      (r : CheckResult D) (rs ps : List (CheckResult D)) (index : List (Text × ℕ))
      → place index r.project ≡ none
      → merge_loop (r ∷ rs) ps index ≡ merge_loop rs (ps ++ r ∷ []) ((r.project, length ps) ∷ index)
  unfolding merge_loop
  loop_appends r rs ps index e = rw (e, merge_loop) refl

  loop_replaces :
      (r : CheckResult D) (rs ps : List (CheckResult D)) (index : List (Text × ℕ)) (i : ℕ)
      → place index r.project ≡ some i
      → merge_loop (r ∷ rs) ps index ≡ merge_loop rs (set ps i r) index
  unfolding merge_loop
  loop_replaces r rs ps index i e = rw (e, merge_loop) refl

  -- The loop is a pass over the list for each result, as long as the map is right.
  merge_loop-upserts :
      (rs ps : List (CheckResult D)) (index : List (Text × ℕ))
      → IsIndex index ps
      → merge_loop rs ps index ≡ upserts rs ps
  unfolding upserts place
  merge_loop-upserts [] ps index h = unfold merge_loop in refl
  merge_loop-upserts (r ∷ rs) ps index h = elim (Option-cases (place index r.project)) [
    | inl e ↦
        rw (loop_appends r rs ps index e, upsert-appends r ps (sym (h r.project) ∙ e))
          (merge_loop-upserts rs (upsert r ps) ((r.project, length ps) ∷ index) (added e))
    | inr (i, e) ↦
        rw (loop_replaces r rs ps index i e, upsert-replaces r ps i (sym (h r.project) ∙ e))
          (merge_loop-upserts rs (upsert r ps) index (kept i e))
  ]
    where
      added : place index r.project ≡ none → IsIndex ((r.project, length ps) ∷ index) (upsert r ps)
      added e name =
          ground (
            arith,
            find_place-upsert r name ps,
            h name,
            h r.project,
            (eq_text_iff r.project name).0,
          )

      kept : (i : ℕ) → place index r.project ≡ some i → IsIndex index (upsert r ps)
      kept i e name =
          ground (
            arith,
            find_place-upsert r name ps,
            h name,
            h r.project,
            (eq_text_iff r.project name).0,
          )

  -- If the dashboard has each project once, a partial refresh is a pass over it for each result in
  -- turn, which puts the result in the place of its project, or at the end if the project is new.
  pub merge-upserts :
      (old rs : List (CheckResult D)) → IsDistinct old → merge old rs ≡ upserts rs old
  unfolding merge place
  merge-upserts old rs h =
      merge_loop-upserts rs old _ (λ name. ground (arith, place-index_from 0 old [] name h))

  upserts-IsDistinct : (rs ps : List (CheckResult D)) → IsDistinct ps → IsDistinct (upserts rs ps)
  unfolding upserts
  upserts-IsDistinct [] ps h = h
  upserts-IsDistinct (r ∷ rs) ps h = upserts-IsDistinct rs _ (upsert-IsDistinct r ps h)

  -- A partial refresh of a list with each project once leaves each project once.
  pub merge-IsDistinct :
      (old rs : List (CheckResult D)) → IsDistinct old → IsDistinct (merge old rs)
  merge-IsDistinct old rs h = rw (merge-upserts old rs h) (upserts-IsDistinct rs old h)
