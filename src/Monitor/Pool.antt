-- ===== src/Monitor/Pool.antt =====
-- The worker pool of `checkAll` in internal/monitor/monitor.go. The workers take the projects in any
-- order; a check is one step of what they share.
use quotapulse.Base.{
  ℕ, zero, suc, ◌<◌, ◌≡◌, ◌≢◌, ◌⊎◌, inl, inr, refl, sym, subst, ◌∙◌, ap, Bool, false, Option, none,
  some, List, [], ◌∷◌, length, Any, ◌==◌, ==_iff, Bool-cases, Option-cases, arith,
}
use quotapulse.Runway.{Floats}
use quotapulse.Store.{AlertStore}
use quotapulse.Monitor.Account.{Project}
use quotapulse.Monitor.{
  CheckResult, Attempt, Monitor, World, alert_unless, failure, judge, fetch, check_project,
}

abbrev pub get_elem? {ℓ} : {A : Type ℓ} → List A → ℕ → Option A
get_elem? [] i = none
get_elem? (x ∷ xs) zero = some x
get_elem? (x ∷ xs) (suc i) = get_elem? xs i

-- `results[i] = …`
abbrev pub set {ℓ} : {A : Type ℓ} → List A → ℕ → A → List A
set [] i v = []
set (x ∷ xs) zero v = v ∷ xs
set (x ∷ xs) (suc i) v = x ∷ set xs i v

-- `make([]model.CheckResult, n)`: `none` is a result that no worker has written.
abbrev pub unwritten {ℓ} : {A : Type ℓ} → ℕ → List (Option A)
unwritten zero = []
unwritten (suc n) = none ∷ unwritten n

length-set {ℓ} : {A : Type ℓ} (xs : List A) (i : ℕ) (v : A) → length (set xs i v) ≡ length xs
length-set [] i v = refl
length-set (x ∷ xs) zero v = refl
length-set (x ∷ xs) (suc i) v = ap suc (length-set xs i v)

get_elem?-set_self {ℓ} :
    {A : Type ℓ} (xs : List A) (i : ℕ) (v : A) → i < length xs → get_elem? (set xs i v) i ≡ some v
get_elem?-set_self [] i v h = absurd (omega arith)
get_elem?-set_self (x ∷ xs) zero v h = refl
get_elem?-set_self (x ∷ xs) (suc i) v h = get_elem?-set_self xs i v (omega arith)

get_elem?-set_ne {ℓ} :
    {A : Type ℓ} (xs : List A) (i j : ℕ) (v : A) → i ≢ j → get_elem? (set xs i v) j ≡ get_elem? xs j
get_elem?-set_ne [] i j v h = refl
get_elem?-set_ne (x ∷ xs) zero zero v h = absurd (h refl)
get_elem?-set_ne (x ∷ xs) zero (suc j) v h = refl
get_elem?-set_ne (x ∷ xs) (suc i) zero v h = refl
get_elem?-set_ne (x ∷ xs) (suc i) (suc j) v h = get_elem?-set_ne xs i j v (λ e. h (ap suc e))

module _ (A : AlertStore) (M : Floats) (m : Monitor) (dry_run : Bool) (ps : List (Project M)) where
  -- The checks in the order in which the workers run them, each with its place.
  unfoldable pub run_jobs :
      List (ℕ × Attempt M)
      → World A M m
      → List (Option (CheckResult M))
      → World A M m × List (Option (CheckResult M))
  run_jobs [] w results = (w, results)
  run_jobs ((i, a) ∷ jobs) w results = elim (get_elem? ps i) [
    | none ↦ run_jobs jobs w results
    | some p ↦
        (let c = check_project A M m dry_run p a w in
          run_jobs jobs c.world (set results i (some c.result)))
  ]

  unfoldable pub check_all :
      List (ℕ × Attempt M) → World A M m → World A M m × List (Option (CheckResult M))
  check_all jobs w = run_jobs jobs w (unwritten (length ps))

  check_project_name :
      (p : Project M) (a : Attempt M) (w : World A M m)
      → (check_project A M m dry_run p a w).result.project ≡ p.name
  unfolding check_project failure alert_unless judge fetch
  check_project_name p a w = ground arith

  -- A place that holds the result of its project.
  abbrev IsWritten : List (Option (CheckResult M)) → ℕ → Project M → Type 0
  IsWritten results i p =
      (r : CheckResult M) × (get_elem? results i ≡ some (some r)) × (r.project ≡ p.name)

  length-run_jobs :
      (jobs : List (ℕ × Attempt M)) (w : World A M m) (results : List (Option (CheckResult M)))
      → length (run_jobs jobs w results).1 ≡ length results
  unfolding run_jobs
  length-run_jobs [] w results = refl
  length-run_jobs ((i, a) ∷ jobs) w results = elim (Option-cases (get_elem? ps i)) [
    | inl e ↦ rw (e, run_jobs) (length-run_jobs jobs w results)
    | inr (p, e) ↦ rw (e, run_jobs) (length-run_jobs jobs _ _ ∙ length-set results i _)
  ]

  run_jobs_skips :
      (i : ℕ) (a : Attempt M) (jobs : List (ℕ × Attempt M)) (w : World A M m)
      → (results : List (Option (CheckResult M))) → get_elem? ps i ≡ none
      → run_jobs ((i, a) ∷ jobs) w results ≡ run_jobs jobs w results
  unfolding run_jobs
  run_jobs_skips i a jobs w results e = rw (e, run_jobs) refl

  run_jobs_writes :
      (i : ℕ) (a : Attempt M) (jobs : List (ℕ × Attempt M)) (w : World A M m)
      → (results : List (Option (CheckResult M))) (p : Project M) → get_elem? ps i ≡ some p
      → let c = check_project A M m dry_run p a w in
        run_jobs ((i, a) ∷ jobs) w results ≡ run_jobs jobs c.world (set results i (some c.result))
  unfolding run_jobs
  run_jobs_writes i a jobs w results p e = rw (e, run_jobs) refl

  run_jobs-IsWritten :
      (jobs : List (ℕ × Attempt M)) (w : World A M m) (results : List (Option (CheckResult M)))
      → (i : ℕ) (p : Project M) → get_elem? ps i ≡ some p
      → i < length results
      → Any (λ x. x.0 ≡ i) jobs ⊎ IsWritten results i p
      → IsWritten (run_jobs jobs w results).1 i p
  run_jobs-IsWritten [] w results i p e lt (inl h) = elim h [ ]
  run_jobs-IsWritten [] w results i p e lt (inr h) = unfold run_jobs in h
  run_jobs-IsWritten ((j, a) ∷ jobs) w results i p e lt h = elim (Bool-cases (j == i)) [
    | inl same ↦
        subst (λ o. IsWritten o.1 i p)
          (sym (run_jobs_writes j a jobs w results p (at ((==_iff j i).0 same))))
          (run_jobs-IsWritten jobs _ (set results j _) i p e
            (omega (arith, lt, length-set results j _)) (inr (written ((==_iff j i).0 same))))
    | inr other ↦ elim (Option-cases (get_elem? ps j)) [
      | inl out ↦
          subst (λ o. IsWritten o.1 i p) (sym (run_jobs_skips j a jobs w results out))
            (run_jobs-IsWritten jobs w results i p e lt (rest (apart other) h))
      | inr (q, f) ↦
          subst (λ o. IsWritten o.1 i p) (sym (run_jobs_writes j a jobs w results q f))
            (run_jobs-IsWritten jobs _ (set results j _) i p e
              (omega (arith, lt, length-set results j _))
              (kept (apart other) _ (rest (apart other) h)))
    ]
  ]
    where
      apart : (j == i) ≡ false → j ≢ i
      apart f same = cc ((==_iff j i).1 same)

      at : j ≡ i → get_elem? ps j ≡ some p
      at same = rw same e

      written :
          j ≡ i → IsWritten (set results j (some (check_project A M m dry_run p a w).result)) i p
      written same = (
        (check_project A M m dry_run p a w).result,
        ap (get_elem? (set results j (some (check_project A M m dry_run p a w).result))) (sym same)
            ∙ get_elem?-set_self results j _ (rw same lt),
        check_project_name p a w,
      )

      rest :
          j ≢ i
          → Any (λ x. x.0 ≡ i) ((j, a) ∷ jobs) ⊎ IsWritten results i p
          → Any (λ x. x.0 ≡ i) jobs ⊎ IsWritten results i p
      rest ne (inl (inl k)) = absurd (ne k)
      rest ne (inl (inr k)) = inl k
      rest ne (inr k) = inr k

      kept :
          j ≢ i
          → (r : Option (CheckResult M)) → Any (λ x. x.0 ≡ i) jobs ⊎ IsWritten results i p
          → Any (λ x. x.0 ≡ i) jobs ⊎ IsWritten (set results j r) i p
      kept ne r (inl k) = inl k
      kept ne r (inr (x, f, n)) = inr (x, get_elem?-set_ne results j i r ne ∙ f, n)

  get_elem?-lt :
      (xs : List (Project M)) (i : ℕ) (p : Project M) → get_elem? xs i ≡ some p → i < length xs
  get_elem?-lt [] i p e = cc
  get_elem?-lt (x ∷ xs) zero p e = omega arith
  get_elem?-lt (x ∷ xs) (suc i) p e = omega (arith, get_elem?-lt xs i p e)

  length-unwritten : (n : ℕ) → length (unwritten {A = CheckResult M} n) ≡ n
  length-unwritten zero = refl
  length-unwritten (suc n) = ap suc (length-unwritten n)

  -- In whatever order the workers take the projects, as long as each is taken: there is one result for
  -- each project, and the one at a project's place is that project's.
  pub check_all-in_order :
      (jobs : List (ℕ × Attempt M)) (w : World A M m)
      → ((i : ℕ) → i < length ps → Any (λ x. x.0 ≡ i) jobs)
      → (length (check_all jobs w).1 ≡ length ps)
        × ((i : ℕ) (p : Project M) → get_elem? ps i ≡ some p → IsWritten (check_all jobs w).1 i p)
  unfolding check_all
  check_all-in_order jobs w Covers = (
    length-run_jobs jobs w (unwritten (length ps)) ∙ length-unwritten (length ps),
    λ i p e.
        let lt = get_elem?-lt ps i p e in
        run_jobs-IsWritten jobs w (unwritten (length ps)) i p e
          (omega (arith, lt, length-unwritten (length ps))) (inl (Covers i lt)),
  )
