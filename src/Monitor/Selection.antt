-- ===== src/Monitor/Selection.antt =====
-- Which projects a round Covers: `selectProjects` of internal/monitor/monitor.go.
use quotapulse.Base.{
  ◌≡◌, ◌≢◌, ◌⊎◌, inl, inr, refl, Bool, true, false, not, List, [], ◌∷◌, filter, All, Any,
  if◌then◌else◌, Bool-cases,
}
use quotapulse.Base.Text.{Text, eq_text, eq_text_iff}
use quotapulse.Runway.{Floats}
use quotapulse.Monitor.Account.{Project}

-- The errors carry the name that was asked for.
pub data Selected (M : Floats) : Type 0 where
  selected : List (Project M) → Selected M
  project_disabled : Text → Selected M
  project_not_found : Text → Selected M

module _ {M : Floats} where
  -- `cfg.EnabledProjects()`
  unfoldable pub enabled_projects : List (Project M) → List (Project M)
  enabled_projects ps = filter (λ p. p.enabled) ps

  unfoldable pub find_named : Text → List (Project M) → Selected M
  find_named name [] = project_not_found name
  find_named name (p ∷ ps) =
      let rest = find_named name ps in
      if not (eq_text p.name name)
      then rest
      else if not p.enabled
      then project_disabled name
      else selected (p ∷ [])

  unfoldable pub select_projects : List (Project M) → Text → Selected M
  select_projects ps name =
      if eq_text name [] then selected (enabled_projects ps) else find_named name ps

  abbrev pub IsEnabled : Project M → Type 0
  IsEnabled p = p.enabled ≡ true

  filter-IsEnabled : (ps : List (Project M)) → All IsEnabled (enabled_projects ps)
  unfolding enabled_projects
  filter-IsEnabled [] = tt
  filter-IsEnabled (p ∷ ps) = elim (Bool-cases p.enabled) [
    | inl e ↦ rw e (refl, filter-IsEnabled ps)
    | inr e ↦ rw e (filter-IsEnabled ps)
  ]

  -- What a selection has to be.
  pub IsSelection : List (Project M) → Text → Selected M → Type 0
  IsSelection ps name (selected qs) =
      All IsEnabled qs × ((name ≡ []) ⊎ ((q : Project M) × (qs ≡ q ∷ []) × (q.name ≡ name)))
  IsSelection ps name (project_disabled n) =
      (n ≡ name) × Any (λ p. (p.name ≡ name) × (p.enabled ≡ false)) ps
  IsSelection ps name (project_not_found n) = (n ≡ name) × All (λ p. p.name ≢ name) ps

  passes :
      (p : Project M) (ps : List (Project M)) (name : Text) (o : Selected M)
      → p.name ≢ name
      → IsSelection ps name o
      → IsSelection (p ∷ ps) name o
  unfolding IsSelection
  passes p ps name (selected qs) ne h = h
  passes p ps name (project_disabled n) ne h = (h.0, inr h.1)
  passes p ps name (project_not_found n) ne h = (h.0, (ne, h.1))

  find_named-IsSelection :
      (name : Text) (ps : List (Project M)) → IsSelection ps name (find_named name ps)
  unfolding find_named
  find_named-IsSelection name [] = unfold IsSelection in (refl, tt)
  find_named-IsSelection name (p ∷ ps) = elim (Bool-cases (eq_text p.name name)) [
    | inr e ↦ rw e (
        passes p ps name (find_named name ps) (λ same. cc ((eq_text_iff _ _).1 same))
          (find_named-IsSelection name ps))
    | inl e ↦ rw e (named p.enabled refl ((eq_text_iff _ _).0 e))
  ]
    where
      named :
          (b : Bool)
          → p.enabled ≡ b
          → p.name ≡ name
          → IsSelection (p ∷ ps) name (if not b then project_disabled name else selected (p ∷ []))
      named true on e = unfold IsSelection in ((on, tt), inr (p, refl, e))
      named false off e = unfold IsSelection in (refl, inl (e, off))

  -- A round Covers enabled projects only, and just the first of its name if one is named; a disabled
  -- project is refused even by name, and the name is reported as unknown only if no project has it.
  pub select_projects-IsSelection :
      (ps : List (Project M)) (name : Text) → IsSelection ps name (select_projects ps name)
  unfolding select_projects
  select_projects-IsSelection ps name = elim (Bool-cases (eq_text name [])) [
    | inl e ↦ rw e (unfold IsSelection in (filter-IsEnabled ps, inl ((eq_text_iff _ _).0 e)))
    | inr e ↦ rw e (find_named-IsSelection name ps)
  ]
