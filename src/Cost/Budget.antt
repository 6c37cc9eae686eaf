-- ===== src/Cost/Budget.antt =====
-- No project's budget alert goes out twice within the cooldown, for the rounds over balances.
use quotapulse.Base.{
  ℕ, ◌+◌, ◌≤◌, ◌<◌, ◌≡◌, ◌≢◌, ◌⊎◌, inl, inr, refl, Bool, Option, none, some, List, [], ◌∷◌, All,
  All-append, Bool-cases, arith,
}
use quotapulse.Base.Text.{Text, eq_text, eq_text_iff}
use quotapulse.Store.{AlertRecord, AlertStore, AlertLaws, sent}
use quotapulse.Cost.{
  Amounts, Project, BalancePoint, Moment, Attempt, Outcome, budget_type, judge, alert_project,
  rounds, check,
}

module _ (A : AlertStore) (laws : AlertLaws A) (M : Amounts) (cooldown : ℕ)
    (positive : 0 < cooldown) (id : Text) (t : ℕ) where
  open laws use {Remembers, horizon, save_other, has_recent-Remembers}

  -- The store's query and write for a project lie within the cooldown, and the store's memory.
  pub record Within (a : Attempt) : Type 0 where
    pub queried_by : a.queried ≤ t + cooldown
    pub saved_by : a.saved ≤ t + horizon

  abbrev IsSilent : Outcome A M cooldown → Type 0
  IsSilent o = Remembers o.store id budget_type t × All (λ m. m ≢ id) o.messages

  alert_project-same :
      (p : Project M) (save : Text) (dry_run : Bool) (a : Attempt) (st : A.State)
      → p.id ≡ id
      → Within a
      → Remembers st id budget_type t
      → alert_project A M cooldown p save dry_run a st
        ≡ record { store = st; count = 0; messages = [] }
  unfolding alert_project
  alert_project-same p save dry_run a st e w m =
      rw (e, has_recent-Remembers st a.queried cooldown t id budget_type m positive w.queried_by)
        refl

  abbrev record_of : Project M → AlertRecord
  record_of p = record { alert_id = p.id; name = p.name; alert_type = budget_type; status = sent }

  alert_project_cases :
      (p : Project M) (dry_run : Bool) (a : Attempt) (st : A.State)
      → let o = alert_project A M cooldown p p.id dry_run a st in
        ((o.store ≡ st) ⊎ (o.store ≡ (A.save_alert st a.saved (record_of p)).0))
        × ((o.messages ≡ []) ⊎ (o.messages ≡ p.id ∷ []))
  unfolding alert_project
  alert_project_cases p dry_run a st = ground arith

  alert_project-other :
      (p : Project M) (dry_run : Bool) (a : Attempt) (st : A.State)
      → p.id ≢ id
      → Within a
      → Remembers st id budget_type t
      → IsSilent (alert_project A M cooldown p p.id dry_run a st)
  alert_project-other p dry_run a st ne w m =
      let (stored, sends) = alert_project_cases p dry_run a st in
      (
        elim stored [
          | inl e ↦ rw e m
          | inr e ↦
              rw e (save_other st a.saved (record_of p) id budget_type t (inl ne) w.saved_by m)
        ],
        elim sends [ inl e ↦ rw e tt | inr e ↦ rw e (ne, tt) ],
      )

  alert_project-IsSilent :
      (p : Project M) (dry_run : Bool) (a : Attempt) (st : A.State)
      → Within a
      → Remembers st id budget_type t
      → IsSilent (alert_project A M cooldown p p.id dry_run a st)
  alert_project-IsSilent p dry_run a st w m = elim (Bool-cases (eq_text p.id id)) [
    | inl e ↦ rw (alert_project-same p p.id dry_run a st ((eq_text_iff _ _).0 e) w m) (m, tt)
    | inr e ↦ alert_project-other p dry_run a st (λ same. cc ((eq_text_iff _ _).1 same)) w m
  ]

  rounds-IsSilent :
      (over : Project M → Bool) (dry_run : Bool) (ps : List (Project M × Attempt)) (st : A.State)
      → All (λ x. Within x.1) ps
      → Remembers st id budget_type t
      → IsSilent (rounds A M cooldown over (λ i. i) dry_run ps st)
  unfolding rounds
  rounds-IsSilent over dry_run [] st w m = (m, tt)
  rounds-IsSilent over dry_run ((p, a) ∷ ps) st w m = elim (Bool-cases (over p)) [
    | inl e ↦
        let (kept, silent) = alert_project-IsSilent p dry_run a st w.0 m in
        let (still, later) = rounds-IsSilent over dry_run ps _ w.1 kept in
        rw e (
          still,
          All-append (λ x. x ≢ id) (alert_project A M cooldown p p.id dry_run a st).messages _
              silent later,
        )
    | inr e ↦ rw e (rounds-IsSilent over dry_run ps st w.1 m)
  ]

  -- Over any store with the laws, a budget alert on record at `t` silences its project: no check of
  -- any projects sends another about it while its queries lie within the cooldown and its writes
  -- within the store's memory, whatever the balances say, and the record is still there after it.
  pub check_cooling :
      (at : Moment) (series : Option (List (BalancePoint M))) (dry_run : Bool)
      → (ps : List (Project M × Attempt)) (st : A.State) → All (λ x. Within x.1) ps
      → Remembers st id budget_type t
      → Remembers (check A M cooldown at series dry_run ps st).store id budget_type t
        × All (λ m. m ≢ id) (check A M cooldown at series dry_run ps st).messages
  unfolding check
  check_cooling at none dry_run ps st w m = (m, tt)
  check_cooling at (some points) dry_run ps st w m =
      rounds-IsSilent (judge M at points) dry_run ps st w m
