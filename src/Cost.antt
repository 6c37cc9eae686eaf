-- ===== src/Cost.antt =====
-- Budget alerts: internal/cost/alerter.go, with the month's spend of internal/cost/cost.go. Amounts
-- are the language's floats, so their operations are a parameter. What the clock reads, and what
-- the sender answers, are inputs; an instant is in nanoseconds.
pub mod Budget
pub mod Usage
mod Tests
use quotapulse.Base.{
  ℕ, ◌+◌, ◌*◌, Bool, true, false, not, ◌&&◌, ◌||◌, Option, none, some, List, [], ◌∷◌, ◌++◌, ltb,
  leb, any, filter, if◌then◌else◌, is_some,
}
use quotapulse.Base.Text.{Text, text, eq_text}
use quotapulse.Calendar.{Date, month_length}
use quotapulse.Store.{AlertRecord, AlertStore, sent}

pub record Amounts : Type 1 where
  pub F : Type 0
  pub nothing : F
  pub plus : F → F → F
  pub minus : F → F → F
  pub gt : F → F → Bool
  pub le : F → F → Bool
  pub is_zero : F → Bool
  pub extrapolate : F → ℕ → ℕ → F

-- The id is a hash of the provider and the name.
pub record Project (M : Amounts) : Type 0 where
  pub id : Text
  pub name : Text
  pub monthly_budget : M.F

pub record BalancePoint (M : Amounts) : Type 0 where
  pub project_name : Text
  pub balance : M.F
  pub timestamp : ℕ

pub record UsageSpend (M : Amounts) : Type 0 where
  pub project : Text
  pub cost : M.F

-- One round's clock: the local date, the instant and the first instant of the month.
pub record Moment : Type 0 where
  pub today : Date
  pub now : ℕ
  pub month_start : ℕ

-- What the environment answers for one project.
pub record Attempt : Type 0 where
  pub queried : ℕ
  pub saved : ℕ
  pub send_error : Option Text

abbrev pub budget_type : Text
budget_type = text "budget"

abbrev second : ℕ
second = 1000000000

module _ (M : Amounts) where
  -- The loop of `SpendInMonth` from a previous point on.
  unfoldable pub spend_from : Option (BalancePoint M) → List (BalancePoint M) → Moment → M.F → M.F
  spend_from prev [] at spend = spend
  spend_from prev (p ∷ ps) at spend =
      let t = p.timestamp * second in
      let in_window = not (ltb t at.month_start) && ltb t (at.now + second) in
      let next =
        if not (ltb t at.month_start) || (not (is_some prev) || ltb t at.month_start)
        then some p
        else prev in
      let spent : M.F = elim prev [
        | none ↦ spend
        | some q ↦
            (let delta = M.minus q.balance p.balance in
              if in_window && M.gt delta M.nothing then M.plus spend delta else spend)
      ] in
      spend_from next ps at spent

  unfoldable pub spend_in_month : List (BalancePoint M) → Moment → M.F
  spend_in_month points at = spend_from none points at M.nothing

  unfoldable pub projected : M.F → ℕ → ℕ → M.F
  projected spend elapsed days =
      if leb elapsed 1 || leb days elapsed then spend else M.extrapolate spend elapsed days

  -- The negation of `projected <= project.MonthlyBudget`, on the date of the round.
  unfoldable pub is_over : Moment → M.F → Project M → Bool
  is_over at spend p = not (
      M.le (projected spend at.today.day (month_length at.today.year at.today.month))
        p.monthly_budget)

  unfoldable pub has_budget : Project M → Bool
  has_budget p = M.gt p.monthly_budget M.nothing

  -- `byName[entry.Project] += entry.Cost`, read at a name.
  unfoldable pub usage_of : Text → List (UsageSpend M) → Option M.F → Option M.F
  usage_of name [] sum = sum
  usage_of name (e ∷ es) sum =
      let before : M.F = elim sum [ none ↦ M.nothing | some f ↦ f ] in
      usage_of name es (if eq_text e.project name then some (M.plus before e.cost) else sum)

  -- What the balance alerter judges: nothing without a series.
  unfoldable pub judge : Moment → List (BalancePoint M) → Project M → Bool
  judge at series p =
      has_budget p
      && is_over at (spend_in_month (filter (λ x. eq_text x.project_name p.name) series) at) p

  -- What the usage alerter judges: a name with a balance point is left to the other.
  unfoldable pub judge_usage :
      Moment → List (UsageSpend M) → List (BalancePoint M) → Project M → Bool
  judge_usage at usage balanced p =
      let spent = usage_of p.name usage none in
      has_budget p
      && (not (any (λ x. eq_text x.project_name p.name) balanced)
          && elim spent [ none ↦ false | some spend ↦ not (M.is_zero spend) && is_over at spend p ])

-- The id of a usage alert's record.
abbrev pub usage_id : Text → Text
usage_id id = id ++ text "-usage"

module _ (A : AlertStore) (M : Amounts) (cooldown : ℕ) where
  -- What a round leaves: the store, how many alerts it counts, and the projects that `Send` was
  -- called for.
  pub record Outcome : Type 0 where
    pub store : A.State
    pub count : ℕ
    pub messages : List Text

  -- From the cooldown on; `saved_id` is the id that the record gets.
  unfoldable pub alert_project : Project M → Text → Bool → Attempt → A.State → Outcome
  alert_project p saved_id dry_run a st =
      let (cooling, err) = A.has_recent_alert st a.queried p.id budget_type cooldown in
      if not err && cooling
      then record { store = st; count = 0; messages = [] }
      else if dry_run
      then record { store = st; count = 1; messages = [] }
      else elim a.send_error [
        | some e ↦ record { store = st; count = 0; messages = p.id ∷ [] }
        | none ↦ record {
          store =
              (A.save_alert st a.saved (record {
                alert_id = saved_id;
                name = p.name;
                alert_type = budget_type;
                status = sent;
              })).0;
          count = 1;
          messages = p.id ∷ [];
        }
      ]

  -- The loop over the candidates, with the judgement and the saved ids of the caller.
  unfoldable pub rounds :
      (Project M → Bool) → (Text → Text) → Bool → List (Project M × Attempt) → A.State → Outcome
  rounds over save_as dry_run [] st = record { store = st; count = 0; messages = [] }
  rounds over save_as dry_run ((p, a) ∷ ps) st =
      let one =
        if over p
        then alert_project p (save_as p.id) dry_run a st
        else record { store = st; count = 0; messages = [] } in
      let rest = rounds over save_as dry_run ps one.store in
      record {
        store = rest.store;
        count = one.count + rest.count;
        messages = one.messages ++ rest.messages;
      }

  -- `Check`; no series is an error of the store.
  unfoldable pub check :
      Moment
      → Option (List (BalancePoint M))
      → Bool
      → List (Project M × Attempt)
      → A.State
      → Outcome
  check at series dry_run ps st = elim series [
    | none ↦ record { store = st; count = 0; messages = [] }
    | some points ↦ rounds (judge M at points) (λ id. id) dry_run ps st
  ]

  -- `CheckUsage`; its own error of the balance series only removes no name.
  unfoldable pub check_usage :
      Moment
      → Option (List (UsageSpend M))
      → Option (List (BalancePoint M))
      → Bool
      → List (Project M × Attempt)
      → A.State
      → Outcome
  check_usage at usage balanced dry_run ps st =
      let points : List (BalancePoint M) = elim balanced [ none ↦ [] | some points ↦ points ] in
      elim usage [
        | none ↦ record { store = st; count = 0; messages = [] }
        | some entries ↦ rounds (judge_usage M at entries points) usage_id dry_run ps st
      ]
