-- ===== src/Cost/Usage.antt =====
-- What the usage alerter writes is not what it asks for: the record of a usage alert has another id
-- than the query of its cooldown.
use quotapulse.Base.{
  ℕ, ◌≡◌, ◌≢◌, inl, inr, refl, ◌∙◌, ap, Bool, true, false, Option, none, some, List, [], ◌∷◌, All,
  Bool-cases, Option-cases, if◌then◌else◌, length, length-append, arith,
}
use quotapulse.Base.Text.{Text, eq_text, text}
use quotapulse.Store.{sent}
use quotapulse.Store.Volatile.{
  Volatile, volatile_store, AlertKey, eq_alert_key, lookup, fresh, prune, save_alert, is_unsent,
  within_window, last_sent_alert, has_recent_alert,
}
use quotapulse.Store.Volatile.Laws.{eq_alert_key_iff, lookup-insert}
use quotapulse.Cost.{
  Amounts, Project, BalancePoint, UsageSpend, Moment, Attempt, budget_type, judge_usage,
  alert_project, rounds, check_usage, usage_id,
}

-- Pruning adds nothing.
lookup-fresh-none :
    (k : AlertKey) (now : ℕ) (m : List (AlertKey × ℕ))
    → lookup eq_alert_key k m ≡ none
    → lookup eq_alert_key k (fresh now m) ≡ none
unfolding lookup fresh
lookup-fresh-none k now [] h = refl
lookup-fresh-none k now ((j, at) ∷ m) h = ground (arith, lookup-fresh-none k now m)

abbrev budget_key : Text → AlertKey
budget_key id = record { id = id; alert_type = budget_type }

-- No budget alert of an id is on record.
abbrev pub IsForgotten : Text → Volatile → Type 0
IsForgotten id v = lookup eq_alert_key (budget_key id) v.sent_alerts ≡ none

usage_id-neq : (id : Text) → usage_id id ≢ id
usage_id-neq id e = omega (arith, ap length e, length-append id (text "-usage"))

module _ (M : Amounts) (cooldown : ℕ) where
  -- A usage alert is recorded under another key.
  saved-IsForgotten :
      (p : Project M) (now : ℕ) (v : Volatile)
      → IsForgotten p.id v
      → IsForgotten p.id (
          save_alert v now (record {
            alert_id = usage_id p.id;
            name = p.name;
            alert_type = budget_type;
            status = sent;
          }))
  unfolding save_alert prune is_unsent eq_text
  saved-IsForgotten p now v h = lookup-fresh-none (budget_key p.id) now _ (
      lookup-insert eq_alert_key eq_alert_key_iff (budget_key (usage_id p.id)) (budget_key p.id) now
        v.sent_alerts
      ∙ ground (arith, h, eq_alert_key_iff (budget_key (usage_id p.id)) (budget_key p.id), other))
    where
      other : budget_key (usage_id p.id) ≢ budget_key p.id
      other e = usage_id-neq p.id (ap (λ (k : AlertKey). k.id) e)

  has_recent_alert-forgotten :
      (id : Text) (now within : ℕ) (v : Volatile)
      → IsForgotten id v
      → has_recent_alert v now id budget_type within ≡ false
  unfolding has_recent_alert last_sent_alert within_window
  has_recent_alert-forgotten id now within v h = rw h ground arith

  alert-IsForgotten :
      (p : Project M) (dry_run : Bool) (a : Attempt) (v : Volatile)
      → IsForgotten p.id v
      → let o = alert_project volatile_store M cooldown p (usage_id p.id) dry_run a v in
        IsForgotten p.id o.store × (o.messages ≡ (if dry_run then [] else p.id ∷ []))
  unfolding alert_project
  alert-IsForgotten p dry_run a v h =
      rw (has_recent_alert-forgotten p.id a.queried cooldown v h) (elim (Bool-cases dry_run) [
        | inl d ↦ rw d (h, refl)
        | inr d ↦ rw d (elim (Option-cases a.send_error) [
          | inl e ↦ rw e (saved-IsForgotten p a.saved v h, refl)
          | inr (x, e) ↦ rw e (h, refl)
        ])
      ])

  module _ (at : Moment) (usage : Option (List (UsageSpend M)))
      (balanced : Option (List (BalancePoint M))) (p : Project M) where
    -- The checks of one project one after the other: what each of them sends.
    unfoldable pub checks : List Attempt → Volatile → List (List Text)
    checks [] v = []
    checks (a ∷ later) v =
        let o = check_usage volatile_store M cooldown at usage balanced false ((p, a) ∷ []) v in
        o.messages ∷ checks later o.store

    rounds-IsForgotten :
        (over : Project M → Bool) (a : Attempt) (v : Volatile)
        → IsForgotten p.id v
        → let o = rounds volatile_store M cooldown over usage_id false ((p, a) ∷ []) v in
          IsForgotten p.id o.store × (o.messages ≡ (if over p then p.id ∷ [] else []))
    unfolding rounds
    rounds-IsForgotten over a v h = elim (Bool-cases (over p)) [
      | inl e ↦ let (kept, sends) = alert-IsForgotten p false a v h in rw (e, sends) (kept, refl)
      | inr e ↦ rw e (h, refl)
    ]

    -- A project over its budget by the usage reported for it, with no budget alert of its own on
    -- record, is alerted about by every check: however soon the next check comes, the cooldown
    -- holds none of them back.
    pub check_usage_repeats :
        (points : List (BalancePoint M)) (entries : List (UsageSpend M))
        → usage ≡ some entries
        → balanced ≡ some points
        → judge_usage M at entries points p ≡ true
        → (later : List Attempt) (v : Volatile) → IsForgotten p.id v
        → All (λ m. m ≡ p.id ∷ []) (checks later v)
    unfolding check_usage checks
    check_usage_repeats points entries eu eb over [] v h = tt
    check_usage_repeats points entries eu eb over (a ∷ later) v h =
        let (kept, sends) = rounds-IsForgotten (judge_usage M at entries points) a v h in
        (
          rw (eu, eb) (sends ∙ rw over refl),
          check_usage_repeats points entries eu eb over later _ (rw (eu, eb) kept),
        )
