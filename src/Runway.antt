-- ===== src/Runway.antt =====
-- Trend alerts: internal/runway/alerts.go. Amounts and ratios are the language's floats, so their order
-- is a parameter; texts of alerts are left out. What the clock reads, and what the sender answers, are inputs.
pub mod Alerts
mod Tests
use quotapulse.Base.{
  ℕ, ◌+◌, Bool, true, false, not, ◌&&◌, ◌||◌, Option, none, some, List, [], ◌∷◌, ◌++◌,
  if◌then◌else◌,
}
use quotapulse.Base.Text.{Text, text}
use quotapulse.Store.{AlertRecord, AlertStore}

pub record Floats : Type 1 where
  pub F : Type 0
  pub nothing : F
  pub le : F → F → Bool
  pub lt : F → F → Bool

pub data Confidence : Type 0 where
  confidence_none confidence_low confidence_medium confidence_high : Confidence

-- The fields of a runway that alerting reads.
pub record Runway (M : Floats) : Type 0 where
  pub runway_days : Option M.F
  pub confidence : Confidence
  pub today_consumed : Option M.F
  pub spike_ratio : Option M.F

-- The fields of a check's result that alerting reads; the id is a hash of the provider and the project.
pub record CheckResult (M : Floats) : Type 0 where
  pub project : Text
  pub project_id : Text
  pub success : Bool
  pub need_alarm : Bool
  pub runway : Option (Runway M)

pub record Alerter (M : Floats) : Type 0 where
  pub has_notifier : Bool
  pub runway_alert_days : M.F
  pub spike_ratio : M.F
  pub spike_min_amount : M.F
  pub cooldown : ℕ

-- What the environment answers for one alert.
pub record Attempt : Type 0 where
  pub queried : ℕ
  pub saved : ℕ
  pub send_error : Option Text

abbrev pub low_runway : Text
low_runway = text "low_runway"

abbrev pub spend_spike : Text
spend_spike = text "spend_spike"

is_alertable_level : Confidence → Bool
is_alertable_level confidence_medium = true
is_alertable_level confidence_high = true
is_alertable_level _ = false

module _ {M : Floats} where
  -- `Alertable`: the runway of a result on which alerting may rely.
  unfoldable pub alertable : Option (Runway M) → Option (Runway M)
  unfolding is_alertable_level
  alertable none = none
  alertable (some r) = if is_alertable_level r.confidence then some r else none

  unfoldable pub runway_due : Alerter M → CheckResult M → Runway M → Bool
  runway_due a result r =
      M.lt M.nothing a.runway_alert_days
      && (elim r.runway_days [ none ↦ false | some d ↦ M.le d a.runway_alert_days ]
          && not result.need_alarm)

  unfoldable pub spike_due : Alerter M → Runway M → Bool
  spike_due a r =
      not (M.le a.spike_ratio M.nothing)
      && (elim r.spike_ratio [ none ↦ false | some x ↦ not (M.lt x a.spike_ratio) ]
          && M.le a.spike_min_amount (elim r.today_consumed [ none ↦ M.nothing | some t ↦ t ]))

module _ (A : AlertStore) where
  -- What alerts leave: the store, how many went out, and each message with its id and its kind.
  pub record Sent : Type 0 where
    pub store : A.State
    pub runway : ℕ
    pub spike : ℕ
    pub messages : List (Text × Text)

  pub record Emitted : Type 0 where
    pub store : A.State
    pub ok : Bool
    pub messages : List (Text × Text)

  module _ {M : Floats} (a : Alerter M) where
    unfoldable pub emit : Text → Text → Text → Attempt → A.State → Emitted
    emit id name ty at st =
        let (cooling, err) = A.has_recent_alert st at.queried id ty a.cooldown in
        if cooling
        then record { store = st; ok = false; messages = [] }
        else if not a.has_notifier
        then record { store = st; ok = false; messages = [] }
        else elim at.send_error [
          | some e ↦ record { store = st; ok = false; messages = (id, ty) ∷ [] }
          | none ↦ record {
            store =
                (A.save_alert st at.saved
                  (record { alert_id = id; name = name; alert_type = ty; status = [] })).0;
            ok = true;
            messages = (id, ty) ∷ [];
          }
        ]

    -- One of the two alerts of a result, if it is due and this is no dry run.
    unfoldable pub emit_if : Bool → Text → Text → Text → Attempt → A.State → Emitted
    emit_if due id name ty at st =
        if due then emit id name ty at st else record { store = st; ok = false; messages = [] }

    abbrev count : Bool → ℕ
    count ok = if ok then 1 else 0

    -- The alerts of one result, with the runway that alerting may rely on.
    unfoldable pub check_runway :
        CheckResult M → Bool → Attempt → Attempt → A.State → Option (Runway M) → Sent
    check_runway result dry_run first second st none = record {
      store = st;
      runway = 0;
      spike = 0;
      messages = [];
    }
    check_runway result dry_run first second st (some r) =
        let id = result.project_id in
        let x =
          emit_if (runway_due a result r && not dry_run) id result.project low_runway first st in
        let y =
          emit_if (spike_due a r && not dry_run) id result.project spend_spike second x.store in
        record {
          store = y.store;
          runway = count x.ok;
          spike = count y.ok;
          messages = x.messages ++ y.messages;
        }

    -- One turn of the loop of `Check`.
    unfoldable pub check_one : CheckResult M → Bool → Attempt → Attempt → A.State → Sent
    check_one result dry_run first second st =
        check_runway result dry_run first second st
          (if result.success then alertable result.runway else none)

    unfoldable pub check_loop : Bool → List (CheckResult M × (Attempt × Attempt)) → A.State → Sent
    check_loop dry_run [] st = record { store = st; runway = 0; spike = 0; messages = [] }
    check_loop dry_run ((result, (first, second)) ∷ results) st =
        let x = check_one result dry_run first second st in
        let y = check_loop dry_run results x.store in
        record {
          store = y.store;
          runway = x.runway + y.runway;
          spike = x.spike + y.spike;
          messages = x.messages ++ y.messages;
        }

    -- `Check`
    unfoldable pub check : Bool → List (CheckResult M × (Attempt × Attempt)) → A.State → Sent
    check dry_run results st =
        if M.le a.runway_alert_days M.nothing && M.le a.spike_ratio M.nothing
        then record { store = st; runway = 0; spike = 0; messages = [] }
        else check_loop dry_run results st
