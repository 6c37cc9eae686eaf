-- ===== src/Monitor.antt =====
-- Balance checks: internal/monitor/monitor.go. What the clock reads and what the provider and the
-- sender answer are inputs; balances are the language's floats, so their order is a parameter.
pub mod Account
pub mod Cache
pub mod Redact
pub mod Selection
pub mod Alerts
pub mod Pool
mod Tests
use quotapulse.Base.{
  ℕ, ◌+◌, ◌-◌, ◌≡◌, Bool, true, false, not, ◌&&◌, Option, none, some, List, [], ◌∷◌, ◌++◌, ltb, leb,
  if◌then◌else◌, filter,
}
use quotapulse.Base.Text.{Text, text, eq_text}
use quotapulse.Runway.{Floats}
use quotapulse.Store.{AlertRecord, AlertStore, sent, failed}
use quotapulse.Monitor.Account.{Project}
use quotapulse.Monitor.Cache.{CacheEntry, cache_get, cache_set}

pub record CheckResult (M : Floats) : Type 0 where
  pub project : Text
  pub success : Bool
  pub credits : Option M.F
  pub need_alarm : Bool
  pub alarm_sent : Bool
  pub error : Option Text
  pub cached : Bool

pub record BalanceRecord (M : Floats) : Type 0 where
  pub project_id : Text
  pub balance : M.F
  pub need_alarm : Bool

-- What the environment answers during one check: the error of `provider.New`, the balance or the error
-- of `Fetch`, the clock at the cache and at the store, and the error of the delivery.
pub record Attempt (M : Floats) : Type 0 where
  pub adapter_error : Option Text
  pub fetched : Option M.F
  pub fetch_error : Text
  pub looked_up : ℕ
  pub stored : ℕ
  pub queried : ℕ
  pub decided : ℕ
  pub saved : ℕ
  pub send_error : Option Text

-- The settings and dependencies of a monitor that a check reads.
pub record Monitor : Type 0 where
  pub ttl : ℕ
  pub cooldown : ℕ
  pub has_push : Bool
  pub has_notifier : Bool
  pub redact : Text → Text → Text

-- A notification that leaves the process, with its project and its type.
pub data Effect : Type 0 where
  push_notify : Text → Text → Effect
  notifier_send : Text → Text → Effect

abbrev pub low_balance : Text
low_balance = text "low_balance"

abbrev pub check_failed : Text
check_failed = text "check_failed"

module _ (A : AlertStore) (M : Floats) (m : Monitor) where
  -- What the checks of a monitor share: the alert store, the cache, and the balances handed to the store.
  pub record World : Type 0 where
    pub store : A.State
    pub cache : List (Text × CacheEntry M)
    pub history : List (BalanceRecord M)

  pub record Delivered : Type 0 where
    pub store : A.State
    pub ok : Bool
    pub effects : List Effect

  -- `recordAlert`
  unfoldable pub record_alert : Project M → Text → Text → ℕ → A.State → A.State
  record_alert p ty status at st =
      (A.save_alert st at
        (record { alert_id = p.id; name = p.name; alert_type = ty; status = status })).0

  -- `last != nil && time.Now().Before(last.Add(cooldown))`
  unfoldable pub is_cooling : Option ℕ → ℕ → Bool
  is_cooling none now = false
  is_cooling (some last) now = ltb now (last + m.cooldown)

  -- From `m.Notifier.Send` on.
  unfoldable pub send : Project M → Text → Attempt M → List Effect → A.State → Delivered
  send p ty a pushed st = elim a.send_error [
    | some e ↦ record {
      store = record_alert p ty failed a.saved st;
      ok = false;
      effects = notifier_send p.id ty ∷ pushed;
    }
    | none ↦ record {
      store = record_alert p ty sent a.saved st;
      ok = true;
      effects = notifier_send p.id ty ∷ pushed;
    }
  ]

  -- `deliver`
  unfoldable pub deliver : Project M → Text → Attempt M → A.State → Delivered
  deliver p ty a st =
      let last = (A.last_sent_alert st a.queried p.id ty m.cooldown).0 in
      let pushed : List Effect = if m.has_push then push_notify p.id ty ∷ [] else [] in
      if is_cooling last a.decided
      then record { store = st; ok = false; effects = [] }
      else if not m.has_notifier
      then record { store = st; ok = false; effects = pushed }
      else send p ty a pushed st

  pub record Checked : Type 0 where
    pub world : World
    pub result : CheckResult M
    pub effects : List Effect

  -- An alert of a result, unless this is a dry run.
  unfoldable pub alert_unless :
      Bool → Project M → Text → Attempt M → World → CheckResult M → Checked
  alert_unless dry_run p ty a w r =
      let d = deliver p ty a w.store in
      if dry_run then record { world = w; result = r; effects = [] } else record {
        world = record w { store = d.store };
        result = record r { alarm_sent = d.ok };
        effects = d.effects;
      }

  -- `failure`
  unfoldable pub failure : Bool → Project M → Text → Attempt M → World → Checked
  failure dry_run p err a w = alert_unless dry_run p check_failed a w (record {
    project = p.name;
    success = false;
    credits = none;
    need_alarm = false;
    alarm_sent = false;
    error = some (m.redact err p.api_key);
    cached = false;
  })

  -- From `result := model.CheckResult{…}` on.
  unfoldable pub judge : Bool → Project M → M.F → Bool → Attempt M → World → Checked
  judge dry_run p credits cached a w =
      let low = M.lt credits p.threshold in
      let r : CheckResult M = record {
        project = p.name;
        success = true;
        credits = some credits;
        need_alarm = low;
        alarm_sent = false;
        error = none;
        cached = cached;
      } in
      let balance : BalanceRecord M = record {
        project_id = p.id;
        balance = credits;
        need_alarm = low;
      } in
      let w' = record w { history = balance ∷ w.history } in
      if not low
      then record { world = w'; result = r; effects = [] }
      else alert_unless dry_run p low_balance a w' r

  -- The fetch of a balance that the cache does not hold.
  unfoldable pub fetch : Bool → Project M → Attempt M → World → Checked
  fetch dry_run p a w = elim a.fetched [
    | none ↦ failure dry_run p a.fetch_error a w
    | some credits ↦ judge dry_run p credits false a (
        if ltb 0 m.ttl
        then record w { cache = cache_set p.cache_key credits a.stored w.cache }
        else w)
  ]

  -- `CheckProject`
  unfoldable pub check_project : Bool → Project M → Attempt M → World → Checked
  check_project dry_run p a w = elim a.adapter_error [
    | some e ↦ failure dry_run p e a w
    | none ↦
        (let (hit, cache) = cache_get p.cache_key m.ttl a.looked_up w.cache in
          let w' = record w { cache = cache } in
          elim hit [
            | some credits ↦ judge dry_run p credits true a w'
            | none ↦ fetch dry_run p a w'
          ])
  ]
