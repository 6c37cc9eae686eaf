-- ===== src/Subscription/Checker.antt =====
-- The renewal reminders: internal/subscription/checker.go. What is left out is the logging, the
-- amount and owner that a result only carries along, and the wording of messages. The clock, the
-- outcome of a delivery and the time zones are inputs.
pub mod Cooldown
pub mod Decision
mod Tests
use quotapulse.Base.{
  ℕ, ◌+◌, Bool, true, false, not, ◌&&◌, Option, none, some, List, [], ◌∷◌, ◌++◌, ltb, ◌==◌,
  if◌then◌else◌, is_some, map, length, count_if,
}
use quotapulse.Base.Int.{ℤ, pos, ltb_ℤ, leb_ℤ}
use quotapulse.Base.Text.{Text, text, eq_text, lt_text}
use quotapulse.Calendar.{Date}
use quotapulse.Calendar.Format.{format_date, parse_date}
use quotapulse.Store.{AlertRecord, AlertStore, sent, failed}
use quotapulse.Subscription.Date.{Cycle, Lunar, Renewal, evaluate}

pub record Subscription : Type 0 where
  pub name : Text
  pub cycle : Cycle
  pub renewal_day : ℤ
  pub alert_days_before : ℤ
  pub last_renewed_date : Option Text
  pub snoozed_until : Option Text
  pub timezone : Text
  pub webhook_url : Text

-- `AlertState`; the empty text of a result that has nothing to report is `not_due`.
pub data AlertState : Type 0 where
  alert_sent cooldown_skipped alert_failed dry_run_due snoozed not_due : AlertState

pub record SubscriptionResult : Type 0 where
  pub name : Text
  pub days_until_renewal : ℤ
  pub next_renewal_date : Text
  pub need_alert : Bool
  pub already_renewed : Bool
  pub last_renewed_date : Option Text
  pub alert_state : AlertState
  pub alert_sent_flag : Bool
  pub next_eligible_at : Option ℕ
  pub last_error : Text
  pub snoozed_until : Option Text

-- What leaves the process: a browser push, and a webhook request, each for an alert.
pub data Effect : Type 0 where
  push_notify : Text → Effect
  webhook_send : Text → Effect

-- The checker's dependencies. `subscription_id` is a hash of the name; `zones` and `local` give the
-- day of an instant in a named zone and on this server.
pub record Checker : Type 0 where
  pub lunar : Lunar
  pub cooldown : ℕ
  pub has_push : Bool
  pub has_notifier : Bool
  pub subscription_id : Text → Text
  pub zones : Text → Option (ℕ → Date)
  pub local : ℕ → Date

-- One check of one subscription as its environment answers: the readings of the clock when the
-- check begins, when it decides to send, in the store's query and in the store's write; the error
-- of `notify.New` on an override, and that of the delivery.
pub record Attempt : Type 0 where
  pub started : ℕ
  pub decided : ℕ
  pub queried : ℕ
  pub saved : ℕ
  pub override_error : Option Text
  pub send_error : Option Text

abbrev pub renewal_type : Text
renewal_type = text "subscription_renewal"

abbrev pub not_configured : Text
not_configured = text "Webhook URL is not configured"

-- `parseRenewedDate`
unfoldable pub parse_renewed_date : Option Text → Option Date
parse_renewed_date none = none
parse_renewed_date (some value) = if eq_text value [] then none else parse_date value

unfoldable pub location : Checker → Subscription → ℕ → Date
location C sub =
    if eq_text sub.timezone []
    then C.local
    else elim (C.zones sub.timezone) [ none ↦ C.local | some zone ↦ zone ]

-- `renewalOn`
unfoldable pub renewal_on : Checker → Subscription → Date → Renewal
renewal_on C sub today =
    evaluate C.lunar sub.cycle sub.renewal_day today (parse_renewed_date sub.last_renewed_date)
      sub.alert_days_before

-- `sub.SnoozedUntil != nil && *sub.SnoozedUntil >= today`
unfoldable pub is_snoozed : Subscription → Date → Bool
is_snoozed sub today = elim sub.snoozed_until [
  | none ↦ false
  | some until ↦ not (lt_text until (format_date today))
]

is_sent : AlertState → Bool
is_sent alert_sent = true
is_sent _ = false

-- The fields of a result that the switch of `checkOne` does not touch.
unfoldable pub initial_result : Subscription → Renewal → Bool → SubscriptionResult
initial_result sub renewal need_alert = record {
  name = sub.name;
  days_until_renewal = renewal.days;
  next_renewal_date = format_date renewal.next;
  need_alert = need_alert;
  already_renewed = renewal.already_renewed;
  last_renewed_date = sub.last_renewed_date;
  alert_state = not_due;
  alert_sent_flag = false;
  next_eligible_at = none;
  last_error = [];
  snoozed_until = none;
}

unfoldable pub need_alert_of : Subscription → Renewal → Bool
need_alert_of sub renewal =
    leb_ℤ (pos 0) renewal.days
    && (leb_ℤ renewal.days sub.alert_days_before && not renewal.already_renewed)

module _ (A : AlertStore) (C : Checker) where
  -- What `dispatch` returns, with the store after it and what it sent.
  pub record Dispatched : Type 0 where
    pub store : A.State
    pub state : AlertState
    pub next_eligible_at : Option ℕ
    pub last_error : Text
    pub effects : List Effect

  -- `record`
  unfoldable pub record_alert : A.State → ℕ → Subscription → Text → A.State
  record_alert st at sub status =
      (A.save_alert st at (record {
        alert_id = C.subscription_id sub.name;
        name = sub.name;
        alert_type = renewal_type;
        status = status;
      })).0

  -- When the cooldown that `last` began ends, if that is still to come.
  unfoldable pub cooling : ℕ → Option ℕ → Option ℕ
  cooling now none = none
  cooling now (some last) = if ltb now (last + C.cooldown) then some (last + C.cooldown) else none

  -- From `notifier.Send` on.
  unfoldable pub deliver : Subscription → Attempt → List Effect → A.State → Dispatched
  deliver sub a pushed st = elim a.send_error [
    | some e ↦ record {
      store = record_alert st a.saved sub failed;
      state = alert_failed;
      next_eligible_at = none;
      last_error = e;
      effects = webhook_send (C.subscription_id sub.name) ∷ pushed;
    }
    | none ↦ record {
      store = record_alert st a.saved sub sent;
      state = alert_sent;
      next_eligible_at = some (a.decided + C.cooldown);
      last_error = [];
      effects = webhook_send (C.subscription_id sub.name) ∷ pushed;
    }
  ]

  abbrev refuse : A.State → Text → List Effect → Dispatched
  refuse st e pushed = record {
    store = st;
    state = alert_failed;
    next_eligible_at = none;
    last_error = e;
    effects = pushed;
  }

  -- The choice of the notifier: an override of the subscription, or the default one.
  unfoldable pub choose_notifier : Subscription → Attempt → List Effect → A.State → Dispatched
  choose_notifier sub a pushed st =
      if eq_text sub.webhook_url []
      then (if C.has_notifier then deliver sub a pushed st else refuse st not_configured pushed)
      else elim a.override_error [
        | some e ↦ refuse (record_alert st a.saved sub failed) e pushed
        | none ↦ deliver sub a pushed st
      ]

  -- The rest of `dispatch` once the store has named the last send.
  unfoldable pub dispatch_after : Subscription → Attempt → A.State → Option ℕ → Dispatched
  dispatch_after sub a st last = elim (cooling a.decided last) [
    | some next ↦ record {
      store = st;
      state = cooldown_skipped;
      next_eligible_at = some next;
      last_error = [];
      effects = [];
    }
    | none ↦
        choose_notifier sub a
          (if C.has_push then push_notify (C.subscription_id sub.name) ∷ [] else []) st
  ]

  unfoldable pub dispatch : Subscription → Attempt → A.State → Dispatched
  dispatch sub a st =
      dispatch_after sub a st
        (A.last_sent_alert st a.queried (C.subscription_id sub.name) renewal_type C.cooldown).0

  pub record Checked : Type 0 where
    pub store : A.State
    pub result : SubscriptionResult
    pub effects : List Effect

  -- The default case of the switch.
  unfoldable pub report : SubscriptionResult → Dispatched → Checked
  unfolding is_sent
  report r d = record {
    store = d.store;
    result = record r {
      alert_state = d.state;
      next_eligible_at = d.next_eligible_at;
      last_error = d.last_error;
      alert_sent_flag = is_sent d.state;
    };
    effects = d.effects;
  }

  abbrev quiet : A.State → SubscriptionResult → Checked
  quiet st r = record { store = st; result = r; effects = [] }

  -- `checkOne`
  unfoldable pub check_one : Subscription → Bool → Attempt → A.State → Checked
  check_one sub dry_run a st =
      let today = location C sub a.started in
      let renewal = renewal_on C sub today in
      let need = need_alert_of sub renewal in
      let r = initial_result sub renewal need in
      if renewal.already_renewed
      then quiet st r
      else if not need
      then quiet st r
      else if is_snoozed sub today
      then quiet st (record r { alert_state = snoozed; snoozed_until = sub.snoozed_until })
      else if dry_run
      then quiet st (record r { alert_state = dry_run_due })
      else report r (dispatch sub a st)

  -- `Check`: the subscriptions in turn, each with its attempt.
  unfoldable pub check :
      List (Subscription × Attempt) → Bool → A.State → A.State × List SubscriptionResult
  check [] dry_run st = (st, [])
  check ((sub, a) ∷ subs) dry_run st =
      let c = check_one sub dry_run a st in
      let (st', results) = check subs dry_run c.store in (st', c.result ∷ results)

  -- What such a round sends.
  unfoldable pub check_effects : List (Subscription × Attempt) → Bool → A.State → List Effect
  check_effects [] dry_run st = []
  check_effects ((sub, a) ∷ subs) dry_run st =
      let c = check_one sub dry_run a st in c.effects ++ check_effects subs dry_run c.store
