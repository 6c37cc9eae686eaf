-- ===== src/Subscription/Checker/Tests.antt =====
-- A reminder that is due, over the volatile store, and the theorems at it.
use quotapulse.Base.{ℕ, ◌≡◌, ◌≢◌, inl, ◌-◌, ◌+◌, refl, true, false, none, some, [], ◌∷◌, All, arith}
use quotapulse.Base.Int.{pos, ◌≤ℤ◌, ◌+ℤ◌, ◌-ℤ◌, ◌*ℤ◌}
use quotapulse.Base.Text.{text, eq_text, lt_text}
use quotapulse.Calendar.{
  date, ordinal, days_before_year, days_through, month_length, add_date, previous_day,
}
use quotapulse.Calendar.Format.{format_date, parse_date, date_of_parts, two_digits}
use quotapulse.Store.Volatile.{
  empty, volatile_store, lookup, insert, fresh, prune, is_unsent, eq_alert_key, save_alert,
  last_sent_alert, within_window, has_recent_alert,
}
use quotapulse.Store.Volatile.Laws.{volatile_laws}
use quotapulse.Subscription.Sample.{toy, toy_laws}
use quotapulse.Subscription.Date.{
  monthly, split_mmdd, days_in_month, safe_month_date, quot, rem, floor_div, floor_mod, shift_month,
  days_between, new_schedule, on_or_after, evaluate, covering, renewal_before,
}
use quotapulse.Subscription.Checker.{
  Subscription, Checker, Attempt, alert_sent, record_alert, cooling, deliver, choose_notifier,
  dispatch_after, dispatch, parse_renewed_date, location, renewal_on, is_snoozed, initial_result,
  need_alert_of, report, check_one, check, check_effects,
}
use quotapulse.Subscription.Checker.Cooldown.{about, check_once_per_cooldown}
use quotapulse.Subscription.Checker.Decision.{check_one_due, check_one_reminds}

methods : Unit {0}
unfolding ordinal days_before_year days_through month_length add_date previous_day format_date
    parse_date split_mmdd days_in_month safe_month_date quot rem floor_div floor_mod shift_month
    days_between new_schedule on_or_after evaluate ◌+ℤ◌ ◌-ℤ◌ ◌*ℤ◌ eq_text lt_text lookup insert
    fresh prune is_unsent eq_alert_key save_alert last_sent_alert within_window record_alert cooling
    deliver choose_notifier dispatch_after dispatch parse_renewed_date location renewal_on
    is_snoozed initial_result need_alert_of report check_one check check_effects date_of_parts
    two_digits covering renewal_before has_recent_alert
methods = tt

abbrev server : Checker
server = record {
  lunar = toy;
  cooldown = 100;
  has_push = true;
  has_notifier = true;
  subscription_id = λ name. name;
  zones = λ _. none;
  local = λ _. date 2028 3 20;
}

abbrev plan : Subscription
plan = record {
  name = text "disk";
  cycle = monthly;
  renewal_day = pos 22;
  alert_days_before = pos 3;
  last_renewed_date = some (text "2028-02-22");
  snoozed_until = none;
  timezone = [];
  webhook_url = [];
}

abbrev at : ℕ → Attempt
at n = record {
  started = n;
  decided = n;
  queried = n;
  saved = n + 2;
  override_error = none;
  send_error = none;
}

runs :
    ((check_one volatile_store server plan false (at 10) empty).result.alert_state ≡ alert_sent)
    × ((check volatile_store server ((plan, at 10) ∷ (plan, at 50) ∷ []) false empty).1 ≢ [])
    × (check_effects volatile_store server
          ((plan, at 50) ∷ [])
          false
          (check_one volatile_store server plan false (at 10) empty).store
        ≡ [])
unfolding methods
runs = (refl, (λ e. cc), refl)

check_once_per_cooldown_example :
    All
      (λ e. about e ≢ text "disk")
      (check_effects volatile_store server
        ((plan, at 50) ∷ [])
        false
        (check_one volatile_store server plan false (at 10) empty).store)
unfolding methods
check_once_per_cooldown_example =
    check_once_per_cooldown volatile_store volatile_laws server plan (at 10) false empty
      ((plan, at 50) ∷ []) runs.0 (λ r. refl) (omega arith) (omega arith, tt)

check_one_reminds_example :
    let s = new_schedule monthly (pos 22) (parse_renewed_date (some (text "2028-02-22"))) in
    pos (ordinal (on_or_after toy s (date 2028 3 20)) - ordinal (date 2028 3 20)) ≤ℤ pos 3
unfolding methods
check_one_reminds_example =
    check_one_reminds volatile_store server plan false (at 10) empty toy_laws
      ((22, refl, omega arith), (omega arith, omega arith)) (omega arith) (omega arith) (λ e. cc)

check_one_due_example :
    let renewal = renewal_on server plan (date 2028 3 20) in
    (false ≡ false)
    × (is_snoozed plan (date 2028 3 20) ≡ false)
    × (renewal.already_renewed ≡ false)
    × (pos 0 ≤ℤ renewal.days)
    × (renewal.days ≤ℤ pos 3)
unfolding methods
check_one_due_example = check_one_due volatile_store server plan false (at 10) empty (inl (λ e. cc))
