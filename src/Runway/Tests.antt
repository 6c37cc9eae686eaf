-- ===== src/Runway/Tests.antt =====
-- Trend alerts of one project, with amounts that are whole numbers.
use quotapulse.Base.{ℕ, ◌+◌, ◌≡◌, refl, true, false, none, some, [], ◌∷◌, leb, ltb, All, arith}
use quotapulse.Base.Text.{text, eq_text}
use quotapulse.Store.Volatile.{
  empty, volatile_store, eq_alert_key, lookup, insert, fresh, prune, is_unsent, save_alert,
  within_window, last_sent_alert, has_recent_alert,
}
use quotapulse.Store.Volatile.Laws.{volatile_laws, Remembers}
use quotapulse.Runway.{
  Floats, Runway, CheckResult, Alerter, Attempt, Sent, confidence_high, low_runway, spend_spike,
  alertable, runway_due, spike_due, emit, emit_if, check_runway, check_one, check_loop, check,
}
use quotapulse.Runway.Alerts.{IsOther, trend_cooling}

abbrev whole : Floats
whole = record { F = ℕ; nothing = 0; le = leb; lt = ltb }

abbrev short : Runway whole
short = record {
  runway_days = some 2;
  confidence = confidence_high;
  today_consumed = some 50;
  spike_ratio = some 4;
}

abbrev result : CheckResult whole
result = record {
  project = text "disk";
  project_id = text "d15c";
  success = true;
  need_alarm = false;
  runway = some short;
}

abbrev alerter : Alerter whole
alerter = record {
  has_notifier = true;
  runway_alert_days = 7;
  spike_ratio = 3;
  spike_min_amount = 10;
  cooldown = 100;
}

abbrev at : ℕ → Attempt
at n = record { queried = n; saved = n + 1; send_error = none }

abbrev first : Sent volatile_store
first = check volatile_store alerter false ((result, (at 10, at 20)) ∷ []) empty

first_lem :
    Remembers first.store (text "d15c") low_runway 11
    × (first.messages ≡ (text "d15c", low_runway) ∷ (text "d15c", spend_spike) ∷ [])
unfolding alertable runway_due spike_due emit emit_if check_runway check_one check_loop check lookup
    insert fresh prune is_unsent save_alert within_window last_sent_alert has_recent_alert
    eq_alert_key eq_text
first_lem = (refl, refl)

trend_cooling_example :
    let s = check volatile_store alerter false ((result, (at 50, at 60)) ∷ []) first.store in
    Remembers s.store (text "d15c") low_runway 11
    × All
        (IsOther volatile_store volatile_laws alerter (omega arith) (text "d15c") low_runway 11)
        s.messages
unfolding has_recent_alert
trend_cooling_example =
    trend_cooling volatile_store volatile_laws alerter (omega arith) (text "d15c") low_runway 11
      false ((result, (at 50, at 60)) ∷ []) first.store
      (
        (
          record { queried_by = omega arith; saved_by = omega arith },
          record { queried_by = omega arith; saved_by = omega arith },
        ),
        tt,
      )
      first_lem.0
