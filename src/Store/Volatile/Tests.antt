-- ===== src/Store/Volatile/Tests.antt =====
-- The volatile store on a short history.
use quotapulse.Base.{ℕ, ◌*◌, ◌≡◌, ◌==◌, refl, none, some, List, [], ◌∷◌, if◌then◌else◌, arith}
use quotapulse.Base.Text.{text, eq_text}
use quotapulse.Store.{AlertRecord}
use quotapulse.Store.Volatile.{
  eq_alert_key, lookup, insert, fresh, prune, is_unsent, save_alert, within_window, last_sent_alert,
  hour,
}
use quotapulse.Store.Volatile.Log.{
  Saved, alert, replay, recent, newest_send, last_sent_alert-newest_send,
}

abbrev low : AlertRecord
low = record {
  alert_id = text "p";
  name = text "disk";
  alert_type = text "low_balance";
  status = text "sent";
}

-- A send, then a failure.
abbrev log : List (ℕ × Saved)
log = (9 * hour, alert (record low { status = text "failed" })) ∷ (7 * hour, alert low) ∷ []

runs :
    (last_sent_alert (replay log) (10 * hour) (text "p") (text "low_balance") (3 * hour)
      ≡ some (7 * hour))
    × (last_sent_alert (replay log) (10 * hour) (text "p") (text "low_balance") (2 * hour) ≡ none)
unfolding eq_alert_key lookup insert fresh prune is_unsent save_alert within_window last_sent_alert
    eq_text replay
runs = (refl, refl)

last_sent_alert-newest_send_example :
    last_sent_alert (replay log) (10 * hour) (text "p") (text "low_balance") (3 * hour) ≡ (
      if (3 * hour) == 0
      then none
      else recent (10 * hour) (3 * hour) (newest_send (text "p") (text "low_balance") log))
last_sent_alert-newest_send_example =
    last_sent_alert-newest_send (10 * hour) (3 * hour) (text "p") (text "low_balance") log
      (omega arith, (omega arith, tt)) (omega arith)
