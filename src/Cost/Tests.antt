-- ===== src/Cost/Tests.antt =====
-- Budget alerts at one project, with amounts that are whole numbers.
use quotapulse.Base.{
  ℕ, ◌+◌, ◌-◌, ◌*◌, ◌/◌, ◌≡◌, ◌≢◌, refl, true, false, none, some, List, [], ◌∷◌, ltb, leb, ◌==◌,
  All, arith,
}
use quotapulse.Base.Text.{text, eq_text}
use quotapulse.Calendar.{date, month_length}
use quotapulse.Store.Volatile.{
  Volatile, empty, volatile_store, eq_alert_key, lookup, insert, fresh, prune, is_unsent,
  save_alert, within_window, last_sent_alert, has_recent_alert,
}
use quotapulse.Store.Volatile.Laws.{volatile_laws, Remembers}
use quotapulse.Cost.{
  Amounts, Project, BalancePoint, UsageSpend, Moment, Attempt, spend_from, spend_in_month,
  projected, is_over, has_budget, usage_of, judge, judge_usage, alert_project, rounds, check,
  budget_type,
}
use quotapulse.Cost.Budget.{check_cooling}
use quotapulse.Cost.Usage.{checks, check_usage_repeats}

abbrev whole : Amounts
whole = record {
  F = ℕ;
  nothing = 0;
  plus = ◌+◌;
  minus = ◌-◌;
  gt = λ a b. ltb b a;
  le = λ a b. leb a b;
  is_zero = λ a. a == 0;
  extrapolate = λ spend elapsed days. spend * days / elapsed;
}

abbrev code : Project whole
code = record { id = text "c0de"; name = text "code"; monthly_budget = 100 }

abbrev middle : Moment
middle = record { today = date 2026 10 16; now = 5000000000; month_start = 1000000000 }

abbrev reported : List (UsageSpend whole)
reported = (record { project = text "code"; cost = 60 }) ∷ []

abbrev series : List (BalancePoint whole)
series =
    (record { project_name = text "code"; balance = 90; timestamp = 1 })
    ∷ (record { project_name = text "code"; balance = 30; timestamp = 2 })
    ∷ []

abbrev at : ℕ → Attempt
at n = record { queried = n; saved = n + 1; send_error = none }

judgements :
    (judge whole middle series code ≡ true) × (judge_usage whole middle reported [] code ≡ true)
unfolding spend_from spend_in_month projected is_over has_budget usage_of judge judge_usage
    month_length eq_text
judgements = (refl, refl)

abbrev after_one : Volatile
after_one =
    (check volatile_store whole 100 middle (some series) false ((code, at 10) ∷ []) empty).store

after_one_lem : Remembers after_one (text "c0de") budget_type 11
unfolding spend_from spend_in_month projected is_over has_budget judge month_length eq_text
    alert_project rounds check lookup insert fresh prune is_unsent save_alert within_window
    last_sent_alert has_recent_alert eq_alert_key
after_one_lem = refl

check_cooling_example :
    Remembers
      (check volatile_store whole 100 middle
        (some series)
        false
        ((code, at 50) ∷ [])
        after_one).store
      (text "c0de")
      budget_type
      11
    × All
        (λ m. m ≢ text "c0de")
        (check volatile_store whole 100 middle
          (some series)
          false
          ((code, at 50) ∷ [])
          after_one).messages
unfolding has_recent_alert
check_cooling_example =
    check_cooling volatile_store volatile_laws whole 100 (omega arith) (text "c0de") 11 middle
      (some series) false ((code, at 50) ∷ []) after_one
      ((record { queried_by = omega arith; saved_by = omega arith }), tt) after_one_lem

check_usage_repeats_example :
    All
      (λ m. m ≡ text "c0de" ∷ [])
      (checks whole 100 middle (some reported) (some []) code (at 10 ∷ at 11 ∷ []) empty)
unfolding lookup
check_usage_repeats_example =
    check_usage_repeats whole 100 middle (some reported) (some []) code [] reported refl refl
      judgements.1 (at 10 ∷ at 11 ∷ []) empty refl
