-- ===== src/State/Tests.antt =====
-- The theorems about the dashboard at small states.
use quotapulse.Base.{
  ℕ, ◌+◌, ◌≡◌, ◌↔◌, refl, true, false, none, some, List, [], ◌∷◌, count_if, is_some, Bool,
}
use quotapulse.Base.Text.{Text, text, eq_text}
use quotapulse.State.{CheckResult, Manager, JobTable, JobState, jobs, failed_jobs, merge}
use quotapulse.State.Reports.{ScanResult, set_email_scan, sum_emails, set_email_scan_counts}
use quotapulse.State.Balance.{
  IsCounted, Request, replace_all, merge_some, remove_one, answer, answers, IsRead,
  answers-IsCounted, answer-last_update,
}
use quotapulse.State.Merge.{IsDistinct, upserts, merge-upserts, find_place}
use quotapulse.State.Jobs.{
  Event, registered, ran, steps, IsRegistered, jobs_healthy, count_of, is_run, is_failed_run,
  steps_counts,
}

abbrev reading : Text → Bool → CheckResult Text
reading name success = record {
  project = name;
  provider = text "p";
  success = success;
  need_alarm = false;
  details = [];
}

abbrev fresh_table : JobTable
fresh_table = record { jobs = []; job_order = [] }

abbrev fresh_manager : Manager Text
fresh_manager = record {
  balance = record {
    last_update = none;
    projects = [];
    summary = record { total = 0; success = 0; failed = 0; need_alarm = 0 };
  };
  balance_checked = false;
  table = fresh_table;
}

abbrev two : List (CheckResult Text)
two = reading (text "a") true ∷ reading (text "b") false ∷ []

abbrev requests : List (ℕ × Request Text)
requests =
    (5, replace_all two)
    ∷ (7, merge_some (reading (text "b") true ∷ []))
    ∷ (9, remove_one (text "a"))
    ∷ []

answers-IsCounted_example :
    IsCounted
      (answers requests fresh_manager).balance.projects
      (answers requests fresh_manager).balance.summary
answers-IsCounted_example =
    answers-IsCounted requests fresh_manager
      (record { total = refl; success = refl; failed = refl; need_alarm = refl; parts = refl })

answer-last_update_example :
    (IsRead (merge_some two)
      → (answer 8 (merge_some two) fresh_manager).balance.last_update ≡ some 8)
    × ((IsRead (merge_some two) → ⊥)
        → (answer 8 (merge_some two) fresh_manager).balance.last_update ≡ none)
answer-last_update_example = answer-last_update 8 (merge_some two) fresh_manager

merge-upserts_example :
    merge two (reading (text "b") true ∷ []) ≡ upserts (reading (text "b") true ∷ []) two
unfolding IsDistinct find_place eq_text
merge-upserts_example = merge-upserts two (reading (text "b") true ∷ []) (refl, (refl, tt))

abbrev events : List Event
events =
    registered (text "scan") [] [] true none
    ∷ ran (text "scan") false 3 1 none none none
    ∷ ran (text "scan") true 9 1 none none none
    ∷ []

jobs_healthy_example :
    (s : JobState) × (fs : List Text) × (jobs (steps events fresh_table) ≡ some s)
    × (failed_jobs (steps events fresh_table) ≡ some fs)
    × ((s.healthy ≡ true) ↔ (fs ≡ []))
unfolding IsRegistered
jobs_healthy_example = jobs_healthy events fresh_table tt

steps_counts_example :
    (count_of (λ j. j.runs) (text "scan") (steps events fresh_table)
      ≡ count_of (λ j. j.runs) (text "scan") fresh_table + count_if (is_run (text "scan")) events)
    × (count_of (λ j. j.failures) (text "scan") (steps events fresh_table)
        ≡ count_of (λ j. j.failures) (text "scan") fresh_table
          + count_if (is_failed_run (text "scan")) events)
steps_counts_example = steps_counts (text "scan") events fresh_table

abbrev scan : ScanResult Text
scan = record {
  days = 3;
  dry_run = false;
  mailboxes =
      (record { name = text "a"; total_emails = 4; error = none })
      ∷ (record { name = text "b"; total_emails = 0; error = some (text "login") })
      ∷ [];
  alerts = (record { alert_sent = true; details = [] }) ∷ [];
}

set_email_scan_counts_example :
    let e = set_email_scan 5 scan in
    (e.summary.failed_mailboxes ≡ count_if (λ m. is_some m.error) e.mailboxes)
    × (e.summary.total_emails ≡ sum_emails e.mailboxes)
    × (e.summary.alerts_sent ≡ count_if (λ a. a.alert_sent) e.alerts)
set_email_scan_counts_example = set_email_scan_counts 5 scan
