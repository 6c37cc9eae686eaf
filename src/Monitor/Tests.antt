-- ===== src/Monitor/Tests.antt =====
-- Balance checks of two accounts, with balances that are whole numbers.
use quotapulse.Base.{
  ℕ, suc, ◌+◌, ◌<◌, ◌≡◌, ◌≢◌, ◌⊎◌, inl, inr, refl, true, false, none, some, List, [], ◌∷◌, leb, ltb,
  All, Any, arith, is_some, zero,
}
use quotapulse.Base.Text.{
  Text, text, eq_text, contains, starts_with, trim_space, trim_left, trim_right,
}
use quotapulse.Runway.{Floats}
use quotapulse.Store.Volatile.{
  empty, volatile_store, eq_alert_key, lookup, insert, fresh, prune, is_unsent, save_alert,
  within_window, last_sent_alert, has_recent_alert,
}
use quotapulse.Store.Volatile.Laws.{volatile_laws, Remembers}
use quotapulse.Monitor.Account.{Project}
use quotapulse.Monitor.Cache.{
  cache_lookup, cache_delete, cache_get, cache_set, Request, look_up, put, replay, newest_put, live,
  cache_get-newest_put,
}
use quotapulse.Monitor.{
  Attempt, Monitor, World, low_balance, record_alert, is_cooling, send, deliver, alert_unless,
  failure, judge, fetch, check_project,
}
use quotapulse.Monitor.Alerts.{is_below, check_project_sends, IsOther, check_project_cooling}
use quotapulse.Monitor.Redact.{
  redact_secrets, cap_length, apply_patterns, redact_keys, redact_parts, redact_part, replace_all,
  replace_from, fields_from, count_runes, take_runes,
}
use quotapulse.Monitor.Redact.Leaks.{redact_secrets_clears}

abbrev whole : Floats
whole = record { F = ℕ; nothing = 0; le = leb; lt = ltb }

abbrev account : Text → Project whole
account name = record {
  id = name;
  name = name;
  provider = text "p";
  api_key = text "k";
  cache_key = name;
  threshold = 100;
  enabled = true;
}

abbrev monitor : Monitor
monitor = record {
  ttl = 50;
  cooldown = 100;
  has_push = true;
  has_notifier = true;
  redact = λ m k. m;
}

abbrev start : World volatile_store whole monitor
start = record { store = empty; cache = []; history = [] }

abbrev at : ℕ → Attempt whole
at n = record {
  adapter_error = none;
  fetched = some 40;
  fetch_error = [];
  looked_up = n;
  stored = n;
  queried = n;
  decided = n;
  saved = n + 1;
  send_error = none;
}

abbrev once : World volatile_store whole monitor
once = (check_project volatile_store whole monitor false (account (text "a")) (at 10) start).world

once_lem :
    Remembers once.store (text "a") low_balance 11
    × ((check_project volatile_store whole monitor false
          (account (text "a"))
          (at 20)
          once).result.cached
        ≡ true)
unfolding cache_lookup cache_delete cache_get cache_set record_alert is_cooling send deliver
    alert_unless failure judge fetch check_project lookup insert fresh prune is_unsent save_alert
    within_window last_sent_alert eq_alert_key eq_text
once_lem = (refl, refl)

check_project_sends_example :
    let c = check_project volatile_store whole monitor false (account (text "a")) (at 10) start in
    (c.result.success ≡ is_some c.result.credits)
    × (c.result.need_alarm
        ≡ is_below volatile_store whole monitor (account (text "a")) c.result.credits)
    × ((c.effects ≢ []) ⊎ (c.world.store ≢ start.store)
        → (false ≡ false) × ((c.result.success ≡ false) ⊎ (c.result.need_alarm ≡ true)))
check_project_sends_example =
    check_project_sends volatile_store whole monitor false (account (text "a")) (at 10) start

check_project_cooling_example :
    let c = check_project volatile_store whole monitor false (account (text "a")) (at 80) once in
    Remembers c.world.store (text "a") low_balance 11
    × All
        (IsOther volatile_store volatile_laws whole monitor (omega arith) (text "a") low_balance 11)
        c.effects
unfolding has_recent_alert
check_project_cooling_example =
    check_project_cooling volatile_store volatile_laws whole monitor (omega arith) (text "a")
      low_balance 11 false (account (text "a")) (at 80) once
      (record { queried_by = omega arith; decided_by = omega arith; saved_by = omega arith })
      once_lem.0

abbrev requests : List (ℕ × Request whole)
requests = (30, look_up (text "a")) ∷ (10, put (text "a") 7) ∷ []

cache_get-newest_put_example :
    (cache_get (text "a") 50 40 (replay 50 requests)).0
    ≡ live 50 40 (newest_put 50 (text "a") requests)
cache_get-newest_put_example =
    cache_get-newest_put 50 40 (text "a") requests (omega arith, (omega arith, tt))

abbrev both : List (Project whole)
both = account (text "a") ∷ account (text "b") ∷ []

-- The second worker is first.
abbrev jobs : List (ℕ × Attempt whole)
jobs = (1, at 10) ∷ (0, at 12) ∷ []

all_taken : (i : ℕ) → i < 2 → Any (λ x. x.0 ≡ i) jobs
all_taken zero h = inr (inl refl)
all_taken (suc zero) h = inl refl
all_taken (suc (suc i)) h = absurd (omega arith)

abbrev secret : Text
secret = text "abcdef:ghijkl"

secret_part-IsAbsent_lem :
    contains (text "ghijkl") (redact_secrets [] (text "bad key ghijkl, ghijkl") (secret ∷ []))
    ≡ false
unfolding contains starts_with trim_space trim_left trim_right redact_secrets cap_length
    apply_patterns redact_keys redact_parts redact_part replace_all replace_from fields_from
    count_runes take_runes
secret_part-IsAbsent_lem = refl

redact_secrets_clears_example :
    contains (text "ghijkl") (redact_secrets [] (text "bad key ghijkl, ghijkl") (secret ∷ []))
    ≡ false
unfolding trim_space trim_left trim_right fields_from
redact_secrets_clears_example =
    redact_secrets_clears b'g' (text "hijkl") (omega arith) [] (text "bad key ghijkl, ghijkl")
      (secret ∷ []) (omega arith) (inl (inr (inr (inl refl)))) tt
