-- ===== src/Store/Volatile.antt =====
-- The store used when the database is off: internal/store/volatile.go. A map is an association list
-- with one entry for a key; a clock that went back makes `now - at` zero, below every window.
pub mod Laws
pub mod Log
mod Tests
use quotapulse.Base.{
  ℕ, ◌+◌, ◌-◌, ◌*◌, Bool, true, false, not, ◌&&◌, Option, none, some, List, [], ◌∷◌, ltb, leb, ◌==◌,
  if◌then◌else◌, is_some, length, filter,
}
use quotapulse.Base.Int.{ℤ, pos, pos_part, leb_ℤ}
use quotapulse.Base.Text.{Text, eq_text}
use quotapulse.Store.{AlertRecord, AlertStore, sent}

abbrev pub hour : ℕ
hour = 3600 * 1000000000

-- `volatileRetention`
abbrev pub retention : ℕ
retention = 31 * 24 * hour

pub record AlertKey : Type 0 where
  pub id : Text
  pub alert_type : Text

pub record EmailKey : Type 0 where
  pub mailbox : Text
  pub sender : Text
  pub subject : Text
  pub email_date : Text

pub record EmailAlertRecord : Type 0 where
  pub key : EmailKey
  pub alert_sent : Bool

unfoldable pub eq_alert_key : AlertKey → AlertKey → Bool
eq_alert_key a b = eq_text a.id b.id && eq_text a.alert_type b.alert_type

unfoldable pub eq_email_key : EmailKey → EmailKey → Bool
eq_email_key a b =
    eq_text a.mailbox b.mailbox
    && (eq_text a.sender b.sender
        && (eq_text a.subject b.subject && eq_text a.email_date b.email_date))

-- A Go map from keys to times, by the equality of its keys.
module _ {K : Type 0} (eq : K → K → Bool) where
  unfoldable pub lookup : K → List (K × ℕ) → Option ℕ
  lookup k [] = none
  lookup k ((j, at) ∷ m) = let rest = lookup k m in if eq j k then some at else rest

  unfoldable pub insert : K → ℕ → List (K × ℕ) → List (K × ℕ)
  insert k now [] = (k, now) ∷ []
  insert k now ((j, at) ∷ m) =
      let rest = insert k now m in if eq j k then (k, now) ∷ m else (j, at) ∷ rest

pub record Volatile : Type 0 where
  pub sent_alerts : List (AlertKey × ℕ)
  pub emails : List (EmailKey × ℕ)

-- `Volatile()`
abbrev pub empty : Volatile
empty = record { sent_alerts = []; emails = [] }

-- The entries of a map that `prune` keeps.
unfoldable pub fresh : {K : Type 0} → ℕ → List (K × ℕ) → List (K × ℕ)
fresh now [] = []
fresh now ((k, at) ∷ m) =
    let rest = fresh now m in if ltb retention (now - at) then rest else (k, at) ∷ rest

unfoldable pub prune : ℕ → Volatile → Volatile
prune now v = record { sent_alerts = fresh now v.sent_alerts; emails = fresh now v.emails }

-- `rec.Status != "" && rec.Status != "sent"`
unfoldable pub is_unsent : Text → Bool
is_unsent status = not (eq_text status []) && not (eq_text status sent)

unfoldable pub save_alert : Volatile → ℕ → AlertRecord → Volatile
save_alert v now rec =
    if is_unsent rec.status
    then v
    else let key : AlertKey = record { id = rec.alert_id; alert_type = rec.alert_type } in
      prune now (record v { sent_alerts = insert eq_alert_key key now v.sent_alerts })

unfoldable pub within_window : ℕ → ℕ → Option ℕ → Option ℕ
within_window now within none = none
within_window now within (some at) = if ltb within (now - at) then none else some at

unfoldable pub last_sent_alert : Volatile → ℕ → Text → Text → ℕ → Option ℕ
last_sent_alert v now id alert_type within =
    if within == 0
    then none
    else within_window now within
        (lookup eq_alert_key (record { id = id; alert_type = alert_type }) v.sent_alerts)

unfoldable pub has_recent_alert : Volatile → ℕ → Text → Text → ℕ → Bool
has_recent_alert v now id alert_type within = is_some (last_sent_alert v now id alert_type within)

unfoldable pub save_email_alert : Volatile → ℕ → EmailAlertRecord → Volatile
save_email_alert v now rec =
    if not rec.alert_sent
    then v
    else prune now (record v { emails = insert eq_email_key rec.key now v.emails })

abbrev pub default_email_days : ℕ
default_email_days = 30

-- `daysOf`
unfoldable pub days_of : ℤ → ℕ → ℕ
days_of days fallback = if leb_ℤ days (pos 0) then fallback else pos_part days

unfoldable pub has_recent_email_alert : Volatile → ℕ → EmailKey → ℤ → Bool
has_recent_email_alert v now key days = is_some (
    within_window now (days_of days default_email_days * 24 * hour)
      (lookup eq_email_key key v.emails))

-- The store as the callers see it: it never fails.
abbrev pub volatile_store : AlertStore
volatile_store = record {
  State = Volatile;
  last_sent_alert = λ v now id ty within. (last_sent_alert v now id ty within, false);
  has_recent_alert = λ v now id ty within. (has_recent_alert v now id ty within, false);
  save_alert = λ v now rec. (save_alert v now rec, false);
}
