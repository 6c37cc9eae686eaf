-- ===== src/Store.antt =====
-- What alerting asks of persistence: the alert part of the interface in internal/store/store.go,
-- with what a caller may rely on. Times and durations are nanoseconds.
pub mod Volatile
use quotapulse.Base.{
  ℕ, ◌+◌, ◌-◌, ◌≤◌, ◌<◌, ◌≡◌, ◌≢◌, Bool, true, false, Option, none, some, List, [], ◌⊎◌,
}
use quotapulse.Base.Text.{Text, text}

-- One alert of the history. Its message, value and threshold are for display, and left out.
pub record AlertRecord : Type 0 where
  pub alert_id : Text
  pub name : Text
  pub alert_type : Text
  pub status : Text

abbrev pub sent : Text
sent = text "sent"

abbrev pub failed : Text
failed = text "failed"

-- An empty status counts as sent.
abbrev pub CountsAsSent : AlertRecord → Type 0
CountsAsSent r = (r.status ≡ []) ⊎ (r.status ≡ sent)

-- The operations take the clock's reading; the flag says that an error came back.
pub record AlertStore : Type 1 where
  pub State : Type 0
  pub last_sent_alert : State → ℕ → Text → Text → ℕ → Option ℕ × Bool
  pub has_recent_alert : State → ℕ → Text → Text → ℕ → Bool × Bool
  pub save_alert : State → ℕ → AlertRecord → State × Bool

-- `Remembers s id ty t`: the newest alert of that kind that went out did so at `t`.
-- `horizon` is how long the store remembers.
pub record AlertLaws (A : AlertStore) : Type 1 where
  pub Remembers : A.State → Text → Text → ℕ → Type 0
  pub horizon : ℕ
  pub save-Remembers :
      (s : A.State) (now : ℕ) (r : AlertRecord)
      → CountsAsSent r
      → (A.save_alert s now r).1 ≡ false
      → Remembers (A.save_alert s now r).0 r.alert_id r.alert_type now
  pub save_failed :
      (s : A.State) (now : ℕ) (r : AlertRecord)
      → r.status ≡ failed
      → (id ty : Text) (t : ℕ) → Remembers s id ty t
      → Remembers (A.save_alert s now r).0 id ty t
  pub save_other :
      (s : A.State) (now : ℕ) (r : AlertRecord) (id ty : Text) (t : ℕ)
      → (r.alert_id ≢ id) ⊎ (r.alert_type ≢ ty)
      → now ≤ t + horizon
      → Remembers s id ty t
      → Remembers (A.save_alert s now r).0 id ty t
  pub last_sent-Remembers :
      (s : A.State) (now within t : ℕ) (id ty : Text)
      → Remembers s id ty t
      → 0 < within
      → now ≤ t + within
      → A.last_sent_alert s now id ty within ≡ (some t, false)
  pub has_recent-Remembers :
      (s : A.State) (now within t : ℕ) (id ty : Text)
      → Remembers s id ty t
      → 0 < within
      → now ≤ t + within
      → A.has_recent_alert s now id ty within ≡ (true, false)
