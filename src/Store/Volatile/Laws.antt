-- ===== src/Store/Volatile/Laws.antt =====
-- The volatile store keeps the promises of the interface for as long as its retention.
use quotapulse.Base.{
  ℕ, ◌+◌, ◌≤◌, ◌<◌, ◌≡◌, ◌≢◌, ◌⊎◌, inl, inr, refl, ◌∙◌, Bool, true, false, some, List, [], ◌∷◌,
  if◌then◌else◌, arith, Bool-cases, ap, ◌↔◌, is_some,
}
use quotapulse.Base.Text.{Text, eq_text, eq_text_iff}
use quotapulse.Store.{AlertRecord, AlertLaws, CountsAsSent, failed}
use quotapulse.Store.Volatile.{
  retention, AlertKey, EmailKey, eq_alert_key, eq_email_key, lookup, insert, Volatile, fresh, prune,
  is_unsent, save_alert, within_window, last_sent_alert, has_recent_alert, volatile_store,
}

-- An equality test that decides equality.
abbrev Decides {ℓ} : {K : Type ℓ} → (K → K → Bool) → Type ℓ
Decides {K} eq = (a b : K) → (eq a b ≡ true) ↔ (a ≡ b)

pub eq_alert_key_iff : (a b : AlertKey) → (eq_alert_key a b ≡ true) ↔ (a ≡ b)
unfolding eq_alert_key
eq_alert_key_iff a b = ground (arith, eq_text_iff a.id b.id, eq_text_iff a.alert_type b.alert_type)

pub eq_email_key_iff : (a b : EmailKey) → (eq_email_key a b ≡ true) ↔ (a ≡ b)
unfolding eq_email_key
eq_email_key_iff a b = ground (
  arith,
  eq_text_iff a.mailbox b.mailbox,
  eq_text_iff a.sender b.sender,
  eq_text_iff a.subject b.subject,
  eq_text_iff a.email_date b.email_date,
)

module _ {K : Type 0} (eq : K → K → Bool) (decides : Decides eq) where
  pub lookup-insert :
      (k j : K) (now : ℕ) (m : List (K × ℕ))
      → lookup eq j (insert eq k now m) ≡ (if eq k j then some now else lookup eq j m)
  unfolding lookup insert
  lookup-insert k j now [] = refl
  lookup-insert k j now ((i, at) ∷ m) =
      ground (arith, decides i k, decides i j, decides k j, lookup-insert k j now m)

  -- Pruning forgets nothing that is within the retention.
  pub lookup-fresh :
      (k : K) (now at : ℕ) (m : List (K × ℕ))
      → now ≤ at + retention
      → lookup eq k m ≡ some at
      → lookup eq k (fresh now m) ≡ some at
  unfolding lookup fresh
  lookup-fresh k now at [] h e = e
  lookup-fresh k now at ((j, t) ∷ m) h e = ground (arith, lookup-fresh k now at m h)

abbrev key_of : Text → Text → AlertKey
key_of id ty = record { id = id; alert_type = ty }

-- The newest alert of a kind that went out did so at `t`.
abbrev pub Remembers : Volatile → Text → Text → ℕ → Type 0
Remembers v id ty t = lookup eq_alert_key (key_of id ty) v.sent_alerts ≡ some t

is_unsent-sent : (r : AlertRecord) → CountsAsSent r → is_unsent r.status ≡ false
unfolding is_unsent eq_text
is_unsent-sent r (inl e) = rw e refl
is_unsent-sent r (inr e) = rw e refl

-- A send is remembered at its time.
pub save_alert-Remembers :
    (v : Volatile) (now : ℕ) (r : AlertRecord)
    → CountsAsSent r
    → Remembers (save_alert v now r) r.alert_id r.alert_type now
unfolding save_alert prune
save_alert-Remembers v now r h = rw (is_unsent-sent r h) (
    lookup-fresh eq_alert_key eq_alert_key_iff (key_of r.alert_id r.alert_type) now now _
      (omega arith) stored)
  where
    stored :
        lookup eq_alert_key
          (key_of r.alert_id r.alert_type)
          (insert eq_alert_key (key_of r.alert_id r.alert_type) now v.sent_alerts)
        ≡ some now
    stored =
        lookup-insert eq_alert_key eq_alert_key_iff _ _ now v.sent_alerts
        ∙ rw ((eq_alert_key_iff _ _).1 refl)

-- A failed send starts no cooldown, and ends none.
pub save_alert_failed :
    (v : Volatile) (now : ℕ) (r : AlertRecord) → r.status ≡ failed → save_alert v now r ≡ v
unfolding save_alert is_unsent eq_text
save_alert_failed v now r e = rw e

other_key :
    (r : AlertRecord) (id ty : Text)
    → (r.alert_id ≢ id) ⊎ (r.alert_type ≢ ty)
    → eq_alert_key (key_of r.alert_id r.alert_type) (key_of id ty) ≡ false
unfolding eq_alert_key
other_key r id ty h = ground (arith, eq_text_iff r.alert_id id, eq_text_iff r.alert_type ty)

pub save_alert_other :
    (v : Volatile) (now : ℕ) (r : AlertRecord) (id ty : Text) (t : ℕ)
    → (r.alert_id ≢ id) ⊎ (r.alert_type ≢ ty)
    → now ≤ t + retention
    → Remembers v id ty t
    → Remembers (save_alert v now r) id ty t
unfolding save_alert prune
save_alert_other v now r id ty t ne h m = elim (Bool-cases (is_unsent r.status)) [
  | inl unsent ↦ rw unsent m
  | inr counts ↦ rw counts (
      lookup-fresh eq_alert_key eq_alert_key_iff (key_of id ty) now t _ h (
        lookup-insert eq_alert_key eq_alert_key_iff _ _ now v.sent_alerts
        ∙ rw (other_key r id ty ne) m))
]

-- Inside the window the last send is reported, at its time.
pub last_sent_alert-Remembers :
    (v : Volatile) (now within t : ℕ) (id ty : Text)
    → Remembers v id ty t
    → 0 < within
    → now ≤ t + within
    → last_sent_alert v now id ty within ≡ some t
unfolding last_sent_alert
last_sent_alert-Remembers v now within t id ty m h le = rw m (unfold within_window in ground arith)

-- The interface's promises, kept for the retention of 31 days.
abbrev pub volatile_laws : AlertLaws volatile_store
unfolding has_recent_alert
volatile_laws = record {
  Remembers = Remembers;
  horizon = retention;
  save-Remembers = λ v now r h _. save_alert-Remembers v now r h;
  save_failed = λ v now r e id ty t m. rw (save_alert_failed v now r e) m;
  save_other = save_alert_other;
  last_sent-Remembers = λ v now within t id ty m h le.
      ap (λ o. (o, false)) (last_sent_alert-Remembers v now within t id ty m h le);
  has_recent-Remembers = λ v now within t id ty m h le.
      ap (λ o. (is_some o, false)) (last_sent_alert-Remembers v now within t id ty m h le);
}
