-- ===== src/Store/Volatile/Log.antt =====
-- The volatile store against the whole history of what was saved.
use quotapulse.Base.{
  ℕ, ◌+◌, ◌-◌, ◌≤◌, ◌≡◌, ◌⊎◌, inl, inr, refl, sym, ◌∙◌, subst, Bool, true, false, not, ◌&&◌, Option,
  none, some, List, [], ◌∷◌, ltb, leb, ◌==◌, if◌then◌else◌, arith, Bool-cases, ap, ◌↔◌,
}
use quotapulse.Base.Text.{Text}
use quotapulse.Store.{AlertRecord}
use quotapulse.Store.Volatile.{
  retention, AlertKey, eq_alert_key, lookup, insert, Volatile, EmailAlertRecord, empty, fresh,
  prune, is_unsent, save_alert, save_email_alert, within_window, last_sent_alert,
}
use quotapulse.Store.Volatile.Laws.{eq_alert_key_iff, lookup-insert}

-- No key has two entries.
abbrev NoDup : {K : Type 0} → (K → K → Bool) → List (K × ℕ) → Type 0
NoDup eq [] = Unit {0}
NoDup eq ((k, at) ∷ m) = (lookup eq k m ≡ none) × NoDup eq m

module _ {K : Type 0} (eq : K → K → Bool) (decides : (a b : K) → (eq a b ≡ true) ↔ (a ≡ b)) where
  NoDup-insert : (k : K) (now : ℕ) (m : List (K × ℕ)) → NoDup eq m → NoDup eq (insert eq k now m)
  unfolding lookup insert
  NoDup-insert k now [] h = (refl, tt)
  NoDup-insert k now ((j, at) ∷ m) h = elim (Bool-cases (eq j k)) [
    | inl e ↦ rw e (rw ((decides j k).0 e) at h.0, h.1)
    | inr e ↦ rw e (lookup-insert eq decides k j now m ∙ rw (other e) h.0, NoDup-insert k now m h.1)
  ]
    where
      other : eq j k ≡ false → eq k j ≡ false
      other e = ground (arith, decides j k, decides k j)

  -- Pruning drops an entry just when it is older than the retention.
  lookup-fresh_eq :
      (k : K) (now : ℕ) (m : List (K × ℕ))
      → NoDup eq m
      → lookup eq k (fresh now m) ≡ within_window now retention (lookup eq k m)
  unfolding lookup fresh within_window
  lookup-fresh_eq k now [] h = refl
  lookup-fresh_eq k now ((j, at) ∷ m) h = ground (arith, decides j k, lookup-fresh_eq k now m h.1)

  NoDup-fresh : (now : ℕ) (m : List (K × ℕ)) → NoDup eq m → NoDup eq (fresh now m)
  unfolding fresh
  NoDup-fresh now [] h = tt
  NoDup-fresh now ((j, at) ∷ m) h = elim (Bool-cases (ltb retention (now - at))) [
    | inl e ↦ rw e (NoDup-fresh now m h.1)
    | inr e ↦
        rw e (
          lookup-fresh_eq j now m h.1 ∙ rw h.0 (unfold within_window in refl),
          NoDup-fresh now m h.1,
        )
  ]

-- What callers save, newest first, each with the clock's reading.
pub data Saved : Type 0 where
  alert : AlertRecord → Saved
  email : EmailAlertRecord → Saved

pub save : Volatile → ℕ → Saved → Volatile
save v now (alert r) = save_alert v now r
save v now (email r) = save_email_alert v now r

unfoldable pub replay : List (ℕ × Saved) → Volatile
unfolding save
replay [] = empty
replay ((now, x) ∷ log) = save (replay log) now x

-- The clock never goes back, and reads `now` at the end.
abbrev pub IsLog : ℕ → List (ℕ × Saved) → Type 0
IsLog now [] = Unit {0}
IsLog now ((t, x) ∷ log) = (t ≤ now) × IsLog t log

is_send : Text → Text → Saved → Bool
is_send id ty (alert r) =
    not (is_unsent r.status)
    && eq_alert_key (record { id = r.alert_id; alert_type = r.alert_type })
        (record { id = id; alert_type = ty })
is_send id ty (email r) = false

-- When the newest send of a kind was: looked up in the whole history.
unfoldable pub newest_send : Text → Text → List (ℕ × Saved) → Option ℕ
unfolding is_send
newest_send id ty [] = none
newest_send id ty ((t, x) ∷ log) =
    let rest = newest_send id ty log in if is_send id ty x then some t else rest

-- The newest send, if it is no more than `within` ago.
abbrev pub recent : ℕ → ℕ → Option ℕ → Option ℕ
recent now within none = none
recent now within (some t) = if leb now (t + within) then some t else none

recent_window :
    (t now within : ℕ) (o : Option ℕ)
    → t ≤ now
    → within ≤ retention
    → recent now within (within_window t retention o) ≡ recent now within o
unfolding within_window
recent_window t now within none h le = refl
recent_window t now within (some at) h le = ground arith

within_recent : (now within : ℕ) (o : Option ℕ) → within_window now within o ≡ recent now within o
unfolding within_window
within_recent now within none = refl
within_recent now within (some at) = ground arith

IsLog-later : (t now : ℕ) (log : List (ℕ × Saved)) → t ≤ now → IsLog t log → IsLog now log
IsLog-later t now [] h l = tt
IsLog-later t now ((u, x) ∷ log) h l = (omega arith, l.1)

save_alert_unsent :
    (v : Volatile) (t : ℕ) (r : AlertRecord) → is_unsent r.status ≡ true → save_alert v t r ≡ v
unfolding save_alert
save_alert_unsent v t r e = rw e

save_alert_sends :
    (v : Volatile) (t : ℕ) (r : AlertRecord)
    → is_unsent r.status ≡ false
    → (save_alert v t r).sent_alerts
      ≡ fresh t (
          insert eq_alert_key
            (record { id = r.alert_id; alert_type = r.alert_type })
            t
            v.sent_alerts)
unfolding save_alert prune
save_alert_sends v t r e = rw e

save_email_alert_sends :
    (v : Volatile) (t : ℕ) (r : EmailAlertRecord)
    → ((save_email_alert v t r).sent_alerts ≡ v.sent_alerts)
      ⊎ ((save_email_alert v t r).sent_alerts ≡ fresh t v.sent_alerts)
unfolding save_email_alert prune
save_email_alert_sends v t r = elim (Bool-cases r.alert_sent) [
  | inl e ↦ inr (rw e)
  | inr e ↦ inl (rw e)
]

abbrev sends : List (ℕ × Saved) → List (AlertKey × ℕ)
sends log = (replay log).sent_alerts

-- One save leaves one entry for a key.
replay-NoDup : (log : List (ℕ × Saved)) → NoDup eq_alert_key (sends log)
unfolding replay
replay-NoDup [] = tt
replay-NoDup ((t, alert r) ∷ log) = elim (Bool-cases (is_unsent r.status)) [
  | inl e ↦
      subst (λ v. NoDup eq_alert_key v.sent_alerts) (sym (save_alert_unsent (replay log) t r e))
        (replay-NoDup log)
  | inr e ↦ subst (NoDup eq_alert_key) (sym (save_alert_sends (replay log) t r e)) (
      NoDup-fresh eq_alert_key eq_alert_key_iff t _
        (NoDup-insert eq_alert_key eq_alert_key_iff _ t (sends log) (replay-NoDup log)))
]
replay-NoDup ((t, email r) ∷ log) = elim (save_email_alert_sends (replay log) t r) [
  | inl e ↦ subst (NoDup eq_alert_key) (sym e) (replay-NoDup log)
  | inr e ↦
      subst (NoDup eq_alert_key) (sym e)
        (NoDup-fresh eq_alert_key eq_alert_key_iff t (sends log) (replay-NoDup log))
]

module _ (id ty : Text) where
  abbrev wanted : AlertKey
  wanted = record { id = id; alert_type = ty }

  abbrev found : List (ℕ × Saved) → Option ℕ
  found log = lookup eq_alert_key wanted (sends log)

  found_email :
      (t : ℕ) (r : EmailAlertRecord) (log : List (ℕ × Saved))
      → (found ((t, email r) ∷ log) ≡ found log)
        ⊎ (found ((t, email r) ∷ log) ≡ within_window t retention (found log))
  unfolding replay
  found_email t r log = elim (save_email_alert_sends (replay log) t r) [
    | inl e ↦ inl (rw e)
    | inr e ↦ inr (
        rw e
          (lookup-fresh_eq eq_alert_key eq_alert_key_iff wanted t (sends log) (replay-NoDup log)))
  ]

  found_alert :
      (t : ℕ) (r : AlertRecord) (log : List (ℕ × Saved))
      → is_unsent r.status ≡ false
      → found ((t, alert r) ∷ log)
        ≡ within_window t retention (if is_send id ty (alert r) then some t else found log)
  unfolding replay is_send
  found_alert t r log e =
      rw (save_alert_sends (replay log) t r e, e)
        (lookup-fresh_eq eq_alert_key eq_alert_key_iff wanted t
            (insert eq_alert_key key t (sends log))
            (NoDup-insert eq_alert_key eq_alert_key_iff key t (sends log) (replay-NoDup log))
          ∙ ap (within_window t retention)
              (lookup-insert eq_alert_key eq_alert_key_iff key wanted t (sends log)))
    where
      key : AlertKey
      key = record { id = r.alert_id; alert_type = r.alert_type }

  found_unsent :
      (t : ℕ) (r : AlertRecord) (log : List (ℕ × Saved))
      → is_unsent r.status ≡ true
      → found ((t, alert r) ∷ log) ≡ found log
  unfolding replay
  found_unsent t r log e =
      ap (λ v. lookup eq_alert_key wanted v.sent_alerts) (save_alert_unsent (replay log) t r e)

  newest_unsent :
      (t : ℕ) (r : AlertRecord) (log : List (ℕ × Saved))
      → is_unsent r.status ≡ true
      → newest_send id ty ((t, alert r) ∷ log) ≡ newest_send id ty log
  unfolding newest_send
  newest_unsent t r log e = rw e

  -- The map holds the newest send, but for one that is past the retention.
  recent-found :
      (now within : ℕ) (log : List (ℕ × Saved))
      → IsLog now log
      → within ≤ retention
      → recent now within (found log) ≡ recent now within (newest_send id ty log)
  unfolding newest_send
  recent-found now within [] h le = unfold replay lookup in refl
  recent-found now within ((t, email r) ∷ log) h le =
      let ih = recent-found now within log (IsLog-later t now log h.0 h.1) le in
      elim (found_email t r log) [
        | inl e ↦ rw e ih
        | inr e ↦ rw e (recent_window t now within (found log) h.0 le ∙ ih)
      ]
  recent-found now within ((t, alert r) ∷ log) h le = elim (Bool-cases (is_unsent r.status)) [
    | inl e ↦ unsent e (recent-found now within log (IsLog-later t now log h.0 h.1) le)
    | inr e ↦ rw (found_alert t r log e) (
        recent_window t now within _ h.0 le
        ∙ step (is_send id ty (alert r))
            (recent-found now within log (IsLog-later t now log h.0 h.1) le))
  ]
    where
      step :
          (b : Bool)
          → recent now within (found log) ≡ recent now within (newest_send id ty log)
          → recent now within (if b then some t else found log)
            ≡ recent now within (if b then some t else newest_send id ty log)
      step true ih = refl
      step false ih = ih

      unsent :
          is_unsent r.status ≡ true
          → recent now within (found log) ≡ recent now within (newest_send id ty log)
          → recent now within (found ((t, alert r) ∷ log))
            ≡ recent now within (newest_send id ty ((t, alert r) ∷ log))
      unsent e ih =
          ap (recent now within) (found_unsent t r log e)
          ∙ ih
          ∙ sym (ap (recent now within) (newest_unsent t r log e))

-- After any saves on a clock that does not go back, and for every window up to the retention: what
-- the pruned store reports of a kind is the newest send of the whole history, if that lies in the
-- window, and nothing otherwise.
pub last_sent_alert-newest_send :
    (now within : ℕ) (id ty : Text) (log : List (ℕ × Saved))
    → IsLog now log
    → within ≤ retention
    → last_sent_alert (replay log) now id ty within
      ≡ (if within == 0 then none else recent now within (newest_send id ty log))
unfolding last_sent_alert
last_sent_alert-newest_send now within id ty log h le =
    ap (λ o. if within == 0 then none else o)
      (within_recent now within (found id ty log) ∙ recent-found id ty now within log h le)
