-- ===== src/State/Reports.antt =====
-- The dashboard's other two views: `SetSubscriptions` and `SetEmailScan` of internal/state/state.go. A
-- result is what its view counts; `D` is what it only carries along.
use quotapulse.Base.{
  ℕ, ◌+◌, ◌≡◌, refl, Bool, Option, some, List, [], ◌∷◌, if◌then◌else◌, length, is_some, count_if,
  arith,
}
use quotapulse.Base.Text.{Text}

pub record SubscriptionLine (D : Type 0) : Type 0 where
  pub need_alert : Bool
  pub details : D

pub record SubscriptionSummary : Type 0 where
  pub total : ℕ
  pub need_alert : ℕ

pub record SubscriptionState (D : Type 0) : Type 0 where
  pub last_update : Option ℕ
  pub subscriptions : List (SubscriptionLine D)
  pub summary : SubscriptionSummary

pub record MailboxResult : Type 0 where
  pub name : Text
  pub total_emails : ℕ
  pub error : Option Text

pub record EmailAlert (D : Type 0) : Type 0 where
  pub alert_sent : Bool
  pub details : D

pub record ScanResult (D : Type 0) : Type 0 where
  pub days : ℕ
  pub dry_run : Bool
  pub mailboxes : List MailboxResult
  pub alerts : List (EmailAlert D)

pub record EmailSummary : Type 0 where
  pub total_mailboxes : ℕ
  pub failed_mailboxes : ℕ
  pub total_emails : ℕ
  pub total_alerts : ℕ
  pub alerts_sent : ℕ

pub record EmailState (D : Type 0) : Type 0 where
  pub last_update : Option ℕ
  pub days : Option ℕ
  pub dry_run : Option Bool
  pub mailboxes : List MailboxResult
  pub alerts : List (EmailAlert D)
  pub summary : EmailSummary

-- The loop over mailboxes, and one turn of it.
add_mailbox : EmailSummary → MailboxResult → EmailSummary
add_mailbox s m =
    let counted =
      if is_some m.error then record s { failed_mailboxes = s.failed_mailboxes + 1 } else s in
    record counted { total_emails = counted.total_emails + m.total_emails }

count_mailboxes : EmailSummary → List MailboxResult → EmailSummary
count_mailboxes s [] = s
count_mailboxes s (m ∷ ms) = count_mailboxes (add_mailbox s m) ms

-- The mails of all mailboxes together.
pub sum_emails : List MailboxResult → ℕ
sum_emails [] = 0
sum_emails (m ∷ ms) = m.total_emails + sum_emails ms

mailboxes_counted :
    (s : EmailSummary) (ms : List MailboxResult)
    → ((count_mailboxes s ms).failed_mailboxes
        ≡ s.failed_mailboxes + count_if (λ m. is_some m.error) ms)
      × ((count_mailboxes s ms).total_emails ≡ s.total_emails + sum_emails ms)
      × ((count_mailboxes s ms).alerts_sent ≡ s.alerts_sent)
unfolding count_mailboxes sum_emails add_mailbox
mailboxes_counted s [] = (omega arith, omega arith, refl)
mailboxes_counted s (m ∷ ms) =
    let (failed, emails, sent) = mailboxes_counted (add_mailbox s m) ms in
    (ground (arith, failed), ground (arith, emails), ground (arith, sent))

module _ {D : Type 0} where
  count_subscriptions : SubscriptionSummary → List (SubscriptionLine D) → SubscriptionSummary
  count_subscriptions s [] = s
  count_subscriptions s (r ∷ rs) =
      count_subscriptions (if r.need_alert then record s { need_alert = s.need_alert + 1 } else s)
        rs

  pub set_subscriptions : ℕ → List (SubscriptionLine D) → SubscriptionState D
  set_subscriptions now results = record {
    last_update = some now;
    subscriptions = results;
    summary = count_subscriptions (record { total = length results; need_alert = 0 }) results;
  }

  -- The loop over alerts.
  count_alerts : EmailSummary → List (EmailAlert D) → EmailSummary
  count_alerts s [] = s
  count_alerts s (a ∷ as') =
      count_alerts (if a.alert_sent then record s { alerts_sent = s.alerts_sent + 1 } else s) as'

  -- The totals, before the loops.
  start_of : ScanResult D → EmailSummary
  start_of result = record {
    total_mailboxes = length result.mailboxes;
    failed_mailboxes = 0;
    total_emails = 0;
    total_alerts = length result.alerts;
    alerts_sent = 0;
  }

  pub set_email_scan : ℕ → ScanResult D → EmailState D
  set_email_scan now result = record {
    last_update = some now;
    days = some result.days;
    dry_run = some result.dry_run;
    mailboxes = result.mailboxes;
    alerts = result.alerts;
    summary = count_alerts (count_mailboxes (start_of result) result.mailboxes) result.alerts;
  }

  subscriptions_counted :
      (s : SubscriptionSummary) (rs : List (SubscriptionLine D))
      → ((count_subscriptions s rs).total ≡ s.total)
        × ((count_subscriptions s rs).need_alert ≡ s.need_alert + count_if (λ r. r.need_alert) rs)
  unfolding count_subscriptions
  subscriptions_counted s [] = (refl, omega arith)
  subscriptions_counted s (r ∷ rs) =
      let (total, due) =
        subscriptions_counted
          (if r.need_alert then record s { need_alert = s.need_alert + 1 } else s) rs in
      (ground (arith, total), ground (arith, due))

  alerts_counted :
      (s : EmailSummary) (xs : List (EmailAlert D))
      → ((count_alerts s xs).alerts_sent ≡ s.alerts_sent + count_if (λ a. a.alert_sent) xs)
        × ((count_alerts s xs).failed_mailboxes ≡ s.failed_mailboxes)
        × ((count_alerts s xs).total_emails ≡ s.total_emails)
  unfolding count_alerts
  alerts_counted s [] = (omega arith, refl, refl)
  alerts_counted s (a ∷ rest) =
      let (sent, failed, emails) =
        alerts_counted (if a.alert_sent then record s { alerts_sent = s.alerts_sent + 1 } else s)
          rest in
      (ground (arith, sent), ground (arith, failed), ground (arith, emails))

  -- After a scan the mail view counts what it shows: the mailboxes with an error, the mails of all
  -- mailboxes together, and the alerts that were sent.
  pub set_email_scan_counts :
      (now : ℕ) (r : ScanResult D)
      → let e = set_email_scan now r in
        (e.summary.failed_mailboxes ≡ count_if (λ m. is_some m.error) e.mailboxes)
        × (e.summary.total_emails ≡ sum_emails e.mailboxes)
        × (e.summary.alerts_sent ≡ count_if (λ a. a.alert_sent) e.alerts)
  unfolding set_email_scan start_of
  set_email_scan_counts now r =
      let (failed, emails, none_sent) = mailboxes_counted (start_of r) r.mailboxes in
      let (sent, kept_failed, kept_emails) =
        alerts_counted (count_mailboxes (start_of r) r.mailboxes) r.alerts in
      (
        omega (arith, failed, kept_failed),
        omega (arith, emails, kept_emails),
        omega (arith, sent, none_sent),
      )

  -- After a check the subscription view counts what it shows: all subscriptions, and those that need
  -- an alert.
  pub set_subscriptions_counts :
      (now : ℕ) (rs : List (SubscriptionLine D))
      → let s = set_subscriptions now rs in
        (s.summary.total ≡ length s.subscriptions)
        × (s.summary.need_alert ≡ count_if (λ r. r.need_alert) s.subscriptions)
  unfolding set_subscriptions
  set_subscriptions_counts now rs =
      let (total, due) = subscriptions_counted (record { total = length rs; need_alert = 0 }) rs in
      (total, omega (arith, due))
