-- ===== src/Subscription/Checker/Cooldown.antt =====
-- No subscription is reminded about twice within the cooldown.
use quotapulse.Base.{
  ℕ, ◌+◌, ◌≤◌, ◌<◌, ◌≡◌, ◌≢◌, ◌⊎◌, inl, inr, refl, sym, ap, subst, Bool, false, Option, some, List,
  [], ◌∷◌, arith, Bool-cases, lt→ltb, All, All-append, ◌∙◌,
}
use quotapulse.Base.Text.{Text, eq_text, eq_text_iff}
use quotapulse.Store.{AlertRecord, AlertStore, AlertLaws, sent, failed}
use quotapulse.Subscription.Checker.{
  Subscription, Checker, Attempt, alert_sent, cooldown_skipped, Effect, push_notify, webhook_send,
  renewal_type, record_alert, cooling, deliver, choose_notifier, dispatch_after, dispatch,
  check_one, report, initial_result, check, check_effects,
}

-- The subscription's id that an effect is about.
abbrev pub about : Effect → Text
about (push_notify id) = id
about (webhook_send id) = id

module _ (A : AlertStore) (laws : AlertLaws A) (C : Checker) where
  open laws use {Remembers, horizon, save-Remembers, save_failed, save_other, last_sent-Remembers}

  -- All that a check reads of the clock lies within the cooldown that began at `t`, and its write
  -- within the store's memory.
  pub record Within (t : ℕ) (a : Attempt) : Type 0 where
    pub queried_by : a.queried ≤ t + C.cooldown
    pub decided_by : a.decided < t + C.cooldown
    pub saved_by : a.saved ≤ t + horizon

  cooling-lt : (t now : ℕ) → now < t + C.cooldown → cooling A C now (some t) ≡ some (t + C.cooldown)
  unfolding cooling
  cooling-lt t now h = rw (lt→ltb now (t + C.cooldown) h)

  -- While the cooldown runs, `dispatch` sends nothing, writes nothing, and says when it ends.
  pub dispatch_cooling :
      (sub : Subscription) (a : Attempt) (st : A.State) (t : ℕ)
      → Remembers st (C.subscription_id sub.name) renewal_type t
      → Within t a
      → 0 < C.cooldown
      → dispatch A C sub a st ≡ record {
        store = st;
        state = cooldown_skipped;
        next_eligible_at = some (t + C.cooldown);
        last_error = [];
        effects = [];
      }
  unfolding dispatch
  dispatch_cooling sub a st t m w h =
      ap (λ (r : Option ℕ × Bool). dispatch_after A C sub a st r.0)
        (last_sent-Remembers st a.queried C.cooldown t (C.subscription_id sub.name) renewal_type m h
          w.queried_by)
      ∙ still_cooling w.decided_by
    where
      still_cooling :
          a.decided < t + C.cooldown
          → dispatch_after A C sub a st (some t) ≡ record {
            store = st;
            state = cooldown_skipped;
            next_eligible_at = some (t + C.cooldown);
            last_error = [];
            effects = [];
          }
      still_cooling lt = unfold dispatch_after in rw (cooling-lt t a.decided lt, dispatch_after)

  -- The store after a dispatch is as before, or holds one more record of this subscription.
  dispatch_writes :
      (sub : Subscription) (a : Attempt) (st : A.State)
      → let d = dispatch A C sub a st in
        (d.store ≡ st)
        ⊎ ((d.store ≡ record_alert A C st a.saved sub failed)
            ⊎ (d.store ≡ record_alert A C st a.saved sub sent))
  unfolding dispatch dispatch_after choose_notifier deliver
  dispatch_writes sub a st = ground arith

  dispatch-sent_writes :
      (sub : Subscription) (a : Attempt) (st : A.State)
      → (dispatch A C sub a st).state ≡ alert_sent
      → (dispatch A C sub a st).store ≡ record_alert A C st a.saved sub sent
  unfolding dispatch dispatch_after choose_notifier deliver
  dispatch-sent_writes sub a st e = ground arith

  -- What a dispatch sends is about its own subscription.
  dispatch_effects :
      (sub : Subscription) (a : Attempt) (st : A.State)
      → let es = (dispatch A C sub a st).effects in
        let push = push_notify (C.subscription_id sub.name) in
        let hook = webhook_send (C.subscription_id sub.name) in
        (es ≡ []) ⊎ ((es ≡ push ∷ []) ⊎ ((es ≡ hook ∷ []) ⊎ (es ≡ hook ∷ push ∷ [])))
  unfolding dispatch dispatch_after choose_notifier deliver
  dispatch_effects sub a st = ground arith

  -- A check is quiet, or is its dispatch.
  check_one_cases :
      (sub : Subscription) (dry_run : Bool) (a : Attempt) (st : A.State)
      → let c = check_one A C sub dry_run a st in
        let d = dispatch A C sub a st in
        ((c.store ≡ st) × (c.effects ≡ [])) ⊎ ((c.store ≡ d.store) × (c.effects ≡ d.effects))
  unfolding check_one report
  check_one_cases sub dry_run a st = ground arith

  check_one_sent :
      (sub : Subscription) (dry_run : Bool) (a : Attempt) (st : A.State)
      → (check_one A C sub dry_run a st).result.alert_state ≡ alert_sent
      → ((dispatch A C sub a st).state ≡ alert_sent)
        × ((check_one A C sub dry_run a st).store ≡ (dispatch A C sub a st).store)
  unfolding check_one report initial_result
  check_one_sent sub dry_run a st e = ground arith

  -- A reminder that went out is remembered from its write on, if the write succeeded.
  pub dispatch_sent-Remembers :
      (sub : Subscription) (a : Attempt) (st : A.State)
      → (dispatch A C sub a st).state ≡ alert_sent
      → ((r : AlertRecord) → (A.save_alert st a.saved r).1 ≡ false)
      → Remembers (dispatch A C sub a st).store (C.subscription_id sub.name) renewal_type a.saved
  dispatch_sent-Remembers sub a st e saves =
      subst (λ s. Remembers s (C.subscription_id sub.name) renewal_type a.saved)
        (sym (dispatch-sent_writes sub a st e))
        (unfold record_alert in save-Remembers st a.saved _ (inr refl) (saves _))

  module _ (id : Text) (t : ℕ) (positive : 0 < C.cooldown) where
    Remembered : A.State → Type 0
    Remembered st = Remembers st id renewal_type t

    record_keeps :
        (sub : Subscription) (a : Attempt) (st : A.State) (status : Text)
        → C.subscription_id sub.name ≢ id
        → Within t a
        → Remembers st id renewal_type t
        → Remembers (record_alert A C st a.saved sub status) id renewal_type t
    unfolding record_alert
    record_keeps sub a st status ne w m =
        save_other st a.saved _ id renewal_type t (inl ne) w.saved_by m

    -- Any dispatch inside the cooldown keeps the memory, and sends nothing about `id`.
    dispatch_silent :
        (sub : Subscription) (a : Attempt) (st : A.State)
        → Within t a
        → Remembers st id renewal_type t
        → Remembers (dispatch A C sub a st).store id renewal_type t
          × All (λ e. about e ≢ id) (dispatch A C sub a st).effects
    dispatch_silent sub a st w m = elim (Bool-cases (eq_text (C.subscription_id sub.name) id)) [
      | inl e ↦ same ((eq_text_iff _ _).0 e)
      | inr e ↦ other (λ same. cc ((eq_text_iff _ _).1 same))
    ]
      where
        same :
            C.subscription_id sub.name ≡ id
            → Remembers (dispatch A C sub a st).store id renewal_type t
              × All (λ e. about e ≢ id) (dispatch A C sub a st).effects
        same e = rw (dispatch_cooling sub a st t (rw e m) w positive) (m, tt)

        other :
            C.subscription_id sub.name ≢ id
            → Remembers (dispatch A C sub a st).store id renewal_type t
              × All (λ e. about e ≢ id) (dispatch A C sub a st).effects
        other ne = (
          elim (dispatch_writes sub a st) [
            | inl e ↦ rw e m
            | inr (inl e) ↦ rw e (record_keeps sub a st failed ne w m)
            | inr (inr e) ↦ rw e (record_keeps sub a st sent ne w m)
          ],
          elim (dispatch_effects sub a st) [
            | inl e ↦ rw e tt
            | inr (inl e) ↦ rw e (ne, tt)
            | inr (inr (inl e)) ↦ rw e (ne, tt)
            | inr (inr (inr e)) ↦ rw e (ne, (ne, tt))
          ],
        )

    -- So does any check, whatever it decides.
    check_silent :
        (sub : Subscription) (dry_run : Bool) (a : Attempt) (st : A.State)
        → Within t a
        → Remembers st id renewal_type t
        → Remembers (check_one A C sub dry_run a st).store id renewal_type t
          × All (λ e. about e ≢ id) (check_one A C sub dry_run a st).effects
    check_silent sub dry_run a st w m = elim (check_one_cases sub dry_run a st) [
      | inl (e, f) ↦ rw (e, f) (m, tt)
      | inr (e, f) ↦ rw (e, f) (dispatch_silent sub a st w m)
    ]

    -- Once a reminder about `id` is on record at `t`, no check of any subscriptions sends another
    -- about it before the cooldown is over.
    pub check-All_silent :
        (subs : List (Subscription × Attempt)) (dry_run : Bool) (st : A.State)
        → All (λ x. Within t x.1) subs
        → Remembers st id renewal_type t
        → All (λ e. about e ≢ id) (check_effects A C subs dry_run st)
          × Remembers (check A C subs dry_run st).0 id renewal_type t
    unfolding check check_effects
    check-All_silent [] dry_run st w m = (tt, m)
    check-All_silent ((sub, a) ∷ subs) dry_run st w m =
        let (kept, silent) = check_silent sub dry_run a st w.0 m in
        let (later, still) = check-All_silent subs dry_run _ w.1 kept in
        (
          All-append (λ e. about e ≢ id) (check_one A C sub dry_run a st).effects _ silent later,
          still,
        )

  -- Over any store with the laws, if a check sends a reminder and its write succeeds, that is the last
  -- one about its subscription for the cooldown: of the checks that follow, of any subscriptions,
  -- none whose readings of the clock lie within the cooldown and the store's memory sends another.
  pub check_once_per_cooldown :
      (sub : Subscription) (a : Attempt) (dry_run : Bool) (st : A.State)
      → (subs : List (Subscription × Attempt))
      → (check_one A C sub dry_run a st).result.alert_state ≡ alert_sent
      → ((r : AlertRecord) → (A.save_alert st a.saved r).1 ≡ false)
      → 0 < C.cooldown
      → All (λ x. Within a.saved x.1) subs
      → All
          (λ e. about e ≢ C.subscription_id sub.name)
          (check_effects A C subs dry_run (check_one A C sub dry_run a st).store)
  check_once_per_cooldown sub a dry_run st subs e saves positive w =
      (check-All_silent (C.subscription_id sub.name) a.saved positive subs dry_run _ w kept).0
    where
      kept :
          Remembers
            (check_one A C sub dry_run a st).store
            (C.subscription_id sub.name)
            renewal_type
            a.saved
      kept =
          let (d, stored) = check_one_sent sub dry_run a st e in
          rw stored (dispatch_sent-Remembers sub a st d saves)
