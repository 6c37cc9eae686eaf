-- ===== src/Monitor/Alerts.antt =====
-- When a balance check alerts: never in a dry run, and at most once per cooldown for each type.
use quotapulse.Base.{
  ℕ, ◌+◌, ◌≤◌, ◌<◌, ◌≡◌, ◌≢◌, ◌⊎◌, inl, inr, refl, sym, subst, Bool, true, false, Option, none,
  some, [], ◌∷◌, lt→ltb, All, Bool-cases, is_some, arith,
}
use quotapulse.Base.Text.{Text, eq_text, eq_text_iff}
use quotapulse.Runway.{Floats}
use quotapulse.Store.{AlertStore, AlertLaws, sent, failed}
use quotapulse.Monitor.Account.{Project}
use quotapulse.Monitor.{
  CheckResult, Attempt, Monitor, Effect, push_notify, notifier_send, low_balance, check_failed,
  World, Delivered, record_alert, is_cooling, send, deliver, Checked, alert_unless, failure, judge,
  fetch, check_project,
}

module _ (A : AlertStore) (M : Floats) (m : Monitor) where
  -- A check hands on what one delivery did to the alert store, of one type, or nothing.
  pub record IsOne (p : Project M) (a : Attempt M) (w : World A M m) (c : Checked A M m) (ty : Text)
      : Type 0 where
    pub store : c.world.store ≡ (deliver A M m p ty a w.store).store
    pub effects : c.effects ≡ (deliver A M m p ty a w.store).effects

  pub record IsNone (w : World A M m) (c : Checked A M m) : Type 0 where
    pub store : c.world.store ≡ w.store
    pub effects : c.effects ≡ []

  alert_unless_cases :
      (dry_run : Bool) (p : Project M) (ty : Text) (a : Attempt M) (w : World A M m)
      (r : CheckResult M)
      → IsNone w (alert_unless A M m dry_run p ty a w r)
        ⊎ IsOne p a w (alert_unless A M m dry_run p ty a w r) ty
  unfolding alert_unless
  alert_unless_cases true p ty a w r = inl (record { store = refl; effects = refl })
  alert_unless_cases false p ty a w r = inr (record { store = refl; effects = refl })

  judge_cases :
      (dry_run : Bool) (p : Project M) (x : M.F) (hit : Bool) (a : Attempt M) (w : World A M m)
      → IsNone w (judge A M m dry_run p x hit a w)
        ⊎ IsOne p a w (judge A M m dry_run p x hit a w) low_balance
  unfolding judge alert_unless
  judge_cases dry_run p x hit a w = ground arith

  fetch_cases :
      (dry_run : Bool) (p : Project M) (a : Attempt M) (w : World A M m)
      → IsNone w (fetch A M m dry_run p a w)
        ⊎ (IsOne p a w (fetch A M m dry_run p a w) low_balance
            ⊎ IsOne p a w (fetch A M m dry_run p a w) check_failed)
  unfolding fetch failure alert_unless judge
  fetch_cases dry_run p a w = ground arith

  -- A check of a project is one delivery at most: about a low balance, or about a failed check.
  pub check_project_cases :
      (dry_run : Bool) (p : Project M) (a : Attempt M) (w : World A M m)
      → IsNone w (check_project A M m dry_run p a w)
        ⊎ (IsOne p a w (check_project A M m dry_run p a w) low_balance
            ⊎ IsOne p a w (check_project A M m dry_run p a w) check_failed)
  unfolding check_project failure alert_unless judge fetch
  check_project_cases dry_run p a w = ground arith

  -- Whether a balance that was read is below the threshold.
  abbrev pub is_below : Project M → Option M.F → Bool
  is_below p none = false
  is_below p (some x) = M.lt x p.threshold

  -- A check succeeds just if it reports a balance, and flags it just if that is below the threshold; if
  -- it hands anything to the notifier or the push service, or changes the alert history, it is no dry
  -- run, and has failed or flagged the balance.
  pub check_project_sends :
      (dry_run : Bool) (p : Project M) (a : Attempt M) (w : World A M m)
      → let c = check_project A M m dry_run p a w in
        (c.result.success ≡ is_some c.result.credits)
        × (c.result.need_alarm ≡ is_below p c.result.credits)
        × ((c.effects ≢ []) ⊎ (c.world.store ≢ w.store)
            → (dry_run ≡ false) × ((c.result.success ≡ false) ⊎ (c.result.need_alarm ≡ true)))
  unfolding check_project failure alert_unless judge fetch
  check_project_sends dry_run p a w = (ground arith, ground arith, λ h. ground arith)

-- The project and the type that an effect is about.
abbrev pub about : Effect → Text × Text
about (push_notify id ty) = (id, ty)
about (notifier_send id ty) = (id, ty)

module _ (A : AlertStore) (laws : AlertLaws A) (M : Floats) (m : Monitor)
    (positive : 0 < m.cooldown) (id ty : Text) (t : ℕ) where
  open laws use {Remembers, horizon, save_other, save_failed, last_sent-Remembers}

  -- All that a check reads of the clock for its alert lies within the cooldown, and its write within
  -- the store's memory.
  pub record Within (a : Attempt M) : Type 0 where
    pub queried_by : a.queried ≤ t + m.cooldown
    pub decided_by : a.decided < t + m.cooldown
    pub saved_by : a.saved ≤ t + horizon

  -- About another project, or of another type.
  abbrev pub IsOther : Effect → Type 0
  IsOther e = ((about e).0 ≢ id) ⊎ ((about e).1 ≢ ty)

  abbrev IsSilent : Delivered A M m → Type 0
  IsSilent d = Remembers d.store id ty t × All IsOther d.effects

  is_cooling-lt : (now : ℕ) → now < t + m.cooldown → is_cooling A M m (some t) now ≡ true
  unfolding is_cooling
  is_cooling-lt now h = lt→ltb now (t + m.cooldown) h

  deliver-same :
      (p : Project M) (a : Attempt M) (st : A.State)
      → p.id ≡ id
      → Within a
      → Remembers st id ty t
      → deliver A M m p ty a st ≡ record { store = st; ok = false; effects = [] }
  unfolding deliver
  deliver-same p a st e w r =
      rw
        (
          e,
          last_sent-Remembers st a.queried m.cooldown t id ty r positive w.queried_by,
          is_cooling-lt a.decided w.decided_by,
        )
        refl

  deliver_cases :
      (p : Project M) (k : Text) (a : Attempt M) (st : A.State)
      → let d = deliver A M m p k a st in
        ((d.store ≡ st)
          ⊎ ((d.store ≡ record_alert A M m p k failed a.saved st)
              ⊎ (d.store ≡ record_alert A M m p k sent a.saved st)))
        × ((d.effects ≡ [])
            ⊎ ((d.effects ≡ push_notify p.id k ∷ [])
                ⊎ ((d.effects ≡ notifier_send p.id k ∷ [])
                    ⊎ (d.effects ≡ notifier_send p.id k ∷ push_notify p.id k ∷ []))))
  unfolding deliver send
  deliver_cases p k a st = ground arith

  record_keeps :
      (p : Project M) (k status : Text) (at : ℕ) (st : A.State)
      → (p.id ≢ id) ⊎ (k ≢ ty)
      → at ≤ t + horizon
      → Remembers st id ty t
      → Remembers (record_alert A M m p k status at st) id ty t
  unfolding record_alert
  record_keeps p k status at st ne h r = save_other st at _ id ty t ne h r

  deliver-other :
      (p : Project M) (k : Text) (a : Attempt M) (st : A.State)
      → (p.id ≢ id) ⊎ (k ≢ ty)
      → Within a
      → Remembers st id ty t
      → IsSilent (deliver A M m p k a st)
  deliver-other p k a st ne w r =
      let (stored, sends) = deliver_cases p k a st in
      (
        elim stored [
          | inl e ↦ rw e r
          | inr (inl e) ↦ rw e (record_keeps p k failed a.saved st ne w.saved_by r)
          | inr (inr e) ↦ rw e (record_keeps p k sent a.saved st ne w.saved_by r)
        ],
        elim sends [
          | inl e ↦ rw e tt
          | inr (inl e) ↦ rw e (ne, tt)
          | inr (inr (inl e)) ↦ rw e (ne, tt)
          | inr (inr (inr e)) ↦ rw e (ne, (ne, tt))
        ],
      )

  deliver-IsSilent :
      (p : Project M) (k : Text) (a : Attempt M) (st : A.State)
      → Within a
      → Remembers st id ty t
      → IsSilent (deliver A M m p k a st)
  deliver-IsSilent p k a st w r = elim (Bool-cases (eq_text p.id id)) [
    | inr e ↦ deliver-other p k a st (inl (λ same. cc ((eq_text_iff _ _).1 same))) w r
    | inl e ↦ elim (Bool-cases (eq_text k ty)) [
      | inr f ↦ deliver-other p k a st (inr (λ same. cc ((eq_text_iff _ _).1 same))) w r
      | inl f ↦
          subst (λ x. IsSilent (deliver A M m p x a st)) (sym ((eq_text_iff _ _).0 f))
            (rw (deliver-same p a st ((eq_text_iff _ _).0 e) w r) (r, tt))
    ]
  ]

  -- Over any store with the laws, an alert of a type about a project on record at `t` silences that
  -- type for that project: a check of any project, whose readings of the clock lie within the cooldown
  -- and the store's memory, notifies no one of it again, and the record is still there after it; a
  -- failure of another delivery does not end that.
  pub check_project_cooling :
      (dry_run : Bool) (p : Project M) (a : Attempt M) (w : World A M m)
      → Within a
      → Remembers w.store id ty t
      → let c = check_project A M m dry_run p a w in
        Remembers c.world.store id ty t × All IsOther c.effects
  check_project_cooling dry_run p a w v r = elim (check_project_cases A M m dry_run p a w) [
    | inl n ↦ rw (n.store, n.effects) (r, tt)
    | inr (inl o) ↦ rw (o.store, o.effects) (deliver-IsSilent p low_balance a w.store v r)
    | inr (inr o) ↦ rw (o.store, o.effects) (deliver-IsSilent p check_failed a w.store v r)
  ]
