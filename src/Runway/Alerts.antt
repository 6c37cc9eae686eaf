-- ===== src/Runway/Alerts.antt =====
-- No trend alert goes out twice within the cooldown, and each kind has its own.
use quotapulse.Base.{
  ℕ, ◌+◌, ◌≤◌, ◌<◌, ◌≡◌, ◌≢◌, ◌⊎◌, inl, inr, refl, Bool, true, false, not, ◌&&◌, Option, none, some,
  List, [], ◌∷◌, All, All-append, Bool-cases, arith,
}
use quotapulse.Base.Text.{Text, eq_text, eq_text_iff}
use quotapulse.Store.{AlertRecord, AlertStore, AlertLaws}
use quotapulse.Runway.{
  Floats, Runway, CheckResult, Alerter, Attempt, Emitted, low_runway, spend_spike, runway_due,
  spike_due, emit, emit_if, check_runway, check_one, check_loop, check,
}

module _ (A : AlertStore) (laws : AlertLaws A) {M : Floats} (a : Alerter M)
    (positive : 0 < a.cooldown) (id ty : Text) (t : ℕ) where
  open laws use {Remembers, horizon, save_other, has_recent-Remembers}

  -- The store's query and write for an alert lie within the cooldown, and the store's memory.
  pub record Within (at : Attempt) : Type 0 where
    pub queried_by : at.queried ≤ t + a.cooldown
    pub saved_by : at.saved ≤ t + horizon

  -- A message about another id, or of another kind.
  abbrev pub IsOther : Text × Text → Type 0
  IsOther m = (m.0 ≢ id) ⊎ (m.1 ≢ ty)

  abbrev IsSilent : Emitted A → Type 0
  IsSilent e = Remembers e.store id ty t × All IsOther e.messages

  abbrev record_of : Text → Text → Text → AlertRecord
  record_of i name k = record { alert_id = i; name = name; alert_type = k; status = [] }

  emit-same :
      (name : Text) (at : Attempt) (st : A.State)
      → Within at
      → Remembers st id ty t
      → emit A a id name ty at st ≡ record { store = st; ok = false; messages = [] }
  unfolding emit
  emit-same name at st w m =
      rw (has_recent-Remembers st at.queried a.cooldown t id ty m positive w.queried_by) refl

  emit_cases :
      (i name k : Text) (at : Attempt) (st : A.State)
      → let e = emit A a i name k at st in
        ((e.store ≡ st) ⊎ (e.store ≡ (A.save_alert st at.saved (record_of i name k)).0))
        × ((e.messages ≡ []) ⊎ (e.messages ≡ (i, k) ∷ []))
  unfolding emit
  emit_cases i name k at st = ground arith

  emit-other :
      (i name k : Text) (at : Attempt) (st : A.State)
      → (i ≢ id) ⊎ (k ≢ ty)
      → Within at
      → Remembers st id ty t
      → IsSilent (emit A a i name k at st)
  emit-other i name k at st ne w m =
      let (stored, sends) = emit_cases i name k at st in
      (
        elim stored [
          | inl e ↦ rw e m
          | inr e ↦ rw e (save_other st at.saved (record_of i name k) id ty t ne w.saved_by m)
        ],
        elim sends [ inl e ↦ rw e tt | inr e ↦ rw e (ne, tt) ],
      )

  emit-IsSilent :
      (i name k : Text) (at : Attempt) (st : A.State)
      → Within at
      → Remembers st id ty t
      → IsSilent (emit A a i name k at st)
  emit-IsSilent i name k at st w m = elim (Bool-cases (eq_text i id)) [
    | inr e ↦ emit-other i name k at st (inl (λ same. cc ((eq_text_iff _ _).1 same))) w m
    | inl e ↦ elim (Bool-cases (eq_text k ty)) [
      | inr f ↦ emit-other i name k at st (inr (λ same. cc ((eq_text_iff _ _).1 same))) w m
      | inl f ↦ rw ((eq_text_iff _ _).0 e, (eq_text_iff _ _).0 f, emit-same name at st w m) (m, tt)
    ]
  ]

  emit_if-IsSilent :
      (due : Bool) (i name k : Text) (at : Attempt) (st : A.State)
      → Within at
      → Remembers st id ty t
      → IsSilent (emit_if A a due i name k at st)
  unfolding emit_if
  emit_if-IsSilent true i name k at st w m = emit-IsSilent i name k at st w m
  emit_if-IsSilent false i name k at st w m = (m, tt)

  -- One result: at most two alerts, one after the other.
  check_runway-silent :
      (result : CheckResult M) (dry_run : Bool) (first second : Attempt) (st : A.State)
      → (r : Option (Runway M)) → Within first
      → Within second
      → Remembers st id ty t
      → let s = check_runway A a result dry_run first second st r in
        Remembers s.store id ty t × All IsOther s.messages
  unfolding check_runway
  check_runway-silent result dry_run first second st none w v m = (m, tt)
  check_runway-silent result dry_run first second st (some r) w v m =
      let due = runway_due a result r && not dry_run in
      let (kept, silent) =
        emit_if-IsSilent due result.project_id result.project low_runway first st w m in
      let (still, later) =
        emit_if-IsSilent (spike_due a r && not dry_run) result.project_id result.project spend_spike
          second _ v kept in
      (
        still,
        All-append IsOther
            (emit_if A a due result.project_id result.project low_runway first st).messages _ silent
            later,
      )

  check_loop-silent :
      (dry_run : Bool) (results : List (CheckResult M × (Attempt × Attempt))) (st : A.State)
      → All (λ x. Within x.1.0 × Within x.1.1) results
      → Remembers st id ty t
      → let s = check_loop A a dry_run results st in
        Remembers s.store id ty t × All IsOther s.messages
  unfolding check_loop check_one
  check_loop-silent dry_run [] st w m = (m, tt)
  check_loop-silent dry_run ((result, (first, second)) ∷ results) st w m =
      let (kept, silent) = check_runway-silent result dry_run first second st _ w.0.0 w.0.1 m in
      let (still, later) = check_loop-silent dry_run results _ w.1 kept in
      (
        still,
        All-append IsOther (check_one A a result dry_run first second st).messages _ silent later,
      )

  -- Over any store with the laws, a trend alert on record at `t` silences its kind for its project: no
  -- check of any results sends another of that kind about it while its queries lie within the
  -- cooldown and its writes within the store's memory, and the record is still there after it.
  pub trend_cooling :
      (dry_run : Bool) (results : List (CheckResult M × (Attempt × Attempt))) (st : A.State)
      → All (λ x. Within x.1.0 × Within x.1.1) results
      → Remembers st id ty t
      → Remembers (check A a dry_run results st).store id ty t
        × All IsOther (check A a dry_run results st).messages
  unfolding check
  trend_cooling dry_run results st w m =
      elim (Bool-cases (M.le a.runway_alert_days M.nothing && M.le a.spike_ratio M.nothing)) [
        | inl e ↦ rw e (m, tt)
        | inr e ↦ rw e (check_loop-silent dry_run results st w m)
      ]
