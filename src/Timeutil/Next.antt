-- ===== src/Timeutil/Next.antt =====
-- What `next_occurrence` finds is the first time after now at which the schedule fires, and it finds one.
use quotapulse.Base.{
  ℕ, zero, suc, ◌+◌, ◌≤◌, ◌<◌, ◌≡◌, ◌≢◌, inl, inr, refl, sym, ◌∙◌, subst, true, false, none, some,
  List, [], ◌∷◌, All, Bool-cases, Option-cases, dec_lt, arith,
}
use quotapulse.Calendar.{Date, IsDate, add_days}
use quotapulse.Calendar.Order.{ordinal-add_days}
use quotapulse.Timeutil.{
  ClockTime, sort_clocks, fires_on, first_after, search_days, next_occurrence, IsClock, ZoneLaws,
}
use quotapulse.Timeutil.Sorting.{Mem, IsSorted, Mem-sort_clocks, sort_clocks-IsSorted}
use quotapulse.Timeutil.Allowed.{IsAllowed, fires_on-IsAllowed, IsAllowed-fires_on}
use quotapulse.Timeutil.First.{first_after-none, first_after-some, first_after_least, fires_within}

module _ (instant : Date → ClockTime → ℕ) (today : Date) (now : ℕ) (weekdays : List ℕ) where
  -- An instant after now at which the schedule fires, at least `from` days from today.
  pub record IsFire (times : List ClockTime) (from t : ℕ) : Type 0 where
    pub offset : ℕ
    pub clock : ClockTime
    pub from_le : from ≤ offset
    pub member : Mem clock times
    pub allowed : IsAllowed weekdays (add_days offset today)
    pub is_instant : t ≡ instant (add_days offset today) clock
    pub later : now < t

  renamed :
      (cs ds : List ClockTime) (from to t : ℕ) (w : IsFire cs from t)
      → to ≤ w.offset
      → Mem w.clock ds
      → IsFire ds to t
  renamed cs ds from to t w le m = record {
    offset = w.offset;
    clock = w.clock;
    from_le = le;
    member = m;
    allowed = w.allowed;
    is_instant = w.is_instant;
    later = w.later;
  }

  search_days_skips :
      (cs : List ClockTime) (days offset : ℕ)
      → fires_on weekdays (add_days offset today) ≡ false
      → search_days instant today now cs weekdays (suc days) offset
        ≡ search_days instant today now cs weekdays days (suc offset)
  unfolding search_days
  search_days_skips cs days offset e = rw e refl

  search_days_found :
      (cs : List ClockTime) (days offset t : ℕ)
      → fires_on weekdays (add_days offset today) ≡ true
      → first_after (instant (add_days offset today)) now cs ≡ some t
      → search_days instant today now cs weekdays (suc days) offset ≡ some t
  unfolding search_days
  search_days_found cs days offset t e f = rw (e, f) refl

  search_days_passes :
      (cs : List ClockTime) (days offset : ℕ)
      → fires_on weekdays (add_days offset today) ≡ true
      → first_after (instant (add_days offset today)) now cs ≡ none
      → search_days instant today now cs weekdays (suc days) offset
        ≡ search_days instant today now cs weekdays days (suc offset)
  unfolding search_days
  search_days_passes cs days offset e f = rw (e, f) refl

  module _ (laws : ZoneLaws instant today now) (v : IsDate today) (cs : List ClockTime)
      (ok : (c : ClockTime) → Mem c cs → IsClock c) (sorted : IsSorted cs) where
    -- The first fire from a day on.
    pub record IsNext (from t : ℕ) : Type 0 where
      pub fires : IsFire cs from t
      pub least : (u : ℕ) → IsFire cs from u → t ≤ u

    -- A day without a fire can be passed over.
    pass :
        (offset t : ℕ)
        → ((c : ClockTime)
            → Mem c cs
            → fires_on weekdays (add_days offset today) ≡ true
            → instant (add_days offset today) c ≤ now)
        → IsNext (suc offset) t
        → IsNext offset t
    pass offset t quiet n = record {
      fires =
          renamed cs cs (suc offset) offset t n.fires (omega (arith, n.fires.from_le))
            n.fires.member;
      least = λ u w. elim (dec_lt offset w.offset) [
        | yes p ↦ n.least u (renamed cs cs offset (suc offset) u w p w.member)
        | no p ↦ absurd (before u w (omega (arith, p, w.from_le)))
      ];
    }
      where
        before : (u : ℕ) (w : IsFire cs offset u) → w.offset ≡ offset → ⊥
        before u w e =
            let at_offset =
              subst (λ i. fires_on weekdays (add_days i today) ≡ true) e
                (IsAllowed-fires_on weekdays (add_days w.offset today) w.allowed) in
            let is = subst (λ i. u ≡ instant (add_days i today) w.clock) e w.is_instant in
            omega (arith, quiet w.clock w.member at_offset, w.later, is)

    found :
        (offset t : ℕ)
        → offset ≤ 7
        → fires_on weekdays (add_days offset today) ≡ true
        → first_after (instant (add_days offset today)) now cs ≡ some t
        → IsNext offset t
    found offset t near allowed f =
        let day = add_days offset today in
        let (c, m, is, lt) = first_after-some (instant day) now cs t f in
        record {
          fires = record {
            offset = offset;
            clock = c;
            from_le = omega arith;
            member = m;
            allowed = fires_on-IsAllowed weekdays day allowed;
            is_instant = is;
            later = lt;
          };
          least = λ u w. elim (dec_lt offset w.offset) [
            | yes p ↦ omega (
              arith,
              is,
              w.is_instant,
              laws.later_day day (add_days w.offset today) c w.clock (ok c m) (ok w.clock w.member)
                  (omega (arith, ordinal-add_days offset today v))
                  (omega (arith, near, ordinal-add_days offset today v))
                  (omega
                    (arith, p, ordinal-add_days offset today v, ordinal-add_days w.offset today v)),
            )
            | no p ↦ same_day u w (omega (arith, p, w.from_le))
          ];
        }
      where
        same_day : (u : ℕ) (w : IsFire cs offset u) → w.offset ≡ offset → t ≤ u
        same_day u w e =
            let is = subst (λ i. u ≡ instant (add_days i today) w.clock) e w.is_instant in
            omega (
              arith,
              is,
              first_after_least (instant (add_days offset today)) now cs t ok
                  (λ a b va vb.
                    laws.later_clock (add_days offset today) a b va vb
                      (omega (arith, ordinal-add_days offset today v))
                      (omega (arith, near, ordinal-add_days offset today v)))
                  sorted f w.clock w.member (omega (arith, is, w.later)),
            )

    same : (u t : ℕ) → (some u ≡ some t) → u ≡ t
    same u t e = ground arith

    search_days-IsNext :
        (days offset t : ℕ)
        → days + offset ≤ 8
        → search_days instant today now cs weekdays days offset ≡ some t
        → IsNext offset t
    search_days-IsNext zero offset t near e = absurd (unfold search_days in ground arith)
    search_days-IsNext (suc days) offset t near e =
        elim (Bool-cases (fires_on weekdays (add_days offset today))) [
          | inr b ↦
              pass offset t (λ c m f. absurd (ground (arith, f, b)))
                (search_days-IsNext days (suc offset) t (omega (arith, near))
                  (sym (search_days_skips cs days offset b) ∙ e))
          | inl b ↦ elim (Option-cases (first_after (instant (add_days offset today)) now cs)) [
            | inl f ↦
                pass offset t
                  (λ c m _. first_after-none (instant (add_days offset today)) now cs f c m)
                  (search_days-IsNext days (suc offset) t (omega (arith, near))
                    (sym (search_days_passes cs days offset b f) ∙ e))
            | inr (u, f) ↦
                subst (IsNext offset) (same u t (sym (search_days_found cs days offset u b f) ∙ e))
                  (found offset u (omega (arith, near)) b f)
          ]
        ]

    -- What finds nothing has passed every day by.
    rest_none :
        (days offset : ℕ)
        → search_days instant today now cs weekdays (suc days) offset ≡ none
        → search_days instant today now cs weekdays days (suc offset) ≡ none
    rest_none days offset e = elim (Bool-cases (fires_on weekdays (add_days offset today))) [
      | inr b ↦ sym (search_days_skips cs days offset b) ∙ e
      | inl b ↦ elim (Option-cases (first_after (instant (add_days offset today)) now cs)) [
        | inl f ↦ sym (search_days_passes cs days offset b f) ∙ e
        | inr (u, f) ↦ absurd (ground (arith, search_days_found cs days offset u b f, e))
      ]
    ]

    day_quiet :
        (days offset : ℕ)
        → search_days instant today now cs weekdays (suc days) offset ≡ none
        → fires_on weekdays (add_days offset today) ≡ true
        → (c : ClockTime) → Mem c cs
        → instant (add_days offset today) c ≤ now
    day_quiet days offset e b c m =
        elim (Option-cases (first_after (instant (add_days offset today)) now cs)) [
          | inl f ↦ first_after-none (instant (add_days offset today)) now cs f c m
          | inr (u, f) ↦ absurd (ground (arith, search_days_found cs days offset u b f, e))
        ]

    days_quiet :
        (days offset : ℕ)
        → search_days instant today now cs weekdays days offset ≡ none
        → (i : ℕ) → offset ≤ i
        → i < offset + days
        → fires_on weekdays (add_days i today) ≡ true
        → (c : ClockTime) → Mem c cs
        → instant (add_days i today) c ≤ now
    days_quiet zero offset e i lo hi allowed c m = absurd (omega arith)
    days_quiet (suc days) offset e i lo hi allowed c m = elim (dec_lt offset i) [
      | yes p ↦ days_quiet days (suc offset) (rest_none days offset e) i p (omega arith) allowed c m
      | no p ↦ on_day (omega arith)
    ]
      where
        on_day : i ≡ offset → instant (add_days i today) c ≤ now
        on_day same =
            subst (λ j. instant (add_days j today) c ≤ now) (sym same)
              (day_quiet days offset e
                (subst (λ j. fires_on weekdays (add_days j today) ≡ true) same allowed) c m)

    -- Over a week and a day some day fires, and its times have not come yet.
    search_days_total :
        (c : ClockTime)
        → Mem c cs
        → All (λ w. (1 ≤ w) × (w ≤ 7)) weekdays
        → search_days instant today now cs weekdays 8 0 ≢ none
    search_days_total c m h e =
        let (i, lo, hi, allowed) = fires_within today weekdays v h in
        omega (
          arith,
          days_quiet 8 0 e i (omega arith) (omega (arith, hi)) allowed c m,
          laws.not_yet (add_days i today) c (omega (arith, lo, ordinal-add_days i today v))
              (omega (arith, hi, ordinal-add_days i today v)),
        )

-- For a zone in whose eight days from today on later clocks are later instants, each day ends before any
-- later day, and no later day has come (days further off may have gaps), times that exist and weekdays
-- from 1 to 7, a schedule with a time fires again: `next_occurrence` finds an instant after now, on an
-- allowed day at one of the times, and no other such instant, of that or any later day, comes before it.
pub next_occurrence-IsNext :
    (instant : Date → ClockTime → ℕ) (today : Date) (now : ℕ)
    → ZoneLaws instant today now
    → IsDate today
    → (times : List ClockTime) (weekdays : List ℕ) → ((c : ClockTime) → Mem c times → IsClock c)
    → All (λ w. (1 ≤ w) × (w ≤ 7)) weekdays
    → times ≢ []
    → (t : ℕ) × (next_occurrence instant today now times weekdays ≡ some t)
      × IsFire instant today now weekdays times 0 t
      × ((u : ℕ) → IsFire instant today now weekdays times 0 u → t ≤ u)
unfolding next_occurrence
next_occurrence-IsNext instant today now laws v [] weekdays ok h ne = absurd (ne refl)
next_occurrence-IsNext instant today now laws v (c ∷ cs) weekdays ok h ne =
    elim (Option-cases (search_days instant today now sorted weekdays 8 0)) [
      | inl e ↦ absurd (
          search_days_total instant today now weekdays laws v sorted sorted_ok order c
            ((Mem-sort_clocks c (c ∷ cs)).1 (unfold Mem in inl refl)) h e)
      | inr (t, e) ↦
          let n =
            search_days-IsNext instant today now weekdays laws v sorted sorted_ok order 8 0 t
              (omega arith) e in
          (t, ground (arith, e), back t n.fires, λ u w. n.least u (forth u w))
    ]
  where
    sorted : List ClockTime
    sorted = sort_clocks (c ∷ cs)

    order : IsSorted sorted
    order = sort_clocks-IsSorted (c ∷ cs)

    sorted_ok : (d : ClockTime) → Mem d sorted → IsClock d
    sorted_ok d m = ok d ((Mem-sort_clocks d (c ∷ cs)).0 m)

    back :
        (t : ℕ)
        → IsFire instant today now weekdays sorted 0 t
        → IsFire instant today now weekdays (c ∷ cs) 0 t
    back t w =
        renamed instant today now weekdays sorted (c ∷ cs) 0 0 t w (omega arith)
          ((Mem-sort_clocks w.clock (c ∷ cs)).0 w.member)

    forth :
        (t : ℕ)
        → IsFire instant today now weekdays (c ∷ cs) 0 t
        → IsFire instant today now weekdays sorted 0 t
    forth t w =
        renamed instant today now weekdays (c ∷ cs) sorted 0 0 t w (omega arith)
          ((Mem-sort_clocks w.clock (c ∷ cs)).1 w.member)
