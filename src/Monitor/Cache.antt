-- ===== src/Monitor/Cache.antt =====
-- The cache of balances in internal/monitor/monitor.go, and that it answers as the history of what was
-- put into it does. The lock makes each operation one step.
use quotapulse.Base.{
  ℕ, ◌-◌, ◌≤◌, ◌≡◌, ◌⊎◌, inl, inr, refl, sym, ◌∙◌, ap, Option, none, some, List, [], ◌∷◌, leb,
  if◌then◌else◌, Bool-cases, Option-cases, arith, ◌==◌,
}
use quotapulse.Base.Text.{Text, eq_text, eq_text_iff}
use quotapulse.Runway.{Floats}

pub record CacheEntry (M : Floats) : Type 0 where
  pub at : ℕ
  pub credits : M.F

module _ {M : Floats} where
  unfoldable pub cache_lookup : Text → List (Text × CacheEntry M) → Option (CacheEntry M)
  cache_lookup key [] = none
  cache_lookup key ((k, e) ∷ c) =
      let rest = cache_lookup key c in if eq_text k key then some e else rest

  unfoldable pub cache_delete : Text → List (Text × CacheEntry M) → List (Text × CacheEntry M)
  cache_delete key [] = []
  cache_delete key ((k, e) ∷ c) =
      let rest = cache_delete key c in if eq_text k key then rest else (k, e) ∷ rest

  -- `responseCache.get`, with what the map is afterwards.
  unfoldable pub cache_get :
      Text → ℕ → ℕ → List (Text × CacheEntry M) → Option M.F × List (Text × CacheEntry M)
  cache_get key ttl now c = if ttl == 0 then (none, c) else elim (cache_lookup key c) [
    | none ↦ (none, cache_delete key c)
    | some e ↦ if leb ttl (now - e.at) then (none, cache_delete key c) else (some e.credits, c)
  ]

  -- `responseCache.set`
  unfoldable pub cache_set :
      Text → M.F → ℕ → List (Text × CacheEntry M) → List (Text × CacheEntry M)
  cache_set key credits now c = (key, record { at = now; credits = credits }) ∷ cache_delete key c

  cache_lookup-delete :
      (j k : Text) (c : List (Text × CacheEntry M))
      → cache_lookup k (cache_delete j c) ≡ (if eq_text j k then none else cache_lookup k c)
  unfolding cache_lookup cache_delete
  cache_lookup-delete j k [] = ground arith
  cache_lookup-delete j k ((i, e) ∷ c) =
      ground (arith, cache_lookup-delete j k c, eq_text_iff i j, eq_text_iff i k, eq_text_iff j k)

  cache_lookup-set :
      (j k : Text) (x : M.F) (now : ℕ) (c : List (Text × CacheEntry M))
      → cache_lookup k (cache_set j x now c)
        ≡ (if eq_text j k then some (record { at = now; credits = x }) else cache_lookup k c)
  unfolding cache_set cache_lookup
  cache_lookup-set j k x now c = ground (arith, cache_lookup-delete j k c)

-- What is asked of the cache, and when.
pub data Request (M : Floats) : Type 0 where
  look_up : Text → Request M
  put : Text → M.F → Request M

module _ {M : Floats} (ttl : ℕ) where
  -- A balance that is younger than the time to live.
  abbrev pub live : ℕ → Option (CacheEntry M) → Option M.F
  live now none = none
  live now (some e) = if leb ttl (now - e.at) then none else some e.credits

  -- What a map is after a lookup: as before, or without a key that it does not hold, or too long.
  cache_get_keeps :
      (key : Text) (now : ℕ) (c : List (Text × CacheEntry M))
      → ((cache_get key ttl now c).1 ≡ c)
        ⊎ (((cache_get key ttl now c).1 ≡ cache_delete key c)
            × (live now (cache_lookup key c) ≡ none))
  unfolding cache_get
  cache_get_keeps key now c = elim (Option-cases (cache_lookup key c)) [
    | inl n ↦ ground (arith, n)
    | inr (e, s) ↦ ground (arith, s)
  ]

  cache_get-live :
      (key : Text) (now : ℕ) (c : List (Text × CacheEntry M))
      → (cache_get key ttl now c).0 ≡ live now (cache_lookup key c)
  unfolding cache_get
  cache_get-live key now c = elim (Option-cases (cache_lookup key c)) [
    | inl n ↦ ground (arith, n)
    | inr (e, s) ↦ ground (arith, s)
  ]

  live_later :
      (t now : ℕ) (o : Option (CacheEntry M)) → t ≤ now → live t o ≡ none → live now o ≡ none
  live_later t now none h e = refl
  live_later t now (some x) h e = ground arith

  -- The cache after requests, newest first.
  unfoldable pub replay : List (ℕ × Request M) → List (Text × CacheEntry M)
  replay [] = []
  replay ((t, look_up key) ∷ log) = (cache_get key ttl t (replay log)).1
  replay ((t, put key x) ∷ log) = cache_set key x t (replay log)

  -- The newest balance of a key in the whole history.
  unfoldable pub newest_put : Text → List (ℕ × Request M) → Option (CacheEntry M)
  newest_put key [] = none
  newest_put key ((t, look_up k) ∷ log) = newest_put key log
  newest_put key ((t, put k x) ∷ log) =
      let rest = newest_put key log in
      if eq_text k key then some (record { at = t; credits = x }) else rest

  -- The clock never goes back, and reads `now` at the end.
  abbrev pub IsLog : ℕ → List (ℕ × Request M) → Type 0
  IsLog now [] = Unit {0}
  IsLog now ((t, q) ∷ log) = (t ≤ now) × IsLog t log

  IsLog-later : (t now : ℕ) (log : List (ℕ × Request M)) → t ≤ now → IsLog t log → IsLog now log
  IsLog-later t now [] h l = tt
  IsLog-later t now ((u, q) ∷ log) h l = (omega arith, l.1)

  -- The map holds the newest balance of each key, but for those that are too old.
  live-newest :
      (now : ℕ) (key : Text) (log : List (ℕ × Request M))
      → IsLog now log
      → live now (cache_lookup key (replay log)) ≡ live now (newest_put key log)
  unfolding replay newest_put
  live-newest now key [] l = unfold cache_lookup in refl
  live-newest now key ((t, put k x) ∷ log) l =
      let ih = live-newest now key log (IsLog-later t now log l.0 l.1) in
      rw (cache_lookup-set k key x t (replay log))
        (elim (Bool-cases (eq_text k key)) [ inl e ↦ rw e refl | inr e ↦ rw e ih ])
  live-newest now key ((t, look_up k) ∷ log) l =
      let ih = live-newest now key log (IsLog-later t now log l.0 l.1) in
      elim (cache_get_keeps k t (replay log)) [
        | inl e ↦ rw e ih
        | inr (e, gone) ↦ rw e (
            rw (cache_lookup-delete k key (replay log)) (elim (Bool-cases (eq_text k key)) [
              | inl same ↦ rw same (
                  sym (live_later t now _ l.0 gone)
                  ∙ ap (λ x. live now (cache_lookup x (replay log))) ((eq_text_iff k key).0 same)
                  ∙ ih)
              | inr other ↦ rw other ih
            ]))
      ]

  -- Whatever was looked up and put before, on a clock that does not go back: a lookup gives the newest
  -- balance that was put under the key, if that is younger than the time to live, and nothing else.
  pub cache_get-newest_put :
      (now : ℕ) (key : Text) (log : List (ℕ × Request M))
      → IsLog now log
      → (cache_get key ttl now (replay log)).0 ≡ live now (newest_put key log)
  cache_get-newest_put now key log l =
      cache_get-live key now (replay log) ∙ live-newest now key log l
