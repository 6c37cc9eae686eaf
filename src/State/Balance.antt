-- ===== src/State/Balance.antt =====
-- The dashboard's balances: the summary counts the list beside it, and the time of the last update
-- is that of the last reading that succeeded.
use quotapulse.Base.{
  ℕ, ◌+◌, ◌≡◌, ◌⊎◌, inl, inr, refl, true, not, some, List, [], ◌∷◌, ◌==◌, length, count_if, filter,
  Bool-cases, arith,
}
use quotapulse.Base.Text.{Text, eq_text}
use quotapulse.State.{
  CheckResult, BalanceSummary, Manager, add_result, summarize_from, summarize_balance,
  any_succeeded, set_balance_locked, set_balance, merge, merge_balance, remove_balance_project,
}

-- What can happen to the balances.
pub data Request (D : Type 0) : Type 0 where
  replace_all : List (CheckResult D) → Request D
  merge_some : List (CheckResult D) → Request D
  remove_one : Text → Request D

module _ {D : Type 0} where
  summarize_from-success :
      (s : BalanceSummary) (rs : List (CheckResult D))
      → (summarize_from s rs).success ≡ s.success + count_if (λ r. r.success) rs
  unfolding summarize_from add_result
  summarize_from-success s [] = omega arith
  summarize_from-success s (r ∷ rs) = ground (arith, summarize_from-success (add_result s r) rs)

  summarize_from-failed :
      (s : BalanceSummary) (rs : List (CheckResult D))
      → (summarize_from s rs).failed ≡ s.failed + count_if (λ r. not r.success) rs
  unfolding summarize_from add_result
  summarize_from-failed s [] = omega arith
  summarize_from-failed s (r ∷ rs) = ground (arith, summarize_from-failed (add_result s r) rs)

  summarize_from-need_alarm :
      (s : BalanceSummary) (rs : List (CheckResult D))
      → (summarize_from s rs).need_alarm ≡ s.need_alarm + count_if (λ r. r.need_alarm) rs
  unfolding summarize_from add_result
  summarize_from-need_alarm s [] = omega arith
  summarize_from-need_alarm s (r ∷ rs) =
      ground (arith, summarize_from-need_alarm (add_result s r) rs)

  summarize_from-total :
      (s : BalanceSummary) (rs : List (CheckResult D)) → (summarize_from s rs).total ≡ s.total
  unfolding summarize_from add_result
  summarize_from-total s [] = refl
  summarize_from-total s (r ∷ rs) = summarize_from-total (add_result s r) rs

  successes_and_failures :
      (rs : List (CheckResult D))
      → count_if (λ r. r.success) rs + count_if (λ r. not r.success) rs ≡ length rs
  successes_and_failures [] = refl
  successes_and_failures (r ∷ rs) = ground (arith, successes_and_failures rs)

  -- A summary that counts a list of results.
  pub record IsCounted (rs : List (CheckResult D)) (s : BalanceSummary) : Type 0 where
    pub total : s.total ≡ length rs
    pub success : s.success ≡ count_if (λ r. r.success) rs
    pub failed : s.failed ≡ count_if (λ r. not r.success) rs
    pub need_alarm : s.need_alarm ≡ count_if (λ r. r.need_alarm) rs
    pub parts : s.success + s.failed ≡ s.total

  pub summarize_balance-IsCounted :
      (rs : List (CheckResult D)) → IsCounted rs (summarize_balance rs)
  unfolding summarize_balance
  summarize_balance-IsCounted rs = record {
    total = summarize_from-total _ rs;
    success = omega (arith, summarize_from-success _ rs);
    failed = omega (arith, summarize_from-failed _ rs);
    need_alarm = omega (arith, summarize_from-need_alarm _ rs);
    parts = omega (
      arith,
      summarize_from-total _ rs,
      summarize_from-success _ rs,
      summarize_from-failed _ rs,
      successes_and_failures rs,
    );
  }

  unfoldable pub answer : ℕ → Request D → Manager D → Manager D
  answer now (replace_all rs) m = set_balance now rs m
  answer now (merge_some rs) m = merge_balance now rs m
  answer now (remove_one name) m = remove_balance_project now name m

  unfoldable pub answers : List (ℕ × Request D) → Manager D → Manager D
  answers [] m = m
  answers ((now, q) ∷ qs) m = answers qs (answer now q m)

  abbrev others : Text → Manager D → List (CheckResult D)
  others name m = filter (λ p. not (eq_text p.project name)) m.balance.projects

  answer-IsCounted :
      (now : ℕ) (q : Request D) (m : Manager D)
      → IsCounted m.balance.projects m.balance.summary
      → IsCounted (answer now q m).balance.projects (answer now q m).balance.summary
  unfolding answer set_balance merge_balance set_balance_locked
  answer-IsCounted now (replace_all rs) m h = summarize_balance-IsCounted rs
  answer-IsCounted now (merge_some rs) m h =
      summarize_balance-IsCounted (merge m.balance.projects rs)
  answer-IsCounted now (remove_one name) m h =
      unfold remove_balance_project in
      elim (Bool-cases (length (others name m) == length m.balance.projects)) [
        | inl e ↦ rw e h
        | inr e ↦ rw e (summarize_balance-IsCounted (others name m))
      ]

  -- Whatever results come in, whole, in part or with a project removed, the summary keeps counting
  -- the projects it is shown with: all of them, those that succeeded, those that failed and those
  -- below their threshold, where the second and the third make up the first.
  pub answers-IsCounted :
      (qs : List (ℕ × Request D)) (m : Manager D)
      → IsCounted m.balance.projects m.balance.summary
      → IsCounted (answers qs m).balance.projects (answers qs m).balance.summary
  unfolding answers
  answers-IsCounted [] m h = h
  answers-IsCounted ((now, q) ∷ qs) m h = answers-IsCounted qs _ (answer-IsCounted now q m h)

  -- The results of a request that were read just now: whether one succeeded, or none was asked for.
  pub IsRead : Request D → Type 0
  IsRead (replace_all rs) = (length rs ≡ 0) ⊎ (any_succeeded rs ≡ true)
  IsRead (merge_some rs) = any_succeeded rs ≡ true
  IsRead (remove_one name) = ⊥

  -- The time of the last update is the clock's at a request with a result that succeeded (or that
  -- replaces the list by none), and no other request moves it: an outage of every provider or the
  -- removal of a project leaves it as it was.
  pub answer-last_update :
      (now : ℕ) (q : Request D) (m : Manager D)
      → (IsRead q → (answer now q m).balance.last_update ≡ some now)
        × ((IsRead q → ⊥) → (answer now q m).balance.last_update ≡ m.balance.last_update)
  unfolding answer set_balance merge_balance set_balance_locked IsRead
  answer-last_update now (replace_all rs) m = (λ h. ground arith, λ h. ground arith)
  answer-last_update now (merge_some rs) m = (λ h. ground arith, λ h. ground arith)
  answer-last_update now (remove_one name) m =
      (λ h. elim h [ ], λ h. unfold remove_balance_project in ground arith)
