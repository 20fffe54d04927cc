-- ===== src/AgentRt/RetryPolicy/Attempts.antt =====
-- agent_rt/retry_policy.rs: sequences of failures of any tasks.
use zeptobeam.Base.{
  sym, ap, subst, ℕ, ◌+◌, ◌-◌, ◌≤◌, ◌<◌, ◌^◌, ◌≡◌, refl, List, [], ◌∷◌, true, Option, none, String,
  string_eq, arith, leb, if◌then◌else◌, length, is_some, ◌==◌, inl, inr, ◌⊎◌,
}
use zeptobeam.HashMap
use zeptobeam.AgentRt.RetryPolicy.{
  RetryStrategy, no_retry, skip, immediate, backoff, RetryTracker, strategy_of, attempt_count,
  next_count, count_attempt, should_retry,
}

-- How many retries of one task the tracker grants while the tasks fail in turn.
unfoldable pub retries : String → List String → RetryTracker → ℕ
retries task [] t = 0
retries task (failed ∷ more) t =
    let r = should_retry t failed in
    let rest = retries task more r.0 in
    if (failed == task) then (if is_some r.1 then rest + 1 else rest) else rest

abbrev pub max_attempts : RetryStrategy → ℕ
max_attempts no_retry = 0
max_attempts skip = 0
max_attempts (immediate n) = n
max_attempts (backoff n base_ms max_ms) = n

attempt_count-count_attempt :
    (t : RetryTracker) (failed task : String)
    → attempt_count (count_attempt t failed) task
      ≡ (if failed == task then next_count t failed else attempt_count t task)
unfolding attempt_count count_attempt next_count
attempt_count-count_attempt t failed task =
    ground (arith, HashMap.get-insert t.attempts failed (next_count t failed) task)

-- What one failure does to the tracker, as far as one task is concerned, whose count is c.
record Step (task failed : String) (t : RetryTracker) (c : ℕ) : Type 0 where
  kept : strategy_of (should_retry t failed).0 task ≡ strategy_of t task
  low : c ≤ attempt_count (should_retry t failed).0 task
  high : attempt_count (should_retry t failed).0 task ≤ c + 1
  granted :
      (failed == task) ≡ true
      → is_some (should_retry t failed).1 ≡ true
      → (c < max_attempts (strategy_of t task))
        × (attempt_count (should_retry t failed).0 task ≡ c + 1)

module _ (task failed : String) (t : RetryTracker) (c : ℕ) where
  counted :
      attempt_count t task ≡ c
      → c + 1 < 2 ^ 32
      → (failed == task) ≡ true
      → next_count t failed ≡ c + 1
  unfolding next_count
  counted e h hit =
      let same : attempt_count t failed ≡ c =
        subst (λ u. attempt_count t u ≡ c) (sym ((string_eq.beq_iff failed task).0 hit)) e in
      ground (arith, same)

  strategy_of-count_attempt : strategy_of (count_attempt t failed) task ≡ strategy_of t task
  unfolding strategy_of count_attempt
  strategy_of-count_attempt = refl

  -- A failure is not counted, or it is, and a retry is granted up to the number of attempts.
  should_retry-cases :
      (should_retry t failed ≡ (t, none))
      ⊎ ((v : Option ℕ) × (should_retry t failed ≡ (count_attempt t failed, v))
          × (is_some v ≡ leb (next_count t failed) (max_attempts (strategy_of t failed))))
  unfolding should_retry
  should_retry-cases = go (strategy_of t failed) refl
    where
      go :
          (strategy : RetryStrategy)
          → strategy_of t failed ≡ strategy
          → (should_retry t failed ≡ (t, none))
            ⊎ ((v : Option ℕ) × (should_retry t failed ≡ (count_attempt t failed, v))
                × (is_some v ≡ leb (next_count t failed) (max_attempts (strategy_of t failed))))
      go no_retry s = inl (rw (s, should_retry) refl)
      go skip s = inl (rw (s, should_retry) refl)
      go (immediate n) s = inr ((should_retry t failed).1, ground (arith, s), ground (arith, s))
      go (backoff n base_ms max_ms) s =
          inr ((should_retry t failed).1, ground (arith, s), ground (arith, s))

  same_strategy : (failed == task) ≡ true → strategy_of t failed ≡ strategy_of t task
  same_strategy hit = ap (strategy_of t) ((string_eq.beq_iff failed task).0 hit)

  step : attempt_count t task ≡ c → c + 1 < 2 ^ 32 → Step task failed t c
  step e h = elim should_retry-cases [
    | inl r ↦ record {
      kept = rw r refl;
      low = rw r (omega (arith, e));
      high = rw r (omega (arith, e));
      granted = λ hit g. absurd (ground (arith, r));
    }
    | inr (v, r, granting) ↦ record {
      kept = rw r strategy_of-count_attempt;
      low = ground (arith, r, e, attempt_count-count_attempt t failed task, counted e h);
      high = ground (arith, r, e, attempt_count-count_attempt t failed task, counted e h);
      granted = λ hit g. ground (
        arith,
        r,
        e,
        granting,
        hit,
        g,
        same_strategy hit,
        attempt_count-count_attempt t failed task,
        counted e h hit,
      );
    }
  ]

-- However the failures of tasks interleave, a task is granted at most as many retries as its
-- strategy allows attempts, less the ones that are counted already; for fewer than 2^32 failures.
pub retries-le-max_attempts :
    (task : String) (fs : List String) (t : RetryTracker)
    → attempt_count t task + length fs < 2 ^ 32
    → retries task fs t ≤ max_attempts (strategy_of t task) - attempt_count t task
unfolding retries
retries-le-max_attempts task [] t h = omega arith
retries-le-max_attempts task (failed ∷ fs) t h =
    let s = step task failed t (attempt_count t task) refl (omega (arith, h)) in
    let rest =
      retries-le-max_attempts task fs (should_retry t failed).0 (omega (arith, h, s.high)) in
    ground (arith, s.kept, s.low, s.high, s.granted, rest, ap max_attempts s.kept)
