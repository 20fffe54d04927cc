-- ===== src/AgentRt/Scheduler/Fairness.antt =====
-- agent_rt/scheduler.rs: the three priority queues of `next_runnable`.
use zeptobeam.Base.{
  ℕ, ◌+◌, ◌≤◌, ◌<◌, ◌≡◌, refl, List, [], ◌∷◌, Bool, true, false, ◌⊎◌, inl, inr, Option, none, some,
  arith, ◌==◌, nat_eq, any, length, Bool-cases, is_empty,
}
use zeptobeam.AgentRt.Types.{Env}
use zeptobeam.AgentRt.Process.{normal}
use zeptobeam.AgentRt.Scheduler.State.{AgentScheduler, push_back, next_runnable}

-- Processes of normal priority that become runnable.
unfoldable pub arrive : {E : Env} → List ℕ → AgentScheduler E → AgentScheduler E
arrive [] s = s
arrive (p ∷ ps) s = arrive ps (push_back s p normal)

-- The pids picked by one call of `next_runnable` after each batch of arrivals.
unfoldable pub picks : {E : Env} → List (List ℕ) → AgentScheduler E → List (Option ℕ)
picks [] s = []
picks (batch ∷ batches) s = let r = next_runnable (arrive batch s) in r.1 ∷ picks batches r.0

abbrev pub is_pid : ℕ → Option ℕ → Bool
is_pid l none = false
is_pid l (some p) = p == l

record Waits {E : Env} (l : ℕ) (ls : List ℕ) (n : ℕ) (s : AgentScheduler E) : Type 0 where
  no_high : s.queue_high ≡ []
  first_low : s.queue_low ≡ l ∷ ls
  count : s.advantage_count ≡ n

module _ {E : Env} (l : ℕ) (ls : List ℕ) where
  arrive-Waits :
      (n : ℕ) (ps : List ℕ) (s : AgentScheduler E) → Waits l ls n s → Waits l ls n (arrive ps s)
  unfolding arrive push_back
  arrive-Waits n [] s w = w
  arrive-Waits n (p ∷ ps) s w =
      arrive-Waits n ps (push_back s p normal)
        (record { no_high = w.no_high; first_low = w.first_low; count = w.count })

  -- The low process is picked, or a normal one is and the counter advances.
  next_runnable-Waits :
      (n : ℕ) (s : AgentScheduler E)
      → Waits l ls n s
      → ((next_runnable s).1 ≡ some l) ⊎ ((n + 1 < 8) × Waits l ls (n + 1) (next_runnable s).0)
  unfolding next_runnable
  next_runnable-Waits n s w = elim (Bool-cases (is_empty s.queue_normal)) [
    | inl e ↦ inl (ground arith)
    | inr e ↦ ground arith
  ]

  picks_from :
      (n : ℕ) (batches : List (List ℕ)) (s : AgentScheduler E)
      → Waits l ls n s
      → 8 ≤ n + length batches
      → 0 < length batches
      → any (is_pid l) (picks batches s) ≡ true
  unfolding picks
  picks_from n [] s w enough below = absurd (omega arith)
  picks_from n (batch ∷ batches) s w enough below =
      elim (next_runnable-Waits n (arrive batch s) (arrive-Waits n batch s w)) [
        | inl e ↦ ground (arith, e)
        | inr (more, w') ↦ ground (
          arith,
          picks_from (n + 1) batches (next_runnable (arrive batch s)).0 w' (omega arith)
              (omega arith),
        )
      ]

-- While no process of high priority is queued, the first process of the low queue is picked within
-- eight calls of `next_runnable`, whatever processes of normal priority arrive in between.
pub low_served :
    {E : Env} (l : ℕ) (ls : List ℕ) (batches : List (List ℕ)) (s : AgentScheduler E)
    → s.queue_high ≡ []
    → s.queue_low ≡ l ∷ ls
    → 8 ≤ length batches
    → any (is_pid l) (picks batches s) ≡ true
low_served l ls batches s high low enough =
    picks_from l ls s.advantage_count batches s
      (record { no_high = high; first_low = low; count = refl }) (omega arith) (omega arith)
