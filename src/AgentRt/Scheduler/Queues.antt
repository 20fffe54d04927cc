-- ===== src/AgentRt/Scheduler/Queues.antt =====
-- agent_rt/scheduler.rs: what small steps do to the registry and to the run queues.
use mathlib.Core.Option as O
use zeptobeam.Base.{
  ℕ, ◌≡◌, refl, List, [], ◌∷◌, Bool, false, ◌||◌, inl, inr, none, some, arith, if◌then◌else◌, ◌==◌,
  nat_eq, any, any-append, is_some, Option-cases,
}
use zeptobeam.HashMap
use zeptobeam.AgentRt.Types.{Env}
use zeptobeam.AgentRt.Process.{AgentProcess, Priority, high, normal, low, pop_front}
use zeptobeam.AgentRt.Process
use zeptobeam.AgentRt.Registry
use zeptobeam.AgentRt.Scheduler.State.{AgentScheduler, lookup, modify, enqueue, next_runnable}
use zeptobeam.AgentRt.Scheduler.Terminate.{bury}

abbrev pub has : List ℕ → ℕ → Bool
has xs q = any (λ x. x == q) xs

-- Whether a pid stands in one of the run queues.
unfoldable pub is_queued : {E : Env} → AgentScheduler E → ℕ → Bool
is_queued s q = has s.queue_high q || (has s.queue_normal q || has s.queue_low q)

module _ {E : Env} (s : AgentScheduler E) where
  pub lookup-modify :
      (k : ℕ) (f : AgentProcess E → AgentProcess E) (j : ℕ)
      → lookup (modify s k f) j ≡ (if k == j then O.map f (lookup s j) else lookup s j)
  unfolding lookup modify Registry.lookup Registry.modify
  lookup-modify k f j = HashMap.get-modify s.registry.processes k f j

  pub lookup-bury : (k j : ℕ) → lookup (bury s k) j ≡ (if k == j then none else lookup s j)
  unfolding lookup bury Registry.lookup Registry.modify Registry.remove
  lookup-bury k j = ground (
    arith,
    HashMap.get-remove (HashMap.modify s.registry.processes k Process.terminate) k j,
    HashMap.get-modify s.registry.processes k Process.terminate j,
  )

  pub lookup-enqueue : (k j : ℕ) → lookup (enqueue s k) j ≡ lookup s j
  unfolding enqueue lookup
  lookup-enqueue k j = elim (Option-cases (lookup s k)) [
    | inl e ↦ ground arith
    | inr (p, e) ↦ ground arith
  ]

  pub queued-modify :
      (k : ℕ) (f : AgentProcess E → AgentProcess E) (j : ℕ)
      → is_queued (modify s k f) j ≡ is_queued s j
  unfolding is_queued modify
  queued-modify k f j = refl

  pub queued-bury : (k j : ℕ) → is_queued (bury s k) j ≡ is_queued s j
  unfolding is_queued bury
  queued-bury k j = refl

  pub queued-enqueue :
      (k j : ℕ)
      → is_queued (enqueue s k) j
        ≡ (if is_some (lookup s k) then (k == j || is_queued s j) else is_queued s j)
  unfolding is_queued enqueue
  queued-enqueue k j = ground (
    arith,
    any-append (λ x. x == j) s.queue_high (k ∷ []),
    any-append (λ x. x == j) s.queue_normal (k ∷ []),
    any-append (λ x. x == j) s.queue_low (k ∷ []),
  )

  pub lookup-next_runnable : (j : ℕ) → lookup (next_runnable s).0 j ≡ lookup s j
  unfolding next_runnable lookup
  lookup-next_runnable j = ground arith

  -- Popping a pid takes one occurrence of it out of the queues, and of no other.
  pub queued-next_runnable :
      (k j : ℕ)
      → (next_runnable s).1 ≡ some k
      → is_queued s j ≡ (k == j || is_queued (next_runnable s).0 j)
  unfolding next_runnable is_queued
  queued-next_runnable k j h = ground arith

  pub queued-next_runnable-none : (j : ℕ) → (next_runnable s).1 ≡ none → is_queued s j ≡ false
  unfolding next_runnable is_queued
  queued-next_runnable-none j h = ground arith
