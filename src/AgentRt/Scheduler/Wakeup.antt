-- ===== src/AgentRt/Scheduler/Wakeup.antt =====
-- agent_rt/scheduler.rs: which runnable processes stand in a run queue, or in a list of pids that
-- the step in progress has yet to enqueue.
use zeptobeam.Base.{
  ℕ, ◌≡◌, List, ◌∷◌, true, false, ◌||◌, inl, inr, some, arith, nat_eq, nat_beq_iff, Option-cases,
}
use zeptobeam.AgentRt.Types.{Env, Message}
use zeptobeam.AgentRt.Process.{AgentProcess, is_runnable, deliver_message}
use zeptobeam.AgentRt.Scheduler.State.{
  AgentScheduler, lookup, modify, enqueue, send, call_hook, deliver, send_local,
}
use zeptobeam.AgentRt.Scheduler.Terminate.{bury}
use zeptobeam.AgentRt.Scheduler.Sending.{
  Same, call_hook-Same, deliver-Same, deliver-local, send-cases, delivered, lookup-send_local,
  queued-send_local,
}
use zeptobeam.AgentRt.Scheduler.Queues.{
  has, is_queued, lookup-modify, lookup-bury, lookup-enqueue, queued-modify, queued-bury,
  queued-enqueue,
}

abbrev pub Covered : {E : Env} → List ℕ → AgentScheduler E → Type 0
Covered {E} xs s =
    (q : ℕ) (p : AgentProcess E)
    → lookup s q ≡ some p
    → is_runnable p.status ≡ true
    → (has xs q || is_queued s q) ≡ true

-- A change of a process that wakes nobody.
abbrev pub Calm : {E : Env} → (AgentProcess E → AgentProcess E) → Type 0
Calm {E} f = (p : AgentProcess E) → is_runnable (f p).status ≡ true → is_runnable p.status ≡ true

-- A change that leaves a process not runnable.
abbrev pub Parks : {E : Env} → (AgentProcess E → AgentProcess E) → Type 0
Parks {E} f = (p : AgentProcess E) → is_runnable (f p).status ≡ false

module _ {E : Env} (xs : List ℕ) (s : AgentScheduler E) where
  pub modify-Covered_at :
      (k : ℕ) (f : AgentProcess E → AgentProcess E)
      → ((p : AgentProcess E)
          → lookup s k ≡ some p
          → is_runnable (f p).status ≡ true
          → is_runnable p.status ≡ true)
      → Covered xs s
      → Covered xs (modify s k f)
  modify-Covered_at k f calm c q p e r = elim (Option-cases (lookup s q)) [
    | inl gone ↦ ground (arith, lookup-modify s k f q)
    | inr (p₀, e₀) ↦
        ground
          (arith, lookup-modify s k f q, queued-modify s k f q, calm p₀, c q p₀, nat_beq_iff k q)
  ]

  pub modify-Covered-Calm :
      (k : ℕ) (f : AgentProcess E → AgentProcess E)
      → Calm f
      → Covered xs s
      → Covered xs (modify s k f)
  modify-Covered-Calm k f calm = modify-Covered_at k f (λ p _. calm p)

  pub modify-Covered_any :
      (k : ℕ) (f : AgentProcess E → AgentProcess E) → Covered xs s → Covered (k ∷ xs) (modify s k f)
  modify-Covered_any k f c q p e r =
      ground (arith, lookup-modify s k f q, queued-modify s k f q, c q p)

  pub modify-Covered-Parks :
      (k : ℕ) (f : AgentProcess E → AgentProcess E)
      → Parks f
      → Covered (k ∷ xs) s
      → Covered xs (modify s k f)
  modify-Covered-Parks k f parks c q p e r = elim (Option-cases (lookup s q)) [
    | inl gone ↦ ground (arith, lookup-modify s k f q)
    | inr (p₀, e₀) ↦ ground (arith, lookup-modify s k f q, queued-modify s k f q, parks p₀, c q p)
  ]

  pub bury-Covered : (k : ℕ) → Covered (k ∷ xs) s → Covered xs (bury s k)
  bury-Covered k c q p e r = ground (arith, lookup-bury s k q, queued-bury s k q, c q p)

  pub enqueue-Covered : (k : ℕ) → Covered (k ∷ xs) s → Covered xs (enqueue s k)
  enqueue-Covered k c q p e r =
      ground (arith, lookup-enqueue s k q, queued-enqueue s k q, nat_beq_iff k q, c q p)

  pub Covered-cons : (k : ℕ) → Covered xs s → Covered (k ∷ xs) s
  Covered-cons k c q p e r = ground (arith, c q p)

  pub Same-Covered : {t : AgentScheduler E} → Same s t → Covered xs s → Covered xs t
  Same-Covered same c q p e r = ground (arith, same.processes q, same.queues q, c q p)

module _ {E : Env} (xs : List ℕ) (now : ℕ) (s : AgentScheduler E) where
  -- A delivery wakes the process only if it waits, and then `send` enqueues it.
  pub send_local-Covered :
      (to : ℕ) (p : AgentProcess E) (msg : Message E.Value)
      → lookup s to ≡ some p
      → Covered xs s
      → Covered xs (send_local now s to p msg).0
  unfolding deliver_message
  send_local-Covered to p msg here c q p' e r = elim (Option-cases (lookup s q)) [
    | inl gone ↦
        ground (arith, lookup-send_local now s to p msg q, lookup-modify s to (delivered msg) q)
    | inr (p₀, e₀) ↦ ground (
      arith,
      lookup-send_local now s to p msg q,
      lookup-modify s to (delivered msg) q,
      queued-send_local now s to p msg here q,
      nat_beq_iff to q,
      c q p₀,
    )
  ]

  pub deliver-Covered :
      (to : ℕ) (msg : Message E.Value) → Covered xs s → Covered xs (deliver now s to msg).0
  deliver-Covered to msg c = elim (Option-cases (lookup s to)) [
    | inl gone ↦ Same-Covered xs s (deliver-Same s to msg now gone) c
    | inr (p, here) ↦ rw (deliver-local s to msg now p here) (send_local-Covered to p msg here c)
  ]

module _ {E : Env} (xs : List ℕ) (now : ℕ) (s : AgentScheduler E) where
  pub send-Covered :
      (to : ℕ) (msg : Message E.Value) → Covered xs s → Covered xs (send now s to msg).0
  send-Covered to msg c =
      let hooked = Same-Covered xs s (call_hook-Same s to msg) c in
      elim (send-cases s to msg now) [
        | inl e ↦ rw e (deliver-Covered xs now (call_hook s to msg).0 to msg hooked)
        | inr e ↦ rw e hooked
      ]
