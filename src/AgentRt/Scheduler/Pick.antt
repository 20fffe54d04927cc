-- ===== src/AgentRt/Scheduler/Pick.antt =====
-- agent_rt/scheduler.rs: the loop of `tick` that picks the next process off the run queues.
use zeptobeam.Base.{
  ℕ, zero, suc, ◌<◌, ◌≡◌, ◌∙◌, [], ◌∷◌, true, false, inl, inr, Option, none, some, arith, nat_eq,
  nat_beq_iff, Option-cases, Bool-cases,
}
use zeptobeam.AgentRt.Types.{Env}
use zeptobeam.AgentRt.Process.{AgentProcess, is_runnable}
use zeptobeam.AgentRt.Scheduler.State.{AgentScheduler, lookup, next_runnable}
use zeptobeam.AgentRt.Scheduler.Tick.{pick, is_ready, queued_total}
use zeptobeam.AgentRt.Scheduler.Queues.{
  lookup-next_runnable, queued-next_runnable, queued-next_runnable-none,
}
use zeptobeam.AgentRt.Scheduler.Wakeup.{Covered}
use zeptobeam.AgentRt.Scheduler.Holds.{Everyone, Holds}

module _ {E : Env} (s : AgentScheduler E) where
  pub queued_total-next_runnable :
      (k : ℕ) → (next_runnable s).1 ≡ some k → queued_total (next_runnable s).0 < queued_total s
  unfolding next_runnable queued_total
  queued_total-next_runnable k h = ground arith

  pick-none :
      (fuel : ℕ) → (next_runnable s).1 ≡ none → pick (suc fuel) s ≡ some ((next_runnable s).0, none)
  unfolding pick
  pick-none fuel e = rw (e, pick)

  pick-ready :
      (fuel k : ℕ)
      → (next_runnable s).1 ≡ some k
      → is_ready (next_runnable s).0 k ≡ true
      → pick (suc fuel) s ≡ some ((next_runnable s).0, some k)
  unfolding pick
  pick-ready fuel k e r = ground arith

  pick-stale :
      (fuel k : ℕ)
      → (next_runnable s).1 ≡ some k
      → is_ready (next_runnable s).0 k ≡ false
      → pick (suc fuel) s ≡ pick fuel (next_runnable s).0
  unfolding pick
  pick-stale fuel k e r = ground arith

  -- A popped pid is the one that is yet to be enqueued.
  popped-Covered :
      (k : ℕ) → (next_runnable s).1 ≡ some k → Covered [] s → Covered (k ∷ []) (next_runnable s).0
  popped-Covered k e c q p h r =
      ground (arith, lookup-next_runnable s q, queued-next_runnable s k q e, c q p)

  stale-Covered : (k : ℕ) → is_ready s k ≡ false → Covered (k ∷ []) s → Covered [] s
  unfolding is_ready
  stale-Covered k e c q p h r = ground (arith, c q p, nat_beq_iff k q)

  pub next_runnable-Everyone :
      (P : ℕ → AgentProcess E → Type 0) → Everyone P s → Everyone P (next_runnable s).0
  next_runnable-Everyone P all q p e = all q p (rw (lookup-next_runnable s q) at e)

-- The process that was picked is runnable, and nothing but its own turn is missing; if none was
-- picked, no process is runnable.
abbrev pub Picked : {E : Env} → (ℕ → AgentProcess E → Type 0) → AgentScheduler E × Option ℕ → Type 0
Picked {E} P (t, some k) = Holds P (k ∷ []) t × (is_ready t k ≡ true)
Picked {E} P (t, none) =
    Holds P [] t
    × ((q : ℕ) (p : AgentProcess E) → lookup t q ≡ some p → is_runnable p.status ≡ false)

module _ {E : Env} (P : ℕ → AgentProcess E → Type 0) where
  idle :
      (s : AgentScheduler E)
      → (next_runnable s).1 ≡ none
      → Holds P [] s
      → Picked P ((next_runnable s).0, none)
  idle s e h = (
    record {
      covered = λ q p f r.
          ground (arith, lookup-next_runnable s q, queued-next_runnable-none s q e, h.covered q p);
      everyone = next_runnable-Everyone s P h.everyone;
    },
    λ q p f.
        ground (arith, lookup-next_runnable s q, queued-next_runnable-none s q e, h.covered q p),
  )

  -- With more fuel than there are queue entries the loop ends, and what it returns is as told.
  pub pick-Picked :
      (fuel : ℕ) (s : AgentScheduler E)
      → queued_total s < fuel
      → Holds P [] s
      → (r : AgentScheduler E × Option ℕ) × (pick fuel s ≡ some r) × Picked P r
  pick-Picked zero s b h = absurd (omega arith)
  pick-Picked (suc fuel) s b h = elim (Option-cases (next_runnable s).1) [
    | inl e ↦ (((next_runnable s).0, none), pick-none s fuel e, idle s e h)
    | inr (k, e) ↦
        let s' = (next_runnable s).0 in
        let popped : Holds P (k ∷ []) s' = record {
          covered = popped-Covered s k e h.covered;
          everyone = next_runnable-Everyone s P h.everyone;
        } in
        elim (Bool-cases (is_ready s' k)) [
          | inl r ↦ ((s', some k), pick-ready s fuel k e r, (popped, r))
          | inr r ↦
              let (res, done, as_told) =
                pick-Picked fuel s' (omega (arith, queued_total-next_runnable s k e)) (record {
                  covered = stale-Covered s' k r popped.covered;
                  everyone = popped.everyone;
                }) in
              (res, pick-stale s fuel k e r ∙ done, as_told)
        ]
  ]
