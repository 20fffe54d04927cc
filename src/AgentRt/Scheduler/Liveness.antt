-- ===== src/AgentRt/Scheduler/Liveness.antt =====
-- agent_rt/scheduler.rs: the loops and the recursion of `tick`, and the bound on them.
use zeptobeam.Base.{
  ℕ, ◌+◌, ◌≤◌, ◌<◌, ◌≡◌, refl, ◌∙◌, [], Bool, true, false, Option, none, some, arith,
}
use zeptobeam.AgentRt.Types.{Env, Reason}
use zeptobeam.AgentRt.Scheduler.State.{AgentScheduler}
use zeptobeam.AgentRt.Scheduler.Dispatch.{Ending, waits, preempted, left, stopped}
use zeptobeam.AgentRt.Scheduler.Tick.{
  prepare, pick, queued_total, after_turn, stop_if, run_turn, tick,
}
use zeptobeam.AgentRt.Scheduler.Actions.{Intact}
use zeptobeam.AgentRt.Scheduler.Reductions.{dispatch-start_turn_total}
use zeptobeam.AgentRt.Scheduler.Pick.{pick-Picked}
use zeptobeam.AgentRt.Scheduler.Population.{population}
use zeptobeam.AgentRt.Scheduler.Termination.{terminate_process_returns}
use zeptobeam.AgentRt.Scheduler.Cycle.{Inv, prepare-Inv, run_turn-ended}

module _ {E : Env}
    (handle : E.Handler → AgentScheduler E → ℕ → Reason → E.Handler × AgentScheduler E) (now : ℕ)
    (calm : (h : E.Handler) (s : AgentScheduler E) (pid : ℕ) (reason : Reason)
      → population (handle h s pid reason).1 ≤ population s) where
  stop_if_returns :
      (depth : ℕ) (s : AgentScheduler E) (pid : ℕ) (ending : Ending)
      → population s < depth
      → (t : AgentScheduler E) × (stop_if handle now depth s pid ending ≡ some t)
  unfolding stop_if
  stop_if_returns depth s pid (stopped reason) b =
      let r = terminate_process_returns handle now calm depth s pid reason b in (r.0, r.1)
  stop_if_returns depth s pid waits b = (s, refl)
  stop_if_returns depth s pid preempted b = (s, refl)
  stop_if_returns depth s pid left b = (s, refl)

  -- The processes after the turn of `pid`, before a stop is carried out, bound the cascade.
  run_turn_returns :
      (s : AgentScheduler E) (pid : ℕ)
      → (bound : ℕ) × ((depth : ℕ)
          → bound < depth
          → (t : AgentScheduler E) × (run_turn handle now depth s pid ≡ some t))
  run_turn_returns s pid =
      let ((u, ending), done) = dispatch-start_turn_total pid s in
      let rest = after_turn now pid u ending in
      (
        population rest,
        λ depth b.
            let (t, e) = stop_if_returns depth rest pid ending b in
            (t, run_turn-ended handle now depth s pid u ending done ∙ e),
      )

  -- For every state that satisfies the invariant there is a bound on the cascade of a termination
  -- above which the cycle returns, if no exit handler adds a process.
  pub tick_returns :
      (s : AgentScheduler E)
      → Inv s
      → (bound : ℕ) × ((depth : ℕ)
          → bound < depth
          → (r : AgentScheduler E × Bool) × (tick handle now depth s ≡ some r))
  unfolding tick
  tick_returns s h =
      let ready = prepare now s in
      let (picked, done, _) =
        pick-Picked (Intact []) (queued_total ready + 1) ready (omega arith)
          (prepare-Inv now s h) in
      go picked done
    where
      go :
          (picked : AgentScheduler E × Option ℕ)
          → pick (queued_total (prepare now s) + 1) (prepare now s) ≡ some picked
          → (bound : ℕ) × ((depth : ℕ)
              → bound < depth
              → (r : AgentScheduler E × Bool) × (tick handle now depth s ≡ some r))
      go (s', none) e = (0, λ depth b. ((s', false), rw (e, tick) refl))
      go (s', some pid) e =
          let (bound, run) = run_turn_returns s' pid in
          (bound, λ depth b. let (t, r) = run depth b in ((t, true), rw (e, tick) (rw r refl)))
