-- ===== src/AgentRt/Scheduler/Termination.antt =====
-- agent_rt/scheduler.rs: the recursion of `terminate_process`, and the bound on its depth.
use zeptobeam.Base.{
  ℕ, zero, suc, ◌≤◌, ◌<◌, ◌≡◌, refl, ◌∙◌, List, [], ◌∷◌, inl, inr, Option, some, arith,
  Option-cases,
}
use zeptobeam.AgentRt.Types.{Env, Reason}
use zeptobeam.AgentRt.Process.{AgentProcess}
use zeptobeam.AgentRt.Scheduler.State.{AgentScheduler, lookup}
use zeptobeam.AgentRt.Scheduler.Terminate.{
  cancel_io, detach, record_process_termination, submit_destroy, run_handlers, call_exit_handlers,
  finish, cascade_all, terminate_process,
}
use zeptobeam.AgentRt.Scheduler.Population.{
  population, population-bury, population-bury_present, population-cancel_io, population-detach,
  lookup-cancel_io, cascade_of_gone,
}

module _ {E : Env}
    (handle : E.Handler → AgentScheduler E → ℕ → Reason → E.Handler × AgentScheduler E) (now : ℕ)
    (calm : (h : E.Handler) (s : AgentScheduler E) (pid : ℕ) (reason : Reason)
      → population (handle h s pid reason).1 ≤ population s) where
  population-run_handlers :
      (pid : ℕ) (reason : Reason) (hs : List E.Handler) (s : AgentScheduler E)
      → population (run_handlers handle now pid reason hs s).1 ≤ population s
  unfolding run_handlers
  population-run_handlers pid reason [] s = omega arith
  population-run_handlers pid reason (h ∷ hs) s =
      omega (
        arith,
        population-run_handlers pid reason hs (handle h s pid reason).1,
        calm h s pid reason,
      )

  population-finish :
      (s : AgentScheduler E) (pid : ℕ) (reason : Reason)
      → population (finish handle now s pid reason) ≤ population s
  unfolding finish call_exit_handlers submit_destroy record_process_termination population
  population-finish s pid reason =
      ground (
        arith,
        population-run_handlers pid reason s.exit_handlers (record s { exit_handlers = [] }),
      )

  -- A call that returns, with no more processes than there were.
  abbrev Returns : Option (AgentScheduler E) → AgentScheduler E → Type 0
  Returns r s = (t : AgentScheduler E) × (r ≡ some t) × (population t ≤ population s)

  cascade_all-some :
      (kill : AgentScheduler E → ℕ → Reason → Option (AgentScheduler E)) (reason : Reason) (p : ℕ)
      (ps : List ℕ) (s t : AgentScheduler E)
      → kill s p reason ≡ some t
      → cascade_all handle now kill reason (p ∷ ps) s ≡ cascade_all handle now kill reason ps t
  unfolding cascade_all
  cascade_all-some kill reason p ps s t e = rw (e, cascade_all)

  cascade_all-Returns :
      (kill : AgentScheduler E → ℕ → Reason → Option (AgentScheduler E)) (fuel : ℕ)
      → ((s : AgentScheduler E) (pid : ℕ) (reason : Reason)
          → population s < fuel
          → Returns (kill s pid reason) s)
      → (reason : Reason) (ps : List ℕ) (s : AgentScheduler E) → population s < fuel
      → Returns (cascade_all handle now kill reason ps s) s
  cascade_all-Returns kill fuel ih reason [] s b = (s, unfold cascade_all in refl, omega arith)
  cascade_all-Returns kill fuel ih reason (p ∷ ps) s b =
      let (t, e, le) = ih s p reason b in
      let (u, done, le') = cascade_all-Returns kill fuel ih reason ps t (omega arith) in
      (u, cascade_all-some kill reason p ps s t e ∙ done, omega arith)

  terminate_process-some :
      (fuel : ℕ) (s t : AgentScheduler E) (pid : ℕ) (reason : Reason)
      → let d = detach now s pid reason in
        cascade_all handle now (terminate_process handle now fuel) reason d.1 d.0 ≡ some t
        → terminate_process handle now (suc fuel) s pid reason
          ≡ some (finish handle now t pid reason)
  unfolding terminate_process
  terminate_process-some fuel s t pid reason e = rw (e, terminate_process)

  population-detached :
      (s : AgentScheduler E) (pid : ℕ) (reason : Reason)
      → population (detach now s pid reason).0 ≤ population s
  population-detached s pid reason = omega (
    arith,
    population-detach now s pid reason,
    population-bury (cancel_io s pid) pid,
    population-cancel_io s pid,
  )

  population-detached_present :
      (s : AgentScheduler E) (pid : ℕ) (reason : Reason) (p : AgentProcess E)
      → lookup s pid ≡ some p
      → population (detach now s pid reason).0 < population s
  population-detached_present s pid reason p here = omega (
    arith,
    population-detach now s pid reason,
    population-bury_present (cancel_io s pid) pid p (lookup-cancel_io s pid pid ∙ here),
    population-cancel_io s pid,
  )

  -- If no exit handler adds a process, then `terminate_process` returns whenever its depth exceeds
  -- the number of registered processes, and leaves no more processes than there were.
  pub terminate_process_returns :
      (fuel : ℕ) (s : AgentScheduler E) (pid : ℕ) (reason : Reason)
      → population s < fuel
      → (t : AgentScheduler E) × (terminate_process handle now fuel s pid reason ≡ some t)
        × (population t ≤ population s)
  terminate_process_returns zero s pid reason b = absurd (omega arith)
  terminate_process_returns (suc fuel) s pid reason b =
      let d = detach now s pid reason in
      let kill = terminate_process handle now fuel in
      let rest : Returns (cascade_all handle now kill reason d.1 d.0) d.0 =
        elim (Option-cases (lookup s pid)) [
          | inl gone ↦
              rw (cascade_of_gone now s pid reason gone)
                (d.0, unfold cascade_all in refl, omega arith)
          | inr (p, here) ↦
              cascade_all-Returns kill fuel (terminate_process_returns fuel) reason d.1 d.0
                (omega (arith, population-detached_present s pid reason p here))
        ] in
      (
        finish handle now rest.0 pid reason,
        terminate_process-some fuel s rest.0 pid reason rest.1,
        omega
            (arith, rest.2, population-finish rest.0 pid reason, population-detached s pid reason),
      )
