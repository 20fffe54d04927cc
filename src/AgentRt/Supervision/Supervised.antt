-- ===== src/AgentRt/Supervision/Supervised.antt =====
-- agent_rt/supervision.rs with agent_rt/scheduler.rs: a supervisor as an exit handler.
use zeptobeam.Base.{ℕ, ◌≡◌, [], Bool, inl, inr, Option, none, some, Option-cases, nat_eq}
use zeptobeam.AgentRt.Types.{Env, Reason}
use zeptobeam.AgentRt.Scheduler.State.{AgentScheduler}
use zeptobeam.AgentRt.Scheduler.Terminate.{terminate_process}
use zeptobeam.AgentRt.Scheduler.Tick.{tick}
use zeptobeam.AgentRt.Scheduler.Holds.{Holds-cons, bury-Holds}
use zeptobeam.AgentRt.Scheduler.Actions.{Intact, Intact-Stable}
use zeptobeam.AgentRt.Scheduler.Death.{terminate_process-Holds}
use zeptobeam.AgentRt.Scheduler.Cycle.{Inv, tick-Inv}
use zeptobeam.AgentRt.Supervision.{Supervisor, handle_child_exit}
use zeptobeam.AgentRt.Supervision.Keeps.{handle_child_exit-Kept}

module _ {E : Env} where
  -- The handlers that run within a handler: none, since the scheduler has taken them out.
  abbrev pub no_handler : E.Handler → AgentScheduler E → ℕ → Reason → E.Handler × AgentScheduler E
  no_handler h s pid reason = (h, s)

  -- `terminate_process` as a supervisor calls it.
  abbrev pub kill : ℕ → ℕ → AgentScheduler E → ℕ → Reason → Option (AgentScheduler E)
  kill now depth = terminate_process no_handler now depth

  kill-Inv :
      (now depth : ℕ) (s t : AgentScheduler E) (pid : ℕ) (reason : Reason)
      → Inv s
      → kill now depth s pid reason ≡ some t
      → Inv t
  kill-Inv now depth s t pid reason h e =
      terminate_process-Holds no_handler now (Intact []) (Intact-Stable []) (λ _ _ _ _ i. i) depth s
        t pid reason e (bury-Holds (Intact []) [] s pid (Holds-cons (Intact []) [] s pid h))

  -- The closure that `start_linked` adds to the exit handlers.
  unfoldable pub supervise :
      ℕ
      → ℕ
      → Supervisor E.Behavior E.Value
      → AgentScheduler E
      → ℕ
      → Reason
      → Supervisor E.Behavior E.Value × AgentScheduler E
  supervise now depth sup s pid reason =
      elim (handle_child_exit (kill now depth) now sup s pid reason) [
        | none ↦ (sup, s)
        | some r ↦ r
      ]

  supervise-Inv :
      (now depth : ℕ) (sup : Supervisor E.Behavior E.Value) (s : AgentScheduler E) (pid : ℕ)
      (reason : Reason)
      → Inv s
      → Inv (supervise now depth sup s pid reason).1
  unfolding supervise
  supervise-Inv now depth sup s pid reason h =
      let k = handle_child_exit-Kept (kill now depth) (kill-Inv now depth) now sup s pid reason h in
      elim (Option-cases (handle_child_exit (kill now depth) now sup s pid reason)) [
        | inl e ↦ rw (e, supervise) h
        | inr (r, e) ↦ rw (e, supervise) (rw e at k)
      ]

-- The environment whose exit handlers are supervisors.
abbrev pub supervised : Env → Env
supervised E = record E { Handler = Supervisor E.Behavior E.Value }

-- With supervisors for exit handlers, a scheduling cycle that returns keeps the invariant: every
-- runnable process, a restarted child included, stands in a run queue, and every registered process
-- has a state, a mailbox within its capacity and its own pid for a key.
pub tick-Inv_supervised :
    (E : Env) (now depth : ℕ) (s t : AgentScheduler (supervised E)) (worked : Bool)
    → Inv s
    → tick (supervise {E = supervised E} now depth) now depth s ≡ some (t, worked)
    → Inv t
tick-Inv_supervised E now depth s t worked =
    tick-Inv (supervise {E = supervised E} now depth) now depth
      (supervise-Inv {E = supervised E} now depth) s t worked
