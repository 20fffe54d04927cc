-- ===== src/AgentRt/Scheduler/Cycle.antt =====
-- agent_rt/scheduler.rs: the scheduling cycle `tick` and the invariant on its states.
use mathlib.Core.Option.{some-injective}
use zeptobeam.Base.{
  ℕ, ◌+◌, ◌≡◌, refl, sym, ◌∙◌, List, [], ◌∷◌, Bool, true, false, ◌⊎◌, inl, inr, Option, none, some,
  arith, Option-cases, subst, keep,
}
use zeptobeam.HashMap
use zeptobeam.AgentRt.Types.{Env, Reason, Message, system, receive_timeout}
use zeptobeam.AgentRt.Process.{AgentProcess, is_runnable, waiting}
use zeptobeam.AgentRt.Registry
use zeptobeam.AgentRt.Scheduler.State.{AgentScheduler, lookup, new}
use zeptobeam.AgentRt.Scheduler.Terminate.{bury}
use zeptobeam.AgentRt.Scheduler.Dispatch.{
  Turn, Ending, waits, preempted, left, stopped, set_status, dispatch, start_turn,
}
use zeptobeam.AgentRt.Scheduler.Tick.{
  deliver_responses, drain_bridge, retry_pending, clear_timeout, fire_timeouts, check_timeouts,
  prepare, pick, queued_total, settle, after_turn, stop_if, run_turn, tick, is_timed_out,
}
use zeptobeam.AgentRt.Scheduler.Queues.{is_queued, lookup-bury}
use zeptobeam.AgentRt.Scheduler.Sending.{Same}
use zeptobeam.AgentRt.Scheduler.Holds.{
  Holds, modify-Holds, modify-Holds_listed, modify-Holds-Parks, bury-Holds, enqueue-Holds,
  send-Holds, Same-Holds,
}
use zeptobeam.AgentRt.Scheduler.Death.{terminate_process-Holds}
use zeptobeam.AgentRt.Scheduler.Actions.{Intact, Intact-Stable, Intact-delivered, After}
use zeptobeam.AgentRt.Scheduler.Turn.{dispatch-After}
use zeptobeam.AgentRt.Scheduler.Reductions.{dispatch-start_turn_total}
use zeptobeam.AgentRt.Scheduler.Spawning.{send_all-Holds, spawn_all-Holds}
use zeptobeam.AgentRt.Scheduler.Pick.{Picked, pick-Picked}

-- Between two cycles: every runnable process stands in a run queue, and every process has a state,
-- a mailbox within its capacity and its own pid for a key.
abbrev pub Inv : {E : Env} → AgentScheduler E → Type 0
Inv s = Holds (Intact []) [] s

module _ {E : Env} (now : ℕ) where
  bridge-Same : (s : AgentScheduler E) (b : E.Bridge) → Same s (record s { bridge = some b })
  unfolding lookup is_queued
  bridge-Same s b = record { processes = λ q. refl; queues = λ q. refl }

  deliver_responses-Inv :
      (s : AgentScheduler E) (v : E.Bridge × List (ℕ × Message E.Value))
      → Inv s
      → Inv (deliver_responses now s v)
  unfolding deliver_responses
  deliver_responses-Inv s (b, responses) h =
      send_all-Holds [] now [] responses _ (Same-Holds (Intact []) [] s (bridge-Same s b) h)

  drain_bridge-some :
      (s : AgentScheduler E) (b : E.Bridge)
      → s.bridge ≡ some b
      → drain_bridge now s ≡ deliver_responses now s (E.drain_responses b)
  unfolding drain_bridge
  drain_bridge-some s b e = ground arith

  drain_bridge-none : (s : AgentScheduler E) → s.bridge ≡ none → drain_bridge now s ≡ s
  unfolding drain_bridge
  drain_bridge-none s e = ground arith

  drain_bridge-Inv : (s : AgentScheduler E) → Inv s → Inv (drain_bridge now s)
  drain_bridge-Inv s h = elim (Option-cases s.bridge) [
    | inl e ↦ rw (drain_bridge-none s e) h
    | inr (b, e) ↦ rw (drain_bridge-some s b e) (deliver_responses-Inv s (E.drain_responses b) h)
  ]

  retry_pending-Same : (s : AgentScheduler E) → Same s (retry_pending s)
  unfolding retry_pending lookup is_queued
  retry_pending-Same s = record { processes = λ q. ground arith; queues = λ q. ground arith }

  fire_timeouts-Inv :
      (pids : List ℕ) (s : AgentScheduler E) → Inv s → Inv (fire_timeouts now pids s)
  unfolding fire_timeouts clear_timeout
  fire_timeouts-Inv [] s h = h
  fire_timeouts-Inv (pid ∷ pids) s h = fire_timeouts-Inv pids _ (
      send-Holds (Intact []) (Intact-delivered []) now _ [] pid (system receive_timeout)
        (modify-Holds (Intact []) [] s pid clear_timeout (λ p r. r) (λ p _ i. ground arith) h))

  pub prepare-Inv : (s : AgentScheduler E) → Inv s → Inv (prepare now s)
  unfolding prepare check_timeouts
  prepare-Inv s h =
      let drained = drain_bridge now s in
      let retried = retry_pending drained in
      fire_timeouts-Inv (keep (is_timed_out now retried) (Registry.pids retried.registry)) retried
        (Same-Holds (Intact []) [] drained (retry_pending-Same drained) (drain_bridge-Inv s h))

  start_turn-Holds :
      (s : AgentScheduler E) (pid : ℕ)
      → Holds (Intact []) (pid ∷ []) s
      → Holds (Intact []) (pid ∷ []) (start_turn s pid).sched
  unfolding start_turn
  start_turn-Holds s pid = modify-Holds_listed (Intact []) [] s pid _ (λ p _ i. ground arith)

  -- What holds once the sends and the spawns of the turn are done.
  abbrev Settled : ℕ → Ending → AgentScheduler E → Type 0
  Settled pid (stopped reason) s = Holds (Intact (pid ∷ [])) (pid ∷ []) s
  Settled pid waits s = Inv s
  Settled pid preempted s = Inv s
  Settled pid left s = Inv s

  settle-Settled :
      (pid : ℕ) (ending : Ending) (s : AgentScheduler E)
      → After pid ending s
      → Settled pid ending (settle s pid ending)
  unfolding settle set_status
  settle-Settled pid waits s h =
      modify-Holds-Parks (Intact []) [] s pid (set_status waiting) (λ p. refl)
        (λ p _ i. ground arith) h
  settle-Settled pid preempted s h = enqueue-Holds (Intact []) [] s pid h
  settle-Settled pid left s h = h
  settle-Settled pid (stopped reason) s h = h

  after_turn-Settled :
      (pid : ℕ) (t : Turn E) (ending : Ending)
      → After pid ending t.sched
      → Settled pid ending (after_turn now pid t ending)
  unfolding after_turn
  after_turn-Settled pid t waits h =
      spawn_all-Holds [] now pid [] t.spawns _
        (send_all-Holds [] now [] t.sends _ (settle-Settled pid waits t.sched h))
  after_turn-Settled pid t preempted h =
      spawn_all-Holds [] now pid [] t.spawns _
        (send_all-Holds [] now [] t.sends _ (settle-Settled pid preempted t.sched h))
  after_turn-Settled pid t left h =
      spawn_all-Holds [] now pid [] t.spawns _
        (send_all-Holds [] now [] t.sends _ (settle-Settled pid left t.sched h))
  after_turn-Settled pid t (stopped reason) h =
      spawn_all-Holds (pid ∷ []) now pid (pid ∷ []) t.spawns _ (
        send_all-Holds (pid ∷ []) now (pid ∷ []) t.sends _
          (settle-Settled pid (stopped reason) t.sched h))

-- A process that panicked is the one that is buried.
buried-Inv :
    {E : Env} (pid : ℕ) (s : AgentScheduler E)
    → Holds (Intact (pid ∷ [])) (pid ∷ []) s
    → Holds (Intact []) [] (bury s pid)
buried-Inv pid s h =
    let b = bury-Holds (Intact (pid ∷ [])) [] s pid h in
    record {
      covered = b.covered;
      everyone = λ q p e.
          let i = b.everyone q p e in
          record {
            has_state = ground (arith, lookup-bury s pid q, i.has_state);
            within = i.within;
            keyed = i.keyed;
          };
    }

-- The turn of a process, once its dispatch loop has ended.
pub run_turn-ended :
    {E : Env} (handle : E.Handler → AgentScheduler E → ℕ → Reason → E.Handler × AgentScheduler E)
    (now depth : ℕ) (s : AgentScheduler E) (pid : ℕ) (u : Turn E) (ending : Ending)
    → dispatch 201 (start_turn s pid) pid ≡ some (u, ending)
    → run_turn handle now depth s pid
      ≡ stop_if handle now depth (after_turn now pid u ending) pid ending
unfolding run_turn
run_turn-ended handle now depth s pid u ending e = rw (e, run_turn)

module _ {E : Env}
    (handle : E.Handler → AgentScheduler E → ℕ → Reason → E.Handler × AgentScheduler E)
    (now depth : ℕ)
    (keeps : (h : E.Handler) (s : AgentScheduler E) (pid : ℕ) (reason : Reason)
      → Inv s
      → Inv (handle h s pid reason).1) where
  stop_if-Inv :
      (s t : AgentScheduler E) (pid : ℕ) (ending : Ending)
      → Settled now pid ending s
      → stop_if handle now depth s pid ending ≡ some t
      → Inv t
  unfolding stop_if
  stop_if-Inv s t pid (stopped reason) h e =
      terminate_process-Holds handle now (Intact []) (Intact-Stable []) keeps depth s t pid reason e
        (buried-Inv pid s h)
  stop_if-Inv s t pid waits h e = subst Inv (some-injective _ _ e) h
  stop_if-Inv s t pid preempted h e = subst Inv (some-injective _ _ e) h
  stop_if-Inv s t pid left h e = subst Inv (some-injective _ _ e) h

  run_turn-Inv :
      (s t : AgentScheduler E) (pid : ℕ)
      → Holds (Intact []) (pid ∷ []) s
      → run_turn handle now depth s pid ≡ some t
      → Inv t
  run_turn-Inv s t pid h e =
      let ((u, ending), done) = dispatch-start_turn_total pid s in
      let after =
        dispatch-After pid 201 (start_turn s pid) u ending (start_turn-Holds now s pid h) done in
      stop_if-Inv (after_turn now pid u ending) t pid ending
        (after_turn-Settled now pid u ending after)
        (sym (run_turn-ended handle now depth s pid u ending done) ∙ e)

  tick-idle :
      (s s' : AgentScheduler E)
      → pick (queued_total (prepare now s) + 1) (prepare now s) ≡ some (s', none)
      → tick handle now depth s ≡ some (s', false)
  unfolding tick
  tick-idle s s' e = rw (e, tick)

  tick-busy :
      (s s' : AgentScheduler E) (pid : ℕ)
      → pick (queued_total (prepare now s) + 1) (prepare now s) ≡ some (s', some pid)
      → (tick handle now depth s ≡ none)
        ⊎ ((t : AgentScheduler E) × (run_turn handle now depth s' pid ≡ some t)
            × (tick handle now depth s ≡ some (t, true)))
  unfolding tick
  tick-busy s s' pid e = elim (Option-cases (run_turn handle now depth s' pid)) [
    | inl r ↦ inl (rw (e, tick) (rw r))
    | inr (t, r) ↦ inr (t, r, rw (e, tick) (rw r))
  ]

  -- What a tick that ends leaves: the invariant, and if it found no work, no runnable process.
  abbrev Done : AgentScheduler E × Bool → Type 0
  Done (t, true) = Inv t
  Done (t, false) =
      Inv t × ((q : ℕ) (p : AgentProcess E) → lookup t q ≡ some p → is_runnable p.status ≡ false)

  tick-Picked :
      (s : AgentScheduler E) (r : AgentScheduler E × Bool) (picked : AgentScheduler E × Option ℕ)
      → pick (queued_total (prepare now s) + 1) (prepare now s) ≡ some picked
      → Picked (Intact []) picked
      → tick handle now depth s ≡ some r
      → Done r
  tick-Picked s r (s', none) e p t = subst Done (some-injective _ _ (sym (tick-idle s s' e) ∙ t)) p
  tick-Picked s r (s', some pid) e p t = elim (tick-busy s s' pid e) [
    | inl out ↦ absurd (cc (sym out ∙ t))
    | inr (u, run, done) ↦
        subst Done (some-injective _ _ (sym done ∙ t)) (run_turn-Inv s' u pid p.0 run)
  ]

  tick-Done :
      (s : AgentScheduler E) (r : AgentScheduler E × Bool)
      → Inv s
      → tick handle now depth s ≡ some r
      → Done r
  tick-Done s r h e =
      let ready = prepare now s in
      let (picked, done, p) =
        pick-Picked (Intact []) (queued_total ready + 1) ready (omega arith)
          (prepare-Inv now s h) in
      tick-Picked s r picked done p e

  -- A cycle that returns keeps the invariant that every runnable process stands in a run queue and
  -- every registered process has a state, a mailbox within its capacity and its own pid for a key,
  -- whatever the behaviors, the bridge and the message hook answer, if the exit handlers keep it.
  pub tick-Inv :
      (s t : AgentScheduler E) (worked : Bool)
      → Inv s
      → tick handle now depth s ≡ some (t, worked)
      → Inv t
  tick-Inv s t true h e = tick-Done s (t, true) h e
  tick-Inv s t false h e = (tick-Done s (t, false) h e).0

  -- A cycle that starts with the invariant returns false only when no registered process is runnable
  -- afterwards, if the exit handlers keep the invariant.
  pub tick-false_idle :
      (s t : AgentScheduler E)
      → Inv s
      → tick handle now depth s ≡ some (t, false)
      → (q : ℕ) (p : AgentProcess E) → lookup t q ≡ some p
      → is_runnable p.status ≡ false
  tick-false_idle s t h e = (tick-Done s (t, false) h e).1

-- A new scheduler satisfies the invariant.
pub new-Inv : {E : Env} (next_pid next_ref : ℕ) → Inv (new {E = E} next_pid next_ref)
unfolding new lookup Registry.new Registry.lookup HashMap.get
new-Inv next_pid next_ref = record {
  covered = λ q p e. absurd (cc e);
  everyone = λ q p e. absurd (cc e);
}
