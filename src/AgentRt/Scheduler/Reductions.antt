-- ===== src/AgentRt/Scheduler/Reductions.antt =====
-- agent_rt/scheduler.rs: the reductions that a round of the dispatch loop uses up.
use zeptobeam.Base.{
  ℕ, zero, suc, ◌-◌, ◌≤◌, ◌<◌, ◌≡◌, refl, sym, ◌∙◌, inl, inr, none, some, arith, subst, nat_eq,
  Option-cases,
}
use zeptobeam.AgentRt.Types.{
  Env, Message, Action, Outcome, continue, send_to, io_request, spawn, stop, returned, panicked,
}
use zeptobeam.AgentRt.Process.{AgentProcess, next_message}
use zeptobeam.AgentRt.Scheduler.State.{AgentScheduler, lookup, modify}
use zeptobeam.AgentRt.Scheduler.Dispatch.{
  Turn, Ending, Progress, over, again, charge, put_state, handle_action, call_behavior,
  after_callback, record_message_processed, dispatch_message, dispatch_step, dispatch, start_turn,
}
use zeptobeam.AgentRt.Scheduler.Queues.{lookup-modify}
use zeptobeam.AgentRt.Scheduler.Actions.{Progress-cases}
use zeptobeam.AgentRt.Scheduler.Turn.{
  dispatch-over, dispatch-again, dispatch_message-none, dispatch_message-some, dispatch_step-gone,
  dispatch_step-cases, take_message,
}

-- The reductions that a process has left; none if it is gone.
reductions_left : {E : Env} → AgentScheduler E → ℕ → ℕ
reductions_left s pid = elim (lookup s pid) [ none ↦ 0 | some p ↦ p.reductions ]

module _ {E : Env} (pid : ℕ) where
  reductions_left-modify :
      (s : AgentScheduler E) (f : AgentProcess E → AgentProcess E)
      → ((p : AgentProcess E) → (f p).reductions ≤ p.reductions)
      → reductions_left (modify s pid f) pid ≤ reductions_left s pid
  unfolding reductions_left
  reductions_left-modify s f le = elim (Option-cases (lookup s pid)) [
    | inl e ↦ ground (arith, lookup-modify s pid f pid)
    | inr (p, e) ↦ ground (arith, lookup-modify s pid f pid, le p)
  ]

  reductions_left-charge :
      (s : AgentScheduler E) (p : AgentProcess E)
      → lookup s pid ≡ some p
      → reductions_left (modify s pid (charge 1)) pid ≡ p.reductions - 1
  unfolding reductions_left charge
  reductions_left-charge s p e = ground (arith, lookup-modify s pid (charge 1) pid)

  reductions_left-here :
      (s : AgentScheduler E) (p : AgentProcess E)
      → lookup s pid ≡ some p
      → reductions_left s pid ≡ p.reductions
  unfolding reductions_left
  reductions_left-here s p e = rw (e, reductions_left)

  -- What a round that goes on leaves.
  abbrev Within : ℕ → Progress E → Type 0
  Within n (over t ending) = Unit {0}
  Within n (again t) = reductions_left t.sched pid ≤ n

  handle_action-Within :
      (t : Turn E) (a : Action E.Value E.Behavior)
      → Within (reductions_left t.sched pid) (handle_action t pid a)
  unfolding handle_action charge
  handle_action-Within t continue = omega arith
  handle_action-Within t (send_to to msg) =
      reductions_left-modify t.sched (charge 2) (λ p. omega arith)
  handle_action-Within t (io_request op) = tt
  handle_action-Within t (spawn b v l m) =
      reductions_left-modify t.sched (charge 10) (λ p. omega arith)
  handle_action-Within t (stop reason) = tt

  Within-mono : {m n : ℕ} (r : Progress E) → m ≤ n → Within m r → Within n r
  Within-mono (over t ending) h w = tt
  Within-mono (again t) h w = omega arith

  after_callback-Within :
      (t : Turn E) (o : Outcome (Action E.Value E.Behavior) E.State)
      → Within (reductions_left t.sched pid) (after_callback t pid o)
  unfolding after_callback put_state
  after_callback-Within t (returned action st) =
      Within-mono _ (reductions_left-modify t.sched (put_state (some st)) (λ p. omega arith))
        (handle_action-Within _ action)
  after_callback-Within t (panicked e) = tt

  processed_lookup : (s : AgentScheduler E) → lookup (record_message_processed s) pid ≡ lookup s pid
  unfolding record_message_processed lookup
  processed_lookup s = refl

  dispatch_message-Within :
      (t : Turn E) (p q : AgentProcess E) (msg : Message E.Value)
      → lookup t.sched pid ≡ some q
      → Within (q.reductions - 1) (dispatch_message t pid p msg)
  dispatch_message-Within t p q msg here = elim (Option-cases p.state) [
    | inl e ↦ rw (dispatch_message-none pid t p msg e) tt
    | inr (st, e) ↦ rw (dispatch_message-some pid t p msg st e) (
        Within-mono _
          (omega (
            arith,
            reductions_left-charge (record_message_processed t.sched) q
                (processed_lookup t.sched ∙ here),
          ))
          (after_callback-Within _ (call_behavior E p.behavior msg st)))
  ]

  take_message-Within :
      (t : Turn E) (p : AgentProcess E)
      → lookup t.sched pid ≡ some p
      → Within (p.reductions - 1) (take_message pid t p)
  unfolding take_message next_message
  take_message-Within t p here = elim (Option-cases (next_message p).1) [
    | inl e ↦ rw (e, take_message) tt
    | inr (msg, e) ↦
        rw (e, take_message)
          (dispatch_message-Within _ p (next_message p).0 msg
            (ground (arith, lookup-modify t.sched pid (λ q. (next_message q).0) pid)))
  ]

  -- A round that goes on leaves fewer reductions.
  dispatch_step_less :
      (t u : Turn E)
      → dispatch_step t pid ≡ again u
      → reductions_left u.sched pid < reductions_left t.sched pid
  dispatch_step_less t u e = elim (Option-cases (lookup t.sched pid)) [
    | inl gone ↦ absurd (cc (sym (dispatch_step-gone pid t gone) ∙ e))
    | inr (p, here) ↦ elim (dispatch_step-cases pid t p here) [
      | inl k ↦ absurd (cc (sym k ∙ e))
      | inr (pos, k) ↦
          let w : Within (p.reductions - 1) (again u) =
            subst (Within (p.reductions - 1)) (sym k ∙ e) (take_message-Within t p here) in
          omega (arith, w, reductions_left-here t.sched p here)
    ]
  ]

  -- With more fuel than reductions the dispatch loop ends by one of its breaks.
  dispatch_total :
      (fuel : ℕ) (t : Turn E)
      → reductions_left t.sched pid < fuel
      → (r : Turn E × Ending) × (dispatch fuel t pid ≡ some r)
  dispatch_total zero t h = absurd (omega arith)
  dispatch_total (suc fuel) t h = elim (Progress-cases (dispatch_step t pid)) [
    | inl (u, ending, e) ↦ ((u, ending), dispatch-over pid fuel t u ending e)
    | inr (u, e) ↦
        let (r, done) = dispatch_total fuel u (omega (arith, dispatch_step_less t u e)) in
        (r, dispatch-again pid fuel t u e ∙ done)
  ]

  start_turn-reductions :
      (s : AgentScheduler E) → reductions_left (start_turn s pid).sched pid ≤ 200
  unfolding start_turn reductions_left
  start_turn-reductions s = elim (Option-cases (lookup s pid)) [
    | inl e ↦ ground (arith, lookup-modify s pid (λ p. record p { reductions = 200 }) pid)
    | inr (p, e) ↦ ground (arith, lookup-modify s pid (λ p. record p { reductions = 200 }) pid)
  ]

  -- The dispatch loop of a turn ends within 201 rounds, whatever the behaviors answer.
  pub dispatch-start_turn_total :
      (s : AgentScheduler E)
      → (r : Turn E × Ending) × (dispatch 201 (start_turn s pid) pid ≡ some r)
  dispatch-start_turn_total s =
      dispatch_total 201 (start_turn s pid) (omega (arith, start_turn-reductions s))
