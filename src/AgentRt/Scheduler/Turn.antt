-- ===== src/AgentRt/Scheduler/Turn.antt =====
-- agent_rt/scheduler.rs: the invariant through the dispatch loop of a turn.
use mathlib.Core.Option.{some-injective}
use zeptobeam.Base.{
  ℕ, zero, suc, ◌<◌, ◌≡◌, ◌∙◌, [], ◌∷◌, true, ◌⊎◌, inl, inr, none, some, arith, nat_eq,
  Option-cases, is_some, subst, sym, nat_beq_iff,
}
use zeptobeam.AgentRt.Types.{Env, Message}
use zeptobeam.AgentRt.Process.{AgentProcess, next_message}
use zeptobeam.AgentRt.Scheduler.State.{AgentScheduler, lookup, modify}
use zeptobeam.AgentRt.Scheduler.Dispatch.{
  Turn, Ending, Progress, over, again, waits, preempted, left, charge, call_behavior,
  after_callback, record_message_processed, dispatch_message, dispatch_step, dispatch,
}
use zeptobeam.AgentRt.Scheduler.Holds.{Holds, modify-Holds_listed, Same-Holds}
use zeptobeam.AgentRt.Scheduler.Actions.{
  processed-Same, Intact, Intact-next_message, After, Kept, Progress-cases, charge-Holds,
  after_callback-Kept,
}

module _ {E : Env} (pid : ℕ) where
  pub dispatch_message-some :
      (t : Turn E) (p : AgentProcess E) (msg : Message E.Value) (st : E.State)
      → p.state ≡ some st
      → dispatch_message t pid p msg
        ≡ after_callback
            (record t { sched = modify (record_message_processed t.sched) pid (charge 1) })
            pid
            (call_behavior E p.behavior msg st)
  unfolding dispatch_message
  dispatch_message-some t p msg st e = ground arith

  pub dispatch_message-none :
      (t : Turn E) (p : AgentProcess E) (msg : Message E.Value)
      → p.state ≡ none
      → dispatch_message t pid p msg
        ≡ over (record t { sched = modify (record_message_processed t.sched) pid (charge 1) }) left
  unfolding dispatch_message
  dispatch_message-none t p msg e = ground arith

  dispatch_message-Kept :
      (t : Turn E) (p : AgentProcess E) (msg : Message E.Value)
      → is_some p.state ≡ true
      → Holds (Intact []) (pid ∷ []) t.sched
      → Kept pid (dispatch_message t pid p msg)
  dispatch_message-Kept t p msg alive h = elim (Option-cases p.state) [
    | inl gone ↦ absurd (ground arith)
    | inr (st, e) ↦ rw (dispatch_message-some t p msg st e) (
        after_callback-Kept pid _ (call_behavior E p.behavior msg st) (
          charge-Holds pid 1 _
            (Same-Holds (Intact []) (pid ∷ []) t.sched (processed-Same pid t.sched) h)))
  ]

  -- The round of a process that has reductions left.
  unfoldable pub take_message : Turn E → AgentProcess E → Progress E
  take_message t p = elim (next_message p).1 [
    | none ↦ over (taken t) waits
    | some msg ↦ dispatch_message (taken t) pid p msg
  ]
    where
      taken : Turn E → Turn E
      taken t = record t { sched = modify t.sched pid (λ q. (next_message q).0) }

  pub dispatch_step-gone :
      (t : Turn E) → lookup t.sched pid ≡ none → dispatch_step t pid ≡ over t left
  unfolding dispatch_step
  dispatch_step-gone t e = ground arith

  pub dispatch_step-cases :
      (t : Turn E) (p : AgentProcess E)
      → lookup t.sched pid ≡ some p
      → (dispatch_step t pid ≡ over t preempted)
        ⊎ ((0 < p.reductions) × (dispatch_step t pid ≡ take_message t p))
  unfolding dispatch_step take_message
  dispatch_step-cases t p e = ground arith

  no_process-Holds :
      (s : AgentScheduler E)
      → lookup s pid ≡ none
      → Holds (Intact []) (pid ∷ []) s
      → Holds (Intact []) [] s
  no_process-Holds s gone h = record {
    covered = λ q p e r. ground (arith, h.covered q p e r, nat_beq_iff pid q);
    everyone = h.everyone;
  }

  take_message-Kept :
      (t : Turn E) (p : AgentProcess E)
      → is_some p.state ≡ true
      → Holds (Intact []) (pid ∷ []) t.sched
      → Kept pid (take_message t p)
  unfolding take_message
  take_message-Kept t p alive h = elim (Option-cases (next_message p).1) [
    | inl e ↦ rw (e, take_message) taken
    | inr (msg, e) ↦ rw (e, take_message) (dispatch_message-Kept _ p msg alive taken)
  ]
    where
      taken : Holds (Intact []) (pid ∷ []) (modify t.sched pid (λ q. (next_message q).0))
      taken =
          modify-Holds_listed (Intact []) [] t.sched pid _
            (λ p' _ i. Intact-next_message [] pid p' i) h

  dispatch_step-Kept :
      (t : Turn E) → Holds (Intact []) (pid ∷ []) t.sched → Kept pid (dispatch_step t pid)
  dispatch_step-Kept t h = elim (Option-cases (lookup t.sched pid)) [
    | inl gone ↦ rw (dispatch_step-gone t gone) (no_process-Holds t.sched gone h)
    | inr (p, here) ↦ elim (dispatch_step-cases t p here) [
      | inl e ↦ rw e h
      | inr (_, e) ↦ rw e (take_message-Kept t p (h.everyone pid p here).has_state h)
    ]
  ]

  pub dispatch-over :
      (fuel : ℕ) (t u : Turn E) (ending : Ending)
      → dispatch_step t pid ≡ over u ending
      → dispatch (suc fuel) t pid ≡ some (u, ending)
  unfolding dispatch
  dispatch-over fuel t u ending e = rw (e, dispatch)

  pub dispatch-again :
      (fuel : ℕ) (t u : Turn E)
      → dispatch_step t pid ≡ again u
      → dispatch (suc fuel) t pid ≡ dispatch fuel u pid
  unfolding dispatch
  dispatch-again fuel t u e = rw (e, dispatch)

  -- A turn that ends leaves the invariant, but for what its ending is to do.
  pub dispatch-After :
      (fuel : ℕ) (t u : Turn E) (ending : Ending)
      → Holds (Intact []) (pid ∷ []) t.sched
      → dispatch fuel t pid ≡ some (u, ending)
      → After pid ending u.sched
  dispatch-After zero t u ending h e = absurd (unfold dispatch in cc e)
  dispatch-After (suc fuel) t u ending h e = elim (Progress-cases (dispatch_step t pid)) [
    | inl (v, end, k) ↦
        let done = some-injective _ _ (sym (dispatch-over fuel t v end k) ∙ e) in
        subst (λ (r : Turn E × Ending). After pid r.1 r.0.sched) done
          (subst (Kept pid) k (dispatch_step-Kept t h))
    | inr (v, k) ↦
        dispatch-After fuel v u ending (subst (Kept pid) k (dispatch_step-Kept t h))
          (sym (dispatch-again fuel t v k) ∙ e)
  ]
