-- ===== src/AgentRt/Scheduler/Actions.antt =====
-- agent_rt/scheduler.rs: the invariant through the actions that a behavior answers with.
use zeptobeam.Base.{
  ℕ, ◌≤◌, ◌≡◌, refl, List, [], ◌∷◌, true, ◌||◌, ◌⊎◌, inl, inr, Option, none, some, arith, nat_eq,
  Option-cases, is_some, length, length-append, String,
}
use zeptobeam.AgentRt.Types.{
  Env, Message, Action, Outcome, IoOp, text, continue, send_to, io_request, spawn, stop, returned,
  panicked,
}
use zeptobeam.AgentRt.Process.{AgentProcess, deliver_message, next_message}
use zeptobeam.AgentRt.Scheduler.State.{AgentScheduler, lookup, modify}
use zeptobeam.AgentRt.Scheduler.Monitors.{drop_monitor, drop_monitored_by}
use zeptobeam.AgentRt.Scheduler.Dispatch.{
  Turn, Ending, Progress, over, again, waits, preempted, left, stopped, charge, put_state,
  set_status, charge_and_wait, io_failed, submit_verdict, request_io, handle_action, after_callback,
  record_message_processed,
}
use zeptobeam.AgentRt.Scheduler.Queues.{has, is_queued}
use zeptobeam.AgentRt.Scheduler.Sending.{Same, delivered}
use zeptobeam.AgentRt.Scheduler.Holds.{
  Holds, modify-Holds_listed, modify-Holds-Parks, enqueue-Holds, Same-Holds, Holds-cons,
}
use zeptobeam.AgentRt.Scheduler.Death.{Stable}

-- A registered process stands under its own pid, its mailbox is within its capacity, and unless its
-- pid is in `ex` (its behavior has panicked) it has a state.
pub record Intact {E : Env} (ex : List ℕ) (q : ℕ) (p : AgentProcess E) : Type 0 where
  pub has_state : (has ex q || is_some p.state) ≡ true
  pub within : length p.mailbox ≤ p.mailbox_capacity
  pub keyed : p.pid ≡ q

module _ {E : Env} (ex : List ℕ) where
  pub Intact-delivered :
      (q : ℕ) (p : AgentProcess E) (msg : Message E.Value)
      → Intact ex q p
      → Intact ex q (delivered msg p)
  unfolding deliver_message
  Intact-delivered q p msg h = ground (arith, length-append p.mailbox (msg ∷ []))

  pub Intact-Stable : Stable (Intact {E = E} ex)
  unfolding drop_monitor drop_monitored_by
  Intact-Stable = record {
    welcomes = Intact-delivered;
    monitor_dropped = λ q ref pid p h. ground arith;
    watcher_dropped = λ q ref pid p h. ground arith;
  }

  pub Intact-next_message :
      (q : ℕ) (p : AgentProcess E) → Intact ex q p → Intact ex q (next_message p).0
  unfolding next_message
  Intact-next_message q p h = ground arith

-- What holds when the dispatch loop ends.
abbrev pub After : {E : Env} → ℕ → Ending → AgentScheduler E → Type 0
After pid waits s = Holds (Intact []) (pid ∷ []) s
After pid preempted s = Holds (Intact []) (pid ∷ []) s
After pid left s = Holds (Intact []) [] s
After pid (stopped reason) s = Holds (Intact (pid ∷ [])) (pid ∷ []) s

-- What holds between two rounds, or at the end.
abbrev pub Kept : {E : Env} → ℕ → Progress E → Type 0
Kept pid (over t ending) = After pid ending t.sched
Kept pid (again t) = Holds (Intact []) (pid ∷ []) t.sched

pub Progress-cases :
    {E : Env} (r : Progress E)
    → ((t : Turn E) × (ending : Ending) × (r ≡ over t ending)) ⊎ ((t : Turn E) × (r ≡ again t))
Progress-cases (over t ending) = inl (t, ending, refl)
Progress-cases (again t) = inr (t, refl)

module _ {E : Env} (pid : ℕ) where
  pub Intact-weaken :
      (s : AgentScheduler E) (xs : List ℕ) → Holds (Intact []) xs s → Holds (Intact (pid ∷ [])) xs s
  Intact-weaken s xs h = record {
    covered = h.covered;
    everyone = λ q p e.
        let i = h.everyone q p e in
        record { has_state = ground arith; within = i.within; keyed = i.keyed };
  }

  pub charge-Holds :
      (n : ℕ) (s : AgentScheduler E)
      → Holds (Intact []) (pid ∷ []) s
      → Holds (Intact []) (pid ∷ []) (modify s pid (charge n))
  unfolding charge
  charge-Holds n s = modify-Holds_listed (Intact []) [] s pid (charge n) (λ p _ i. ground arith)

  pub io_failed-Holds :
      (s : AgentScheduler E) (e : String)
      → Holds (Intact []) (pid ∷ []) s
      → Holds (Intact []) [] (io_failed s pid e)
  unfolding io_failed set_status
  io_failed-Holds s e h = enqueue-Holds (Intact []) [] _ pid (
      modify-Holds_listed (Intact []) [] s pid _
        (λ p _ i.
          let d = Intact-delivered [] pid p (text e) i in
          record { has_state = d.has_state; within = d.within; keyed = d.keyed })
        h)

  bridge-Same : (s : AgentScheduler E) (b : E.Bridge) → Same s (record s { bridge = some b })
  unfolding lookup is_queued
  bridge-Same s b = record { processes = λ q. refl; queues = λ q. refl }

  submit_verdict-Holds :
      (s : AgentScheduler E) (v : E.Bridge × Option String)
      → Holds (Intact []) [] s
      → Holds (Intact []) [] (submit_verdict s pid v)
  unfolding submit_verdict
  submit_verdict-Holds s (b, none) h = Same-Holds (Intact []) [] s (bridge-Same s b) h
  submit_verdict-Holds s (b, some e) h =
      io_failed-Holds (record s { bridge = some b }) e
        (Holds-cons (Intact []) [] _ pid (Same-Holds (Intact []) [] s (bridge-Same s b) h))

  charged-Holds :
      (s : AgentScheduler E)
      → Holds (Intact []) (pid ∷ []) s
      → Holds (Intact []) [] (modify s pid charge_and_wait)
  unfolding charge_and_wait
  charged-Holds s =
      modify-Holds-Parks (Intact []) [] s pid charge_and_wait (λ p. refl) (λ p _ i. ground arith)

  request_io-none :
      (s : AgentScheduler E) (op : IoOp E.Value)
      → (modify s pid charge_and_wait).bridge ≡ none
      → request_io s pid op
        ≡ io_failed (modify s pid charge_and_wait) pid "no I/O bridge configured"
  unfolding request_io
  request_io-none s op e = ground arith

  request_io-some :
      (s : AgentScheduler E) (op : IoOp E.Value) (b : E.Bridge)
      → (modify s pid charge_and_wait).bridge ≡ some b
      → request_io s pid op ≡ submit_verdict (modify s pid charge_and_wait) pid (E.submit b pid op)
  unfolding request_io
  request_io-some s op b e = ground arith

  -- After an I/O request the process waits, or it has the error and its turn.
  request_io-Holds :
      (s : AgentScheduler E) (op : IoOp E.Value)
      → Holds (Intact []) (pid ∷ []) s
      → Holds (Intact []) [] (request_io s pid op)
  request_io-Holds s op h =
      let charged = modify s pid charge_and_wait in
      let held = charged-Holds s h in
      elim (Option-cases charged.bridge) [
        | inl e ↦
            rw (request_io-none s op e)
              (io_failed-Holds charged _ (Holds-cons (Intact []) [] charged pid held))
        | inr (b, e) ↦
            rw (request_io-some s op b e) (submit_verdict-Holds charged (E.submit b pid op) held)
      ]

  pub handle_action-Kept :
      (t : Turn E) (action : Action E.Value E.Behavior)
      → Holds (Intact []) (pid ∷ []) t.sched
      → Kept pid (handle_action t pid action)
  unfolding handle_action
  handle_action-Kept t continue h = h
  handle_action-Kept t (send_to to msg) h = charge-Holds 2 t.sched h
  handle_action-Kept t (io_request op) h = request_io-Holds t.sched op h
  handle_action-Kept t (spawn behavior args link monitor) h = charge-Holds 10 t.sched h
  handle_action-Kept t (stop reason) h = Intact-weaken t.sched (pid ∷ []) h

  pub put_state-Holds :
      (s : AgentScheduler E) (st : E.State)
      → Holds (Intact []) (pid ∷ []) s
      → Holds (Intact []) (pid ∷ []) (modify s pid (put_state (some st)))
  unfolding put_state
  put_state-Holds s st =
      modify-Holds_listed (Intact []) [] s pid (put_state (some st)) (λ p _ i. ground arith)

  pub panic-Holds :
      (s : AgentScheduler E)
      → Holds (Intact []) (pid ∷ []) s
      → Holds (Intact (pid ∷ [])) (pid ∷ []) (modify s pid (put_state none))
  unfolding put_state
  panic-Holds s h =
      modify-Holds_listed (Intact (pid ∷ [])) [] s pid (put_state none) (λ p _ i. ground arith)
        (Intact-weaken s (pid ∷ []) h)

  pub after_callback-Kept :
      (t : Turn E) (o : Outcome (Action E.Value E.Behavior) E.State)
      → Holds (Intact []) (pid ∷ []) t.sched
      → Kept pid (after_callback t pid o)
  unfolding after_callback
  after_callback-Kept t (returned action st) h =
      handle_action-Kept _ action (put_state-Holds t.sched st h)
  after_callback-Kept t (panicked e) h = panic-Holds t.sched h

  pub processed-Same : (s : AgentScheduler E) → Same s (record_message_processed s)
  unfolding record_message_processed lookup is_queued
  processed-Same s = record { processes = λ q. refl; queues = λ q. refl }
