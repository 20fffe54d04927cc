-- ===== src/AgentRt/Scheduler/Dispatch.antt =====
-- agent_rt/scheduler.rs, the dispatch loop of `tick`: one turn of a process, up to 200 reductions.
use Prim.Native.String.{◌++◌ as str_append}
use zeptobeam.Base.{
  ℕ, zero, suc, ◌+◌, ◌-◌, List, [], ◌∷◌, ◌++◌, Bool, Option, none, some, if◌then◌else◌, ◌==◌,
  nat_eq, u64, String,
}
use zeptobeam.AgentRt.Types.{
  Env, Reason, Message, IoOp, Action, Outcome, text, json, system, exit, custom, continue, send_to,
  io_request, spawn, stop, returned, panicked,
}
use zeptobeam.AgentRt.Process.{
  AgentProcess, ProcessStatus, runnable, waiting, deliver_message, next_message,
}
use zeptobeam.AgentRt.Scheduler.State.{
  AgentScheduler, Metrics, default_reductions, lookup, modify, enqueue,
}

-- `left` stands for the breaks that set none of the three flags.
pub data Ending : Type 0 where
  waits preempted left : Ending
  stopped : Reason → Ending

-- A requested spawn: behavior, arguments, link, monitor.
abbrev pub SpawnRequest : Env → Type 0
SpawnRequest E = E.Behavior × E.Value × Bool × Bool

pub record Turn (E : Env) : Type 0 where
  pub sched : AgentScheduler E
  pub sends : List (ℕ × Message E.Value)
  pub spawns : List (SpawnRequest E)

pub data Progress (E : Env) : Type 0 where
  over : Turn E → Ending → Progress E
  again : Turn E → Progress E

-- `reductions.saturating_sub(n)`.
unfoldable pub charge : {E : Env} → ℕ → AgentProcess E → AgentProcess E
charge n p = record p { reductions = p.reductions - n }

unfoldable pub put_state : {E : Env} → Option E.State → AgentProcess E → AgentProcess E
put_state st p = record p { state = st }

unfoldable pub set_status : {E : Env} → ProcessStatus → AgentProcess E → AgentProcess E
set_status status p = record p { status = status }

unfoldable pub charge_and_wait : {E : Env} → AgentProcess E → AgentProcess E
charge_and_wait p = record p { reductions = p.reductions - 1; status = waiting }

-- An I/O request that failed: the error comes as a message, and the process stays runnable.
unfoldable pub io_failed : {E : Env} → AgentScheduler E → ℕ → String → AgentScheduler E
unfolding set_status
io_failed s pid e =
    enqueue (modify s pid (λ p. set_status runnable (deliver_message p (text e)).0)) pid

unfoldable pub submit_verdict :
    {E : Env} → AgentScheduler E → ℕ → E.Bridge × Option String → AgentScheduler E
unfolding io_failed
submit_verdict s pid (b, none) = record s { bridge = some b }
submit_verdict s pid (b, some e) = io_failed (record s { bridge = some b }) pid e

unfoldable pub request_io : {E : Env} → AgentScheduler E → ℕ → IoOp E.Value → AgentScheduler E
unfolding submit_verdict io_failed charge_and_wait
request_io {E} s pid op =
    let charged = modify s pid charge_and_wait in
    elim charged.bridge [
      | none ↦ io_failed charged pid "no I/O bridge configured"
      | some b ↦ submit_verdict charged pid (E.submit b pid op)
    ]

unfoldable pub handle_action : {E : Env} → Turn E → ℕ → Action E.Value E.Behavior → Progress E
unfolding charge request_io
handle_action t pid continue = again t
handle_action t pid (send_to to msg) =
    again (record t { sched = modify t.sched pid (charge 2); sends = t.sends ++ (to, msg) ∷ [] })
handle_action t pid (stop reason) = over t (stopped reason)
handle_action t pid (io_request op) = over (record t { sched = request_io t.sched pid op }) left
handle_action t pid (spawn behavior args link monitor) = again (record t {
  sched = modify t.sched pid (charge 10);
  spawns = t.spawns ++ (behavior, args, link, monitor) ∷ [];
})

-- `handle_exit` for exit signals, `handle_message` for all else.
unfoldable pub call_behavior :
    (E : Env) → E.Behavior → Message E.Value → E.State → Outcome (Action E.Value E.Behavior) E.State
call_behavior E b (text t) st = E.handle_message b (text t) st
call_behavior E b (json v) st = E.handle_message b (json v) st
call_behavior E b (system m) st = elim m [
  | exit from reason ↦ E.handle_exit b from reason st
  | other ↦ E.handle_message b (system other) st
]

-- After the callback: the state goes back, or is dropped with a panic.
unfoldable pub after_callback :
    {E : Env} → Turn E → ℕ → Outcome (Action E.Value E.Behavior) E.State → Progress E
unfolding handle_action put_state
after_callback t pid (returned action st) =
    handle_action (record t { sched = modify t.sched pid (put_state (some st)) }) pid action
after_callback t pid (panicked e) =
    handle_action (record t { sched = modify t.sched pid (put_state none) }) pid
      (stop (custom (str_append "panic: " e)))

unfoldable pub record_message_processed : {E : Env} → AgentScheduler E → AgentScheduler E
record_message_processed s = record s {
  metrics = record m { messages_processed = u64 (m.messages_processed + 1) };
}
  where
    m : Metrics
    m = s.metrics

-- A message has been taken off the mailbox of `p`.
unfoldable pub dispatch_message :
    {E : Env} → Turn E → ℕ → AgentProcess E → Message E.Value → Progress E
unfolding call_behavior after_callback record_message_processed charge
dispatch_message {E} t pid p msg =
    let t' = record t { sched = modify (record_message_processed t.sched) pid (charge 1) } in
    elim p.state [
      | none ↦ over t' left
      | some st ↦ after_callback t' pid (call_behavior E p.behavior msg st)
    ]

-- One round of the dispatch loop.
unfoldable pub dispatch_step : {E : Env} → Turn E → ℕ → Progress E
unfolding dispatch_message
dispatch_step t pid = elim (lookup t.sched pid) [
  | none ↦ over t left
  | some p ↦
      if p.reductions == 0
      then over t preempted
      else let t' = record t { sched = modify t.sched pid (λ q. (next_message q).0) } in
        elim (next_message p).1 [ none ↦ over t' waits | some msg ↦ dispatch_message t' pid p msg ]
]

-- `none` when the fuel, which bounds the number of rounds, runs out.
unfoldable pub dispatch : {E : Env} → ℕ → Turn E → ℕ → Option (Turn E × Ending)
dispatch zero t pid = none
dispatch (suc fuel) t pid = elim (dispatch_step t pid) [
  | over t' ending ↦ some (t', ending)
  | again t' ↦ dispatch fuel t' pid
]

-- The turn of a process that was just selected.
unfoldable pub start_turn : {E : Env} → AgentScheduler E → ℕ → Turn E
start_turn s pid = record {
  sched = modify s pid (λ p. record p { reductions = default_reductions });
  sends = [];
  spawns = [];
}
