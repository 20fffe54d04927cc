-- ===== src/AgentRt/Scheduler/State.antt =====
-- agent_rt/scheduler.rs: the scheduler's state, its run queues and message delivery.
use zeptobeam.Base.{
  ℕ, ◌+◌, List, [], ◌∷◌, ◌++◌, Bool, false, ◌||◌, Option, none, some, ltb, if◌then◌else◌, Result,
  ok, err, String, nat_eq, u64, is_empty, is_ok,
}
use zeptobeam.AgentRt.Types.{Env, Message}
use zeptobeam.AgentRt.Process.{
  AgentProcess, Priority, high, normal, low, deliver_message, is_waiting, pop_front,
}
use zeptobeam.AgentRt.Registry
use zeptobeam.AgentRt.Registry.{AgentRegistry}
use zeptobeam.AgentRt.DeadLetter
use zeptobeam.AgentRt.DeadLetter.{DeadLetterQueue}

abbrev pub default_reductions : ℕ
default_reductions = 200

abbrev pub normal_advantage : ℕ
normal_advantage = 8

-- The counters of `RuntimeMetrics` that the scheduler itself writes.
pub record Metrics : Type 0 where
  pub messages_sent : ℕ
  pub messages_processed : ℕ
  pub mailbox_rejections : ℕ
  pub process_terminations : ℕ

-- `next_monitor_ref` is the static counter of types.rs, which only `monitor` advances.
pub record AgentScheduler (E : Env) : Type 0 where
  pub registry : AgentRegistry E
  pub queue_high : List ℕ
  pub queue_normal : List ℕ
  pub queue_low : List ℕ
  pub allow_external_routing : Bool
  pub outbound_messages : List (ℕ × Message E.Value)
  pub advantage_count : ℕ
  pub bridge : Option E.Bridge
  pub pending_destroys : List (ℕ × ℕ)
  pub dead_letters : DeadLetterQueue
  pub metrics : Metrics
  pub exit_handlers : List E.Handler
  pub message_hook : Option E.Hook
  pub next_monitor_ref : ℕ

-- The strings that the source formats, by their kind.
pub data SendError : Type 0 where
  mailbox_full not_found : ℕ → SendError
  hook_rejected : String → SendError
  timeout_overflow : SendError

unfoldable pub new : {E : Env} → ℕ → ℕ → AgentScheduler E
new next_pid next_ref = record {
  registry = Registry.new next_pid;
  queue_high = [];
  queue_normal = [];
  queue_low = [];
  allow_external_routing = false;
  outbound_messages = [];
  advantage_count = 0;
  bridge = none;
  pending_destroys = [];
  dead_letters = DeadLetter.new 256;
  metrics = record {
    messages_sent = 0;
    messages_processed = 0;
    mailbox_rejections = 0;
    process_terminations = 0;
  };
  exit_handlers = [];
  message_hook = none;
  next_monitor_ref = next_ref;
}

-- `if let Some(p) = self.registry.lookup_mut(pid) { *p = f(p) }`.
unfoldable pub modify :
    {E : Env} → AgentScheduler E → ℕ → (AgentProcess E → AgentProcess E) → AgentScheduler E
modify s pid f = record s { registry = Registry.modify s.registry pid f }

unfoldable pub lookup : {E : Env} → AgentScheduler E → ℕ → Option (AgentProcess E)
lookup s pid = Registry.lookup s.registry pid

unfoldable pub push_back : {E : Env} → AgentScheduler E → ℕ → Priority → AgentScheduler E
push_back s pid high = record s { queue_high = s.queue_high ++ pid ∷ [] }
push_back s pid normal = record s { queue_normal = s.queue_normal ++ pid ∷ [] }
push_back s pid low = record s { queue_low = s.queue_low ++ pid ∷ [] }

unfoldable pub enqueue : {E : Env} → AgentScheduler E → ℕ → AgentScheduler E
unfolding push_back
enqueue s pid = elim (lookup s pid) [ none ↦ s | some p ↦ push_back s pid p.priority ]

-- The branches of `next_runnable` once the high queue is found empty.
unfoldable pub next_below_high : {E : Env} → AgentScheduler E → AgentScheduler E × Option ℕ
next_below_high s =
    if is_empty s.queue_normal
    then (record s { queue_low = (pop_front s.queue_low).1 }, (pop_front s.queue_low).0)
    else if ltb (s.advantage_count + 1) normal_advantage || is_empty s.queue_low
    then (
      record s {
        advantage_count = s.advantage_count + 1;
        queue_normal = (pop_front s.queue_normal).1;
      },
      (pop_front s.queue_normal).0,
    )
    else (
      record s { advantage_count = 0; queue_low = (pop_front s.queue_low).1 },
      (pop_front s.queue_low).0,
    )

-- `advantage_count` is a usize that the code lets grow while the low queue is empty.
unfoldable pub next_runnable : {E : Env} → AgentScheduler E → AgentScheduler E × Option ℕ
unfolding next_below_high
next_runnable s =
    if is_empty s.queue_high
    then next_below_high s
    else (record s { queue_high = (pop_front s.queue_high).1 }, (pop_front s.queue_high).0)

unfoldable pub record_message_sent : {E : Env} → AgentScheduler E → AgentScheduler E
record_message_sent s = record s {
  metrics = record m { messages_sent = u64 (m.messages_sent + 1) };
}
  where
    m : Metrics
    m = s.metrics

unfoldable pub dead_letter :
    {E : Env} → ℕ → AgentScheduler E → ℕ → DeadLetter.DeadLetterReason → AgentScheduler E
dead_letter now s to reason = record s {
  dead_letters =
      DeadLetter.push s.dead_letters
        (record { timestamp = now; sender_pid = none; target_pid = to; reason = reason });
}

unfoldable pub record_mailbox_rejection : {E : Env} → AgentScheduler E → AgentScheduler E
record_mailbox_rejection s = record s {
  metrics = record m { mailbox_rejections = u64 (m.mailbox_rejections + 1) };
}
  where
    m : Metrics
    m = s.metrics

hook_verdict :
    {E : Env}
    → AgentScheduler E
    → E.Hook × Option String
    → AgentScheduler E × Result (Unit {0}) SendError
hook_verdict s (hook, none) = (record s { message_hook = some hook }, ok tt)
hook_verdict s (hook, some e) = (record s { message_hook = some hook }, err (hook_rejected e))

-- The hook may veto the delivery.
unfoldable pub call_hook :
    {E : Env}
    → AgentScheduler E
    → ℕ
    → Message E.Value
    → AgentScheduler E × Result (Unit {0}) SendError
unfolding hook_verdict
call_hook {E} s to msg = elim s.message_hook [
  | none ↦ (s, ok tt)
  | some hook ↦ hook_verdict s (E.on_send hook to msg)
]

-- `send` to a process that is in the registry.
unfoldable pub send_local :
    {E : Env}
    → ℕ
    → AgentScheduler E
    → ℕ
    → AgentProcess E
    → Message E.Value
    → AgentScheduler E × Result (Unit {0}) SendError
unfolding record_message_sent record_mailbox_rejection dead_letter
send_local now s to p msg =
    let s' = modify s to (λ q. (deliver_message q msg).0) in
    if is_ok (deliver_message p msg).1
    then (
      let sent = record_message_sent s' in if is_waiting p.status then enqueue sent to else sent,
      ok tt,
    )
    else (
      dead_letter now (record_mailbox_rejection s') to DeadLetter.mailbox_full,
      err (mailbox_full to),
    )

-- `send` once the hook has agreed.
unfoldable pub deliver :
    {E : Env}
    → ℕ
    → AgentScheduler E
    → ℕ
    → Message E.Value
    → AgentScheduler E × Result (Unit {0}) SendError
unfolding send_local
deliver now s to msg = elim (lookup s to) [
  | some p ↦ send_local now s to p msg
  | none ↦
      if s.allow_external_routing
      then (record s { outbound_messages = s.outbound_messages ++ (to, msg) ∷ [] }, ok tt)
      else (dead_letter now s to DeadLetter.process_not_found, err (not_found to))
]

after_hook :
    {E : Env}
    → ℕ
    → ℕ
    → Message E.Value
    → AgentScheduler E × Result (Unit {0}) SendError
    → AgentScheduler E × Result (Unit {0}) SendError
unfolding deliver
after_hook now to msg (s, ok _) = deliver now s to msg
after_hook now to msg (s, err e) = (s, err e)

unfoldable pub send :
    {E : Env}
    → ℕ
    → AgentScheduler E
    → ℕ
    → Message E.Value
    → AgentScheduler E × Result (Unit {0}) SendError
unfolding call_hook after_hook
send now s to msg = after_hook now to msg (call_hook s to msg)
