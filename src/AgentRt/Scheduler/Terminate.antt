-- ===== src/AgentRt/Scheduler/Terminate.antt =====
-- agent_rt/scheduler.rs: `terminate_process`, the death of a process, with its cascade.
use zeptobeam.Base.{
  ℕ, zero, suc, ◌+◌, List, [], ◌∷◌, ◌++◌, Bool, true, false, Option, none, some, if◌then◌else◌,
  nat_eq, u64, is_empty, String,
}
use zeptobeam.AgentRt.Types.{
  Env, Reason, normal, shutdown, custom, system, exit, down, agent_destroy,
}
use zeptobeam.AgentRt.Process.{AgentProcess, deliver_message, is_waiting}
use zeptobeam.AgentRt.Process
use zeptobeam.AgentRt.Registry
use zeptobeam.AgentRt.Scheduler.State.{AgentScheduler, Metrics, lookup, modify, enqueue, send}
use zeptobeam.AgentRt.Scheduler.Monitors.{drop_monitor, drop_monitored_by}

abbrev pub is_normal : Reason → Bool
is_normal normal = true
is_normal shutdown = false
is_normal (custom _) = false

-- The three lists that `terminate_process` copies before it removes the process.
pub record Relations : Type 0 where
  pub links : List ℕ
  pub monitored_by : List (ℕ × ℕ)
  pub monitors : List (ℕ × ℕ)

unfoldable pub relations : {E : Env} → AgentScheduler E → ℕ → Relations
relations s pid = elim (lookup s pid) [
  | none ↦ record { links = []; monitored_by = []; monitors = [] }
  | some p ↦ record { links = p.links; monitored_by = p.monitored_by; monitors = p.monitors }
]

unfoldable pub cancel_io : {E : Env} → AgentScheduler E → ℕ → AgentScheduler E
cancel_io {E} s pid = elim s.bridge [
  | none ↦ s
  | some b ↦ record s { bridge = some (E.cancel b pid) }
]

-- The callback, then the removal from the registry.
unfoldable pub bury : {E : Env} → AgentScheduler E → ℕ → AgentScheduler E
bury s pid = record s {
  registry = Registry.remove (Registry.modify s.registry pid Process.terminate) pid;
}

unfoldable pub forget_monitors : {E : Env} → ℕ → List (ℕ × ℕ) → AgentScheduler E → AgentScheduler E
forget_monitors pid [] s = s
forget_monitors pid ((ref, target) ∷ ms) s =
    forget_monitors pid ms (modify s target (drop_monitored_by ref pid))

-- The loop over the links, with what it collects.
pub record Notices (E : Env) : Type 0 where
  pub sched : AgentScheduler E
  pub cascade : List ℕ
  pub to_wake : List ℕ

unfoldable pub notify_link : {E : Env} → ℕ → Reason → ℕ → Notices E → Notices E
notify_link pid reason linked n = elim (lookup n.sched linked) [
  | none ↦ n
  | some p ↦
      if p.trap_exit
      then record n {
        sched = modify n.sched linked (λ q. (deliver_message q (system (exit pid reason))).0);
        to_wake = if is_waiting p.status then n.to_wake ++ linked ∷ [] else n.to_wake;
      }
      else if is_normal reason
      then n
      else record n { cascade = n.cascade ++ linked ∷ [] }
]

unfoldable pub notify_links : {E : Env} → ℕ → Reason → List ℕ → Notices E → Notices E
unfolding notify_link
notify_links pid reason [] n = n
notify_links pid reason (l ∷ ls) n = notify_links pid reason ls (notify_link pid reason l n)

unfoldable pub forget_watchers : {E : Env} → ℕ → List (ℕ × ℕ) → AgentScheduler E → AgentScheduler E
forget_watchers pid [] s = s
forget_watchers pid ((ref, watcher) ∷ ms) s =
    forget_watchers pid ms (modify s watcher (drop_monitor ref pid))

unfoldable pub enqueue_all : {E : Env} → List ℕ → AgentScheduler E → AgentScheduler E
enqueue_all [] s = s
enqueue_all (p ∷ ps) s = enqueue_all ps (enqueue s p)

unfoldable pub send_downs :
    {E : Env} → ℕ → ℕ → Reason → List (ℕ × ℕ) → AgentScheduler E → AgentScheduler E
send_downs now pid reason [] s = s
send_downs now pid reason ((ref, watcher) ∷ ms) s =
    send_downs now pid reason ms (send now s watcher (system (down ref pid reason))).0

-- Everything before the cascade, with the pids that are to die with this one.
unfoldable pub detach : {E : Env} → ℕ → AgentScheduler E → ℕ → Reason → AgentScheduler E × List ℕ
unfolding relations cancel_io bury forget_monitors notify_links forget_watchers enqueue_all
    send_downs
detach now s pid reason =
    let cancelled = cancel_io s pid in
    let rel = relations cancelled pid in
    let gone = forget_monitors pid rel.monitors (bury cancelled pid) in
    let n =
      notify_links pid reason rel.links (record { sched = gone; cascade = []; to_wake = [] }) in
    let unwatched = forget_watchers pid rel.monitored_by n.sched in
    (send_downs now pid reason rel.monitored_by (enqueue_all n.to_wake unwatched), n.cascade)

unfoldable pub record_process_termination : {E : Env} → AgentScheduler E → AgentScheduler E
record_process_termination s = record s {
  metrics = record m { process_terminations = u64 (m.process_terminations + 1) };
}
  where
    m : Metrics
    m = s.metrics

destroy_verdict : {E : Env} → AgentScheduler E → ℕ → E.Bridge × Option String → AgentScheduler E
destroy_verdict s pid (b, none) = record s { bridge = some b }
destroy_verdict s pid (b, some e) = record s {
  bridge = some b;
  pending_destroys = s.pending_destroys ++ (pid, 0) ∷ [];
}

unfoldable pub submit_destroy : {E : Env} → AgentScheduler E → ℕ → AgentScheduler E
unfolding destroy_verdict
submit_destroy {E} s pid = elim s.bridge [
  | none ↦ s
  | some b ↦ destroy_verdict s pid (E.submit b pid (agent_destroy pid))
]

-- `handle h s pid reason` is a call of the exit handler `h`: its new captured state, and what it
-- did to the scheduler.
module _ {E : Env}
    (handle : E.Handler → AgentScheduler E → ℕ → Reason → E.Handler × AgentScheduler E)
    (now : ℕ) where
  unfoldable pub run_handlers :
      ℕ → Reason → List E.Handler → AgentScheduler E → List E.Handler × AgentScheduler E
  run_handlers pid reason [] s = ([], s)
  run_handlers pid reason (h ∷ hs) s =
      let (h', s') = handle h s pid reason in
      let (hs', s'') = run_handlers pid reason hs s' in (h' ∷ hs', s'')

  -- The handlers are taken out of the scheduler while they run, and put back over what is there.
  unfoldable pub call_exit_handlers : AgentScheduler E → ℕ → Reason → AgentScheduler E
  unfolding run_handlers
  call_exit_handlers s pid reason =
      let (hs, s') = run_handlers pid reason s.exit_handlers (record s { exit_handlers = [] }) in
      if is_empty s.exit_handlers then s else record s' { exit_handlers = hs }

  unfoldable pub finish : AgentScheduler E → ℕ → Reason → AgentScheduler E
  unfolding call_exit_handlers record_process_termination submit_destroy
  finish s pid reason =
      submit_destroy (record_process_termination (call_exit_handlers s pid reason)) pid

  -- `kill` is `terminate_process` with the fuel that is left.
  unfoldable pub cascade_all :
      (AgentScheduler E → ℕ → Reason → Option (AgentScheduler E))
      → Reason
      → List ℕ
      → AgentScheduler E
      → Option (AgentScheduler E)
  cascade_all kill reason [] s = some s
  cascade_all kill reason (p ∷ ps) s = elim (kill s p reason) [
    | none ↦ none
    | some s' ↦ cascade_all kill reason ps s'
  ]

  -- `none` when the fuel, which bounds the depth of the cascade, runs out.
  unfoldable pub terminate_process : ℕ → AgentScheduler E → ℕ → Reason → Option (AgentScheduler E)
  unfolding detach cascade_all finish
  terminate_process zero s pid reason = none
  terminate_process (suc fuel) s pid reason =
      let (detached, doomed) = detach now s pid reason in
      elim (cascade_all (terminate_process fuel) reason doomed detached) [
        | none ↦ none
        | some s' ↦ some (finish s' pid reason)
      ]
