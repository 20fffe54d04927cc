-- ===== src/AgentRt/Scheduler/Population.antt =====
-- agent_rt/scheduler.rs: the number of registered processes through `terminate_process`.
use zeptobeam.Base.{
  ℕ, ◌≤◌, ◌<◌, ◌≡◌, refl, ◌∙◌, List, [], ◌∷◌, inl, inr, none, some, arith, Option-cases, nat_eq,
}
use zeptobeam.HashMap
use zeptobeam.AgentRt.Types.{Env, Reason, Message, system, exit, down}
use zeptobeam.AgentRt.Process.{AgentProcess, deliver_message}
use zeptobeam.AgentRt.Process
use zeptobeam.AgentRt.Registry
use zeptobeam.AgentRt.Scheduler.State.{
  AgentScheduler, lookup, modify, enqueue, send, deliver, call_hook, send_local,
  record_message_sent, record_mailbox_rejection, dead_letter,
}
use zeptobeam.AgentRt.Scheduler.Sending.{send-cases}
use zeptobeam.AgentRt.Scheduler.Monitors.{drop_monitor, drop_monitored_by}
use zeptobeam.AgentRt.Scheduler.Terminate.{
  Notices, relations, cancel_io, bury, forget_monitors, notify_link, notify_links, forget_watchers,
  enqueue_all, send_downs, detach,
}

-- The number of processes in the registry.
unfoldable pub population : {E : Env} → AgentScheduler E → ℕ
population s = Registry.count s.registry

module _ {E : Env} (s : AgentScheduler E) where
  population-modify :
      (k : ℕ) (f : AgentProcess E → AgentProcess E) → population (modify s k f) ≡ population s
  unfolding population modify Registry.modify Registry.count
  population-modify k f = HashMap.length-modify s.registry.processes k f

  pub population-bury : (k : ℕ) → population (bury s k) ≤ population s
  unfolding population bury Registry.modify Registry.remove Registry.count
  population-bury k = omega (
    arith,
    HashMap.length-remove (HashMap.modify s.registry.processes k Process.terminate) k,
    HashMap.length-modify s.registry.processes k Process.terminate,
  )

  pub population-bury_present :
      (k : ℕ) (p : AgentProcess E) → lookup s k ≡ some p → population (bury s k) < population s
  unfolding population bury Registry.modify Registry.remove Registry.count lookup Registry.lookup
  population-bury_present k p e = ground (
    arith,
    HashMap.get-modify s.registry.processes k Process.terminate k,
    HashMap.length-remove_present (HashMap.modify s.registry.processes k Process.terminate) k
        (Process.terminate p),
    HashMap.length-modify s.registry.processes k Process.terminate,
  )

  population-enqueue : (k : ℕ) → population (enqueue s k) ≡ population s
  unfolding population enqueue
  population-enqueue k = ground arith

  population-sent :
      (k : ℕ) (f : AgentProcess E → AgentProcess E)
      → population (enqueue (record_message_sent (modify s k f)) k) ≡ population s
  unfolding population enqueue record_message_sent
  population-sent k f = ground (arith, population-modify k f)

  pub population-cancel_io : (k : ℕ) → population (cancel_io s k) ≡ population s
  unfolding population cancel_io
  population-cancel_io k = ground arith

  population-send_local :
      (now to : ℕ) (p : AgentProcess E) (msg : Message E.Value)
      → population (send_local now s to p msg).0 ≡ population s
  unfolding population send_local record_message_sent record_mailbox_rejection dead_letter
  population-send_local now to p msg =
      let f = λ (q : AgentProcess E). (deliver_message q msg).0 in
      ground (arith, population-modify to f, population-sent to f)

  population-deliver :
      (now to : ℕ) (msg : Message E.Value) → population (deliver now s to msg).0 ≡ population s
  unfolding population deliver dead_letter
  population-deliver now to msg = elim (Option-cases (lookup s to)) [
    | inl e ↦ ground arith
    | inr (p, e) ↦ ground (arith, population-send_local now to p msg)
  ]

  population-call_hook :
      (to : ℕ) (msg : Message E.Value) → population (call_hook s to msg).0 ≡ population s
  unfolding population call_hook
  population-call_hook to msg = ground arith

module _ {E : Env} (s : AgentScheduler E) where
  population-send :
      (now to : ℕ) (msg : Message E.Value) → population (send now s to msg).0 ≡ population s
  population-send now to msg = elim (send-cases s to msg now) [
    | inl e ↦
        rw e (population-deliver (call_hook s to msg).0 now to msg ∙ population-call_hook s to msg)
    | inr e ↦ rw e (population-call_hook s to msg)
  ]

module _ {E : Env} where
  relations_of_gone :
      (s : AgentScheduler E) (pid : ℕ)
      → lookup s pid ≡ none
      → relations s pid ≡ record { links = []; monitored_by = []; monitors = [] }
  unfolding relations
  relations_of_gone s pid e = ground arith

  population-forget_monitors :
      (pid : ℕ) (ms : List (ℕ × ℕ)) (s : AgentScheduler E)
      → population (forget_monitors pid ms s) ≡ population s
  unfolding forget_monitors
  population-forget_monitors pid [] s = refl
  population-forget_monitors pid ((ref, t) ∷ ms) s =
      population-forget_monitors pid ms _ ∙ population-modify s t (drop_monitored_by ref pid)

  population-forget_watchers :
      (pid : ℕ) (ms : List (ℕ × ℕ)) (s : AgentScheduler E)
      → population (forget_watchers pid ms s) ≡ population s
  unfolding forget_watchers
  population-forget_watchers pid [] s = refl
  population-forget_watchers pid ((ref, w) ∷ ms) s =
      population-forget_watchers pid ms _ ∙ population-modify s w (drop_monitor ref pid)

  population-send_downs :
      (now pid : ℕ) (reason : Reason) (ms : List (ℕ × ℕ)) (s : AgentScheduler E)
      → population (send_downs now pid reason ms s) ≡ population s
  unfolding send_downs
  population-send_downs now pid reason [] s = refl
  population-send_downs now pid reason ((ref, w) ∷ ms) s =
      population-send_downs now pid reason ms _
      ∙ population-send s now w (system (down ref pid reason))

  population-enqueue_all :
      (ps : List ℕ) (s : AgentScheduler E) → population (enqueue_all ps s) ≡ population s
  unfolding enqueue_all
  population-enqueue_all [] s = refl
  population-enqueue_all (p ∷ ps) s = population-enqueue_all ps _ ∙ population-enqueue s p

  population-notify_link :
      (pid : ℕ) (reason : Reason) (l : ℕ) (n : Notices E)
      → population (notify_link pid reason l n).sched ≡ population n.sched
  unfolding notify_link
  population-notify_link pid reason l n =
      ground
        (arith, population-modify n.sched l (λ q. (deliver_message q (system (exit pid reason))).0))

  population-notify_links :
      (pid : ℕ) (reason : Reason) (ls : List ℕ) (n : Notices E)
      → population (notify_links pid reason ls n).sched ≡ population n.sched
  unfolding notify_links
  population-notify_links pid reason [] n = refl
  population-notify_links pid reason (l ∷ ls) n =
      population-notify_links pid reason ls _ ∙ population-notify_link pid reason l n

  -- Up to the cascade only the process itself goes.
  pub population-detach :
      (now : ℕ) (s : AgentScheduler E) (pid : ℕ) (reason : Reason)
      → population (detach now s pid reason).0 ≡ population (bury (cancel_io s pid) pid)
  unfolding detach
  population-detach now s pid reason =
      let cancelled = cancel_io s pid in
      let rel = relations cancelled pid in
      let gone = forget_monitors pid rel.monitors (bury cancelled pid) in
      let start : Notices E = record { sched = gone; cascade = []; to_wake = [] } in
      let n = notify_links pid reason rel.links start in
      let unwatched = forget_watchers pid rel.monitored_by n.sched in
      population-send_downs now pid reason rel.monitored_by (enqueue_all n.to_wake unwatched)
      ∙ population-enqueue_all n.to_wake unwatched
      ∙ population-forget_watchers pid rel.monitored_by n.sched
      ∙ population-notify_links pid reason rel.links start
      ∙ population-forget_monitors pid rel.monitors (bury cancelled pid)

  pub lookup-cancel_io : (s : AgentScheduler E) (k q : ℕ) → lookup (cancel_io s k) q ≡ lookup s q
  unfolding lookup cancel_io
  lookup-cancel_io s k q = ground arith

  -- A process that is not registered has nobody to take along.
  pub cascade_of_gone :
      (now : ℕ) (s : AgentScheduler E) (pid : ℕ) (reason : Reason)
      → lookup s pid ≡ none
      → (detach now s pid reason).1 ≡ []
  unfolding detach
  cascade_of_gone now s pid reason gone =
      rw (relations_of_gone (cancel_io s pid) pid (lookup-cancel_io s pid pid ∙ gone), notify_links)
