-- ===== src/AgentRt/Scheduler/Death.antt =====
-- agent_rt/scheduler.rs: the invariant through `terminate_process`.
use mathlib.Core.List.{append-nil}
use mathlib.Core.Option.{some-injective}
use zeptobeam.Base.{
  ℕ, zero, suc, ◌≡◌, refl, List, [], ◌∷◌, ◌++◌, ◌⊎◌, inl, inr, Option, some, arith, if◌then◌else◌,
  ◌==◌, nat_eq, Option-cases, Bool-cases, any-append, sym, ◌∙◌, subst, is_empty,
}
use zeptobeam.AgentRt.Types.{Env, Reason, Message, system, exit, down}
use zeptobeam.AgentRt.Process.{AgentProcess, deliver_message, is_waiting}
use zeptobeam.AgentRt.Scheduler.State.{AgentScheduler, lookup, modify}
use zeptobeam.AgentRt.Scheduler.Monitors.{drop_monitor, drop_monitored_by}
use zeptobeam.AgentRt.Scheduler.Terminate.{
  Notices, relations, cancel_io, bury, forget_monitors, notify_link, notify_links, forget_watchers,
  enqueue_all, send_downs, detach, record_process_termination, submit_destroy, run_handlers,
  call_exit_handlers, finish, cascade_all, terminate_process,
}
use zeptobeam.AgentRt.Scheduler.Queues.{is_queued}
use zeptobeam.AgentRt.Scheduler.Sending.{Same, delivered}
use zeptobeam.AgentRt.Scheduler.Wakeup.{Covered, modify-Covered_any, modify-Covered_at}
use zeptobeam.AgentRt.Scheduler.Holds.{
  Holds, Welcomes, modify-Everyone, modify-Holds, bury-Holds, send-Holds, Same-Holds, Holds-cons,
  enqueue_all-Holds,
}

-- A property of processes that the steps of other processes keep.
pub record Stable {E : Env} (P : ℕ → AgentProcess E → Type 0) : Type 0 where
  pub welcomes : Welcomes P
  pub monitor_dropped : (q ref pid : ℕ) (p : AgentProcess E) → P q p → P q (drop_monitor ref pid p)
  pub watcher_dropped :
      (q ref pid : ℕ) (p : AgentProcess E) → P q p → P q (drop_monitored_by ref pid p)

module _ {E : Env} (P : ℕ → AgentProcess E → Type 0) (stable : Stable P) where
  forget_monitors-Holds :
      (pid : ℕ) (xs : List ℕ) (ms : List (ℕ × ℕ)) (s : AgentScheduler E)
      → Holds P xs s
      → Holds P xs (forget_monitors pid ms s)
  unfolding forget_monitors drop_monitored_by
  forget_monitors-Holds pid xs [] s h = h
  forget_monitors-Holds pid xs ((ref, target) ∷ ms) s h =
      forget_monitors-Holds pid xs ms (modify s target (drop_monitored_by ref pid)) (
        modify-Holds P xs s target (drop_monitored_by ref pid) (λ p r. r)
          (λ p _ k. stable.watcher_dropped target ref pid p k) h)

  forget_watchers-Holds :
      (pid : ℕ) (xs : List ℕ) (ms : List (ℕ × ℕ)) (s : AgentScheduler E)
      → Holds P xs s
      → Holds P xs (forget_watchers pid ms s)
  unfolding forget_watchers drop_monitor
  forget_watchers-Holds pid xs [] s h = h
  forget_watchers-Holds pid xs ((ref, watcher) ∷ ms) s h =
      forget_watchers-Holds pid xs ms (modify s watcher (drop_monitor ref pid)) (
        modify-Holds P xs s watcher (drop_monitor ref pid) (λ p r. r)
          (λ p _ k. stable.monitor_dropped watcher ref pid p k) h)

  send_downs-Holds :
      (now pid : ℕ) (reason : Reason) (xs : List ℕ) (ms : List (ℕ × ℕ)) (s : AgentScheduler E)
      → Holds P xs s
      → Holds P xs (send_downs now pid reason ms s)
  unfolding send_downs
  send_downs-Holds now pid reason xs [] s h = h
  send_downs-Holds now pid reason xs ((ref, watcher) ∷ ms) s h =
      send_downs-Holds now pid reason xs ms _
        (send-Holds P stable.welcomes now s xs watcher (system (down ref pid reason)) h)

  -- A delivered exit signal puts a waiting process on the list of those to wake.
  trap-Covered :
      (xs : List ℕ) (s : AgentScheduler E) (linked : ℕ) (p : AgentProcess E) (msg : Message E.Value)
      → lookup s linked ≡ some p
      → Covered xs s
      → Covered
          (if is_waiting p.status then xs ++ linked ∷ [] else xs)
          (modify s linked (delivered msg))
  unfolding deliver_message
  trap-Covered xs s linked p msg here c = elim (Bool-cases (is_waiting p.status)) [
    | inl w ↦ rw w λ q p' e r. ground (
      arith,
      modify-Covered_any xs s linked (delivered msg) c q p' e r,
      any-append (λ x. x == q) xs (linked ∷ []),
    )
    | inr w ↦
        rw w
          (modify-Covered_at xs s linked (delivered msg) (λ p' e r. ground (arith, sym here ∙ e)) c)
  ]

  notify_link-cases :
      (pid : ℕ) (reason : Reason) (linked : ℕ) (n : Notices E)
      → let n' = notify_link pid reason linked n in
        ((n'.sched ≡ n.sched) × (n'.to_wake ≡ n.to_wake))
        ⊎ ((p : AgentProcess E) × (lookup n.sched linked ≡ some p)
            × (n'.sched ≡ modify n.sched linked (delivered (system (exit pid reason))))
            × (n'.to_wake ≡ (if is_waiting p.status then n.to_wake ++ linked ∷ [] else n.to_wake)))
  unfolding notify_link
  notify_link-cases pid reason linked n = elim (Option-cases (lookup n.sched linked)) [
    | inl gone ↦ inl (ground arith, ground arith)
    | inr (p, here) ↦ elim (Bool-cases p.trap_exit) [
      | inl trap ↦ inr (p, here, ground arith, ground arith)
      | inr quiet ↦ inl (ground arith, ground arith)
    ]
  ]

  notify_link-Holds :
      (pid : ℕ) (reason : Reason) (linked : ℕ) (n : Notices E)
      → Holds P n.to_wake n.sched
      → let n' = notify_link pid reason linked n in Holds P n'.to_wake n'.sched
  notify_link-Holds pid reason linked n h = elim (notify_link-cases pid reason linked n) [
    | inl (e, f) ↦ rw (e, f) h
    | inr (p, here, e, f) ↦
        rw (e, f)
          (record {
            covered = trap-Covered n.to_wake n.sched linked p _ here h.covered;
            everyone =
                modify-Everyone P n.sched linked _
                  (λ p' _ k. stable.welcomes linked p' (system (exit pid reason)) k) h.everyone;
          })
  ]

  notify_links-Holds :
      (pid : ℕ) (reason : Reason) (ls : List ℕ) (n : Notices E)
      → Holds P n.to_wake n.sched
      → let n' = notify_links pid reason ls n in Holds P n'.to_wake n'.sched
  unfolding notify_links
  notify_links-Holds pid reason [] n h = h
  notify_links-Holds pid reason (l ∷ ls) n h =
      notify_links-Holds pid reason ls (notify_link pid reason l n)
        (notify_link-Holds pid reason l n h)

  cancelled-Same : (s : AgentScheduler E) (pid : ℕ) → Same (bury s pid) (bury (cancel_io s pid) pid)
  unfolding cancel_io bury lookup is_queued
  cancelled-Same s pid = record { processes = λ q. ground arith; queues = λ q. ground arith }

  -- Everything that `terminate_process` does before the cascade.
  pub detach-Holds :
      (now : ℕ) (s : AgentScheduler E) (pid : ℕ) (reason : Reason)
      → Holds P [] (bury s pid)
      → Holds P [] (detach now s pid reason).0
  unfolding detach
  detach-Holds now s pid reason h =
      let cancelled = cancel_io s pid in
      let rel = relations cancelled pid in
      let gone = forget_monitors pid rel.monitors (bury cancelled pid) in
      let start : Notices E = record { sched = gone; cascade = []; to_wake = [] } in
      let buried = Same-Holds P [] (bury s pid) (cancelled-Same s pid) h in
      let notified =
        notify_links-Holds pid reason rel.links start
          (forget_monitors-Holds pid [] rel.monitors (bury cancelled pid) buried) in
      let n = notify_links pid reason rel.links start in
      let unwatched = forget_watchers pid rel.monitored_by n.sched in
      let quiet = forget_watchers-Holds pid n.to_wake rel.monitored_by n.sched notified in
      send_downs-Holds now pid reason [] rel.monitored_by (enqueue_all n.to_wake unwatched)
        (enqueue_all-Holds P [] n.to_wake unwatched (rw append-nil quiet))

  record_termination-Same :
      (s : AgentScheduler E) (pid : ℕ) → Same s (submit_destroy (record_process_termination s) pid)
  unfolding submit_destroy record_process_termination lookup is_queued
  record_termination-Same s pid = record {
    processes = λ q. ground arith;
    queues = λ q. ground arith;
  }

module _ {E : Env}
    (handle : E.Handler → AgentScheduler E → ℕ → Reason → E.Handler × AgentScheduler E) (now : ℕ)
    (P : ℕ → AgentProcess E → Type 0) (stable : Stable P)
    (keeps : (h : E.Handler) (s : AgentScheduler E) (pid : ℕ) (reason : Reason)
      → Holds P [] s
      → Holds P [] (handle h s pid reason).1) where
  run_handlers-Holds :
      (pid : ℕ) (reason : Reason) (hs : List E.Handler) (s : AgentScheduler E)
      → Holds P [] s
      → Holds P [] (run_handlers handle now pid reason hs s).1
  unfolding run_handlers
  run_handlers-Holds pid reason [] s h = h
  run_handlers-Holds pid reason (x ∷ xs) s h =
      run_handlers-Holds pid reason xs (handle x s pid reason).1 (keeps x s pid reason h)

  with_handlers-Same :
      (s : AgentScheduler E) (hs : List E.Handler) → Same s (record s { exit_handlers = hs })
  unfolding lookup is_queued
  with_handlers-Same s hs = record { processes = λ q. refl; queues = λ q. refl }

  call_exit_handlers-Holds :
      (s : AgentScheduler E) (pid : ℕ) (reason : Reason)
      → Holds P [] s
      → Holds P [] (call_exit_handlers handle now s pid reason)
  unfolding call_exit_handlers
  call_exit_handlers-Holds s pid reason h =
      let bare = Same-Holds P [] s (with_handlers-Same s []) h in
      let r =
        run_handlers handle now pid reason s.exit_handlers (record s { exit_handlers = [] }) in
      let ran = run_handlers-Holds pid reason s.exit_handlers _ bare in
      elim (Bool-cases (is_empty s.exit_handlers)) [
        | inl e ↦ rw e h
        | inr e ↦ rw e (Same-Holds P [] r.1 (with_handlers-Same r.1 r.0) ran)
      ]

  finish-Holds :
      (s : AgentScheduler E) (pid : ℕ) (reason : Reason)
      → Holds P [] s
      → Holds P [] (finish handle now s pid reason)
  unfolding finish
  finish-Holds s pid reason h =
      Same-Holds P [] _ (record_termination-Same P stable _ pid)
        (call_exit_handlers-Holds s pid reason h)

  cascade_all-Holds :
      (kill : AgentScheduler E → ℕ → Reason → Option (AgentScheduler E))
      → ((s t : AgentScheduler E) (pid : ℕ) (reason : Reason)
          → kill s pid reason ≡ some t
          → Holds P [] (bury s pid)
          → Holds P [] t)
      → (reason : Reason) (ps : List ℕ) (s t : AgentScheduler E)
      → cascade_all handle now kill reason ps s ≡ some t
      → Holds P [] s
      → Holds P [] t
  unfolding cascade_all
  cascade_all-Holds kill ih reason [] s t e h = subst (Holds P []) (some-injective _ _ e) h
  cascade_all-Holds kill ih reason (p ∷ ps) s t e h = elim (Option-cases (kill s p reason)) [
    | inl out ↦ absurd (ground arith)
    | inr (s', k) ↦
        cascade_all-Holds kill ih reason ps s' t (rw (k, cascade_all) at e)
          (ih s s' p reason k (bury-Holds P [] s p (Holds-cons P [] s p h)))
  ]

  -- A termination that returns leaves no runnable process outside the queues, and every process
  -- with the property.
  pub terminate_process-Holds :
      (fuel : ℕ) (s t : AgentScheduler E) (pid : ℕ) (reason : Reason)
      → terminate_process handle now fuel s pid reason ≡ some t
      → Holds P [] (bury s pid)
      → Holds P [] t
  unfolding terminate_process
  terminate_process-Holds zero s t pid reason e h = absurd (cc e)
  terminate_process-Holds (suc fuel) s t pid reason e h =
      let d = detach now s pid reason in
      let kill = terminate_process handle now fuel in
      elim (Option-cases (cascade_all handle now kill reason d.1 d.0)) [
        | inl out ↦ absurd (ground arith)
        | inr (s', k) ↦ subst (Holds P []) (ground arith) (
            finish-Holds s' pid reason (
              cascade_all-Holds kill (λ a b. terminate_process-Holds fuel a b) reason d.1 d.0 s' k
                (detach-Holds P stable now s pid reason h)))
      ]
