-- ===== src/AgentRt/Orchestration/Concurrency.antt =====
-- agent_rt/orchestration.rs: how many workers an orchestrator has at a time.
use zeptobeam.Base.{
  ℕ, zero, suc, ◌+◌, ◌≤◌, ◌≡◌, refl, List, [], ◌∷◌, Bool, true, false, Option, none, some, String,
  string_eq, nat_eq, arith, length, length-append, max, inl, inr, Option-cases, Result-cases, ◌>>=◌,
  if◌then◌else◌, leb, ◌==◌, not,
}
use zeptobeam.HashMap
use zeptobeam.AgentRt.Json.{Json}
use zeptobeam.AgentRt.Types.{
  Reason, normal, shutdown, custom, IoResult, exit, io_response, spawn_result, down,
  receive_timeout, Message, text, json, system, Action,
}
use zeptobeam.AgentRt.ResourceBudget.{Costs}
use zeptobeam.AgentRt.TaskGraph.{ready_tasks, mark_running, mark_failed, fail_dependents}
use zeptobeam.AgentRt.RetryPolicy.{should_retry}
use zeptobeam.AgentRt.TaskGraph.Adding.{add_tasks}
use zeptobeam.AgentRt.Worker.{is_type, str_field, u64_field, unwrap_or}
use zeptobeam.AgentRt.ApprovalGate.{task_requires_approval}
use zeptobeam.AgentRt.Orchestration.{
  Checkpoints, OrchestratorBehavior, Child, World, OrchestratorState, Names, put_graph,
  can_spawn_more, collect, decide_all, poll_approval_registry, spawn_worker, spawn_sub, ask,
  dispatch_approved, dispatch, finalize, spawn_or_finalize, next_or_finalize, fail_or_retry,
  retry_or_fail, worker_gone, go_on, handle_exit, handle_down, handle_spawned, handle_decomposed,
  task_format, extract_tasks, is_resumed, with_pids, handle_progress, take_result, handle_result,
  start_goal, handle_goal, handle_json, handle, handle_message,
}

-- The workers that run and those that are to be spawned.
abbrev pub workers : {V C : Type 0} → OrchestratorState V C → ℕ
workers s = length s.active_workers + length s.pending_spawn_tasks

module _ {V C K : Type 0} (values : Json V) (checkpoints : Checkpoints K V) (names : Names)
    (costs : Costs C) (self : OrchestratorBehavior V) where
  abbrev pub Within : ℕ → Option (Action V (Child V) × (World K V × OrchestratorState V C)) → Type 0
  Within cap none = Unit
  Within cap (some r) = workers r.1.1 ≤ cap

  abbrev pub cap : ℕ
  cap = max self.max_concurrency 1

  bind-Within :
      {A : Type 0} (o : Option A)
      (f : A → Option (Action V (Child V) × (World K V × OrchestratorState V C)))
      → ((a : A) → o ≡ some a → Within cap (f a))
      → Within cap (o >>= f)
  bind-Within none f h = tt
  bind-Within (some a) f h = h a refl

  if-Within :
      (b : Bool) (x y : Option (Action V (Child V) × (World K V × OrchestratorState V C)))
      → (b ≡ true → Within cap x)
      → (b ≡ false → Within cap y)
      → Within cap (if b then x else y)
  if-Within true x y hx hy = hx refl
  if-Within false x y hx hy = hy refl

  option-Within :
      {A : Type 0} (o : Option A)
      (x : Option (Action V (Child V) × (World K V × OrchestratorState V C)))
      (f : A → Option (Action V (Child V) × (World K V × OrchestratorState V C)))
      → Within cap x
      → ((a : A) → Within cap (f a))
      → Within cap (elim o [ none ↦ x | some a ↦ f a ])
  option-Within none x f hx hf = hx
  option-Within (some a) x f hx hf = hf a

  list-Within :
      {A : Type 0} (xs : List A)
      (x : Option (Action V (Child V) × (World K V × OrchestratorState V C)))
      (f : A → Option (Action V (Child V) × (World K V × OrchestratorState V C)))
      → Within cap x
      → ((a : A) → Within cap (f a))
      → Within cap (elim xs [ [] ↦ x | a ∷ rest ↦ f a ])
  list-Within [] x f hx hf = hx
  list-Within (a ∷ rest) x f hx hf = hf a

  -- A state with no more workers, in whatever it is wrapped.
  Fewer : OrchestratorState V C → Option (OrchestratorState V C) → Type 0
  Fewer s none = Unit
  Fewer s (some t) = workers t ≤ workers s

  poll-workers :
      (w : World K V) (s : OrchestratorState V C) (r : World K V × OrchestratorState V C)
      → poll_approval_registry values checkpoints names costs self w s ≡ some r
      → workers r.1 ≡ workers s
  unfolding poll_approval_registry
  poll-workers w s r e = elim (Option-cases w.approvals) [
    | inl gone ↦ ground (arith, gone, e)
    | inr (reg, here) ↦
        elim (Option-cases
          (decide_all (collect values self reg (ready_tasks s.task_graph)).1 s.task_graph)) [
            | inl out ↦ ground (arith, here, e, out)
            | inr (g, done) ↦ ground (arith, here, e, done)
          ]
  ]

  spawn_worker-Within :
      (w : World K V) (s : OrchestratorState V C) (task : V) (id : String)
      → workers s + 1 ≤ cap
      → Within cap (spawn_worker values checkpoints names costs self w s task id)
  unfolding spawn_worker
  spawn_worker-Within w s task id b =
      omega (arith, b, length-append s.pending_spawn_tasks (task ∷ []))

  finalize-Within :
      (w : World K V) (s : OrchestratorState V C)
      → workers s ≤ cap
      → Within cap (finalize values checkpoints names costs self w s)
  unfolding finalize
  finalize-Within w s b = ground (arith, b)

  module _
      (again : World K V
        → OrchestratorState V C
        → Option (Action V (Child V) × (World K V × OrchestratorState V C)))
      (keeps : (w : World K V) (s : OrchestratorState V C)
        → workers s ≤ cap
        → Within cap (again w s))
      (now : ℕ) where
    dispatch_approved-Within :
        (w : World K V) (s : OrchestratorState V C) (task : V) (id : String)
        → workers s + 1 ≤ cap
        → Within cap (dispatch_approved values checkpoints names costs self again w s task id)
    unfolding dispatch_approved spawn_sub
    dispatch_approved-Within w s task id b =
        if-Within (is_type values task "sub_orchestration") _ _
          (λ _.
            if-Within (leb self.max_depth self.current_depth) _ _ (λ _. keeps w _ (omega arith))
              (λ _. omega arith))
          (λ _. spawn_worker-Within w (put_graph s (mark_running s.task_graph id)) task id b)

    dispatch-Within :
        (w : World K V) (s : OrchestratorState V C) (task : V)
        → workers s + 1 ≤ cap
        → Within cap (dispatch values checkpoints names costs self again now w s task)
    unfolding dispatch ask
    dispatch-Within w s task b =
        let id = unwrap_or "" (str_field values task "task_id") in
        if-Within (id == "") _ _
          (λ _.
            spawn_worker-Within w s task
              (unwrap_or (names.task_name (length s.active_workers + length s.pending_spawn_tasks))
                (str_field values task "task_id"))
              b)
          (λ _.
            if-Within (not (task_requires_approval values task)) _ _
              (λ _. dispatch_approved-Within w s task id b)
              (λ _.
                option-Within w.approvals _ _ (dispatch_approved-Within w s task id b)
                  (λ r. omega arith)))

    spawn_or_finalize-Within :
        (w : World K V) (s : OrchestratorState V C)
        → workers s ≤ cap
        → Within cap (spawn_or_finalize values checkpoints names costs self again now w s)
    unfolding spawn_or_finalize can_spawn_more
    spawn_or_finalize-Within w s b =
        if-Within (can_spawn_more s self.max_concurrency) _ _
          (λ more.
            list-Within (ready_tasks s.task_graph) _ _ b
              (λ task. dispatch-Within w s task (ground (arith, more))))
          (λ _. finalize-Within w s b)

  next_or_finalize-Within :
      (fuel now : ℕ) (w : World K V) (s : OrchestratorState V C)
      → workers s ≤ cap
      → Within cap (next_or_finalize values checkpoints names costs self fuel now w s)
  unfolding next_or_finalize
  next_or_finalize-Within zero now w s b = tt
  next_or_finalize-Within (suc fuel) now w s b =
      bind-Within (poll_approval_registry values checkpoints names costs self w s) _ (λ r e.
        spawn_or_finalize-Within (next_or_finalize values checkpoints names costs self fuel now)
          (next_or_finalize-Within fuel now) now r.0 r.1 (omega (arith, b, poll-workers w s r e)))

  option-Fewer :
      {A : Type 0} (s : OrchestratorState V C) (o : Option A) (x : Option (OrchestratorState V C))
      (f : A → Option (OrchestratorState V C))
      → Fewer s x
      → ((a : A) → Fewer s (f a))
      → Fewer s (elim o [ none ↦ x | some a ↦ f a ])
  option-Fewer s none x f hx hf = hx
  option-Fewer s (some a) x f hx hf = hf a

  bind-Fewer :
      {A : Type 0} (s : OrchestratorState V C) (o : Option A)
      (f : A → Option (OrchestratorState V C))
      → ((a : A) → Fewer s (f a))
      → Fewer s (o >>= f)
  unfolding Fewer
  bind-Fewer s none f hf = tt
  bind-Fewer s (some a) f hf = hf a

  fail-Fewer :
      (s : OrchestratorState V C) (pid : ℕ) (id : String) (reason : Reason)
      → Fewer s (fail_or_retry values checkpoints names costs self s pid id reason)
  unfolding fail_or_retry Fewer
  fail-Fewer s pid id reason =
      option-Fewer s (should_retry s.retry_tracker id).1 _ _
        (bind-Fewer s (fail_dependents (mark_failed s.task_graph id) id) _ (λ g. omega arith))
        (λ delay. omega arith)

  retry_or_fail-Fewer :
      (s : OrchestratorState V C) (pid : ℕ) (id : String) (reason : Reason)
      → Fewer s (retry_or_fail values checkpoints names costs self s pid id reason)
  unfolding retry_or_fail Fewer
  retry_or_fail-Fewer s pid id normal = omega arith
  retry_or_fail-Fewer s pid id shutdown = fail-Fewer s pid id shutdown
  retry_or_fail-Fewer s pid id (custom t) = fail-Fewer s pid id (custom t)

  Fewer-trans :
      (s t : OrchestratorState V C) (o : Option (OrchestratorState V C))
      → workers t ≤ workers s
      → Fewer t o
      → Fewer s o
  unfolding Fewer
  Fewer-trans s t none le h = tt
  Fewer-trans s t (some u) le h = omega (arith, le, h)

  worker_gone-Fewer :
      (s : OrchestratorState V C) (pid : ℕ) (reason : Reason)
      → Fewer s (worker_gone values checkpoints names costs self s pid reason)
  unfolding worker_gone retry_or_fail Fewer
  worker_gone-Fewer s pid reason =
      let removed : OrchestratorState V C = record s {
        active_workers = HashMap.remove s.active_workers pid;
      } in
      let le : workers removed ≤ workers s =
        omega (arith, HashMap.length-remove s.active_workers pid) in
      option-Fewer s (HashMap.get s.active_workers pid) _ _ le (λ id.
        Fewer-trans s (record removed { inflight_tasks = HashMap.remove s.inflight_tasks id }) _ le
          (retry_or_fail-Fewer
            (record removed { inflight_tasks = HashMap.remove s.inflight_tasks id }) pid id reason))

  module _ (fuel now : ℕ) where
    go_on-Within :
        (w : World K V) (s : OrchestratorState V C)
        → workers s ≤ cap
        → Within cap (go_on values checkpoints names costs self fuel now w s)
    unfolding go_on
    go_on-Within w s b = next_or_finalize-Within fuel now _ s b

    gone-Within :
        (w : World K V) (s : OrchestratorState V C) (o : Option (OrchestratorState V C))
        → workers s ≤ cap
        → Fewer s o
        → Within cap (o >>= go_on values checkpoints names costs self fuel now w)
    unfolding Fewer
    gone-Within w s none b h = tt
    gone-Within w s (some t) b h = go_on-Within w t (omega (arith, b, h))

    handle_spawned-Within :
        (w : World K V) (s : OrchestratorState V C) (child : ℕ) (monitor : Option ℕ)
        → workers s ≤ cap
        → Within cap (handle_spawned values checkpoints names costs self fuel now w s child monitor)
    unfolding handle_spawned
    handle_spawned-Within w s child monitor b =
        elim s.pending_spawn_tasks
            as (λ l.
              workers (record s { pending_spawn_tasks = l }) ≤ cap
              → Within cap (
                  handle_spawned values checkpoints names costs self fuel now w
                    (record s { pending_spawn_tasks = l }) child monitor)) [
                      | [] ↦ λ c. next_or_finalize-Within fuel now w _ c
                      | task ∷ tasks ↦ λ c. ground (
                        arith,
                        c,
                        HashMap.length-insert s.active_workers child
                            (unwrap_or (names.task_name child) (str_field values task "task_id")),
                      )
                    ]
          b

    handle_decomposed-Within :
        (w : World K V) (s : OrchestratorState V C) (result : IoResult V)
        → workers s ≤ cap
        → Within cap (handle_decomposed values checkpoints names costs self fuel now w s result)
    unfolding handle_decomposed
    handle_decomposed-Within w s result b =
        bind-Within
          (add_tasks (task_format values) s.task_graph (extract_tasks values s.goal result)) _
          (λ r e. elim (Result-cases r.1) [
            | inl (_, good) ↦ rw good (go_on-Within w _ (omega arith))
            | inr (x, bad) ↦ rw bad (omega arith)
          ])

    handle_result-Within :
        (w : World K V) (s : OrchestratorState V C) (payload : V)
        → workers s ≤ cap
        → Within cap (handle_result values checkpoints names costs self fuel now w s payload)
    unfolding handle_result take_result
    handle_result-Within w s payload b =
        option-Within (u64_field values payload "worker_pid") _ _ (go_on-Within w _ (omega arith))
          (λ pid. omega arith)

    handle_progress-Within :
        (w : World K V) (s : OrchestratorState V C) (payload : V)
        → workers s ≤ cap
        → Within cap (handle_progress values checkpoints names costs self fuel now w s payload)
    unfolding handle_progress
    handle_progress-Within w s payload b = ground (arith, b)

    handle_goal-Within :
        (w : World K V) (s : OrchestratorState V C) (payload : V)
        → workers s ≤ cap
        → Within cap (handle_goal values checkpoints names costs self fuel now w s payload)
    unfolding handle_goal start_goal
    handle_goal-Within w s payload b =
        let goal = unwrap_or payload (values.get payload "goal") in
        if-Within (is_resumed values checkpoints names costs self fuel now s payload goal) _
          (start_goal values checkpoints names costs self fuel now w s payload goal)
          (λ _. go_on-Within w (with_pids values checkpoints names costs self fuel now s payload) b)
          (λ _. omega arith)

    handle-Within :
        (w : World K V) (s : OrchestratorState V C) (message : Message V)
        → workers s ≤ cap
        → Within cap (handle values checkpoints names costs self fuel now w s message)
    unfolding handle handle_json handle_down
    handle-Within w s (json payload) b =
        if-Within (is_type values payload "worker_progress") _ _
          (λ _. handle_progress-Within w s payload b)
          (λ _.
            if-Within (is_type values payload "worker_result") _ _
              (λ _. handle_result-Within w s payload b) (λ _. handle_goal-Within w s payload b))
    handle-Within w s (system (io_response id result)) b = handle_decomposed-Within w s result b
    handle-Within w s (system (spawn_result child monitor)) b =
        handle_spawned-Within w s child monitor b
    handle-Within w s (system (down monitor pid reason)) b =
        let s' : OrchestratorState V C = record s {
          worker_monitors = HashMap.remove s.worker_monitors pid;
        } in
        gone-Within w s' (worker_gone values checkpoints names costs self s' pid reason) b
          (worker_gone-Fewer s' pid reason)
    handle-Within w s (system (exit from reason)) b = b
    handle-Within w s (system receive_timeout) b = b
    handle-Within w s (text message) b = b

  -- The workers that an orchestrator counts as active or to be spawned are at most `max_concurrency`,
  -- or 1 where this is 0: after the handling of any message, and of the exit of any process, they are
  -- if they were before, when it returns.
  pub handle_message-Within :
      (fuel now : ℕ) (w : World K V) (s : OrchestratorState V C)
      → workers s ≤ cap
      → ((message : Message V)
          → Within cap (handle_message values checkpoints names costs self fuel now w s message))
        × ((pid : ℕ) (reason : Reason)
            → Within cap (handle_exit values checkpoints names costs self fuel now w s pid reason))
  unfolding handle_message handle_exit
  handle_message-Within fuel now w s b = (
    λ message.
        bind-Within (poll_approval_registry values checkpoints names costs self w s) _
          (λ r e. handle-Within fuel now r.0 r.1 message (omega (arith, b, poll-workers w s r e))),
    λ pid reason.
        gone-Within fuel now w s (worker_gone values checkpoints names costs self s pid reason) b
          (worker_gone-Fewer s pid reason),
  )
