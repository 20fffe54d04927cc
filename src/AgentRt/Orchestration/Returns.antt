-- ===== src/AgentRt/Orchestration/Returns.antt =====
-- agent_rt/orchestration.rs: the handling of messages returns.
use zeptobeam.Base.{
  ℕ, zero, suc, ◌≡◌, refl, sym, ap, subst, ◌∙◌, List, [], ◌∷◌, Bool, true, false, Option, none,
  some, String, string_eq, nat_eq, ◌==◌, inl, inr, Bool-cases, Result-cases, ◌>>=◌, if◌then◌else◌,
  leb, not, Option-cases, arith, ◌+◌, ◌++◌,
}
use mathlib.Core.Option.{some-injective}
use zeptobeam.HashMap
use zeptobeam.HashMap.{HashMap}
use zeptobeam.AgentRt.Json.{Json}
use zeptobeam.AgentRt.Types.{
  Reason, normal, shutdown, custom, exit, io_response, spawn_result, down, receive_timeout, Message,
  text, json, system,
}
use zeptobeam.AgentRt.TaskGraph as Graph
use zeptobeam.AgentRt.TaskGraph.{
  TaskGraph, TaskNode, TaskStatus, ready, failed, skipped, has, put_status, put_all, cascade,
  downstream, edge_count, ready_tasks, mark_running, mark_failed, fail_dependents,
}
use zeptobeam.AgentRt.TaskGraph.Skipped.{fail_dependents-Needs}
use zeptobeam.AgentRt.TaskGraph.Adding.{add_tasks}
use zeptobeam.AgentRt.TaskGraph.Batches.{add_tasks-Outcome}
use zeptobeam.AgentRt.TaskGraph.Counting.{Distinct}
use zeptobeam.AgentRt.RetryPolicy.{should_retry}
use zeptobeam.AgentRt.ResourceBudget.{Costs}
use zeptobeam.AgentRt.Worker.{is_type, str_field, u64_field, unwrap_or}
use zeptobeam.AgentRt.ApprovalGate.{ApprovalDecision, approved, rejected, task_requires_approval}
use zeptobeam.AgentRt.Orchestration.{
  Checkpoints, OrchestratorBehavior, World, OrchestratorState, Names, is_complete, can_spawn_more,
  collect, decide, decide_all, poll_approval_registry, spawn_worker, spawn_sub, ask,
  dispatch_approved, dispatch, finalize, spawn_or_finalize, next_or_finalize, fail_or_retry,
  retry_or_fail, worker_gone, go_on, handle_exit, handle_down, handle_spawned, handle_decomposed,
  task_format, extract_tasks, is_resumed, handle_progress, handle_result, start_goal, handle_goal,
  handle_json, handle, handle_message,
}

abbrev pub Returns : {A : Type 0} → Option A → Type 0
Returns {A} o = (a : A) × (o ≡ some a)

module _ {B : Type 0} where
  if-Returns :
      (b : Bool) (x y : Option B)
      → (b ≡ true → Returns x)
      → (b ≡ false → Returns y)
      → Returns (if b then x else y)
  if-Returns true x y hx hy = hx refl
  if-Returns false x y hx hy = hy refl

module _ {A B : Type 0} where
  option-Returns :
      (o : Option A) (x : Option B) (f : A → Option B)
      → Returns x
      → ((a : A) → Returns (f a))
      → Returns (elim o [ none ↦ x | some a ↦ f a ])
  option-Returns none x f hx hf = hx
  option-Returns (some a) x f hx hf = hf a

  list-Returns :
      (xs : List A) (x : Option B) (f : A → List A → Option B)
      → Returns x
      → ((a : A) (rest : List A) → Returns (f a rest))
      → Returns (elim xs [ [] ↦ x | a ∷ rest ↦ f a rest ])
  list-Returns [] x f hx hf = hx
  list-Returns (a ∷ rest) x f hx hf = hf a rest

  bind-Returns :
      (o : Option A) (f : A → Option B)
      → Returns o
      → ((a : A) → o ≡ some a → Returns (f a))
      → Returns (o >>= f)
  bind-Returns none f h hf = absurd (cc (h.1))
  bind-Returns (some a) f h hf = hf a refl

module _ {V : Type 0} where
  fail_dependents-Returns : (g : TaskGraph V) (id : String) → Returns (fail_dependents g id)
  fail_dependents-Returns g id = let r = fail_dependents-Needs g id in (r.0, r.1)

  decide-Returns : (d : ApprovalDecision) (g : TaskGraph V) (id : String) → Returns (decide d g id)
  unfolding decide
  decide-Returns approved g id = (_, refl)
  decide-Returns (rejected reason) g id = fail_dependents-Returns (mark_failed g id) id

  decide_all-Returns :
      (ds : List (String × ApprovalDecision)) (g : TaskGraph V) → Returns (decide_all ds g)
  unfolding decide_all
  decide_all-Returns [] g = (g, refl)
  decide_all-Returns ((id, d) ∷ ds) g =
      bind-Returns (decide d g id) (decide_all ds) (decide-Returns d g id)
        (λ g' e. decide_all-Returns ds g')

module _ {V : Type 0} where
  keys-modify :
      (ts : HashMap String (TaskNode V)) (k : String) (f : TaskNode V → TaskNode V)
      → HashMap.keys (HashMap.modify ts k f) ≡ HashMap.keys ts
  unfolding HashMap.modify
  keys-modify [] k f = refl
  keys-modify ((j, n) ∷ ts) k f = elim (Bool-cases (j == k)) [
    | inl hit ↦ rw hit refl
    | inr miss ↦ rw miss (ap (λ l. j ∷ l) (keys-modify ts k f))
  ]

  keys-put_all :
      (status : TaskStatus) (ids : List String) (ts : HashMap String (TaskNode V))
      → HashMap.keys (put_all status ids ts) ≡ HashMap.keys ts
  unfolding put_all
  keys-put_all status [] ts = refl
  keys-put_all status (id ∷ ids) ts =
      keys-put_all status ids (HashMap.modify ts id (put_status status))
      ∙ keys-modify ts id (put_status status)

  keys-cascade :
      (next : String → List String) (fuel : ℕ) (queue visited : List String)
      (ts ts' : HashMap String (TaskNode V))
      → cascade next fuel queue visited ts ≡ some ts'
      → HashMap.keys ts' ≡ HashMap.keys ts
  unfolding cascade
  keys-cascade next zero [] visited ts ts' e = ap HashMap.keys (sym (some-injective _ _ e))
  keys-cascade next (suc fuel) [] visited ts ts' e = ap HashMap.keys (sym (some-injective _ _ e))
  keys-cascade next zero (c ∷ queue) visited ts ts' e = absurd (cc e)
  keys-cascade next (suc fuel) (c ∷ queue) visited ts ts' e = elim (Bool-cases (has visited c)) [
    | inl old ↦ keys-cascade next fuel queue visited ts ts' (rw (old, cascade) at e)
    | inr fresh ↦
        keys-cascade next fuel (queue ++ next c) (c ∷ visited) (put_all skipped (next c) ts) ts'
          (rw (fresh, cascade) at e)
        ∙ keys-put_all skipped (next c) ts
  ]

  -- Two graphs with the same ids.
  SameKeys : TaskGraph V → TaskGraph V → Type 0
  SameKeys g g' = HashMap.keys g'.tasks ≡ HashMap.keys g.tasks

  fail_dependents-SameKeys :
      (g g' : TaskGraph V) (id : String) → fail_dependents g id ≡ some g' → SameKeys g g'
  unfolding fail_dependents SameKeys
  fail_dependents-SameKeys g g' id e =
      let fuel = edge_count g.tasks (HashMap.keys g.tasks) + 1 in
      elim (Option-cases (cascade (downstream g.tasks) fuel (id ∷ []) [] g.tasks)) [
        | inl out ↦
            let gone : fail_dependents g id ≡ none = rw (out, fail_dependents) refl in
            absurd (cc (e, gone))
        | inr (ts, done) ↦
            let this : fail_dependents g id ≡ some (record g { tasks = ts }) =
              rw (done, fail_dependents) refl in
            let same : some g' ≡ some (record g { tasks = ts }) = sym e ∙ this in
            ap (λ h. HashMap.keys h.tasks) (some-injective _ _ same)
            ∙ keys-cascade (downstream g.tasks) fuel (id ∷ []) [] g.tasks ts done
      ]

  decide-SameKeys :
      (d : ApprovalDecision) (g g' : TaskGraph V) (id : String)
      → decide d g id ≡ some g'
      → SameKeys g g'
  unfolding decide SameKeys Graph.set_status mark_failed
  decide-SameKeys approved g g' id e =
      ap (λ h. HashMap.keys h.tasks) (sym (some-injective _ _ e))
      ∙ keys-modify g.tasks id (put_status ready)
  decide-SameKeys (rejected reason) g g' id e =
      fail_dependents-SameKeys (mark_failed g id) g' id e
      ∙ keys-modify g.tasks id (put_status failed)

  decide_all-SameKeys :
      (ds : List (String × ApprovalDecision)) (g g' : TaskGraph V)
      → decide_all ds g ≡ some g'
      → SameKeys g g'
  unfolding decide_all SameKeys
  decide_all-SameKeys [] g g' e = ap (λ h. HashMap.keys h.tasks) (sym (some-injective _ _ e))
  decide_all-SameKeys ((id, d) ∷ ds) g g' e = elim (Option-cases (decide d g id)) [
    | inl out ↦ absurd (cc (sym e ∙ ap (λ o. o >>= decide_all ds) out))
    | inr (h, done) ↦
        decide_all-SameKeys ds h g' (sym (ap (λ o. o >>= decide_all ds) done) ∙ e)
        ∙ decide-SameKeys d g h id done
  ]

module _ {V C K : Type 0} (values : Json V) (checkpoints : Checkpoints K V) (names : Names)
    (costs : Costs C) (self : OrchestratorBehavior V)
    (above : leb self.max_depth self.current_depth ≡ false) where
  poll-Returns :
      (w : World K V) (s : OrchestratorState V C)
      → Returns (poll_approval_registry values checkpoints names costs self w s)
  unfolding poll_approval_registry
  poll-Returns w s =
      option-Returns w.approvals _ _ (_, refl)
        (λ r.
          bind-Returns
            (decide_all (collect values self r (ready_tasks s.task_graph)).1 s.task_graph) _
            (decide_all-Returns (collect values self r (ready_tasks s.task_graph)).1 s.task_graph)
            (λ g e. (_, refl)))

  poll-SameKeys :
      (w : World K V) (s : OrchestratorState V C) (r : World K V × OrchestratorState V C)
      → poll_approval_registry values checkpoints names costs self w s ≡ some r
      → SameKeys s.task_graph r.1.task_graph
  unfolding poll_approval_registry SameKeys
  poll-SameKeys w s r e = elim (Option-cases w.approvals) [
    | inl gone ↦ ground (arith, gone, e)
    | inr (reg, here) ↦
        let ds = (collect values self reg (ready_tasks s.task_graph)).1 in
        elim (Option-cases (decide_all ds s.task_graph)) [
          | inl out ↦ ground (arith, here, e, out)
          | inr (g, done) ↦
              ground (arith, here, e, done, decide_all-SameKeys ds s.task_graph g done)
        ]
  ]

  finalize-Returns :
      (w : World K V) (s : OrchestratorState V C)
      → Returns (finalize values checkpoints names costs self w s)
  unfolding finalize
  finalize-Returns w s = if-Returns (not (is_complete s)) _ _ (λ _. (_, refl)) (λ _. (_, refl))

  fail_or_retry-Returns :
      (s : OrchestratorState V C) (pid : ℕ) (id : String) (reason : Reason)
      → Returns (fail_or_retry values checkpoints names costs self s pid id reason)
  unfolding fail_or_retry
  fail_or_retry-Returns s pid id reason =
      option-Returns (should_retry s.retry_tracker id).1 _ _
        (bind-Returns (fail_dependents (mark_failed s.task_graph id) id) _
          (fail_dependents-Returns (mark_failed s.task_graph id) id) (λ g e. (_, refl)))
        (λ delay. (_, refl))

  retry_or_fail-Returns :
      (s : OrchestratorState V C) (pid : ℕ) (id : String) (reason : Reason)
      → Returns (retry_or_fail values checkpoints names costs self s pid id reason)
  unfolding retry_or_fail
  retry_or_fail-Returns s pid id normal = (s, refl)
  retry_or_fail-Returns s pid id shutdown = fail_or_retry-Returns s pid id shutdown
  retry_or_fail-Returns s pid id (custom t) = fail_or_retry-Returns s pid id (custom t)

  worker_gone-Returns :
      (s : OrchestratorState V C) (pid : ℕ) (reason : Reason)
      → Returns (worker_gone values checkpoints names costs self s pid reason)
  unfolding worker_gone
  worker_gone-Returns s pid reason =
      option-Returns (HashMap.get s.active_workers pid) _ _ (_, refl)
        (λ id. retry_or_fail-Returns _ pid id reason)

  module _ (fuel now : ℕ) where
    dispatch_approved-Returns :
        (w : World K V) (s : OrchestratorState V C) (task : V) (id : String)
        → Returns (
            dispatch_approved values checkpoints names costs self
              (next_or_finalize values checkpoints names costs self fuel now)
              w
              s
              task
              id)
    unfolding dispatch_approved spawn_sub spawn_worker
    dispatch_approved-Returns w s task id =
        if-Returns (is_type values task "sub_orchestration") _ _
          (λ _.
            if-Returns (leb self.max_depth self.current_depth) _ _
              (λ deep. absurd (cc (deep, above))) (λ _. (_, refl)))
          (λ _. (_, refl))

    next_or_finalize-Returns :
        (w : World K V) (s : OrchestratorState V C)
        → Returns (next_or_finalize values checkpoints names costs self (suc fuel) now w s)
    unfolding next_or_finalize spawn_or_finalize dispatch spawn_worker ask finalize
    next_or_finalize-Returns w s =
        bind-Returns (poll_approval_registry values checkpoints names costs self w s) _
          (poll-Returns w s)
          (λ r e.
            if-Returns (can_spawn_more r.1 self.max_concurrency) _ _
              (λ _.
                list-Returns (ready_tasks r.1.task_graph) _ _ (_, refl)
                  (λ task tasks.
                    if-Returns (unwrap_or "" (str_field values task "task_id") == "") _ _
                      (λ _. (_, refl))
                      (λ _.
                        if-Returns (not (task_requires_approval values task)) _ _
                          (λ _. dispatch_approved-Returns r.0 r.1 task _)
                          (λ _.
                            option-Returns r.0.approvals _ _
                              (dispatch_approved-Returns r.0 r.1 task _) (λ reg. (_, refl))))))
              (λ _. finalize-Returns r.0 r.1))

    go_on-Returns :
        (w : World K V) (s : OrchestratorState V C)
        → Returns (go_on values checkpoints names costs self (suc fuel) now w s)
    unfolding go_on
    go_on-Returns w s = next_or_finalize-Returns _ s

    gone-Returns :
        (w : World K V) (s : OrchestratorState V C) (pid : ℕ) (reason : Reason)
        → Returns (
            worker_gone values checkpoints names costs self s pid reason
            >>= go_on values checkpoints names costs self (suc fuel) now w)
    gone-Returns w s pid reason =
        bind-Returns (worker_gone values checkpoints names costs self s pid reason) _
          (worker_gone-Returns s pid reason) (λ t e. go_on-Returns w t)

    handle-Returns :
        (w : World K V) (s : OrchestratorState V C) (message : Message V)
        → Distinct (HashMap.keys s.task_graph.tasks)
        → Returns (handle values checkpoints names costs self (suc fuel) now w s message)
    unfolding handle handle_json handle_down handle_progress handle_result handle_goal start_goal
        handle_spawned handle_decomposed
    handle-Returns w s (json payload) d =
        if-Returns (is_type values payload "worker_progress") _ _ (λ _. (_, refl))
          (λ _.
            if-Returns (is_type values payload "worker_result") _ _
              (λ _.
                option-Returns (u64_field values payload "worker_pid") _ _ (go_on-Returns w _)
                  (λ pid. (_, refl)))
              (λ _.
                if-Returns
                  (is_resumed values checkpoints names costs self (suc fuel) now s payload
                    (unwrap_or payload (values.get payload "goal")))
                  _ _ (λ _. go_on-Returns w _) (λ _. (_, refl))))
    handle-Returns w s (system (io_response id result)) d =
        let tasks = extract_tasks values s.goal result in
        let added = add_tasks-Outcome (task_format values) s.task_graph tasks d in
        bind-Returns (add_tasks (task_format values) s.task_graph tasks) _ (added.0, added.1)
          (λ r e. elim (Result-cases r.1) [
            | inl (_, good) ↦ rw good (go_on-Returns w _)
            | inr (x, bad) ↦ rw bad (_, refl)
          ])
    handle-Returns w s (system (spawn_result child monitor)) d =
        list-Returns s.pending_spawn_tasks _ _ (next_or_finalize-Returns w s)
          (λ task tasks. (_, refl))
    handle-Returns w s (system (down monitor pid reason)) d = gone-Returns w _ pid reason
    handle-Returns w s (system (exit from reason)) d = (_, refl)
    handle-Returns w s (system receive_timeout) d = (_, refl)
    handle-Returns w s (text message) d = (_, refl)

    -- Below the depth limit, and with no two tasks of the same id, the handling of any message and of
    -- the exit of any process returns, with fuel for one call of `next_or_finalize`.
    pub handle_message-Returns :
        (w : World K V) (s : OrchestratorState V C)
        → Distinct (HashMap.keys s.task_graph.tasks)
        → ((message : Message V)
            → Returns
                (handle_message values checkpoints names costs self (suc fuel) now w s message))
          × ((pid : ℕ) (reason : Reason)
              → Returns
                  (handle_exit values checkpoints names costs self (suc fuel) now w s pid reason))
    unfolding handle_message handle_exit SameKeys
    handle_message-Returns w s d = (
      λ message.
          bind-Returns (poll_approval_registry values checkpoints names costs self w s) _
            (poll-Returns w s)
            (λ r e.
              handle-Returns r.0 r.1 message (subst Distinct (sym (poll-SameKeys w s r e)) d)),
      λ pid reason. gone-Returns w s pid reason,
    )
