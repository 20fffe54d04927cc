-- ===== src/AgentRt/Orchestration.antt =====
-- agent_rt/orchestration.rs: `OrchestratorBehavior`, which splits a goal into tasks and has workers
-- spawned for them. The checkpoint store is a parameter, a state K with its operations, whose errors
-- the code ignores. The store and the shared approval registry are passed on in a `World`.
pub mod Concurrency
pub mod Returns
use zeptobeam.Base.{
  ℕ, zero, suc, ◌+◌, ◌%◌, ◌^◌, List, [], ◌∷◌, ◌++◌, map, Bool, true, false, not, ◌&&◌, ◌||◌, Option,
  none, some, String, string_eq, nat_eq, ◌==◌, is_empty, ltb, leb, max, if◌then◌else◌, Result, ok,
  err, ◌>>=◌, length,
}
use zeptobeam.HashMap
use zeptobeam.HashMap.{HashMap}
use zeptobeam.AgentRt.Json.{Json}
use zeptobeam.AgentRt.Types.{
  Reason, normal, shutdown, custom, IoResult, io_ok, io_error, io_timeout, SystemMsg, exit,
  io_response, spawn_result, down, receive_timeout, Message, text, json, system, IoOp, custom_op,
  Action, continue, send_to, io_request, spawn, stop,
}
use zeptobeam.AgentRt.TaskGraph as Graph
use zeptobeam.AgentRt.TaskGraph.{
  TaskGraph, TaskFormat, TaskStatus, ready, awaiting_approval, ready_tasks, fail_dependents,
  mark_failed, mark_running, mark_completed,
}
use zeptobeam.AgentRt.TaskGraph.Adding.{AddError, missing_task_id, cycle_detected, add_tasks}
use zeptobeam.AgentRt.ApprovalGate.{
  ApprovalRegistry, ApprovalDecision, approved, rejected, request_approval, take_decision,
  task_requires_approval, approval_message,
}
use zeptobeam.AgentRt.RetryPolicy.{RetryTracker, should_retry}
use zeptobeam.AgentRt.ResourceBudget.{ResourceBudget, Costs, record_usage, parse_usage}
use zeptobeam.AgentRt.Worker.{str_field, u64_field, is_type, strings_of, unwrap_or, or_else}

pub record Checkpoints (K V : Type 0) : Type 0 where
  pub save : K → String → V → K
  pub delete : K → String → K

pub record OrchestratorBehavior (V : Type 0) : Type 0 where
  pub max_concurrency : ℕ
  pub aggregator : Option (List V → V)
  pub max_depth : ℕ
  pub orch_id : String
  pub current_depth : ℕ

-- What an orchestrator spawns.
pub data Child (V : Type 0) : Type 0 where
  worker : Child V
  sub_orchestrator : OrchestratorBehavior V → Child V

-- `next_pid` is the static counter from which `AgentPid::default()` draws.
pub record World (K V : Type 0) : Type 0 where
  pub next_pid : ℕ
  pub store : Option K
  pub approvals : Option (ApprovalRegistry V)

pub record OrchestratorState (V C : Type 0) : Type 0 where
  pub task_graph : TaskGraph V
  pub pending_spawn_tasks : List V
  pub active_workers : HashMap ℕ String
  pub worker_monitors : HashMap ℕ ℕ
  pub inflight_tasks : HashMap String V
  pub results : List V
  pub partial_results : HashMap String (List V)
  pub requester : Option ℕ
  pub goal : V
  pub self_pid : Option ℕ
  pub checkpoint_key : String
  pub resumed_from_checkpoint : Bool
  pub awaiting_decomposition : Bool
  pub decomposition_done : Bool
  pub retry_tracker : RetryTracker
  pub budget : ResourceBudget C

module _ {V C : Type 0} where
  unfoldable pub can_spawn_more : OrchestratorState V C → ℕ → Bool
  can_spawn_more s max_concurrency =
      if not s.decomposition_done || s.awaiting_decomposition
      then false
      else if is_empty (ready_tasks s.task_graph)
      then false
      else ltb (length s.active_workers + length s.pending_spawn_tasks) (max max_concurrency 1)

  unfoldable pub is_complete : OrchestratorState V C → Bool
  is_complete s =
      s.decomposition_done
      && (not s.awaiting_decomposition
          && (Graph.is_complete s.task_graph
              && (is_empty s.pending_spawn_tasks && is_empty s.active_workers)))

  abbrev pub put_graph : OrchestratorState V C → TaskGraph V → OrchestratorState V C
  put_graph s g = record s { task_graph = g }

  abbrev pub push_result : OrchestratorState V C → V → OrchestratorState V C
  push_result s v = record s { results = s.results ++ v ∷ [] }

module _ {V : Type 0} (values : Json V) (self : OrchestratorBehavior V) where
  -- The decisions on the tasks that are ready and ask for approval.
  unfoldable pub collect :
      ApprovalRegistry V → List V → ApprovalRegistry V × List (String × ApprovalDecision)
  collect r [] = (r, [])
  collect r (task ∷ tasks) =
      let skip = collect r tasks in
      elim (str_field values task "task_id") [
        | none ↦ skip
        | some id ↦
            let (r', found) = take_decision r self.orch_id id in
            let (r'', rest) = collect r' tasks in
            if task_requires_approval values task
            then (r'', elim found [ none ↦ rest | some d ↦ (id, d) ∷ rest ])
            else skip
      ]

unfoldable pub decide :
    {V : Type 0} → ApprovalDecision → TaskGraph V → String → Option (TaskGraph V)
decide approved g id = some (Graph.set_status g id ready)
decide (rejected reason) g id = fail_dependents (mark_failed g id) id

unfoldable pub decide_all :
    {V : Type 0} → List (String × ApprovalDecision) → TaskGraph V → Option (TaskGraph V)
unfolding decide
decide_all [] g = some g
decide_all ((id, d) ∷ ds) g = decide d g id >>= decide_all ds

-- `format!` of the names of tasks and of orchestrators.
pub record Names : Type 0 where
  pub task_name : ℕ → String
  pub sub_name : String → String → String

abbrev pub reason_to_value : {V : Type 0} → Json V → Reason → V
reason_to_value values normal = values.string "normal"
reason_to_value values shutdown = values.string "shutdown"
reason_to_value values (custom s) = values.string s

-- The error of `add_tasks`, as it is put among the results.
abbrev pub error_value : {V : Type 0} → Json V → AddError → V
error_value values missing_task_id =
    values.object (("error", values.string "cycle detected: Task missing task_id") ∷ [])
error_value values cycle_detected =
    values.object
      (("error", values.string "cycle detected: Cycle detected in task dependencies") ∷ [])

-- How a task is read.
abbrev pub task_format : {V : Type 0} → Json V → TaskFormat V
task_format values = record {
  task_id = λ task. str_field values task "task_id";
  depends_on = λ task.
      unwrap_or []
        (values.get task "depends_on" >>= values.as_array >>= λ vs. some (strings_of values vs));
}

unfoldable pub extract_tasks : {V : Type 0} → Json V → V → IoResult V → List V
extract_tasks {V} values goal result =
    let fallback : List V =
      values.object (("task_id", values.string "task-0") ∷ ("goal", goal) ∷ []) ∷ [] in
    let of_value : V → List V = λ v.
      elim (or_else (values.get v "tasks") (values.get v "payload" >>= λ p. values.get p "tasks")
        >>= values.as_array) [
          | none ↦ fallback
          | some tasks ↦ if is_empty tasks then fallback else tasks
        ] in
    elim result [ io_ok v ↦ of_value v | io_error e ↦ fallback | io_timeout ↦ fallback ]

module _ {V C K : Type 0} (values : Json V) (checkpoints : Checkpoints K V) (names : Names)
    (costs : Costs C) (self : OrchestratorBehavior V) where
  abbrev pub Here : Type 0
  Here = World K V × OrchestratorState V C

  abbrev pub Step : Type 0
  Step = Option (Action V (Child V) × Here)

  unfoldable pub persist_checkpoint : World K V → OrchestratorState V C → World K V
  persist_checkpoint w s = elim w.store [
    | none ↦ w
    | some store ↦ record w {
      store = some (
          checkpoints.save store s.checkpoint_key (
            values.object (
              ("goal", s.goal)
              ∷ ("completed_results", values.array s.results)
              ∷ (
                "pending_tasks",
                values.array (
                    ready_tasks s.task_graph
                    ++ (s.pending_spawn_tasks ++ HashMap.values s.inflight_tasks)),
              )
              ∷ [])));
    }
  ]

  unfoldable pub clear_checkpoint : World K V → OrchestratorState V C → World K V
  clear_checkpoint w s = elim w.store [
    | none ↦ w
    | some store ↦ record w { store = some (checkpoints.delete store s.checkpoint_key) }
  ]

  unfoldable pub poll_approval_registry : World K V → OrchestratorState V C → Option Here
  unfolding collect decide_all
  poll_approval_registry w s = elim w.approvals [
    | none ↦ some (w, s)
    | some r ↦
        let (r', decisions) = collect values self r (ready_tasks s.task_graph) in
        decide_all decisions s.task_graph >>= λ g.
        some (record w { approvals = some r' }, put_graph s g)
  ]

  -- `self_pid.unwrap_or_default()`: without a pid of its own, a fresh one.
  unfoldable pub pid_or_fresh : World K V → Option ℕ → ℕ × World K V
  pid_or_fresh w (some pid) = (pid, w)
  pid_or_fresh w none = (w.next_pid, record w { next_pid = (w.next_pid + 1) % 2 ^ 64 })

  -- The spawn of a worker for a task that is put among the pending ones.
  unfoldable pub spawn_worker : World K V → OrchestratorState V C → V → String → Step
  unfolding persist_checkpoint pid_or_fresh
  spawn_worker w s task id =
      let s' = record s { pending_spawn_tasks = s.pending_spawn_tasks ++ task ∷ [] } in
      let (parent, w') = pid_or_fresh (persist_checkpoint w s') s.self_pid in
      some (
        spawn worker
            (values.object
              (("parent_pid", values.number parent) ∷ ("task_id", values.string id) ∷ []))
            false true,
        (w', s'),
      )

  unfoldable pub spawn_sub : World K V → OrchestratorState V C → V → String → Step
  spawn_sub w s task id = some (
    spawn
        (sub_orchestrator (record self {
          max_concurrency =
              unwrap_or self.max_concurrency (u64_field values task "max_concurrency");
          orch_id = names.sub_name self.orch_id id;
          current_depth = self.current_depth + 1;
        }))
        (values.object (
          ("goal", unwrap_or values.null (values.get task "goal"))
          ∷ ("parent_pid", elim s.self_pid [ none ↦ values.null | some p ↦ values.number p ])
          ∷ []))
        false true,
    (w, s),
  )

  -- The task is sent for approval.
  unfoldable pub ask :
      World K V → ApprovalRegistry V → ℕ → OrchestratorState V C → V → String → Step
  ask w r now s task id = some (
    continue,
    (
      record w {
        approvals =
            some (request_approval now r self.orch_id id (approval_message values task) task);
      },
      put_graph s (Graph.set_status s.task_graph id awaiting_approval),
    ),
  )

  -- The parts of `next_or_finalize`: `again` is its call of itself.
  unfoldable pub dispatch_approved :
      (World K V → OrchestratorState V C → Step)
      → World K V
      → OrchestratorState V C
      → V
      → String
      → Step
  unfolding spawn_worker spawn_sub
  dispatch_approved again w s task id =
      if is_type values task "sub_orchestration"
      then if leb self.max_depth self.current_depth
        then again w (
            push_result (put_graph s (mark_failed s.task_graph id)) (
              values.object (
                ("type", values.string "sub_orchestration_depth_exceeded")
                ∷ ("task_id", values.string id)
                ∷ [])))
        else spawn_sub w s task id
      else spawn_worker w (put_graph s (mark_running s.task_graph id)) task id

  unfoldable pub dispatch :
      (World K V → OrchestratorState V C → Step) → ℕ → World K V → OrchestratorState V C → V → Step
  unfolding spawn_worker ask dispatch_approved
  dispatch again now w s task =
      let id = unwrap_or "" (str_field values task "task_id") in
      let fallback = names.task_name (length s.active_workers + length s.pending_spawn_tasks) in
      if id == ""
      then spawn_worker w s task (unwrap_or fallback (str_field values task "task_id"))
      else if not (task_requires_approval values task)
      then dispatch_approved again w s task id
      else elim w.approvals [
        | none ↦ dispatch_approved again w s task id
        | some r ↦ ask w r now s task id
      ]

  unfoldable pub finalize : World K V → OrchestratorState V C → Step
  unfolding is_complete clear_checkpoint
  finalize w s =
      if not (is_complete s)
      then some (continue, (w, s))
      else some (
        elim s.requester [
          | none ↦ stop normal
          | some to ↦ send_to to (
              json (
                values.object (
                  ("type", values.string "orchestration_complete")
                  ∷ ("goal", s.goal)
                  ∷ (
                    "results",
                    elim self.aggregator [
                      | none ↦ values.array s.results
                      | some aggregate ↦ aggregate s.results
                    ],
                  )
                  ∷ [])))
        ],
        (clear_checkpoint w s, s),
      )

  unfoldable pub spawn_or_finalize :
      (World K V → OrchestratorState V C → Step) → ℕ → World K V → OrchestratorState V C → Step
  unfolding can_spawn_more dispatch finalize
  spawn_or_finalize again now w s =
      if can_spawn_more s self.max_concurrency
      then (elim (ready_tasks s.task_graph) [
        | [] ↦ some (continue, (w, s))
        | task ∷ tasks ↦ dispatch again now w s task
      ])
      else finalize w s

  -- `none` when the fuel, which bounds the tasks passed over at the depth limit, runs out.
  unfoldable pub next_or_finalize : ℕ → ℕ → World K V → OrchestratorState V C → Step
  unfolding poll_approval_registry spawn_or_finalize
  next_or_finalize zero now w s = none
  next_or_finalize (suc fuel) now w s =
      poll_approval_registry w s >>= λ r. spawn_or_finalize (next_or_finalize fuel now) now r.0 r.1

  -- What `Down` and `handle_exit` do for a worker that is gone.
  unfoldable pub fail_or_retry :
      OrchestratorState V C → ℕ → String → Reason → Option (OrchestratorState V C)
  fail_or_retry s pid id reason =
      let (tracker, delay) = should_retry s.retry_tracker id in
      let tracked = record s { retry_tracker = tracker } in
      elim delay [
        | some _ ↦ some (put_graph tracked (Graph.set_status s.task_graph id ready))
        | none ↦ fail_dependents (mark_failed s.task_graph id) id >>= λ g. some (
            push_result (put_graph tracked g) (
              values.object (
                ("type", values.string "worker_error")
                ∷ ("worker_pid", values.number pid)
                ∷ ("task_id", values.string id)
                ∷ ("reason", reason_to_value values reason)
                ∷ [])))
      ]

  unfoldable pub retry_or_fail :
      OrchestratorState V C → ℕ → String → Reason → Option (OrchestratorState V C)
  unfolding fail_or_retry
  retry_or_fail s pid id normal = some s
  retry_or_fail s pid id shutdown = fail_or_retry s pid id shutdown
  retry_or_fail s pid id (custom message) = fail_or_retry s pid id (custom message)

  unfoldable pub worker_gone : OrchestratorState V C → ℕ → Reason → Option (OrchestratorState V C)
  unfolding retry_or_fail
  worker_gone s pid reason =
      let removed = record s { active_workers = HashMap.remove s.active_workers pid } in
      elim (HashMap.get s.active_workers pid) [
        | none ↦ some removed
        | some id ↦
            retry_or_fail (record removed { inflight_tasks = HashMap.remove s.inflight_tasks id })
              pid id reason
      ]

  module _ (fuel now : ℕ) where
    -- A checkpoint, and then the next task or the end.
    unfoldable pub go_on : World K V → OrchestratorState V C → Step
    unfolding persist_checkpoint next_or_finalize
    go_on w s = next_or_finalize fuel now (persist_checkpoint w s) s

    unfoldable pub handle_exit : World K V → OrchestratorState V C → ℕ → Reason → Step
    unfolding go_on worker_gone
    handle_exit w s from reason = worker_gone s from reason >>= go_on w

    unfoldable pub handle_down : World K V → OrchestratorState V C → ℕ → Reason → Step
    unfolding go_on worker_gone
    handle_down w s pid reason =
        worker_gone (record s { worker_monitors = HashMap.remove s.worker_monitors pid }) pid reason
        >>= go_on w

    unfoldable pub handle_spawned : World K V → OrchestratorState V C → ℕ → Option ℕ → Step
    unfolding next_or_finalize persist_checkpoint
    handle_spawned w s child monitor = elim s.pending_spawn_tasks [
      | [] ↦ next_or_finalize fuel now w s
      | task ∷ tasks ↦
          let id = unwrap_or (names.task_name child) (str_field values task "task_id") in
          let s' = record s {
            pending_spawn_tasks = tasks;
            active_workers = HashMap.insert s.active_workers child id;
            inflight_tasks = HashMap.insert s.inflight_tasks id task;
            worker_monitors = elim monitor [
              | none ↦ s.worker_monitors
              | some m ↦ HashMap.insert s.worker_monitors child m
            ];
          } in
          some (
            send_to child (
                json (
                  values.object (
                    ("type", values.string "run_task")
                    ∷ ("worker_pid", values.number child)
                    ∷ (
                      "monitor_ref",
                      elim monitor [ none ↦ values.null | some m ↦ values.number m ],
                    )
                    ∷ ("task_id", values.string id)
                    ∷ ("task", task)
                    ∷ []))),
            (persist_checkpoint w s', s'),
          )
    ]

    unfoldable pub handle_decomposed : World K V → OrchestratorState V C → IoResult V → Step
    unfolding go_on extract_tasks
    handle_decomposed w s result =
        add_tasks (task_format values) s.task_graph (extract_tasks values s.goal result) >>= λ r.
        let s' = record s {
          task_graph = r.0;
          awaiting_decomposition = false;
          decomposition_done = true;
        } in
        elim r.1 [
          | ok _ ↦ go_on w s'
          | err e ↦ some (continue, (w, push_result s' (error_value values e)))
        ]

    unfoldable pub handle_progress : World K V → OrchestratorState V C → V → Step
    handle_progress w s payload =
        let s' = elim (str_field values payload "task_id") as (λ _. OrchestratorState V C) [
          | none ↦ s
          | some id ↦ record s {
            partial_results =
                HashMap.insert s.partial_results id
                  (unwrap_or [] (HashMap.get s.partial_results id) ++ payload ∷ []);
          }
        ] in
        some (elim s.requester [ none ↦ continue | some to ↦ send_to to (json payload) ], (w, s'))

    -- The task of a result is completed, and its usage is recorded.
    unfoldable pub take_result : OrchestratorState V C → V → OrchestratorState V C
    take_result s payload =
        let id = str_field values payload "task_id" in
        push_result
          (record s {
            budget = elim (parse_usage values payload) [
              | none ↦ s.budget
              | some usage ↦ (record_usage costs s.budget usage).0
            ];
            task_graph = elim id [ none ↦ s.task_graph | some i ↦ mark_completed s.task_graph i ];
            inflight_tasks = elim id [
              | none ↦ s.inflight_tasks
              | some i ↦ HashMap.remove s.inflight_tasks i
            ];
          })
          payload

    unfoldable pub handle_result : World K V → OrchestratorState V C → V → Step
    unfolding take_result go_on persist_checkpoint
    handle_result w s payload =
        let s' = take_result s payload in
        elim (u64_field values payload "worker_pid") [
          | none ↦ go_on w s'
          | some pid ↦ some (
            send_to pid (json (values.object (("type", values.string "shutdown_worker") ∷ []))),
            (persist_checkpoint w s', s'),
          )
        ]

    abbrev pub with_pids : OrchestratorState V C → V → OrchestratorState V C
    with_pids s payload = record s {
      requester = or_else (u64_field values payload "requester_pid") s.requester;
      self_pid = or_else (u64_field values payload "self_pid") s.self_pid;
      resumed_from_checkpoint = false;
    }

    abbrev pub is_restart : V → Bool
    is_restart payload = unwrap_or false (values.get payload "restart" >>= values.as_bool)

    -- Whether the goal of a message is the one that was resumed from a checkpoint.
    abbrev pub is_resumed : OrchestratorState V C → V → V → Bool
    is_resumed s payload goal =
        s.resumed_from_checkpoint && (values.equal goal s.goal && not (is_restart payload))

    -- A new goal: everything starts again with its decomposition.
    unfoldable pub start_goal : World K V → OrchestratorState V C → V → V → Step
    unfolding persist_checkpoint
    start_goal w s payload goal =
        let s' = record (with_pids s payload) {
          goal = goal;
          task_graph = Graph.new;
          pending_spawn_tasks = [];
          active_workers = [];
          worker_monitors = [];
          inflight_tasks = [];
          results = [];
          partial_results = [];
          awaiting_decomposition = true;
          decomposition_done = false;
        } in
        some (
          io_request (custom_op "decompose_goal" (values.object (("goal", goal) ∷ []))),
          (persist_checkpoint w s', s'),
        )

    unfoldable pub handle_goal : World K V → OrchestratorState V C → V → Step
    unfolding go_on start_goal
    handle_goal w s payload =
        let goal = unwrap_or payload (values.get payload "goal") in
        if is_resumed s payload goal
        then go_on w (with_pids s payload)
        else start_goal w s payload goal

    unfoldable pub handle_json : World K V → OrchestratorState V C → V → Step
    unfolding handle_progress handle_result handle_goal
    handle_json w s payload =
        if is_type values payload "worker_progress"
        then handle_progress w s payload
        else if is_type values payload "worker_result"
        then handle_result w s payload
        else handle_goal w s payload

    unfoldable pub handle : World K V → OrchestratorState V C → Message V → Step
    unfolding handle_json handle_decomposed handle_spawned handle_down
    handle w s (json payload) = handle_json w s payload
    handle w s (system (io_response id result)) = handle_decomposed w s result
    handle w s (system (spawn_result child monitor)) = handle_spawned w s child monitor
    handle w s (system (down monitor pid reason)) = handle_down w s pid reason
    handle w s (system (exit from reason)) = some (continue, (w, s))
    handle w s (system receive_timeout) = some (continue, (w, s))
    handle w s (text message) = some (continue, (w, s))

    unfoldable pub handle_message : World K V → OrchestratorState V C → Message V → Step
    unfolding poll_approval_registry handle
    handle_message w s message = poll_approval_registry w s >>= λ r. handle r.0 r.1 message
