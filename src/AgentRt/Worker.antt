-- ===== src/AgentRt/Worker.antt =====
-- agent_rt/orchestration.rs: `WorkerBehavior`, the agent that works on one subtask. B is the type of
-- behaviors in actions, of which a worker spawns none.
pub mod Answers
use zeptobeam.Base.{
  ℕ, ◌+◌, ◌%◌, ◌^◌, List, [], ◌∷◌, Bool, true, false, not, Option, none, some, String, string_eq,
  ◌==◌, leb, if◌then◌else◌, Result, ok, err, ◌>>=◌,
}
use zeptobeam.AgentRt.Json.{Json}
use zeptobeam.AgentRt.Types.{
  Reason, normal, shutdown, custom, IoResult, io_ok, io_error, io_timeout, SystemMsg, exit,
  io_response, spawn_result, down, receive_timeout, Message, text, json, system, IoOp, agent_chat,
  Action, continue, send_to, io_request, stop,
}

pub record WorkerState : Type 0 where
  pub parent : ℕ
  pub task_id : String
  pub awaiting_result : Bool
  pub worker_pid : Option ℕ
  pub max_turns : ℕ
  pub turn_count : ℕ

abbrev pub default_llm_provider : String
default_llm_provider = "openai"

abbrev pub unwrap_or : {A : Type 0} → A → Option A → A
unwrap_or d none = d
unwrap_or d (some a) = a

abbrev pub or_else : {A : Type 0} → Option A → Option A → Option A
or_else none o = o
or_else (some a) o = some a

module _ {V : Type 0} (values : Json V) where
  abbrev pub str_field : V → String → Option String
  str_field v key = values.get v key >>= values.as_str

  abbrev pub u64_field : V → String → Option ℕ
  u64_field v key = values.get v key >>= values.as_u64

  unfoldable pub is_type : V → String → Bool
  is_type payload name = elim (str_field payload "type") [ none ↦ false | some t ↦ t == name ]

  unfoldable pub init : V → Result WorkerState Reason
  init args = elim (u64_field args "parent_pid") [
    | none ↦ err (custom "worker init requires parent_pid")
    | some parent ↦ ok (record {
      parent = parent;
      task_id = unwrap_or "task" (str_field args "task_id");
      awaiting_result = false;
      worker_pid = none;
      max_turns = unwrap_or 10 (u64_field args "max_turns");
      turn_count = 0;
    })
  ]

  unfoldable pub strings_of : List V → List String
  strings_of [] = []
  strings_of (v ∷ vs) =
      let rest = strings_of vs in elim (values.as_str v) [ none ↦ rest | some s ↦ s ∷ rest ]

  unfoldable pub build_llm_request_from_task : V → IoOp V
  unfolding strings_of
  build_llm_request_from_task task =
      agent_chat (unwrap_or default_llm_provider (str_field task "provider"))
        (str_field task "model") (str_field task "system")
        (unwrap_or (values.to_text task)
          (or_else (str_field task "prompt") (str_field task "goal")))
        (values.get task "tools" >>= values.as_array >>= λ vs. some (strings_of vs))
        (u64_field task "max_iterations") (u64_field task "timeout_ms")

  unfoldable pub io_result_to_value : IoResult V → V
  io_result_to_value (io_ok v) = values.object (("ok", values.boolean true) ∷ ("value", v) ∷ [])
  io_result_to_value (io_error e) =
      values.object (("ok", values.boolean false) ∷ ("error", values.string e) ∷ [])
  io_result_to_value io_timeout =
      values.object (("ok", values.boolean false) ∷ ("error", values.string "timeout") ∷ [])

  -- The message that takes a result to the orchestrator.
  unfoldable pub worker_result : WorkerState → IoResult V → Message V
  unfolding io_result_to_value
  worker_result s result = json (
      values.object (
        ("type", values.string "worker_result")
        ∷ ("worker_pid", elim s.worker_pid [ none ↦ values.null | some p ↦ values.number p ])
        ∷ ("task_id", values.string s.task_id)
        ∷ ("result", io_result_to_value result)
        ∷ []))

  module _ {B : Type 0} where
    unfoldable pub follow_up : V → WorkerState → Action V B × WorkerState
    follow_up payload s =
        if s.awaiting_result
        then (
          send_to s.parent (json (values.object (("type", values.string "worker_busy") ∷ []))),
          s,
        )
        else (
          io_request (
              agent_chat "default" none none (unwrap_or "" (str_field payload "prompt")) none none
                none),
          record s { awaiting_result = true },
        )

    unfoldable pub run_task : V → WorkerState → Action V B × WorkerState
    unfolding build_llm_request_from_task
    run_task payload s = (
      io_request (build_llm_request_from_task (unwrap_or values.null (values.get payload "task"))),
      record s {
        worker_pid = u64_field payload "worker_pid";
        task_id = unwrap_or s.task_id (str_field payload "task_id");
        awaiting_result = true;
      },
    )

    unfoldable pub handle_json : V → WorkerState → Action V B × WorkerState
    unfolding is_type follow_up run_task
    handle_json payload s =
        if is_type payload "shutdown_worker"
        then (stop normal, s)
        else if is_type payload "follow_up"
        then follow_up payload s
        else if is_type payload "run_task"
        then run_task payload s
        else (continue, s)

    unfoldable pub handle_response : IoResult V → WorkerState → Action V B × WorkerState
    unfolding worker_result
    handle_response result s =
        if not s.awaiting_result
        then (continue, s)
        else let s' = record s {
          awaiting_result = false;
          turn_count = (s.turn_count + 1) % 2 ^ 64;
        } in
          if leb s'.max_turns s'.turn_count
          then (stop normal, s')
          else (send_to s'.parent (worker_result s' result), s')

    unfoldable pub handle_message : Message V → WorkerState → Action V B × WorkerState
    unfolding handle_json handle_response
    handle_message (json payload) s = handle_json payload s
    handle_message (system (io_response id result)) s = handle_response result s
    handle_message (system receive_timeout) s = (stop shutdown, s)
    handle_message (system (exit from reason)) s = (continue, s)
    handle_message (system (spawn_result child monitor)) s = (continue, s)
    handle_message (system (down monitor pid reason)) s = (continue, s)
    handle_message (text message) s = (continue, s)
