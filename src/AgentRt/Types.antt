-- ===== src/AgentRt/Types.antt =====
-- agent_rt/types.rs: messages, actions and the interfaces of what the runtime does not implement.
use zeptobeam.Base.{ℕ, String, List, Bool, Option, Result}

pub data Reason : Type 0 where
  normal shutdown : Reason
  custom : String → Reason

pub data IoResult (V : Type 0) : Type 0 where
  io_ok : V → IoResult V
  io_error : String → IoResult V
  io_timeout : IoResult V

pub data SystemMsg (V : Type 0) : Type 0 where
  exit : ℕ → Reason → SystemMsg V
  io_response : ℕ → IoResult V → SystemMsg V
  spawn_result : ℕ → Option ℕ → SystemMsg V
  down : ℕ → ℕ → Reason → SystemMsg V
  receive_timeout : SystemMsg V

pub data Message (V : Type 0) : Type 0 where
  text : String → Message V
  json : V → Message V
  system : SystemMsg V → Message V

-- Durations in milliseconds.
pub data IoOp (V : Type 0) : Type 0 where
  http_request : String → String → List (String × String) → Option (List ℕ) → Option ℕ → IoOp V
  timer : ℕ → IoOp V
  custom_op : String → V → IoOp V
  agent_chat :
      String
      → Option String
      → Option String
      → String
      → Option (List String)
      → Option ℕ
      → Option ℕ
      → IoOp V
  agent_destroy : ℕ → IoOp V

pub data Action (V B : Type 0) : Type 0 where
  continue : Action V B
  send_to : ℕ → Message V → Action V B
  io_request : IoOp V → Action V B
  spawn : B → V → Bool → Bool → Action V B
  stop : Reason → Action V B

-- A callback under `catch_unwind`: it returns an action and the state that it mutated, or panics.
pub data Outcome (A S : Type 0) : Type 0 where
  returned : A → S → Outcome A S
  panicked : String → Outcome A S

-- What the runtime is given: JSON values, the `AgentBehavior` of the user with its `AgentState`,
-- the bridge to the asynchronous I/O workers, and the optional message hook.
pub record Env : Type 1 where
  pub Value : Type 0
  pub Behavior : Type 0
  pub State : Type 0
  pub Bridge : Type 0
  pub Hook : Type 0
  pub Handler : Type 0
  pub init : Behavior → Value → Result State Reason
  pub handle_message : Behavior → Message Value → State → Outcome (Action Value Behavior) State
  pub handle_exit : Behavior → ℕ → Reason → State → Outcome (Action Value Behavior) State
  pub submit : Bridge → ℕ → IoOp Value → Bridge × Option String
  pub drain_responses : Bridge → Bridge × List (ℕ × Message Value)
  pub cancel : Bridge → ℕ → Bridge
  pub shut_down : Bridge → ℕ → Bridge
  pub on_send : Hook → ℕ → Message Value → Hook × Option String
