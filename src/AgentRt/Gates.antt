-- ===== src/AgentRt/Gates.antt =====
-- agent_rt/approval_gate.rs, agent_rt/resource_budget.rs, agent_rt/hot_code.rs and the worker of
-- agent_rt/orchestration.rs on small data.
use zeptobeam.Base.{
  ℕ, ◌+◌, ◌*◌, ◌/◌, ◌≡◌, ◌≤◌, refl, List, [], ◌∷◌, none, some, Option, String, false, true, arith,
  string_eq, pair_eq, nat_eq, ◌==◌, ◌&&◌, ok, leb, min, u64_max, if◌then◌else◌,
}
use zeptobeam.HashMap
use zeptobeam.AgentRt.Json.{Json}
use zeptobeam.AgentRt.Types.{Message, Reason, json, system, io_response, io_ok, io_timeout}
use zeptobeam.AgentRt.TaskGraph.{running, ready}
use zeptobeam.AgentRt.RetryPolicy
use zeptobeam.AgentRt.RetryPolicy.{no_retry}
use zeptobeam.AgentRt.ResourceBudget
use zeptobeam.AgentRt.Orchestration.{
  Checkpoints, OrchestratorBehavior, OrchestratorState, World, Names, handle_message, handle_exit,
}
use zeptobeam.AgentRt.Orchestration.Concurrency.{Within, handle_message-Within}
use zeptobeam.AgentRt.Orchestration.Returns.{Returns, handle_message-Returns}
use zeptobeam.AgentRt.Worker.{WorkerState, init}
use zeptobeam.AgentRt.Worker.Answers.{advance_all, start, answers-le-requests}
use zeptobeam.AgentRt.ApprovalGate
use zeptobeam.AgentRt.ApprovalGate.{approved, rejected}
use zeptobeam.AgentRt.ApprovalGate.Decisions
use zeptobeam.AgentRt.ApprovalGate.Decisions.{
  Call, call_request, call_submit, call_take, IsCovered, perform_all-IsCovered,
}
use zeptobeam.AgentRt.ResourceBudget.{Costs, TokenPricing, UsageReport, is_exhausted}
use zeptobeam.AgentRt.ResourceBudget.Usage.{total, after, is_exhausted-after}
use zeptobeam.AgentRt.HotCode.{
  HotCodeRegistry, get_factory, find_version, current_version, prepare_upgrade, prepare_rollback,
  register,
}
use zeptobeam.AgentRt.HotCode.Upgrade.{upgraded, prepare_rollback-upgraded}
use zeptobeam.AgentRt.HotCode.Factories.{to_option, get_factory-register}

abbrev deploy : String × String
deploy = ("orch-1", "deploy")

abbrev approvals : List (Call ℕ)
approvals =
    call_request 1 deploy "Deploy?" 0
    ∷ call_submit deploy approved
    ∷ call_take deploy
    ∷ call_submit deploy (rejected "late")
    ∷ call_take deploy
    ∷ []

perform_all-IsCovered_example : IsCovered deploy (
    Decisions.perform_all deploy
      (ApprovalGate.new, record { requested = 0; accepted = 0; taken = 0 })
      approvals)
perform_all-IsCovered_example = perform_all-IsCovered deploy approvals

-- Costs in cents.
abbrev cents : Costs ℕ
cents = record {
  zero_cost = 0;
  plus = λ a b. a + b;
  at_most = leb;
  price_of = λ tokens price. tokens * price / 1000;
}

abbrev reports : List UsageReport
reports =
    record { input_tokens = 700; output_tokens = 200; model = some "m" }
    ∷ record { input_tokens = 300; output_tokens = 0; model = none }
    ∷ []

abbrev prices : TokenPricing ℕ
prices = ("m", record { input_per_1k = 3; output_per_1k = 15 }) ∷ []

is_exhausted-after_example :
    ((after cents reports 1000 prices).tokens_used ≡ min (total reports) u64_max)
    × (is_exhausted cents (after cents reports 1000 prices)
        ≡ leb 1000 (min (total reports) u64_max))
is_exhausted-after_example = is_exhausted-after cents reports 1000 prices

-- Two versions of a behavior, and process 4 on the first one. A factory is a number.
abbrev versions : HotCodeRegistry ℕ
versions = record {
  behaviors =
      (
        "worker",
        record { name = "worker"; version = "v1"; factory = 1 }
            ∷ record { name = "worker"; version = "v2"; factory = 2 }
            ∷ [],
      )
      ∷ [];
  process_versions = (4, ("worker", "v1")) ∷ [];
  version_history = [];
}

runs_v1 : current_version versions 4 ≡ some ("worker", "v1")
unfolding current_version HashMap.get
runs_v1 = refl

has_v1 : get_factory versions "worker" "v1" ≡ ok 1
unfolding get_factory find_version HashMap.get
has_v1 = refl

has_v2 : get_factory versions "worker" "v2" ≡ ok 2
unfolding get_factory find_version HashMap.get
has_v2 = refl

prepare_rollback-upgraded_example :
    (prepare_upgrade versions 4 "v2" ≡ ok ("v1", 2))
    × (current_version (upgraded versions 4 "worker" "v1" "v2") 4 ≡ some ("worker", "v2"))
    × (prepare_rollback (upgraded versions 4 "worker" "v1" "v2") 4 ≡ ok ("v1", 1))
prepare_rollback-upgraded_example =
    prepare_rollback-upgraded versions 4 "worker" "v1" "v2" 2 1 runs_v1 has_v2 has_v1

get_factory-register_example :
    to_option (get_factory (register versions "worker" "v2" 9) "worker" "v2")
    ≡ (elim (to_option (get_factory versions "worker" "v2")) [
      | some old ↦ some old
      | none ↦
          if (◌==◌ {A = String} "worker" "worker") && (◌==◌ {A = String} "v2" "v2")
          then some 9
          else none
    ])
get_factory-register_example = get_factory-register versions "worker" "v2" 9 "worker" "v2"

-- JSON values of four kinds: an object is a field and the rest of it.
data Doc : Type 0 where
  nil : Doc
  num : ℕ → Doc
  str : String → Doc
  field : String → Doc → Doc → Doc

abbrev get_field : Doc → String → Option Doc
get_field nil key = none
get_field (num n) key = none
get_field (str s) key = none
get_field (field k v rest) key =
    let found = get_field rest key in if k == key then some v else found

abbrev object_of : List (String × Doc) → Doc
object_of [] = nil
object_of ((k, v) ∷ fields) = field k v (object_of fields)

abbrev docs : Json Doc
docs = record {
  null = nil;
  get = get_field;
  as_str = λ v. elim v [ nil ↦ none | num n ↦ none | str s ↦ some s | field k w rest ↦ none ];
  as_u64 = λ v. elim v [ nil ↦ none | num n ↦ some n | str s ↦ none | field k w rest ↦ none ];
  as_bool = λ v. none;
  as_array = λ v. none;
  to_text = λ v. "";
  equal = λ v w. false;
  string = str;
  number = num;
  boolean = λ b. nil;
  array = λ vs. nil;
  object = object_of;
  split = λ s. s ∷ [];
}

abbrev worker_args : Doc
worker_args = object_of (("parent_pid", num 1) ∷ ("max_turns", num 2) ∷ [])

abbrev new_worker : WorkerState
new_worker = record {
  parent = 1;
  task_id = "task";
  awaiting_result = false;
  worker_pid = none;
  max_turns = 2;
  turn_count = 0;
}

init-worker_args : init docs worker_args ≡ ok new_worker
unfolding init
init-worker_args = refl

abbrev work : List (Message Doc)
work =
    json (object_of (("type", str "run_task") ∷ ("worker_pid", num 5) ∷ []))
    ∷ system (io_response 1 (io_ok nil))
    ∷ system (io_response 2 io_timeout)
    ∷ json (object_of (("type", str "follow_up") ∷ []))
    ∷ system (io_response 3 (io_ok nil))
    ∷ []

answers-le-requests_example :
    ((advance_all (Unit {0}) docs (start new_worker) work).answers
      ≤ (advance_all (Unit {0}) docs (start new_worker) work).requests)
    × ((advance_all (Unit {0}) docs (start new_worker) work).answers ≤ 2)
answers-le-requests_example =
    answers-le-requests (Unit {0}) docs new_worker worker_args work init-worker_args (omega arith)

abbrev words : Names
words = record { task_name = λ n. "task"; sub_name = λ a b. b }

-- A checkpoint store that keeps the last one saved.
abbrev last_saved : Checkpoints (Option Doc) Doc
last_saved = record { save = λ k key v. some v; delete = λ k key. none }

abbrev conductor : OrchestratorBehavior Doc
conductor = record {
  max_concurrency = 2;
  aggregator = none;
  max_depth = 5;
  orch_id = "orch-0";
  current_depth = 0;
}

-- Worker 5 is on the task a, and the task b is ready.
abbrev halfway : OrchestratorState Doc ℕ
halfway = record {
  task_graph = record {
    tasks =
        (
          "a",
          record {
            task = object_of (("task_id", str "a") ∷ []);
            depends_on = [];
            status = running;
          },
        )
        ∷ (
          "b",
          record { task = object_of (("task_id", str "b") ∷ []); depends_on = []; status = ready },
        )
        ∷ [];
    insertion_order = "a" ∷ "b" ∷ [];
  };
  pending_spawn_tasks = [];
  active_workers = (5, "a") ∷ [];
  worker_monitors = [];
  inflight_tasks = [];
  results = [];
  partial_results = [];
  requester = none;
  goal = nil;
  self_pid = some 1;
  checkpoint_key = "k";
  resumed_from_checkpoint = false;
  awaiting_decomposition = false;
  decomposition_done = true;
  retry_tracker = RetryPolicy.new no_retry;
  budget = ResourceBudget.unlimited cents;
}

abbrev world : World (Option Doc) Doc
world = record { next_pid = 2147483648; store = some none; approvals = some ApprovalGate.new }

handle_message-Within_example :
    ((message : Message Doc)
      → Within docs last_saved words cents conductor 2
          (handle_message docs last_saved words cents conductor 1 7 world halfway message))
    × ((pid : ℕ) (reason : Reason)
        → Within docs last_saved words cents conductor 2
            (handle_exit docs last_saved words cents conductor 1 7 world halfway pid reason))
handle_message-Within_example =
    handle_message-Within docs last_saved words cents conductor 1 7 world halfway (omega arith)

handle_message-Returns_example :
    ((message : Message Doc)
      → Returns (handle_message docs last_saved words cents conductor 1 7 world halfway message))
    × ((pid : ℕ) (reason : Reason)
        → Returns (handle_exit docs last_saved words cents conductor 1 7 world halfway pid reason))
handle_message-Returns_example =
    handle_message-Returns docs last_saved words cents conductor refl 0 7 world halfway
      (refl, (refl, tt))
