-- ===== src/AgentRt/ApprovalGate.antt =====
-- agent_rt/approval_gate.rs: requests for approval and the decisions on them, by orchestrator and
-- task. The mutex of the shared registry is held for a call, so a call is one step.
pub mod Decisions
use zeptobeam.Base.{
  ℕ, List, [], ◌∷◌, map, Bool, true, false, Option, none, some, String, string_eq, pair_eq,
}
use zeptobeam.HashMap
use zeptobeam.HashMap.{HashMap}
use zeptobeam.AgentRt.Json.{Json}

pub record ApprovalRequest (V : Type 0) : Type 0 where
  pub message : String
  pub task : V
  pub requested_at : ℕ

pub data ApprovalDecision : Type 0 where
  approved : ApprovalDecision
  rejected : String → ApprovalDecision

pub record ApprovalRegistry (V : Type 0) : Type 0 where
  pub pending : HashMap (String × String) (ApprovalRequest V)
  pub decisions : HashMap (String × String) ApprovalDecision

unfoldable pub new : {V : Type 0} → ApprovalRegistry V
new = record { pending = []; decisions = [] }

unfoldable pub request_approval :
    {V : Type 0} → ℕ → ApprovalRegistry V → String → String → String → V → ApprovalRegistry V
request_approval now r orch_id task_id message task = record r {
  pending =
      HashMap.insert r.pending (orch_id, task_id)
        (record { message = message; task = task; requested_at = now });
}

unfoldable pub submit_decision :
    {V : Type 0}
    → ApprovalRegistry V
    → String
    → String
    → ApprovalDecision
    → ApprovalRegistry V × Bool
submit_decision r orch_id task_id decision = elim (HashMap.get r.pending (orch_id, task_id)) [
  | none ↦ (r, false)
  | some _ ↦ (
    record {
      pending = HashMap.remove r.pending (orch_id, task_id);
      decisions = HashMap.insert r.decisions (orch_id, task_id) decision;
    },
    true,
  )
]

unfoldable pub take_decision :
    {V : Type 0}
    → ApprovalRegistry V
    → String
    → String
    → ApprovalRegistry V × Option ApprovalDecision
take_decision r orch_id task_id = (
  record r { decisions = HashMap.remove r.decisions (orch_id, task_id) },
  HashMap.get r.decisions (orch_id, task_id),
)

unfoldable pub pending_requests :
    {V : Type 0} → ApprovalRegistry V → List (String × String × ApprovalRequest V)
pending_requests r = map (λ e. (e.0.0, e.0.1, e.1)) r.pending

unfoldable pub has_pending : {V : Type 0} → ApprovalRegistry V → String → String → Bool
has_pending r orch_id task_id = HashMap.contains_key r.pending (orch_id, task_id)

unfoldable pub task_requires_approval : {V : Type 0} → Json V → V → Bool
task_requires_approval json task = elim (json.get task "requires_approval") [
  | none ↦ false
  | some v ↦ elim (json.as_bool v) [ none ↦ false | some b ↦ b ]
]

unfoldable pub approval_message : {V : Type 0} → Json V → V → String
approval_message json task = elim (json.get task "approval_message") [
  | none ↦ "Approval required"
  | some v ↦ elim (json.as_str v) [ none ↦ "Approval required" | some s ↦ s ]
]
