-- ===== src/AgentRt/ApprovalGate/Decisions.antt =====
-- agent_rt/approval_gate.rs: how often a decision is taken.
use zeptobeam.Base.{
  ℕ, ◌+◌, ◌≤◌, ◌≡◌, List, [], ◌∷◌, Bool, some, is_some, String, string_eq, pair_eq, ◌==◌,
  if◌then◌else◌, arith, inl, inr, Option-cases, Bool-cases, ap, sym, ◌∙◌,
}
use zeptobeam.HashMap
use zeptobeam.AgentRt.ApprovalGate.{
  ApprovalRegistry, ApprovalDecision, new, request_approval, submit_decision, take_decision,
}

pub data Call (V : Type 0) : Type 0 where
  call_request : ℕ → String × String → String → V → Call V
  call_submit : String × String → ApprovalDecision → Call V
  call_take : String × String → Call V

-- How often, for one task, approval was requested, a submission was accepted and a decision taken.
pub record Tally : Type 0 where
  pub requested : ℕ
  pub accepted : ℕ
  pub taken : ℕ

abbrev pub one_if : Bool → ℕ
one_if b = if b then 1 else 0

module _ {V : Type 0} (task : String × String) where
  unfoldable pub perform : ApprovalRegistry V × Tally → Call V → ApprovalRegistry V × Tally
  unfolding request_approval submit_decision take_decision
  perform (r, t) (call_request now id message value) = (
    request_approval now r id.0 id.1 message value,
    record t { requested = t.requested + one_if (id == task) },
  )
  perform (r, t) (call_submit id decision) =
      let (r', done) = submit_decision r id.0 id.1 decision in
      (r', record t { accepted = t.accepted + (if id == task then one_if done else 0) })
  perform (r, t) (call_take id) =
      let (r', found) = take_decision r id.0 id.1 in
      (r', record t { taken = t.taken + (if id == task then one_if (is_some found) else 0) })

  unfoldable pub perform_all :
      ApprovalRegistry V × Tally → List (Call V) → ApprovalRegistry V × Tally
  unfolding perform
  perform_all s [] = s
  perform_all s (c ∷ cs) = perform_all (perform s c) cs

  -- The tally covers what is pending and what is decided.
  pub record IsCovered (s : ApprovalRegistry V × Tally) : Type 0 where
    pub decided : s.1.taken + one_if (HashMap.contains_key s.0.decisions task) ≤ s.1.accepted
    pub pending : s.1.accepted + one_if (HashMap.contains_key s.0.pending task) ≤ s.1.requested

  submit-IsCovered :
      (r : ApprovalRegistry V) (t : Tally) (id : String × String) (decision : ApprovalDecision)
      → IsCovered (r, t)
      → IsCovered (perform (r, t) (call_submit id decision))
  unfolding perform submit_decision
  submit-IsCovered r t id decision k = elim (Option-cases (HashMap.get r.pending id)) [
    | inl e ↦ record {
      decided = ground (arith, e, k.decided);
      pending = ground (arith, e, k.pending);
    }
    | inr (a, e) ↦ elim (Bool-cases (id == task)) [
      | inl same ↦
          let here : HashMap.get r.pending task ≡ some a =
            ap (HashMap.get r.pending) (sym ((pair_eq.beq_iff id task).0 same)) ∙ e in
          record {
            decided =
                ground (arith, e, same, HashMap.get-insert r.decisions id decision task, k.decided);
            pending =
                ground (arith, e, same, here, HashMap.get-remove r.pending id task, k.pending);
          }
      | inr other ↦ record {
        decided =
            ground (arith, e, other, HashMap.get-insert r.decisions id decision task, k.decided);
        pending = ground (arith, e, other, HashMap.get-remove r.pending id task, k.pending);
      }
    ]
  ]

  perform-IsCovered :
      (s : ApprovalRegistry V × Tally) (c : Call V) → IsCovered s → IsCovered (perform s c)
  unfolding perform request_approval submit_decision take_decision
  perform-IsCovered (r, t) (call_request now id message value) k = record {
    decided = k.decided;
    pending = ground (
      arith,
      HashMap.get-insert r.pending id
          (record { message = message; task = value; requested_at = now }) task,
      k.pending,
    );
  }
  perform-IsCovered (r, t) (call_submit id decision) k = submit-IsCovered r t id decision k
  perform-IsCovered (r, t) (call_take id) k = elim (Bool-cases (id == task)) [
    | inl same ↦
        let here : HashMap.get r.decisions id ≡ HashMap.get r.decisions task =
          ap (HashMap.get r.decisions) ((pair_eq.beq_iff id task).0 same) in
        record {
          decided = ground (arith, same, here, HashMap.get-remove r.decisions id task, k.decided);
          pending = k.pending;
        }
    | inr other ↦ record {
      decided = ground (arith, other, HashMap.get-remove r.decisions id task, k.decided);
      pending = k.pending;
    }
  ]

  perform_all-IsCovered_from :
      (cs : List (Call V)) (s : ApprovalRegistry V × Tally)
      → IsCovered s
      → IsCovered (perform_all s cs)
  unfolding perform_all
  perform_all-IsCovered_from [] s k = k
  perform_all-IsCovered_from (c ∷ cs) s k =
      perform_all-IsCovered_from cs (perform s c) (perform-IsCovered s c k)

-- However requests, submissions and takings of any tasks follow each other on a new registry, the
-- decisions that are taken for a task, with the one that waits for it, are at most as many as the
-- submissions that were accepted for it, and these, with one if the task is pending, at most as many
-- as the requests for its approval.
pub perform_all-IsCovered :
    {V : Type 0} (task : String × String) (cs : List (Call V))
    → IsCovered task (perform_all task (new, record { requested = 0; accepted = 0; taken = 0 }) cs)
unfolding new HashMap.get
perform_all-IsCovered task cs =
    perform_all-IsCovered_from task cs (new, record { requested = 0; accepted = 0; taken = 0 })
      (record { decided = omega arith; pending = omega arith })
