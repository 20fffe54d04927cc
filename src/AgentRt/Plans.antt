-- ===== src/AgentRt/Plans.antt =====
-- agent_rt/task_graph.rs and agent_rt/release.rs on small graphs and releases.
use zeptobeam.Base.{
  ℕ, ◌<◌, ◌≡◌, refl, List, [], ◌∷◌, Bool, true, false, none, some, Result, ok, err, arith, String,
  string_eq, ◌⊎◌, length,
}
use mathlib.Core.Option as O
use mathlib.Core.List.{reverse}
use zeptobeam.HashMap
use zeptobeam.AgentRt.TaskGraph.{
  TaskGraph, TaskNode, TaskFormat, TaskStatus, pending, running, skipped, put_status,
  mark_completed, is_promoted, fail_dependents,
}
use zeptobeam.AgentRt.TaskGraph.Promotion.{node_after, mark_completed-promotes}
use zeptobeam.AgentRt.TaskGraph.Downstream.{Needs}
use zeptobeam.AgentRt.TaskGraph.Skipped.{IsSkipped, fail_dependents-Needs}
use zeptobeam.AgentRt.TaskGraph.Adding.{AddError, detect_cycle, add_tasks}
use zeptobeam.AgentRt.TaskGraph.Counting.{Distinct}
use zeptobeam.AgentRt.TaskGraph.Cycles.{detect_cycle-Needs}
use zeptobeam.AgentRt.TaskGraph.Batches.{Outcome, add_tasks-Outcome}
use zeptobeam.AgentRt.Release
use zeptobeam.AgentRt.Release.{
  ReleaseStep, ReleasePlan, ReleaseManifest, ReleaseManager, StepHandler, apply, apply_steps,
  finish_apply, rollback, rollback_steps, record_apply, finish_rollback, pop, apply_config,
  upgrade_behavior, step,
}
use zeptobeam.AgentRt.Release.Atomic.{Done, Ended, Recorded, apply-Ended}
use zeptobeam.AgentRt.Release.History.{
  IsKept, Call, call_apply, call_rollback, perform_all, rollback-apply, perform_all-IsKept,
}

-- A task is its id with the ids of its dependencies.
abbrev pairs : TaskFormat (String × List String)
pairs = record { task_id = λ t. some t.0; depends_on = λ t. t.1 }

abbrev node : String → List String → TaskStatus → TaskNode (String × List String)
node id deps status = record { task = (id, deps); depends_on = deps; status = status }

-- The task b needs a, and c needs b.
abbrev chain : TaskGraph (String × List String)
chain = record {
  tasks =
      ("a", node "a" [] running)
      ∷ ("b", node "b" ("a" ∷ []) pending)
      ∷ ("c", node "c" ("b" ∷ []) pending)
      ∷ [];
  insertion_order = "a" ∷ "b" ∷ "c" ∷ [];
}

chain-Distinct : Distinct (HashMap.keys chain.tasks)
chain-Distinct = (refl, (refl, (refl, tt)))

mark_completed-promotes_example :
    (HashMap.get (mark_completed chain "a").tasks "b"
      ≡ O.map (node_after chain "a" "b") (HashMap.get chain.tasks "b"))
    × ((mark_completed chain "a").insertion_order ≡ "a" ∷ "b" ∷ "c" ∷ [])
    × (is_promoted (mark_completed chain "a").tasks "b" ≡ false)
mark_completed-promotes_example = mark_completed-promotes chain "a" "b"

fail_dependents-Needs_example :
    (g' : TaskGraph (String × List String)) × (fail_dependents chain "a" ≡ some g')
    × ((x : String) → Needs chain.tasks "a" x → IsSkipped g'.tasks x)
    × ((x : String)
        → (HashMap.get g'.tasks x ≡ HashMap.get chain.tasks x)
          ⊎ (Needs chain.tasks "a" x
              × (HashMap.get g'.tasks x ≡ O.map (put_status skipped) (HashMap.get chain.tasks x))))
fail_dependents-Needs_example = fail_dependents-Needs chain "a"

detect_cycle-Needs_example :
    (b : Bool) × (detect_cycle chain ≡ some b)
    × (b ≡ true → (x : String) × Needs chain.tasks x x)
    × (b ≡ false → (x : String) → ¬ Needs chain.tasks x x)
detect_cycle-Needs_example = detect_cycle-Needs chain chain-Distinct

-- A batch that closes a cycle: d needs e, and e needs d.
abbrev batch : List (String × List String)
batch = ("d", "e" ∷ []) ∷ ("e", "d" ∷ "c" ∷ []) ∷ []

add_tasks-Outcome_example :
    (o : TaskGraph (String × List String) × Result Unit AddError) × (add_tasks pairs chain batch
      ≡ some o)
    × Outcome pairs chain batch o
    × Distinct (HashMap.keys o.0.tasks)
add_tasks-Outcome_example = add_tasks-Outcome pairs chain batch chain-Distinct

-- A handler whose state is the value that is configured: a change of configuration sets the new value,
-- its rollback the old one, and an upgrade fails.
abbrev sets : StepHandler ℕ ℕ String
sets = record {
  apply_step = λ s h. elim s [
    | upgrade_behavior name from to extra ↦ (h, err "no factory")
    | apply_config key old_value new_value ↦ (new_value, ok tt)
  ];
  rollback_step = λ s h. elim s [
    | upgrade_behavior name from to extra ↦ (h, err "no factory")
    | apply_config key old_value new_value ↦ (old_value, ok tt)
  ];
}

abbrev release : String → ReleaseManifest ℕ
release version = record {
  schema_version = 1;
  version = version;
  previous = none;
  behaviors = [];
  config_changes = [];
}

abbrev manager : ReleaseManager ℕ
manager = record { current = some (release "1"); history = release "0" ∷ []; max_history = 3 }

manager-IsKept : IsKept manager
manager-IsKept = record { empty = λ e. absurd (cc e); few = omega arith }

abbrev changes : ReleasePlan ℕ
changes = record { steps = apply_config "x" 10 5 ∷ apply_config "x" 5 7 ∷ [] }

-- The second step fails.
abbrev broken : ReleasePlan ℕ
broken = record { steps = apply_config "x" 10 5 ∷ upgrade_behavior "w" "1" "2" 0 ∷ [] }

apply-Ended_example :
    let r = apply sets manager (release "2") broken 10 in
    Ended sets broken.steps 10 (r.0.1, r.1) × Recorded manager (release "2") r.1 r.0.0
apply-Ended_example = apply-Ended sets manager (release "2") broken 10

apply-changes : (apply sets manager (release "2") changes 10).1 ≡ ok tt
unfolding apply apply_steps finish_apply
apply-changes = refl

rollback-changes :
    let applied = apply sets manager (release "2") changes 10 in
    (rollback sets applied.0.0 changes applied.0.1).1 ≡ ok tt
unfolding apply apply_steps finish_apply rollback rollback_steps finish_rollback record_apply pop
rollback-changes = refl

rollback-apply_example :
    let applied = apply sets manager (release "2") changes 10 in
    (h' h'' : ℕ) × (hs : List (ReleaseManifest ℕ)) × Done sets.apply_step changes.steps 10 h'
    × Done sets.rollback_step (reverse changes.steps) h' h''
    × (rollback sets applied.0.0 changes applied.0.1
        ≡ ((record manager { history = hs }, h''), ok tt))
    × (length manager.history < manager.max_history → hs ≡ manager.history)
rollback-apply_example =
    rollback-apply sets manager (release "2") changes 10 manager-IsKept (omega arith) apply-changes
      rollback-changes

abbrev releases : List (Call ℕ)
releases =
    call_apply (release "1") changes
    ∷ call_apply (release "2") broken
    ∷ call_apply (release "3") changes
    ∷ call_rollback changes
    ∷ []

perform_all-IsKept_example : IsKept (perform_all sets (Release.new 1, 10) releases).0
perform_all-IsKept_example = perform_all-IsKept sets 1 10 releases
