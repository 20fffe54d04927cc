-- ===== src/AgentRt/TaskGraph.antt =====
-- agent_rt/task_graph.rs: tasks with dependencies. JSON values are a parameter V, with the task's id
-- and its dependencies as they are read from the value. A loop over the map of tasks is one over its
-- keys, each with its lookup.
pub mod Promotion
pub mod Cascade
pub mod Downstream
pub mod Skipped
pub mod Adding
pub mod Counting
pub mod Lowering
pub mod Degrees
pub mod Kahn
pub mod Cycles
pub mod Filling
pub mod Batches
use zeptobeam.Base.{
  ℕ, zero, suc, ◌+◌, ◌-◌, ◌%◌, ◌^◌, List, [], ◌∷◌, ◌++◌, Bool, true, false, not, ◌&&◌, ◌||◌, Option,
  none, some, is_some, String, string_eq, ◌==◌, nat_eq, length, is_empty, all, any, keep, ltb,
  if◌then◌else◌, Result, ok, err,
}
use zeptobeam.HashMap
use zeptobeam.HashMap.{HashMap}

pub data TaskStatus : Type 0 where
  pending ready awaiting_approval running completed failed skipped : TaskStatus

pub record TaskNode (V : Type 0) : Type 0 where
  pub task : V
  pub depends_on : List String
  pub status : TaskStatus

pub record TaskGraph (V : Type 0) : Type 0 where
  pub tasks : HashMap String (TaskNode V)
  pub insertion_order : List String

-- How a task is read: its `task_id`, and the texts in `depends_on`.
pub record TaskFormat (V : Type 0) : Type 0 where
  pub task_id : V → Option String
  pub depends_on : V → List String

abbrev pub is_pending : TaskStatus → Bool
is_pending pending = true
is_pending _ = false

abbrev pub is_ready : TaskStatus → Bool
is_ready ready = true
is_ready _ = false

abbrev pub is_completed : TaskStatus → Bool
is_completed completed = true
is_completed _ = false

abbrev pub is_terminal : TaskStatus → Bool
is_terminal completed = true
is_terminal failed = true
is_terminal skipped = true
is_terminal _ = false

abbrev pub has : List String → String → Bool
has xs x = any (λ y. y == x) xs

unfoldable pub new : {V : Type 0} → TaskGraph V
new = record { tasks = []; insertion_order = [] }

unfoldable pub deps_of : {V : Type 0} → HashMap String (TaskNode V) → String → List String
deps_of ts id = elim (HashMap.get ts id) [ none ↦ [] | some n ↦ n.depends_on ]

unfoldable pub task_status : {V : Type 0} → TaskGraph V → String → Option TaskStatus
task_status g id = elim (HashMap.get g.tasks id) [ none ↦ none | some n ↦ some n.status ]

unfoldable pub put_status : {V : Type 0} → TaskStatus → TaskNode V → TaskNode V
put_status status n = record n { status = status }

unfoldable pub set_status : {V : Type 0} → TaskGraph V → String → TaskStatus → TaskGraph V
unfolding put_status
set_status g id status = record g { tasks = HashMap.modify g.tasks id (put_status status) }

unfoldable pub mark_running : {V : Type 0} → TaskGraph V → String → TaskGraph V
unfolding set_status
mark_running g id = set_status g id running

unfoldable pub mark_failed : {V : Type 0} → TaskGraph V → String → TaskGraph V
unfolding set_status
mark_failed g id = set_status g id failed

unfoldable pub is_completed_task : {V : Type 0} → HashMap String (TaskNode V) → String → Bool
is_completed_task ts id = elim (HashMap.get ts id) [ none ↦ false | some n ↦ is_completed n.status ]

-- Whether a task is to be promoted to ready.
unfoldable pub is_promoted : {V : Type 0} → HashMap String (TaskNode V) → String → Bool
unfolding is_completed_task
is_promoted ts id = elim (HashMap.get ts id) [
  | none ↦ false
  | some n ↦ is_pending n.status && all (is_completed_task ts) n.depends_on
]

unfoldable pub put_all :
    {V : Type 0}
    → TaskStatus
    → List String
    → HashMap String (TaskNode V)
    → HashMap String (TaskNode V)
unfolding put_status
put_all status [] ts = ts
put_all status (id ∷ ids) ts = put_all status ids (HashMap.modify ts id (put_status status))

unfoldable pub mark_completed : {V : Type 0} → TaskGraph V → String → TaskGraph V
unfolding set_status is_promoted put_all
mark_completed g id =
    let ts = (set_status g id completed).tasks in
    record g { tasks = put_all ready (keep (is_promoted ts) (HashMap.keys ts)) ts }

-- `reverse_deps.get(current)`: each task, once for each time that it names `current`.
unfoldable pub repeats : String → String → List String → List String
repeats id current [] = []
repeats id current (d ∷ ds) =
    if d == current then id ∷ repeats id current ds else repeats id current ds

unfoldable pub downstream_of :
    {V : Type 0} → HashMap String (TaskNode V) → List String → String → List String
unfolding repeats deps_of
downstream_of ts [] current = []
downstream_of ts (id ∷ ids) current =
    repeats id current (deps_of ts id) ++ downstream_of ts ids current

unfoldable pub downstream : {V : Type 0} → HashMap String (TaskNode V) → String → List String
unfolding downstream_of
downstream ts current = downstream_of ts (HashMap.keys ts) current

-- The search of `fail_dependents`: `next` is the reverse map, built before the loop. `none` when the
-- fuel, which bounds the rounds, runs out.
unfoldable pub cascade :
    {V : Type 0}
    → (String → List String)
    → ℕ
    → List String
    → List String
    → HashMap String (TaskNode V)
    → Option (HashMap String (TaskNode V))
unfolding put_all
cascade next fuel [] visited ts = some ts
cascade next zero (current ∷ queue) visited ts = none
cascade next (suc fuel) (current ∷ queue) visited ts = elim (has visited current) [
  | true ↦ cascade next fuel queue visited ts
  | false ↦
      cascade next fuel (queue ++ next current) (current ∷ visited)
        (put_all skipped (next current) ts)
]

-- The dependencies that all tasks name, counted once for each time.
unfoldable pub edge_count : {V : Type 0} → HashMap String (TaskNode V) → List String → ℕ
unfolding deps_of
edge_count ts [] = 0
edge_count ts (id ∷ ids) = length (deps_of ts id) + edge_count ts ids

unfoldable pub fail_dependents : {V : Type 0} → TaskGraph V → String → Option (TaskGraph V)
unfolding cascade downstream edge_count
fail_dependents g id =
    elim (cascade (downstream g.tasks) (edge_count g.tasks (HashMap.keys g.tasks) + 1) (id ∷ []) []
      g.tasks) [ none ↦ none | some ts ↦ some (record g { tasks = ts }) ]

unfoldable pub ready_among : {V : Type 0} → TaskGraph V → List String → List V
ready_among g [] = []
ready_among g (id ∷ ids) =
    let rest = ready_among g ids in
    elim (HashMap.get g.tasks id) [
      | none ↦ rest
      | some n ↦ if is_ready n.status then n.task ∷ rest else rest
    ]

unfoldable pub ready_tasks : {V : Type 0} → TaskGraph V → List V
unfolding ready_among
ready_tasks g = ready_among g g.insertion_order

unfoldable pub is_complete : {V : Type 0} → TaskGraph V → Bool
is_complete g = all (λ n. is_terminal n.status) (HashMap.values g.tasks)

unfoldable pub pending_count : {V : Type 0} → TaskGraph V → ℕ
pending_count g = length (keep (λ n. is_pending n.status) (HashMap.values g.tasks))
