-- ===== src/AgentRt/TaskGraph/Adding.antt =====
-- agent_rt/task_graph.rs: `add_tasks` and the search for a cycle. A subtraction that would underflow,
-- and fuel that runs out, are `none`.
use zeptobeam.Base.{
  ℕ, zero, suc, ◌+◌, List, [], ◌∷◌, ◌++◌, Bool, false, true, Option, none, some, String, string_eq,
  ◌==◌, nat_eq, length, is_empty, keep, ltb, if◌then◌else◌, Result, ok, err,
}
use zeptobeam.HashMap
use zeptobeam.HashMap.{HashMap}
use zeptobeam.AgentRt.TaskGraph.{
  ready, pending, TaskNode, TaskGraph, TaskFormat, deps_of, downstream,
}

module _ {V : Type 0} (ts : HashMap String (TaskNode V)) where
  -- The number of dependencies of a task that are in the graph.
  unfoldable pub degree : String → ℕ
  unfolding deps_of
  degree id = length (keep (HashMap.contains_key ts) (deps_of ts id))

  unfoldable pub degrees : List String → HashMap String ℕ
  unfolding degree
  degrees [] = []
  degrees (id ∷ ids) = (id, degree id) ∷ degrees ids

abbrev pub is_zero : Option ℕ → Bool
is_zero none = false
is_zero (some n) = n == 0

unfoldable pub roots : HashMap String ℕ → List String
roots deg = keep (λ id. is_zero (HashMap.get deg id)) (HashMap.keys deg)

-- The loop over the dependents of a task that is processed.
unfoldable pub lower :
    List String → HashMap String ℕ → List String → Option (HashMap String ℕ × List String)
lower [] deg queue = some (deg, queue)
lower (id ∷ ids) deg queue = elim (HashMap.get deg id) [
  | none ↦ lower ids deg queue
  | some zero ↦ none
  | some (suc n) ↦
      lower ids (HashMap.modify deg id (λ _. n)) (if n == 0 then queue ++ id ∷ [] else queue)
]

-- The number of tasks processed in the end.
unfoldable pub process : (String → List String) → ℕ → List String → HashMap String ℕ → ℕ → Option ℕ
unfolding lower
process next fuel [] deg processed = some processed
process next zero (current ∷ queue) deg processed = none
process next (suc fuel) (current ∷ queue) deg processed = elim (lower (next current) deg queue) [
  | none ↦ none
  | some r ↦ process next fuel r.1 r.0 (processed + 1)
]

unfoldable pub detect_cycle : {V : Type 0} → TaskGraph V → Option Bool
unfolding process roots degrees downstream
detect_cycle g =
    let ids = HashMap.keys g.tasks in
    let deg = degrees g.tasks ids in
    elim (process (downstream g.tasks) (length ids) (roots deg) deg 0) [
      | none ↦ none
      | some processed ↦ some (ltb processed (length g.tasks))
    ]

pub data AddError : Type 0 where
  missing_task_id cycle_detected : AddError

unfoldable pub add_task : {V : Type 0} → TaskFormat V → TaskGraph V → V → String → TaskGraph V
add_task format g task id =
    let deps = format.depends_on task in
    record {
      tasks = HashMap.insert g.tasks id (record {
        task = task;
        depends_on = deps;
        status = if is_empty deps then ready else pending;
      });
      insertion_order = g.insertion_order ++ id ∷ [];
    }

-- The loop that inserts the tasks, with the ids added.
unfoldable pub insert_all :
    {V : Type 0}
    → TaskFormat V
    → TaskGraph V
    → List String
    → List V
    → TaskGraph V × Result (List String) AddError
unfolding add_task
insert_all format g added [] = (g, ok added)
insert_all format g added (task ∷ tasks) = elim (format.task_id task) [
  | none ↦ (g, err missing_task_id)
  | some id ↦ insert_all format (add_task format g task id) (added ++ id ∷ []) tasks
]

unfoldable pub remove_all :
    {V : Type 0} → List String → HashMap String (TaskNode V) → HashMap String (TaskNode V)
remove_all [] ts = ts
remove_all (id ∷ ids) ts = remove_all ids (HashMap.remove ts id)

-- `Vec::truncate`.
unfoldable pub take : {A : Type 0} → ℕ → List A → List A
take zero xs = []
take (suc n) [] = []
take (suc n) (x ∷ xs) = x ∷ take n xs

unfoldable pub roll_back : {V : Type 0} → ℕ → List String → TaskGraph V → TaskGraph V
unfolding remove_all take
roll_back start added g = record {
  tasks = remove_all added g.tasks;
  insertion_order = take start g.insertion_order;
}

unfoldable pub check_cycle :
    {V : Type 0}
    → ℕ
    → TaskGraph V × Result (List String) AddError
    → Option (TaskGraph V × Result Unit AddError)
unfolding detect_cycle roll_back
check_cycle start (g, err e) = some (g, err e)
check_cycle start (g, ok added) = elim (detect_cycle g) [
  | none ↦ none
  | some false ↦ some (g, ok tt)
  | some true ↦ some (roll_back start added g, err cycle_detected)
]

unfoldable pub add_tasks :
    {V : Type 0} → TaskFormat V → TaskGraph V → List V → Option (TaskGraph V × Result Unit AddError)
unfolding insert_all check_cycle
add_tasks format g tasks = check_cycle (length g.insertion_order) (insert_all format g [] tasks)
