-- ===== src/AgentRt/TaskGraph/Batches.antt =====
-- agent_rt/task_graph.rs: what `add_tasks` leaves of a batch of tasks.
use zeptobeam.Base.{
  ◌<◌, ◌≡◌, refl, ap, ◌∙◌, List, [], ◌∷◌, ◌++◌, false, inl, inr, none, some, String, string_eq,
  arith, length, if◌then◌else◌, Result, ok, err, Option-cases, Bool-cases,
}
use zeptobeam.HashMap
use zeptobeam.HashMap.{HashMap}
use zeptobeam.AgentRt.TaskGraph.{TaskNode, TaskGraph, TaskFormat, has}
use zeptobeam.AgentRt.TaskGraph.Downstream.{Needs}
use zeptobeam.AgentRt.TaskGraph.Adding.{
  AddError, missing_task_id, cycle_detected, insert_all, remove_all, take, roll_back, check_cycle,
  add_tasks,
}
use zeptobeam.AgentRt.TaskGraph.Counting.{Distinct}
use zeptobeam.AgentRt.TaskGraph.Cycles.{detect_cycle-Needs}
use zeptobeam.AgentRt.TaskGraph.Filling.{
  ids_of, first_of, latest, take-append, Answer, remove_all-Distinct, get-remove_all, IsFilled,
  latest-none, latest-some, ids_of-some, insert_all-IsFilled,
}

module _ {V : Type 0} where
  -- What a batch leaves: the graph with all of it and no cycle, the graph without its ids where all of
  -- it would close a cycle, or the graph with the tasks before one that has no id.
  abbrev pub Outcome :
      TaskFormat V → TaskGraph V → List V → TaskGraph V × Result Unit AddError → Type 0
  Outcome format g tasks (g', ok _) =
      (length (ids_of format tasks) ≡ length tasks)
      × (g'.insertion_order ≡ g.insertion_order ++ ids_of format tasks)
      × ((x : String)
          → HashMap.get g'.tasks x ≡ first_of (latest format tasks x) (HashMap.get g.tasks x))
      × ((x : String) → ¬ Needs g'.tasks x x)
  Outcome format g tasks (g', err cycle_detected) =
      (length (ids_of format tasks) ≡ length tasks)
      × (g'.insertion_order ≡ g.insertion_order)
      × ((x : String)
          → HashMap.get g'.tasks x
            ≡ (if has (ids_of format tasks) x then none else HashMap.get g.tasks x))
      × ((ts : HashMap String (TaskNode V)) × ((x : String)
            → HashMap.get ts x ≡ first_of (latest format tasks x) (HashMap.get g.tasks x))
          × ((x : String) × Needs ts x x))
  Outcome format g tasks (g', err missing_task_id) =
      (length (ids_of format tasks) < length tasks)
      × (g'.insertion_order ≡ g.insertion_order ++ ids_of format tasks)
      × ((x : String)
          → HashMap.get g'.tasks x ≡ first_of (latest format tasks x) (HashMap.get g.tasks x))

  latest-other :
      (format : TaskFormat V) (tasks : List V) (x : String)
      → has (ids_of format tasks) x ≡ false
      → latest format tasks x ≡ none
  unfolding latest ids_of
  latest-other format [] x h = refl
  latest-other format (task ∷ tasks) x h = elim (Option-cases (format.task_id task)) [
    | inl e ↦ latest-none format task tasks x e
    | inr (id, e) ↦
        let h' : has (id ∷ ids_of format tasks) x ≡ false =
          rw (ids_of-some format task tasks id e) at h in
        ground (arith, latest-some format task tasks id x e, latest-other format tasks x, h')
  ]

  get-roll_back :
      (format : TaskFormat V) (g g' : TaskGraph V) (tasks : List V) (added : List String)
      → IsFilled g (ids_of format tasks) (latest format tasks) g'
      → added ≡ ids_of format tasks
      → (x : String)
      → HashMap.get (remove_all added g'.tasks) x
        ≡ (if has (ids_of format tasks) x then none else HashMap.get g.tasks x)
  get-roll_back format g g' tasks added f a x =
      get-remove_all added g'.tasks x
      ∙ ap (λ l. if has l x then none else HashMap.get g'.tasks x) a
      ∙ elim (Bool-cases (has (ids_of format tasks) x)) [
        | inl yes_ ↦ rw yes_ refl
        | inr no_ ↦ rw no_ (ground (arith, f.entries x, latest-other format tasks x no_))
      ]

  check_cycle-Outcome :
      (format : TaskFormat V) (g g' : TaskGraph V) (tasks : List V)
      (r : Result (List String) AddError)
      → IsFilled g (ids_of format tasks) (latest format tasks) g'
      → Answer format tasks (ids_of format tasks) r
      → (o : TaskGraph V × Result Unit AddError) × (check_cycle (length g.insertion_order) (g', r)
          ≡ some o)
        × Outcome format g tasks o
        × Distinct (HashMap.keys o.0.tasks)
  unfolding check_cycle roll_back
  check_cycle-Outcome format g g' tasks (err cycle_detected) f a = absurd (cc (a.0))
  check_cycle-Outcome format g g' tasks (err missing_task_id) f a =
      ((g', err missing_task_id), refl, (a.1, f.ordered, f.entries), f.distinct)
  check_cycle-Outcome format g g' tasks (ok added) f a =
      let (found, e, cyclic, acyclic) = detect_cycle-Needs g' f.distinct in
      elim (Bool-cases found) [
        | inl cycle ↦
            let e' = e ∙ ap some cycle in
            (
              (roll_back (length g.insertion_order) added g', err cycle_detected),
              rw (e', check_cycle) refl,
              (
                a.1,
                ap (take (length g.insertion_order)) f.ordered
                    ∙ take-append g.insertion_order (ids_of format tasks),
                get-roll_back format g g' tasks added f (a.0),
                (g'.tasks, f.entries, cyclic cycle),
              ),
              remove_all-Distinct added g'.tasks f.distinct,
            )
        | inr free ↦
            let e' = e ∙ ap some free in
            (
              (g', ok tt),
              rw (e', check_cycle) refl,
              (a.1, f.ordered, f.entries, acyclic free),
              f.distinct,
            )
      ]

-- On a graph without two tasks of the same id, `add_tasks` returns and keeps it so. It answers in one
-- of three ways. Without an error, every task of the batch has an id, the batch's ids are at the end
-- of the insertion order, the graph holds the batch's tasks, each as the last one of its id, ready if
-- it has no dependencies and pending else, and the other tasks as they were, and no task needs
-- itself. With a cycle, every task of the batch has an id, in the graph with the batch a task would
-- need itself, the insertion order is as it was, no task has an id of the batch, and the others are
-- as they were. With a missing id, some task of the batch has none, the tasks before it are in the
-- graph and in the insertion order as in the first case, and tasks of other ids are as they were.
pub add_tasks-Outcome :
    {V : Type 0} (format : TaskFormat V) (g : TaskGraph V) (tasks : List V)
    → Distinct (HashMap.keys g.tasks)
    → (o : TaskGraph V × Result Unit AddError) × (add_tasks format g tasks ≡ some o)
      × Outcome format g tasks o
      × Distinct (HashMap.keys o.0.tasks)
unfolding add_tasks
add_tasks-Outcome format g tasks d =
    let (filled, answer) = insert_all-IsFilled format tasks g [] d in
    check_cycle-Outcome format g _ tasks (insert_all format g [] tasks).1 filled answer
