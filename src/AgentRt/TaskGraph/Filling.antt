-- ===== src/AgentRt/TaskGraph/Filling.antt =====
-- agent_rt/task_graph.rs: the loop of `add_tasks` that inserts the tasks of a batch.
use mathlib.Core.List.{append_assoc, append-nil}
use zeptobeam.Base.{
  Option, ◌<◌, is_empty, ◌≡◌, refl, sym, ap, ◌∙◌, List, [], ◌∷◌, ◌++◌, false, ◌||◌, inl, inr, none,
  some, String, string_eq, ◌==◌, arith, length, if◌then◌else◌, Result, ok, err, Option-cases,
  Bool-cases,
}
use zeptobeam.HashMap
use zeptobeam.HashMap.{HashMap}
use zeptobeam.AgentRt.TaskGraph.{TaskNode, TaskGraph, TaskFormat, has, ready, pending}
use zeptobeam.AgentRt.TaskGraph.Promotion.{has-keys}
use zeptobeam.AgentRt.TaskGraph.Adding.{
  AddError, missing_task_id, add_task, insert_all, remove_all, take,
}
use zeptobeam.AgentRt.TaskGraph.Counting.{Distinct, has-same}

-- The ids of a batch, up to the first task without one.
unfoldable pub ids_of : {V : Type 0} → TaskFormat V → List V → List String
ids_of format [] = []
ids_of format (task ∷ tasks) = elim (format.task_id task) [
  | none ↦ []
  | some id ↦ id ∷ ids_of format tasks
]

-- The node that a task of a batch becomes.
abbrev pub node_of : {V : Type 0} → TaskFormat V → V → TaskNode V
node_of format task = record {
  task = task;
  depends_on = format.depends_on task;
  status = if is_empty (format.depends_on task) then ready else pending;
}

abbrev pub first_of : {A : Type 0} → Option A → Option A → Option A
first_of none o = o
first_of (some a) o = some a

-- The node of the last task with an id, among those before the first task without one.
unfoldable pub latest : {V : Type 0} → TaskFormat V → List V → String → Option (TaskNode V)
latest format [] x = none
latest format (task ∷ tasks) x = elim (format.task_id task) [
  | none ↦ none
  | some id ↦
      first_of (latest format tasks x) (if id == x then some (node_of format task) else none)
]

pub take-append : {A : Type 0} (xs ys : List A) → take (length xs) (xs ++ ys) ≡ xs
unfolding take
take-append [] ys = refl
take-append (x ∷ xs) ys = ap (λ l. x ∷ l) (take-append xs ys)

-- What the loop answers: the ids of the whole batch, or that one is missing.
abbrev pub Answer :
    {V : Type 0} → TaskFormat V → List V → List String → Result (List String) AddError → Type 0
Answer format tasks ids (ok added) = (added ≡ ids) × (length (ids_of format tasks) ≡ length tasks)
Answer format tasks ids (err e) =
    (e ≡ missing_task_id) × (length (ids_of format tasks) < length tasks)

module _ {V : Type 0} where
  keys-insert :
      (ts : HashMap String (TaskNode V)) (k : String) (n : TaskNode V) (x : String)
      → has (HashMap.keys (HashMap.insert ts k n)) x ≡ ((k == x) || has (HashMap.keys ts) x)
  keys-insert ts k n x =
      has-keys (HashMap.insert ts k n) x
      ∙ ground (arith, HashMap.get-insert ts k n x, has-keys ts x)

  insert-Distinct :
      (ts : HashMap String (TaskNode V)) (k : String) (n : TaskNode V)
      → Distinct (HashMap.keys ts)
      → Distinct (HashMap.keys (HashMap.insert ts k n))
  unfolding HashMap.insert
  insert-Distinct [] k n d = (refl, tt)
  insert-Distinct ((j, m) ∷ ts) k n d = elim (Bool-cases (j == k)) [
    | inl hit ↦ rw hit (sym (has-same (HashMap.keys ts) j k hit) ∙ d.0, d.1)
    | inr miss ↦ rw miss (
      keys-insert ts k n j
          ∙ ground (arith, miss, d.0, string_eq.beq_iff j k, string_eq.beq_iff k j),
      insert-Distinct ts k n d.1,
    )
  ]

  keys-remove :
      (ts : HashMap String (TaskNode V)) (k x : String)
      → has (HashMap.keys ts) x ≡ false
      → has (HashMap.keys (HashMap.remove ts k)) x ≡ false
  keys-remove ts k x h =
      has-keys (HashMap.remove ts k) x ∙ ground (arith, HashMap.get-remove ts k x, has-keys ts x)

  remove-Distinct :
      (ts : HashMap String (TaskNode V)) (k : String)
      → Distinct (HashMap.keys ts)
      → Distinct (HashMap.keys (HashMap.remove ts k))
  unfolding HashMap.remove
  remove-Distinct [] k d = tt
  remove-Distinct ((j, m) ∷ ts) k d = elim (Bool-cases (j == k)) [
    | inl hit ↦ rw hit (remove-Distinct ts k d.1)
    | inr miss ↦ rw miss (keys-remove ts k j d.0, remove-Distinct ts k d.1)
  ]

  pub remove_all-Distinct :
      (ids : List String) (ts : HashMap String (TaskNode V))
      → Distinct (HashMap.keys ts)
      → Distinct (HashMap.keys (remove_all ids ts))
  unfolding remove_all
  remove_all-Distinct [] ts d = d
  remove_all-Distinct (id ∷ ids) ts d =
      remove_all-Distinct ids (HashMap.remove ts id) (remove-Distinct ts id d)

  pub get-remove_all :
      (ids : List String) (ts : HashMap String (TaskNode V)) (x : String)
      → HashMap.get (remove_all ids ts) x ≡ (if has ids x then none else HashMap.get ts x)
  unfolding remove_all
  get-remove_all [] ts x = refl
  get-remove_all (id ∷ ids) ts x =
      ground (arith, get-remove_all ids (HashMap.remove ts id) x, HashMap.get-remove ts id x)

  -- The graph after the loop over a batch with these ids and nodes.
  pub record IsFilled (g : TaskGraph V) (ids : List String) (found : String → Option (TaskNode V))
      (g' : TaskGraph V) : Type 0 where
    pub ordered : g'.insertion_order ≡ g.insertion_order ++ ids
    pub entries : (x : String) → HashMap.get g'.tasks x ≡ first_of (found x) (HashMap.get g.tasks x)
    pub distinct : Distinct (HashMap.keys g'.tasks)

  -- One more task before the rest of a batch.
  add_task-IsFilled :
      (format : TaskFormat V) (g : TaskGraph V) (task : V) (id : String) (ids : List String)
      (found found' : String → Option (TaskNode V)) (g' : TaskGraph V)
      → ((x : String)
          → found' x ≡ first_of (found x) (if id == x then some (node_of format task) else none))
      → IsFilled (add_task format g task id) ids found g'
      → IsFilled g (id ∷ ids) found' g'
  unfolding add_task
  add_task-IsFilled format g task id ids found found' g' both f = record {
    ordered = f.ordered ∙ append_assoc g.insertion_order (id ∷ []) ids;
    entries = λ x.
        ground (arith, f.entries x, both x, HashMap.get-insert g.tasks id (node_of format task) x);
    distinct = f.distinct;
  }

  module _ (format : TaskFormat V) (task : V) (tasks : List V) where
    ids_of-none : format.task_id task ≡ none → ids_of format (task ∷ tasks) ≡ []
    unfolding ids_of
    ids_of-none e = rw (e, ids_of) refl

    pub ids_of-some :
        (id : String)
        → format.task_id task ≡ some id
        → ids_of format (task ∷ tasks) ≡ id ∷ ids_of format tasks
    unfolding ids_of
    ids_of-some id e = rw (e, ids_of) refl

    pub latest-none :
        (x : String) → format.task_id task ≡ none → latest format (task ∷ tasks) x ≡ none
    unfolding latest
    latest-none x e = rw (e, latest) refl

    pub latest-some :
        (id x : String)
        → format.task_id task ≡ some id
        → latest format (task ∷ tasks) x
          ≡ first_of (latest format tasks x) (if id == x then some (node_of format task) else none)
    unfolding latest
    latest-some id x e = rw (e, latest) refl

    insert_all-none :
        (g : TaskGraph V) (added : List String)
        → format.task_id task ≡ none
        → insert_all format g added (task ∷ tasks) ≡ (g, err missing_task_id)
    unfolding insert_all
    insert_all-none g added e = rw (e, insert_all) refl

    insert_all-some :
        (g : TaskGraph V) (added : List String) (id : String)
        → format.task_id task ≡ some id
        → insert_all format g added (task ∷ tasks)
          ≡ insert_all format (add_task format g task id) (added ++ id ∷ []) tasks
    unfolding insert_all
    insert_all-some g added id e = rw (e, insert_all) refl

  Answer-cons :
      (format : TaskFormat V) (task : V) (tasks : List V) (id : String) (ids ids' : List String)
      (r : Result (List String) AddError)
      → format.task_id task ≡ some id
      → ids ≡ ids'
      → Answer format tasks ids r
      → Answer format (task ∷ tasks) ids' r
  Answer-cons format task tasks id ids ids' (ok added) e same a =
      (a.0 ∙ same, omega (arith, a.1, ap (length {0}) (ids_of-some format task tasks id e)))
  Answer-cons format task tasks id ids ids' (err x) e same a =
      (a.0, omega (arith, a.1, ap (length {0}) (ids_of-some format task tasks id e)))

  untouched :
      (g : TaskGraph V) (found : String → Option (TaskNode V))
      → ((x : String) → found x ≡ none)
      → Distinct (HashMap.keys g.tasks)
      → IsFilled g [] found g
  untouched g found empty d = record {
    ordered = sym (append-nil g.insertion_order);
    entries = λ x. ground (arith, empty x);
    distinct = d;
  }

  pub insert_all-IsFilled :
      (format : TaskFormat V) (tasks : List V) (g : TaskGraph V) (added : List String)
      → Distinct (HashMap.keys g.tasks)
      → IsFilled g (ids_of format tasks) (latest format tasks) (insert_all format g added tasks).0
        × Answer format tasks (added ++ ids_of format tasks) (insert_all format g added tasks).1
  unfolding insert_all ids_of latest
  insert_all-IsFilled format [] g added d =
      (untouched g _ (λ x. refl) d, (sym (append-nil added), refl))
  insert_all-IsFilled format (task ∷ tasks) g added d = elim (Option-cases (format.task_id task)) [
    | inl e ↦
        rw (insert_all-none format task tasks g added e, ids_of-none format task tasks e)
          (untouched g _ (λ x. latest-none format task tasks x e) d, (refl, omega arith))
    | inr (id, e) ↦
        let g₁ = add_task format g task id in
        let fresh : Distinct (HashMap.keys g₁.tasks) =
          unfold add_task in insert-Distinct g.tasks id (node_of format task) d in
        let (filled, answer) = insert_all-IsFilled format tasks g₁ (added ++ id ∷ []) fresh in
        rw (insert_all-some format task tasks g added id e, ids_of-some format task tasks id e)
          (
            add_task-IsFilled format g task id (ids_of format tasks) _ _ _
                (λ x. latest-some format task tasks id x e) filled,
            Answer-cons format task tasks id _ _ _ e
                (append_assoc added (id ∷ []) (ids_of format tasks)) answer,
          )
  ]
