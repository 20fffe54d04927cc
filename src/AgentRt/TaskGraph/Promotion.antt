-- ===== src/AgentRt/TaskGraph/Promotion.antt =====
-- agent_rt/task_graph.rs: which tasks `mark_completed` makes ready.
use mathlib.Core.Option as O
use zeptobeam.Base.{
  ◌≡◌, refl, ap, ◌∙◌, List, [], ◌∷◌, Bool, false, ◌&&◌, inl, inr, is_some, String, string_eq, ◌==◌,
  arith, all, keep, if◌then◌else◌, Option-cases, Bool-cases, fun_ext,
}
use zeptobeam.HashMap
use zeptobeam.HashMap.{HashMap}
use zeptobeam.AgentRt.TaskGraph.{
  TaskStatus, ready, completed, TaskNode, TaskGraph, has, put_status, set_status, is_completed_task,
  is_promoted, put_all, mark_completed, is_pending,
}

pub has-keep :
    (p : String → Bool) (xs : List String) (x : String) → has (keep p xs) x ≡ (p x && has xs x)
has-keep p [] x = ground arith
has-keep p (y ∷ xs) x = elim (Bool-cases (y == x)) [
  | inl hit ↦
      let same : p y ≡ p x = ap p ((string_eq.beq_iff y x).0 hit) in
      ground (arith, has-keep p xs x, same, hit)
  | inr miss ↦ ground (arith, has-keep p xs x, miss)
]

module _ {V : Type 0} where
  pub has-keys :
      (ts : HashMap String (TaskNode V)) (x : String)
      → has (HashMap.keys ts) x ≡ is_some (HashMap.get ts x)
  unfolding HashMap.get
  has-keys [] x = refl
  has-keys ((y, n) ∷ ts) x = ground (arith, has-keys ts x)

  pub get-put_all :
      (status : TaskStatus) (ids : List String) (ts : HashMap String (TaskNode V)) (x : String)
      → HashMap.get (put_all status ids ts) x
        ≡ (if has ids x then O.map (put_status status) (HashMap.get ts x) else HashMap.get ts x)
  unfolding put_all put_status
  get-put_all status [] ts x = refl
  get-put_all status (id ∷ ids) ts x = ground (
    arith,
    get-put_all status ids (HashMap.modify ts id (put_status status)) x,
    HashMap.get-modify ts id (put_status status) x,
  )

  module _ (ts : HashMap String (TaskNode V)) where
    promoted : HashMap String (TaskNode V)
    promoted = put_all ready (keep (is_promoted ts) (HashMap.keys ts)) ts

    has-promoted : (x : String) → has (keep (is_promoted ts) (HashMap.keys ts)) x ≡ is_promoted ts x
    unfolding is_promoted
    has-promoted x = has-keep (is_promoted ts) (HashMap.keys ts) x ∙ ground (arith, has-keys ts x)

    get-promoted :
        (x : String)
        → HashMap.get promoted x ≡ (
            if is_promoted ts x
            then O.map (put_status ready) (HashMap.get ts x)
            else HashMap.get ts x)
    unfolding promoted
    get-promoted x =
        get-put_all ready (keep (is_promoted ts) (HashMap.keys ts)) ts x
        ∙ ap (λ b. if b then O.map (put_status ready) (HashMap.get ts x) else HashMap.get ts x)
            (has-promoted x)

    completed_same : (x : String) → is_completed_task promoted x ≡ is_completed_task ts x
    unfolding is_completed_task is_promoted put_status
    completed_same x = ground (arith, get-promoted x)

    none_left : (x : String) → is_promoted promoted x ≡ false
    unfolding is_promoted put_status
    none_left x = elim (Option-cases (HashMap.get ts x)) [
      | inl gone ↦ ground (arith, get-promoted x)
      | inr (n, here) ↦ ground (
        arith,
        get-promoted x,
        ap (λ (done : String → Bool). all done n.depends_on) (fun_ext completed_same),
      )
    ]

-- Whether a task is completed once the task id is.
abbrev pub completed_after : {V : Type 0} → TaskGraph V → String → String → Bool
completed_after g id d =
    if d == id then is_some (HashMap.get g.tasks d) else is_completed_task g.tasks d

-- What becomes of the task x when the task id is completed.
abbrev pub node_after : {V : Type 0} → TaskGraph V → String → String → TaskNode V → TaskNode V
node_after g id x n =
    if x == id
    then record n { status = completed }
    else if is_pending n.status && all (completed_after g id) n.depends_on
    then record n { status = ready }
    else n

module _ {V : Type 0} (g : TaskGraph V) (id : String) where
  marked : HashMap String (TaskNode V)
  marked = (set_status g id completed).tasks

  get-marked :
      (x : String)
      → HashMap.get marked x ≡ (
          if id == x
          then O.map (put_status completed) (HashMap.get g.tasks x)
          else HashMap.get g.tasks x)
  unfolding marked set_status
  get-marked x = HashMap.get-modify g.tasks id (put_status completed) x

  is_completed_task-marked : (d : String) → is_completed_task marked d ≡ completed_after g id d
  unfolding is_completed_task put_status
  is_completed_task-marked d = elim (Option-cases (HashMap.get g.tasks d)) [
    | inl e ↦ ground (arith, get-marked d, e, string_eq.beq_iff id d, string_eq.beq_iff d id)
    | inr (n, e) ↦ ground (arith, get-marked d, e, string_eq.beq_iff id d, string_eq.beq_iff d id)
  ]

  all-marked :
      (ds : List String) → all (is_completed_task marked) ds ≡ all (completed_after g id) ds
  all-marked ds = ap (λ (done : String → Bool). all done ds) (fun_ext is_completed_task-marked)

  get-mark_completed :
      (x : String)
      → HashMap.get (promoted marked) x ≡ O.map (node_after g id x) (HashMap.get g.tasks x)
  unfolding is_promoted put_status
  get-mark_completed x = elim (Option-cases (HashMap.get g.tasks x)) [
    | inl e ↦ ground (arith, get-promoted marked x, get-marked x, e)
    | inr (n, e) ↦ ground (
      arith,
      get-promoted marked x,
      get-marked x,
      e,
      all-marked n.depends_on,
      string_eq.beq_iff id x,
      string_eq.beq_iff x id,
    )
  ]

-- `mark_completed` leaves the order of the tasks, adds and removes none, and changes statuses alone:
-- the task named becomes completed; each other task that is pending, and whose dependencies are all
-- completed, with the task named counted as such if it is in the graph, becomes ready; every other
-- task is as it was. No pending task is left whose dependencies are all completed.
pub mark_completed-promotes :
    {V : Type 0} (g : TaskGraph V) (id x : String)
    → (HashMap.get (mark_completed g id).tasks x
        ≡ O.map (node_after g id x) (HashMap.get g.tasks x))
      × ((mark_completed g id).insertion_order ≡ g.insertion_order)
      × (is_promoted (mark_completed g id).tasks x ≡ false)
unfolding mark_completed promoted marked
mark_completed-promotes g id x =
    (get-mark_completed g id x, unfold set_status in refl, none_left (marked g id) x)
