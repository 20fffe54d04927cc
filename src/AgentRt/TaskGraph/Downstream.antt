-- ===== src/AgentRt/TaskGraph/Downstream.antt =====
-- agent_rt/task_graph.rs: which tasks need which.
use zeptobeam.Base.{
  ◌≡◌, refl, ap, ◌∙◌, List, [], ◌∷◌, true, ◌&&◌, inl, inr, String, string_eq, ◌==◌, arith,
  Bool-cases, any-append,
}
use zeptobeam.HashMap
use zeptobeam.HashMap.{HashMap}
use zeptobeam.AgentRt.TaskGraph.{TaskNode, has, deps_of, repeats, downstream_of, downstream}
use zeptobeam.AgentRt.TaskGraph.Promotion.{has-keys}

-- The task y needs the task x: it names x as a dependency, or a task that needs x.
pub data Needs {V : Type 0} (ts : HashMap String (TaskNode V)) (x : String) : String → Type 0 where
  direct : {y : String} → has (deps_of ts y) x ≡ true → Needs ts x y
  through : {y z : String} → Needs ts x y → has (deps_of ts z) y ≡ true → Needs ts x z

has-repeats :
    (id c y : String) (ds : List String) → has (repeats id c ds) y ≡ ((id == y) && has ds c)
unfolding repeats
has-repeats id c y [] = ground arith
has-repeats id c y (d ∷ ds) = ground (arith, has-repeats id c y ds)

module _ {V : Type 0} (ts : HashMap String (TaskNode V)) where
  has-downstream_of :
      (ids : List String) (c y : String)
      → has (downstream_of ts ids c) y ≡ (has ids y && has (deps_of ts y) c)
  unfolding downstream_of
  has-downstream_of [] c y = refl
  has-downstream_of (id ∷ ids) c y = elim (Bool-cases (id == y)) [
    | inl hit ↦
        let same : has (deps_of ts id) c ≡ has (deps_of ts y) c =
          ap (λ i. has (deps_of ts i) c) ((string_eq.beq_iff id y).0 hit) in
        any-append (λ z. z == y) (repeats id c (deps_of ts id)) (downstream_of ts ids c)
        ∙ ground (arith, has-repeats id c y (deps_of ts id), has-downstream_of ids c y)
    | inr miss ↦
        any-append (λ z. z == y) (repeats id c (deps_of ts id)) (downstream_of ts ids c)
        ∙ ground (arith, has-repeats id c y (deps_of ts id), has-downstream_of ids c y)
  ]

  pub has-downstream : (c y : String) → has (downstream ts c) y ≡ has (deps_of ts y) c
  unfolding downstream deps_of
  has-downstream c y = has-downstream_of (HashMap.keys ts) c y ∙ ground (arith, has-keys ts y)
