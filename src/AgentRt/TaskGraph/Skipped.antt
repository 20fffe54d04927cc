-- ===== src/AgentRt/TaskGraph/Skipped.antt =====
-- agent_rt/task_graph.rs: which tasks `fail_dependents` skips.
use mathlib.Core.Option as O
use mathlib.Core.Option.{some-injective}
use zeptobeam.Base.{
  ℕ, zero, suc, ◌+◌, ◌≡◌, refl, sym, ap, subst, ◌∙◌, List, [], ◌∷◌, ◌++◌, true, ◌||◌, ◌⊎◌, inl, inr,
  Option, none, some, String, string_eq, ◌==◌, arith, Option-cases, Bool-cases, any-append, ==-refl,
}
use zeptobeam.HashMap
use zeptobeam.HashMap.{HashMap}
use zeptobeam.AgentRt.TaskGraph.{
  skipped, TaskNode, TaskGraph, has, deps_of, put_status, put_all, downstream, cascade, edge_count,
  fail_dependents,
}
use zeptobeam.AgentRt.TaskGraph.Promotion.{get-put_all}
use zeptobeam.AgentRt.TaskGraph.Cascade.{cascade_returns}
use zeptobeam.AgentRt.TaskGraph.Downstream.{Needs, direct, through, has-downstream}

drop_visited :
    (c : String) (visited queue : List String) (y : String)
    → has visited c ≡ true
    → (has visited y || has (c ∷ queue) y) ≡ true
    → (has visited y || has queue y) ≡ true
drop_visited c visited queue y old h = elim (Bool-cases (c == y)) [
  | inl hit ↦
      let same : has visited y ≡ true =
        sym (ap (has visited) ((string_eq.beq_iff c y).0 hit)) ∙ old in
      ground arith
  | inr miss ↦ ground arith
]

-- What a round keeps: a skipped task stays skipped, and no task but those named changes.
module _ {V : Type 0} where
  abbrev pub IsSkipped : HashMap String (TaskNode V) → String → Type 0
  IsSkipped ts x = (n : TaskNode V) → HashMap.get ts x ≡ some n → n.status ≡ skipped

  put_all-IsSkipped :
      (ids : List String) (ts : HashMap String (TaskNode V)) (x : String)
      → IsSkipped ts x
      → IsSkipped (put_all skipped ids ts) x
  unfolding put_status
  put_all-IsSkipped ids ts x s n e = elim (Option-cases (HashMap.get ts x)) [
    | inl gone ↦ ground (arith, get-put_all skipped ids ts x)
    | inr (m, here) ↦ ground (arith, get-put_all skipped ids ts x, s m here)
  ]

  put_all-IsSkipped_named :
      (ids : List String) (ts : HashMap String (TaskNode V)) (x : String)
      → has ids x ≡ true
      → IsSkipped (put_all skipped ids ts) x
  unfolding put_status
  put_all-IsSkipped_named ids ts x h n e = elim (Option-cases (HashMap.get ts x)) [
    | inl gone ↦ ground (arith, get-put_all skipped ids ts x)
    | inr (m, here) ↦ ground (arith, get-put_all skipped ids ts x)
  ]

  module _ (next : String → List String) where
    -- The tasks reached are those visited, with those reached from them.
    record Closed (visited queue : List String) (ts : HashMap String (TaskNode V)) : Type 0 where
      reached :
          (x y : String)
          → has visited x ≡ true
          → has (next x) y ≡ true
          → (has visited y || has queue y) ≡ true
      marked : (x y : String) → has visited x ≡ true → has (next x) y ≡ true → IsSkipped ts y

    skip_visited :
        (c : String) (visited queue : List String) (ts : HashMap String (TaskNode V))
        → has visited c ≡ true
        → Closed visited (c ∷ queue) ts
        → Closed visited queue ts
    skip_visited c visited queue ts old k = record {
      reached = λ x y hx hy. drop_visited c visited queue y old (k.reached x y hx hy);
      marked = k.marked;
    }

    visit :
        (c : String) (visited queue : List String) (ts : HashMap String (TaskNode V))
        → Closed visited (c ∷ queue) ts
        → Closed (c ∷ visited) (queue ++ next c) (put_all skipped (next c) ts)
    visit c visited queue ts k = record {
      reached = λ x y hx hy. elim (Bool-cases (c == x)) [
        | inl hit ↦
            let now : has (next c) y ≡ true =
              ap (λ i. has (next i) y) ((string_eq.beq_iff c x).0 hit) ∙ hy in
            ground (arith, any-append (λ z. z == y) queue (next c))
        | inr miss ↦
            ground (arith, k.reached x y (ground arith) hy, any-append (λ z. z == y) queue (next c))
      ];
      marked = λ x y hx hy. elim (Bool-cases (c == x)) [
        | inl hit ↦
            put_all-IsSkipped_named (next c) ts y
              (ap (λ i. has (next i) y) ((string_eq.beq_iff c x).0 hit) ∙ hy)
        | inr miss ↦ put_all-IsSkipped (next c) ts y (k.marked x y (ground arith) hy)
      ];
    }

    cascade-Closed :
        (fuel : ℕ) (queue visited : List String) (ts ts' : HashMap String (TaskNode V))
        → Closed visited queue ts
        → cascade next fuel queue visited ts ≡ some ts'
        → (all : List String) × Closed all [] ts'
          × ((x : String) → (has visited x || has queue x) ≡ true → has all x ≡ true)
    unfolding cascade
    cascade-Closed fuel [] visited ts ts' k e =
        (visited, subst (Closed visited []) (some-injective _ _ e) k, λ x h. ground arith)
    cascade-Closed zero (c ∷ queue) visited ts ts' k e = absurd (cc e)
    cascade-Closed (suc fuel) (c ∷ queue) visited ts ts' k e = elim (Bool-cases (has visited c)) [
      | inl old ↦
          let (all, done, incl) =
            cascade-Closed fuel queue visited ts ts' (skip_visited c visited queue ts old k)
              (rw (old, cascade) at e) in
          (all, done, λ x h. incl x (drop_visited c visited queue x old h))
      | inr fresh ↦
          let (all, done, incl) =
            cascade-Closed fuel (queue ++ next c) (c ∷ visited) (put_all skipped (next c) ts) ts'
              (visit c visited queue ts k) (rw (fresh, cascade) at e) in
          (all, done, λ x h. incl x (ground (arith, any-append (λ z. z == x) queue (next c))))
    ]

module _ (next : String → List String) (From : String → Type 0) (Below : String → Type 0)
    (reach : (c y : String) → From c → has (next c) y ≡ true → Below y)
    (below : (y : String) → Below y → From y) where
  queue_after :
      (c : String) (queue : List String) (x : String)
      → ((y : String) → has (c ∷ queue) y ≡ true → From y)
      → has (queue ++ next c) x ≡ true
      → From x
  queue_after c queue x q h = elim (Bool-cases (has queue x)) [
    | inl old ↦ q x (ground arith)
    | inr new ↦ below x (
        reach c x (q c (ground (arith, ==-refl c)))
          (ground (arith, any-append (λ z. z == x) queue (next c))))
  ]

-- What the search changes, where `From` holds of the queue and is closed under the reverse map.
module _ {V : Type 0} (next : String → List String) (From : String → Type 0)
    (Below : String → Type 0) (reach : (c y : String) → From c → has (next c) y ≡ true → Below y)
    (below : (y : String) → Below y → From y) where
  abbrev Changed : HashMap String (TaskNode V) → HashMap String (TaskNode V) → String → Type 0
  Changed ts ts' x =
      (HashMap.get ts' x ≡ HashMap.get ts x)
      ⊎ (Below x × (HashMap.get ts' x ≡ O.map (put_status skipped) (HashMap.get ts x)))

  put_all-Changed :
      (c : String) (ts : HashMap String (TaskNode V)) (x : String)
      → From c
      → Changed ts (put_all skipped (next c) ts) x
  put_all-Changed c ts x f = elim (Bool-cases (has (next c) x)) [
    | inl named ↦ inr (reach c x f named, ground (arith, get-put_all skipped (next c) ts x, named))
    | inr other ↦ inl (ground (arith, get-put_all skipped (next c) ts x, other))
  ]

  skip_twice :
      (o : Option (TaskNode V))
      → O.map (put_status skipped) (O.map (put_status skipped) o) ≡ O.map (put_status skipped) o
  unfolding put_status
  skip_twice none = refl
  skip_twice (some n) = refl

  Changed-trans :
      (ts ts₁ ts₂ : HashMap String (TaskNode V)) (x : String)
      → Changed ts ts₁ x
      → Changed ts₁ ts₂ x
      → Changed ts ts₂ x
  Changed-trans ts ts₁ ts₂ x (inl a) (inl b) = inl (b ∙ a)
  Changed-trans ts ts₁ ts₂ x (inl a) (inr (f, b)) = inr (f, b ∙ ap (O.map (put_status skipped)) a)
  Changed-trans ts ts₁ ts₂ x (inr (f, a)) (inl b) = inr (f, b ∙ a)
  Changed-trans ts ts₁ ts₂ x (inr (f, a)) (inr (_, b)) =
      inr (f, b ∙ ap (O.map (put_status skipped)) a ∙ skip_twice (HashMap.get ts x))

  cascade-Changed :
      (fuel : ℕ) (queue visited : List String) (ts ts' : HashMap String (TaskNode V))
      → ((y : String) → has queue y ≡ true → From y)
      → cascade next fuel queue visited ts ≡ some ts'
      → (x : String) → Changed ts ts' x
  unfolding cascade
  cascade-Changed fuel [] visited ts ts' q e x =
      inl (ap (λ t. HashMap.get t x) (sym (some-injective _ _ e)))
  cascade-Changed zero (c ∷ queue) visited ts ts' q e x = absurd (cc e)
  cascade-Changed (suc fuel) (c ∷ queue) visited ts ts' q e x = elim (Bool-cases (has visited c)) [
    | inl old ↦
        cascade-Changed fuel queue visited ts ts' (λ y h. q y (ground arith))
          (rw (old, cascade) at e) x
    | inr fresh ↦
        let ts₁ = put_all skipped (next c) ts in
        Changed-trans ts ts₁ ts' x (put_all-Changed c ts x (q c (ground (arith, ==-refl c)))) (
          cascade-Changed fuel (queue ++ next c) (c ∷ visited) ts₁ ts'
            (λ y. queue_after next From Below reach below c queue y q) (rw (fresh, cascade) at e) x)
  ]

module _ {V : Type 0} (ts : HashMap String (TaskNode V)) (id : String) where
  abbrev From : String → Type 0
  From x = (x ≡ id) ⊎ Needs ts id x

  downstream-Needs : (c y : String) → From c → has (downstream ts c) y ≡ true → Needs ts id y
  downstream-Needs c y (inl e) h =
      direct (subst (λ i. has (deps_of ts y) i ≡ true) e (sym (has-downstream ts c y) ∙ h))
  downstream-Needs c y (inr n) h = through n (sym (has-downstream ts c y) ∙ h)

  Needs-reached :
      (all : List String) (ts' : HashMap String (TaskNode V)) (x : String)
      → Closed (downstream ts) all [] ts'
      → has all id ≡ true
      → Needs ts id x
      → (has all x ≡ true) × IsSkipped ts' x
  Needs-reached all ts' x k start (direct h) =
      let step : has (downstream ts id) x ≡ true = has-downstream ts id x ∙ h in
      (ground (arith, k.reached id x start step), k.marked id x start step)
  Needs-reached all ts' x k start (through {y} n h) =
      let step : has (downstream ts y) x ≡ true = has-downstream ts y x ∙ h in
      let before = (Needs-reached all ts' y k start n).0 in
      (ground (arith, k.reached y x before step), k.marked y x before step)

-- `fail_dependents` returns, on cyclic dependencies too. It skips every task that needs the failed
-- one, directly or through other tasks, and changes nothing of any other task.
pub fail_dependents-Needs :
    {V : Type 0} (g : TaskGraph V) (id : String)
    → (g' : TaskGraph V) × (fail_dependents g id ≡ some g')
      × ((x : String) → Needs g.tasks id x → IsSkipped g'.tasks x)
      × ((x : String)
          → (HashMap.get g'.tasks x ≡ HashMap.get g.tasks x)
            ⊎ (Needs g.tasks id x
                × (HashMap.get g'.tasks x ≡ O.map (put_status skipped) (HashMap.get g.tasks x))))
unfolding fail_dependents
fail_dependents-Needs {V} g id =
    let ts = g.tasks in
    let (ts', e) = cascade_returns ts id in
    let next = downstream ts in
    let fuel = edge_count ts (HashMap.keys ts) + 1 in
    let first : Closed next [] (id ∷ []) ts = record {
      reached = λ x y hx hy. absurd (cc hx);
      marked = λ x y hx hy. absurd (cc hx);
    } in
    let (all, closed, incl) = cascade-Closed next fuel (id ∷ []) [] ts ts' first e in
    (
      record g { tasks = ts' },
      rw (e, fail_dependents) refl,
      λ x n. (Needs-reached ts id all ts' x closed (incl id (ground (arith, ==-refl id))) n).1,
      cascade-Changed next (From ts id) (Needs ts id) (downstream-Needs ts id) (λ y n. inr n) fuel
          (id ∷ []) [] ts ts' (λ y h. inl (sym ((string_eq.beq_iff id y).0 (ground arith)))) e,
    )
