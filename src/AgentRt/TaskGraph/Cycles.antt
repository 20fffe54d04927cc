-- ===== src/AgentRt/TaskGraph/Cycles.antt =====
-- agent_rt/task_graph.rs: `detect_cycle` finds exactly the cycles.
use zeptobeam.Base.{
  ℕ, zero, suc, ◌+◌, ◌≤◌, ◌<◌, ◌≡◌, refl, sym, ap, subst, ◌∙◌, List, [], ◌∷◌, Bool, true, false,
  ◌⊎◌, inl, inr, some, String, string_eq, nat_eq, ◌==◌, ==-refl, arith, length, Bool-cases, ltb,
}
use zeptobeam.HashMap
use zeptobeam.HashMap.{HashMap}
use zeptobeam.AgentRt.TaskGraph.{TaskNode, TaskGraph, has, deps_of}
use zeptobeam.AgentRt.TaskGraph.Promotion.{has-keys}
use zeptobeam.AgentRt.TaskGraph.Downstream.{Needs, direct, through}
use zeptobeam.AgentRt.TaskGraph.Adding.{detect_cycle, roots, degrees}
use zeptobeam.AgentRt.TaskGraph.Counting.{Distinct, length-le, has-all, has-same}
use zeptobeam.AgentRt.TaskGraph.Degrees.{waiting-suc, within}
use zeptobeam.AgentRt.TaskGraph.Kahn.{
  Searched, Needs-within, done-keys, process-Searched, roots-Searched,
}

find_missing :
    (xs ys : List String)
    → ((z : String) × (has xs z ≡ true) × (has ys z ≡ false))
      ⊎ ((z : String) → has xs z ≡ true → has ys z ≡ true)
find_missing [] ys = inr (λ z h. absurd (cc h))
find_missing (x ∷ xs) ys = elim (Bool-cases (has ys x)) [
  | inr out ↦ inl (x, ground (arith, ==-refl x), out)
  | inl in_ ↦ elim (find_missing xs ys) [
    | inl (z, h, out) ↦ inl (z, ground (arith, h), out)
    | inr sub ↦ inr (λ z h. elim (Bool-cases (x == z)) [
      | inl same ↦ sym (has-same ys x z same) ∙ in_
      | inr other ↦ sub z (ground (arith, other))
    ])
  ]
]

length-keys : {V : Type 0} (ts : HashMap String V) → length (HashMap.keys ts) ≡ length ts
length-keys [] = refl
length-keys (x ∷ ts) = ap suc (length-keys ts)

module _ {V : Type 0} (ts : HashMap String (TaskNode V)) where
  -- What a dependency of z needs z for.
  Needs-cons : (d z y : String) → has (deps_of ts z) d ≡ true → Needs ts z y → Needs ts d y
  Needs-cons d z y h (direct n) = through (direct h) n
  Needs-cons d z y h (through {y = m} n k) = through (Needs-cons d z m h n) k

  module _ (done : List String) (deg : HashMap String ℕ) (s : Searched ts done [] deg) where
    next_waiting :
        (z : String)
        → has (HashMap.keys ts) z ≡ true
        → has done z ≡ false
        → (d : String) × (has (deps_of ts z) d ≡ true)
          × (has (HashMap.keys ts) d ≡ true)
          × (has done d ≡ false)
    next_waiting z here fresh =
        let (d, h, w, new) =
          waiting-suc (within ts) done (deps_of ts z)
            (ground (arith, s.reached z, has-keys ts z, here, fresh)) in
        (d, h, has-keys ts d ∙ w, new)

    -- A walk from a task that waits to one that it waits for, until a task comes again.
    walk :
        (fuel : ℕ) (z : String) (seen : List String)
        → has (HashMap.keys ts) z ≡ true
        → has done z ≡ false
        → ((y : String) → has seen y ≡ true → Needs ts z y)
        → ((y : String) → has seen y ≡ true → has (HashMap.keys ts) y ≡ true)
        → Distinct seen
        → length (HashMap.keys ts) < fuel + length seen
        → (x : String) × Needs ts x x
    walk zero z seen here fresh needs sub d b =
        absurd (omega (arith, length-le seen (HashMap.keys ts) d sub))
    walk (suc fuel) z seen here fresh needs sub d b = elim (Bool-cases (has seen z)) [
      | inl again ↦ (z, needs z again)
      | inr new ↦
          let (n, h, here', fresh') = next_waiting z here fresh in
          walk fuel n (z ∷ seen) here' fresh'
            (λ y k. elim (Bool-cases (z == y)) [
              | inl same ↦ subst (Needs ts n) ((string_eq.beq_iff z y).0 same) (direct h)
              | inr other ↦ Needs-cons n z y h (needs y (ground (arith, other)))
            ])
            (λ y k. elim (Bool-cases (z == y)) [
              | inl same ↦ sym (has-same (HashMap.keys ts) z y same) ∙ here
              | inr other ↦ sub y (ground (arith, other))
            ])
            (new, d) (omega arith)
    ]

    all_done : length (HashMap.keys ts) ≤ length done → (x : String) → Needs ts x x → ⊥
    all_done le x n =
        s.sound x
          (has-all done (HashMap.keys ts) s.once (done-keys ts done [] deg s) le x
            (has-keys ts x ∙ Needs-within ts x x n))
          n

    one_left :
        Distinct (HashMap.keys ts)
        → length done < length (HashMap.keys ts)
        → (x : String) × Needs ts x x
    one_left keys lt = elim (find_missing (HashMap.keys ts) done) [
      | inl (z, here, fresh) ↦
          walk (length (HashMap.keys ts) + 1) z [] here fresh (λ y h. absurd (cc h))
            (λ y h. absurd (cc h)) tt (omega arith)
      | inr sub ↦ absurd (omega (arith, length-le (HashMap.keys ts) done keys sub))
    ]

-- `detect_cycle` returns, without a degree that falls below 0. It answers true only if some task needs
-- itself, through any number of others, and false only if none does. No two tasks of the graph have
-- the same id.
pub detect_cycle-Needs :
    {V : Type 0} (g : TaskGraph V)
    → Distinct (HashMap.keys g.tasks)
    → (b : Bool) × (detect_cycle g ≡ some b)
      × (b ≡ true → (x : String) × Needs g.tasks x x)
      × (b ≡ false → (x : String) → ¬ Needs g.tasks x x)
unfolding detect_cycle
detect_cycle-Needs g keys =
    let ts = g.tasks in
    let ids = HashMap.keys ts in
    let (all, deg, e, s) =
      process-Searched ts keys (length ids) [] (roots (degrees ts ids)) (degrees ts ids)
        (roots-Searched ts keys) (omega arith) in
    (
      ltb (length all) (length ts),
      rw (e, detect_cycle) refl,
      λ yes. one_left ts all deg s keys (ground (arith, length-keys ts)),
      λ no. all_done ts all deg s (ground (arith, length-keys ts)),
    )
