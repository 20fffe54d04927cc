-- ===== src/AgentRt/TaskGraph/Cascade.antt =====
-- agent_rt/task_graph.rs: the rounds of the search in `fail_dependents`.
use zeptobeam.Base.{
  ℕ, zero, suc, ◌+◌, ◌≤◌, ◌≡◌, refl, sym, ap, ◌∙◌, List, [], ◌∷◌, ◌++◌, true, false, inl, inr, some,
  String, string_eq, ◌==◌, arith, length, if◌then◌else◌, Bool-cases, length-append,
}
use zeptobeam.HashMap
use zeptobeam.HashMap.{HashMap}
use zeptobeam.AgentRt.TaskGraph.{
  TaskNode, has, deps_of, put_all, repeats, downstream_of, downstream, cascade, edge_count, skipped,
}

-- With a measure of what is unvisited, the fuel of the rounds is enough.
cascade_total :
    {V : Type 0} (next : String → List String) (left : List String → ℕ)
    → ((visited : List String) (c : String)
        → has visited c ≡ false
        → length (next c) + left (c ∷ visited) ≡ left visited)
    → (fuel : ℕ) (queue visited : List String) (ts : HashMap String (TaskNode V))
    → length queue + left visited ≤ fuel
    → (ts' : HashMap String (TaskNode V)) × (cascade next fuel queue visited ts ≡ some ts')
unfolding cascade
cascade_total next left falls zero [] visited ts b = (ts, refl)
cascade_total next left falls (suc fuel) [] visited ts b = (ts, refl)
cascade_total next left falls zero (c ∷ queue) visited ts b = absurd (omega arith)
cascade_total next left falls (suc fuel) (c ∷ queue) visited ts b =
    elim (Bool-cases (has visited c)) [
      | inl old ↦
          let (ts', e) = cascade_total next left falls fuel queue visited ts (omega arith) in
          (ts', rw (old, cascade) e)
      | inr fresh ↦
          let (ts', e) =
            cascade_total next left falls fuel (queue ++ next c) (c ∷ visited)
              (put_all skipped (next c) ts)
              (omega (arith, falls visited c fresh, length-append queue (next c))) in
          (ts', rw (fresh, cascade) e)
    ]

-- The dependencies that are not visited, counted once for each time.
unvisited : List String → List String → ℕ
unvisited visited [] = 0
unvisited visited (d ∷ ds) =
    let rest = unvisited visited ds in if has visited d then rest else rest + 1

length-repeats :
    (id c : String) (visited ds : List String)
    → has visited c ≡ false
    → length (repeats id c ds) + unvisited (c ∷ visited) ds ≡ unvisited visited ds
unfolding repeats unvisited
length-repeats id c visited [] fresh = refl
length-repeats id c visited (d ∷ ds) fresh = elim (Bool-cases (d == c)) [
  | inl hit ↦
      let same : has visited d ≡ false = ap (has visited) ((string_eq.beq_iff d c).0 hit) ∙ fresh in
      let back : (c == d) ≡ true =
        (string_eq.beq_iff c d).1 (sym ((string_eq.beq_iff d c).0 hit)) in
      ground (arith, length-repeats id c visited ds fresh, same, back, hit)
  | inr miss ↦ ground (
    arith,
    length-repeats id c visited ds fresh,
    miss,
    string_eq.beq_iff d c,
    string_eq.beq_iff c d,
  )
]

module _ {V : Type 0} (ts : HashMap String (TaskNode V)) where
  unvisited_all : List String → List String → ℕ
  unfolding unvisited
  unvisited_all visited [] = 0
  unvisited_all visited (id ∷ ids) = unvisited visited (deps_of ts id) + unvisited_all visited ids

  length-downstream_of :
      (ids : List String) (c : String) (visited : List String)
      → has visited c ≡ false
      → length (downstream_of ts ids c) + unvisited_all (c ∷ visited) ids
        ≡ unvisited_all visited ids
  unfolding downstream_of unvisited_all
  length-downstream_of [] c visited fresh = refl
  length-downstream_of (id ∷ ids) c visited fresh = omega (
    arith,
    length-append (repeats id c (deps_of ts id)) (downstream_of ts ids c),
    length-repeats id c visited (deps_of ts id) fresh,
    length-downstream_of ids c visited fresh,
  )

  unvisited-nil : (ds : List String) → unvisited [] ds ≡ length ds
  unfolding unvisited
  unvisited-nil [] = refl
  unvisited-nil (d ∷ ds) = omega (arith, unvisited-nil ds)

  unvisited_all-nil : (ids : List String) → unvisited_all [] ids ≡ edge_count ts ids
  unfolding unvisited_all edge_count
  unvisited_all-nil [] = refl
  unvisited_all-nil (id ∷ ids) = omega (arith, unvisited-nil (deps_of ts id), unvisited_all-nil ids)

  pub cascade_returns :
      (id : String)
      → (ts' : HashMap String (TaskNode V)) × (cascade
            (downstream ts)
            (edge_count ts (HashMap.keys ts) + 1)
            (id ∷ [])
            []
            ts
          ≡ some ts')
  unfolding downstream
  cascade_returns id =
      cascade_total (downstream_of ts (HashMap.keys ts)) (λ v. unvisited_all v (HashMap.keys ts))
        (λ visited c fresh. length-downstream_of (HashMap.keys ts) c visited fresh)
        (edge_count ts (HashMap.keys ts) + 1) (id ∷ []) [] ts
        (omega (arith, unvisited_all-nil (HashMap.keys ts)))
