-- ===== src/AgentRt/TaskGraph/Degrees.antt =====
-- agent_rt/task_graph.rs: how many dependencies a task waits for, while tasks are processed.
use zeptobeam.Base.{
  ℕ, suc, ◌+◌, ◌≡◌, refl, sym, ap, ◌∙◌, List, [], ◌∷◌, Bool, true, false, not, ◌&&◌, inl, inr, none,
  some, String, string_eq, nat_eq, ◌==◌, ==-refl, arith, length, keep, if◌then◌else◌, Bool-cases,
}
use zeptobeam.HashMap
use zeptobeam.HashMap.{HashMap}
use zeptobeam.AgentRt.TaskGraph.{TaskNode, has, deps_of, repeats, downstream_of, downstream}
use zeptobeam.AgentRt.TaskGraph.Promotion.{has-keys, has-keep}
use zeptobeam.AgentRt.TaskGraph.Adding.{degree, degrees, roots, is_zero}
use zeptobeam.AgentRt.TaskGraph.Counting.{Distinct, count, count-append, has-same}
use zeptobeam.AgentRt.TaskGraph.Lowering.{HasDegrees}

pub keep-Distinct : (p : String → Bool) (xs : List String) → Distinct xs → Distinct (keep p xs)
keep-Distinct p [] d = tt
keep-Distinct p (x ∷ xs) d = elim (Bool-cases (p x)) [
  | inl in_ ↦ rw in_ (has-keep p xs x ∙ ground (arith, d.0), keep-Distinct p xs d.1)
  | inr out ↦ rw out (keep-Distinct p xs d.1)
]

module _ (within : String → Bool) where
  -- The dependencies in the graph that are not processed.
  unfoldable pub waiting : List String → List String → ℕ
  waiting processed [] = 0
  waiting processed (d ∷ ds) =
      let rest = waiting processed ds in
      if within d && not (has processed d) then suc rest else rest

  pub waiting-cons :
      (c : String) (processed ds : List String)
      → within c ≡ true
      → has processed c ≡ false
      → waiting processed ds ≡ count c ds + waiting (c ∷ processed) ds
  unfolding waiting count
  waiting-cons c processed [] here fresh = omega arith
  waiting-cons c processed (d ∷ ds) here fresh = elim (Bool-cases (d == c)) [
    | inl same ↦
        let e = (string_eq.beq_iff d c).0 same in
        let here' : within d ≡ true = ap within e ∙ here in
        let fresh' : has processed d ≡ false = ap (has processed) e ∙ fresh in
        let back : (c == d) ≡ true = (string_eq.beq_iff c d).1 (sym e) in
        ground (arith, waiting-cons c processed ds here fresh, here', fresh', back, same)
    | inr other ↦ ground (
      arith,
      waiting-cons c processed ds here fresh,
      other,
      string_eq.beq_iff c d,
      string_eq.beq_iff d c,
    )
  ]

  pub waiting-nil : (ds : List String) → waiting [] ds ≡ length (keep within ds)
  unfolding waiting
  waiting-nil [] = refl
  waiting-nil (d ∷ ds) = ground (arith, waiting-nil ds)

  pub waiting-zero :
      (processed ds : List String)
      → waiting processed ds ≡ 0
      → (d : String) → has ds d ≡ true
      → within d ≡ true
      → has processed d ≡ true
  unfolding waiting
  waiting-zero processed [] e d h w = absurd (cc h)
  waiting-zero processed (x ∷ ds) e d h w = elim (Bool-cases (x == d)) [
    | inl same ↦
        let y = (string_eq.beq_iff x d).0 same in
        let w' : within x ≡ true = ap within y ∙ w in
        sym (has-same processed x d same) ∙ ground (arith, e, w')
    | inr other ↦ waiting-zero processed ds (ground arith) d (ground arith) w
  ]

  pub waiting-suc :
      (processed ds : List String)
      → (waiting processed ds == 0) ≡ false
      → (d : String) × (has ds d ≡ true) × (within d ≡ true) × (has processed d ≡ false)
  unfolding waiting
  waiting-suc processed [] e = absurd (ground arith)
  waiting-suc processed (x ∷ ds) e = elim (Bool-cases (within x && not (has processed x))) [
    | inl this ↦ (x, ground (arith, ==-refl x), ground arith, ground arith)
    | inr other ↦
        let (d, h, w, fresh) = waiting-suc processed ds (ground arith) in
        (d, ground (arith, h), w, fresh)
  ]

module _ {V : Type 0} (ts : HashMap String (TaskNode V)) where
  count-repeats :
      (y id c : String) (ds : List String)
      → count y (repeats id c ds) ≡ (if id == y then count c ds else 0)
  unfolding repeats count
  count-repeats y id c [] = ground arith
  count-repeats y id c (d ∷ ds) = ground (arith, count-repeats y id c ds)

  count-downstream_of :
      (ids : List String) (y c : String)
      → Distinct ids
      → count y (downstream_of ts ids c) ≡ (if has ids y then count c (deps_of ts y) else 0)
  unfolding downstream_of count
  count-downstream_of [] y c d = refl
  count-downstream_of (id ∷ ids) y c d =
      count-append y (repeats id c (deps_of ts id)) (downstream_of ts ids c)
      ∙ elim (Bool-cases (id == y)) [
        | inl same ↦
            let e = (string_eq.beq_iff id y).0 same in
            let deps : count c (deps_of ts id) ≡ count c (deps_of ts y) =
              ap (λ i. count c (deps_of ts i)) e in
            let gone : has ids y ≡ false = sym (has-same ids id y same) ∙ d.0 in
            ground (
              arith,
              same,
              deps,
              gone,
              count-repeats y id c (deps_of ts id),
              count-downstream_of ids y c d.1,
            )
        | inr other ↦
            ground
              (arith, other, count-repeats y id c (deps_of ts id), count-downstream_of ids y c d.1)
      ]

  abbrev pub within : String → Bool
  within = HashMap.contains_key ts

  -- A task stands among the dependents of c as often as c among its dependencies.
  pub count-downstream :
      (y c : String)
      → Distinct (HashMap.keys ts)
      → count y (downstream ts c) ≡ (if within y then count c (deps_of ts y) else 0)
  unfolding downstream
  count-downstream y c d =
      count-downstream_of (HashMap.keys ts) y c d
      ∙ ap (λ (b : Bool). if b then count c (deps_of ts y) else 0) (has-keys ts y)

  get-degrees :
      (ids : List String) (y : String)
      → HashMap.get (degrees ts ids) y ≡ (if has ids y then some (degree ts y) else none)
  unfolding degrees HashMap.get
  get-degrees [] y = refl
  get-degrees (id ∷ ids) y = elim (Bool-cases (id == y)) [
    | inl same ↦ rw same (ap (λ i. some (degree ts i)) ((string_eq.beq_iff id y).0 same))
    | inr other ↦ rw other (get-degrees ids y)
  ]

  pub keys-degrees : (ids : List String) → HashMap.keys (degrees ts ids) ≡ ids
  unfolding degrees
  keys-degrees [] = refl
  keys-degrees (id ∷ ids) = ap (λ l. id ∷ l) (keys-degrees ids)

  pub degrees-HasDegrees :
      HasDegrees within (λ y. waiting within [] (deps_of ts y)) (degrees ts (HashMap.keys ts))
  unfolding degree
  degrees-HasDegrees y =
      get-degrees (HashMap.keys ts) y
      ∙ ground (arith, has-keys ts y, waiting-nil within (deps_of ts y))

  pub has-roots :
      (deg : HashMap String ℕ) (f : String → ℕ) (y : String)
      → HasDegrees within f deg
      → HashMap.keys deg ≡ HashMap.keys ts
      → has (roots deg) y ≡ (within y && (f y == 0))
  unfolding roots
  has-roots deg f y h e =
      has-keep (λ id. is_zero (HashMap.get deg id)) (HashMap.keys deg) y
      ∙ ap (λ l. is_zero (HashMap.get deg y) && has l y) e
      ∙ ground (arith, h y, has-keys ts y)

  pub roots-Distinct : Distinct (HashMap.keys ts) → Distinct (roots (degrees ts (HashMap.keys ts)))
  unfolding roots
  roots-Distinct d =
      keep-Distinct (λ id. is_zero (HashMap.get (degrees ts (HashMap.keys ts)) id)) _
        (rw (keys-degrees (HashMap.keys ts)) d)
