-- ===== src/AgentRt/TaskGraph/Lowering.antt =====
-- agent_rt/task_graph.rs: how a task that is processed lowers the degrees of its dependents.
use mathlib.Core.Option as O
use zeptobeam.Base.{
  ℕ, suc, ◌+◌, ◌≡◌, refl, sym, ap, ◌∙◌, List, [], ◌∷◌, ◌++◌, Bool, true, false, ◌&&◌, inl, inr,
  Option, none, some, String, string_eq, nat_eq, ◌==◌, ==-refl, arith, if◌then◌else◌, Bool-cases,
  subst,
}
use mathlib.Core.List.{append_assoc, append-nil}
use zeptobeam.HashMap
use zeptobeam.HashMap.{HashMap}
use zeptobeam.AgentRt.TaskGraph.{has}
use zeptobeam.AgentRt.TaskGraph.Adding.{lower}
use zeptobeam.AgentRt.TaskGraph.Counting.{Distinct, count, has-count}

-- The degrees of the tasks of the graph, which are those of which `within` holds, are f.
abbrev pub HasDegrees : (String → Bool) → (String → ℕ) → HashMap String ℕ → Type 0
HasDegrees within f deg = (x : String) → HashMap.get deg x ≡ (if within x then some (f x) else none)

lower-none :
    (x : String) (xs : List String) (deg : HashMap String ℕ) (queue : List String)
    → HashMap.get deg x ≡ none
    → lower (x ∷ xs) deg queue ≡ lower xs deg queue
unfolding lower
lower-none x xs deg queue e = rw (e, lower) refl

lower-suc :
    (x : String) (xs : List String) (deg : HashMap String ℕ) (queue : List String) (n : ℕ)
    → HashMap.get deg x ≡ some (suc n)
    → lower (x ∷ xs) deg queue
      ≡ lower xs (HashMap.modify deg x (λ _. n)) (if n == 0 then queue ++ x ∷ [] else queue)
unfolding lower
lower-suc x xs deg queue n e = rw (e, lower) refl

module _ (within : String → Bool) (f : String → ℕ) where
  -- What `lower` makes of the degrees, and the tasks that it queues: those that come to 0.
  pub record IsLowered (xs queue : List String) (r : Option (HashMap String ℕ × List String))
      : Type 0 where
    pub deg : HashMap String ℕ
    pub fresh : List String
    pub returns : r ≡ some (deg, queue ++ fresh)
    pub lowered : HasDegrees within f deg
    pub queued : (y : String) → has fresh y ≡ (within y && ((f y == 0) && has xs y))
    pub distinct : Distinct fresh

  -- Whether the first dependent is queued settles it for every id.
  queued-cons :
      (x : String) (xs fresh : List String)
      → has fresh x ≡ (within x && ((f x == 0) && has (x ∷ xs) x))
      → ((y : String) → (x == y) ≡ false → has fresh y ≡ (within y && ((f y == 0) && has xs y)))
      → (y : String) → has fresh y ≡ (within y && ((f y == 0) && has (x ∷ xs) y))
  queued-cons x xs fresh at_x rest y = elim (Bool-cases (x == y)) [
    | inl same ↦
        subst (λ z. has fresh z ≡ (within z && ((f z == 0) && has (x ∷ xs) z)))
          ((string_eq.beq_iff x y).0 same) at_x
    | inr other ↦ rest y other ∙ ground (arith, other)
  ]

  module _ (x : String) (xs : List String) (deg : HashMap String ℕ)
      (h : HasDegrees within (λ y. f y + count y (x ∷ xs)) deg) where
    skipped : within x ≡ false → HasDegrees within (λ y. f y + count y xs) deg
    unfolding count
    skipped out y = elim (Bool-cases (x == y)) [
      | inl same ↦
          let gone : within y ≡ false = sym (ap within ((string_eq.beq_iff x y).0 same)) ∙ out in
          h y ∙ ground (arith, gone)
      | inr other ↦ h y ∙ ground (arith, other)
    ]

    found : within x ≡ true → HashMap.get deg x ≡ some (suc (f x + count x xs))
    unfolding count
    found here = h x ∙ ground (arith, here, ==-refl x)

    left :
        within x ≡ true
        → HasDegrees within (λ y. f y + count y xs) (HashMap.modify deg x (λ _. f x + count x xs))
    unfolding count
    left here y = HashMap.get-modify deg x (λ _. f x + count x xs) y ∙ elim (Bool-cases (x == y)) [
      | inl same ↦
          subst
            (λ z.
              (if x == z
                then O.map (λ _. f x + count x xs) (HashMap.get deg z)
                else HashMap.get deg z)
              ≡ (if within z then some (f z + count z xs) else none))
            ((string_eq.beq_iff x y).0 same) (ground (arith, here, ==-refl x, found here))
      | inr other ↦ ground (arith, other, h y)
    ]

  pub lower-IsLowered :
      (xs : List String) (deg : HashMap String ℕ) (queue : List String)
      → HasDegrees within (λ y. f y + count y xs) deg
      → IsLowered xs queue (lower xs deg queue)
  unfolding lower count
  lower-IsLowered [] deg queue h = record {
    deg = deg;
    fresh = [];
    returns = ap (λ q. some (deg, q)) (sym (append-nil queue));
    lowered = λ y. ground (arith, h y);
    queued = λ y. ground arith;
    distinct = tt;
  }
  lower-IsLowered (x ∷ xs) deg queue h = elim (Bool-cases (within x)) [
    | inr out ↦
        let r = lower-IsLowered xs deg queue (skipped x xs deg h out) in
        record {
          deg = r.deg;
          fresh = r.fresh;
          returns = lower-none x xs deg queue (h x ∙ ground (arith, out)) ∙ r.returns;
          lowered = r.lowered;
          queued = queued-cons x xs r.fresh (r.queued x ∙ ground (arith, out)) (λ y _. r.queued y);
          distinct = r.distinct;
        }
    | inl here ↦
        let n = f x + count x xs in
        let deg' = HashMap.modify deg x (λ _. n) in
        let first = lower-suc x xs deg queue n (found x xs deg h here) in
        elim (Bool-cases (n == 0)) [
          | inl last ↦
              let r = lower-IsLowered xs deg' (queue ++ x ∷ []) (left x xs deg h here) in
              record {
                deg = r.deg;
                fresh = x ∷ r.fresh;
                returns =
                    first
                    ∙ ap (λ (b : Bool). lower xs deg' (if b then queue ++ x ∷ [] else queue)) last
                    ∙ r.returns
                    ∙ ap (λ q. some (r.deg, q)) (append_assoc queue (x ∷ []) r.fresh);
                lowered = r.lowered;
                queued =
                    queued-cons x xs (x ∷ r.fresh) (ground (arith, here, last, ==-refl x))
                      (λ y other. ground (arith, other, r.queued y));
                distinct = (r.queued x ∙ ground (arith, last, has-count xs x), r.distinct);
              }
          | inr more ↦
              let r = lower-IsLowered xs deg' queue (left x xs deg h here) in
              record {
                deg = r.deg;
                fresh = r.fresh;
                returns =
                    first
                    ∙ ap (λ (b : Bool). lower xs deg' (if b then queue ++ x ∷ [] else queue)) more
                    ∙ r.returns;
                lowered = r.lowered;
                queued =
                    queued-cons x xs r.fresh
                      (r.queued x ∙ ground (arith, here, more, has-count xs x, ==-refl x))
                      (λ y _. r.queued y);
                distinct = r.distinct;
              }
        ]
  ]
