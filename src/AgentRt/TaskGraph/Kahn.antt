-- ===== src/AgentRt/TaskGraph/Kahn.antt =====
-- agent_rt/task_graph.rs: what the search for a cycle keeps while it processes tasks.
use zeptobeam.Base.{
  ℕ, zero, suc, ◌+◌, ◌≤◌, ◌≡◌, refl, sym, ap, subst, ◌∙◌, List, [], ◌∷◌, ◌++◌, Bool, true, false,
  ◌&&◌, ◌||◌, inl, inr, none, some, String, string_eq, nat_eq, ◌==◌, ==-refl, arith, length,
  if◌then◌else◌, Bool-cases, any-append,
}
use zeptobeam.HashMap
use zeptobeam.HashMap.{HashMap}
use zeptobeam.AgentRt.TaskGraph.{TaskNode, has, deps_of, downstream}
use zeptobeam.AgentRt.TaskGraph.Promotion.{has-keys}
use zeptobeam.AgentRt.TaskGraph.Downstream.{Needs, direct, through}
use zeptobeam.AgentRt.TaskGraph.Adding.{lower, process, degrees, roots}
use zeptobeam.AgentRt.TaskGraph.Counting.{
  Distinct, Distinct-append, count, has-count, has-same, length-le,
}
use zeptobeam.AgentRt.TaskGraph.Lowering.{HasDegrees, IsLowered, lower-IsLowered}
use zeptobeam.AgentRt.TaskGraph.Degrees.{
  waiting, waiting-cons, waiting-zero, within, count-downstream, degrees-HasDegrees, has-roots,
  keys-degrees, roots-Distinct,
}

module _ {V : Type 0} (ts : HashMap String (TaskNode V)) where
  within-deps : (x y : String) → has (deps_of ts y) x ≡ true → within ts y ≡ true
  unfolding deps_of
  within-deps x y h = ground arith

  pub Needs-within : (x y : String) → Needs ts x y → within ts y ≡ true
  Needs-within x y (direct h) = within-deps x y h
  Needs-within x y (through {y = m} n h) = within-deps m y h

  -- The search between two rounds: the tasks processed, the last one first, the queue and the degrees.
  pub record Searched (done queue : List String) (deg : HashMap String ℕ) : Type 0 where
    pub counted : HasDegrees (within ts) (λ y. waiting (within ts) done (deps_of ts y)) deg
    pub reached :
        (y : String)
        → (within ts y && (waiting (within ts) done (deps_of ts y) == 0))
          ≡ (has done y || has queue y)
    pub once : Distinct done
    pub queued_once : Distinct queue
    pub apart : (y : String) → has done y ≡ true → has queue y ≡ false
    pub closed :
        (x y : String)
        → has done y ≡ true
        → has (deps_of ts y) x ≡ true
        → within ts x ≡ true
        → has done x ≡ true
    pub sound : (y : String) → has done y ≡ true → ¬ Needs ts y y

  -- What a processed task needs is processed.
  closed-Needs :
      (done : List String)
      → ((x y : String)
          → has done y ≡ true
          → has (deps_of ts y) x ≡ true
          → within ts x ≡ true
          → has done x ≡ true)
      → (x y : String) → within ts x ≡ true
      → has done y ≡ true
      → Needs ts x y
      → has done x ≡ true
  closed-Needs done closed x y w d (direct h) = closed x y d h w
  closed-Needs done closed x y w d (through {y = m} n h) =
      closed-Needs done closed x m w (closed m y d h (Needs-within x m n)) n

  module _ (c : String) (done queue : List String) (deg : HashMap String ℕ)
      (s : Searched done (c ∷ queue) deg) (keys : Distinct (HashMap.keys ts)) where
    this : (within ts c ≡ true) × (waiting (within ts) done (deps_of ts c) ≡ 0)
    this = (ground (arith, s.reached c, ==-refl c), ground (arith, s.reached c, ==-refl c))

    new : has done c ≡ false
    new = elim (Bool-cases (has done c)) [
      | inl old ↦ absurd (ground (arith, s.apart c old, ==-refl c))
      | inr e ↦ e
    ]

    falls :
        (y : String)
        → within ts y ≡ true
        → waiting (within ts) done (deps_of ts y)
          ≡ waiting (within ts) (c ∷ done) (deps_of ts y) + count y (downstream ts c)
    falls y w = omega (
      arith,
      waiting-cons (within ts) c done (deps_of ts y) this.0 new,
      count-downstream ts y c keys,
      ap (λ (b : Bool). if b then count c (deps_of ts y) else 0) w,
    )

    pub lowered :
        IsLowered
          (within ts)
          (λ y. waiting (within ts) (c ∷ done) (deps_of ts y))
          (downstream ts c)
          queue
          (lower (downstream ts c) deg queue)
    lowered =
        lower-IsLowered (within ts) (λ y. waiting (within ts) (c ∷ done) (deps_of ts y))
          (downstream ts c) deg queue
          (λ y. s.counted y ∙ elim (Bool-cases (within ts y)) [
            | inl w ↦ rw w (ap some (falls y w))
            | inr w ↦ rw w refl
          ])

    none_needed :
        (x : String) → has (deps_of ts c) x ≡ true → within ts x ≡ true → has done x ≡ true
    none_needed x h w = waiting-zero (within ts) done (deps_of ts c) this.1 x h w

    acyclic : ¬ Needs ts c c
    acyclic (direct h) = cc (none_needed c h this.0, new)
    acyclic (through {y} n h) =
        cc (closed-Needs done s.closed c y this.0 (none_needed y h (Needs-within c y n)) n, new)

    queued_anew :
        (y : String) → has lowered.fresh y ≡ true → (has done y || has (c ∷ queue) y) ≡ false
    queued_anew y h =
        let (w, some_new) : (within ts y ≡ true) × (has (downstream ts c) y ≡ true) =
          (ground (arith, lowered.queued y), ground (arith, lowered.queued y)) in
        sym (s.reached y) ∙ ground (arith, falls y w, has-count (downstream ts c) y, some_new)

    pub next_Searched : Searched (c ∷ done) (queue ++ lowered.fresh) lowered.deg
    next_Searched = record {
      counted = lowered.lowered;
      reached = λ y. elim (Bool-cases (within ts y)) [
        | inl w ↦ ground (
          arith,
          w,
          any-append (λ z. z == y) queue lowered.fresh,
          s.reached y,
          lowered.queued y,
          falls y w,
          has-count (downstream ts c) y,
        )
        | inr w ↦
            ground (
              arith,
              w,
              any-append (λ z. z == y) queue lowered.fresh,
              s.reached y,
              lowered.queued y,
            )
      ];
      once = (new, s.once);
      queued_once = Distinct-append queue lowered.fresh s.queued_once.1 lowered.distinct (λ y h.
          elim (Bool-cases (has lowered.fresh y)) [
            | inl f ↦ absurd (ground (arith, queued_anew y f))
            | inr none_new ↦ none_new
          ]);
      apart = λ y h. any-append (λ z. z == y) queue lowered.fresh ∙ elim (Bool-cases (c == y)) [
        | inl same ↦ ground (arith, same, has-same queue c y same, s.queued_once.0, queued_anew y)
        | inr other ↦ ground (arith, other, s.apart y, queued_anew y)
      ];
      closed = λ x y d h w. elim (Bool-cases (c == y)) [
        | inl same ↦ ground (
          arith,
          none_needed x (ap (λ i. has (deps_of ts i) x) ((string_eq.beq_iff c y).0 same) ∙ h) w,
        )
        | inr other ↦ ground (arith, other, s.closed x y (ground (arith, other)) h w)
      ];
      sound = λ y d. elim (Bool-cases (c == y)) [
        | inl same ↦ subst (λ i. ¬ Needs ts i i) ((string_eq.beq_iff c y).0 same) acyclic
        | inr other ↦ s.sound y (ground (arith, other))
      ];
    }

  pub done-keys :
      (done queue : List String) (deg : HashMap String ℕ)
      → Searched done queue deg
      → (y : String) → has done y ≡ true
      → has (HashMap.keys ts) y ≡ true
  done-keys done queue deg s y h = has-keys ts y ∙ ground (arith, s.reached y)

  -- The search ends, with an empty queue, when its fuel is what is not processed.
  pub process-Searched :
      Distinct (HashMap.keys ts)
      → (fuel : ℕ) (done queue : List String) (deg : HashMap String ℕ) → Searched done queue deg
      → length (HashMap.keys ts) ≤ fuel + length done
      → (all : List String) × (end : HashMap String ℕ) × (process
            (downstream ts)
            fuel
            queue
            deg
            (length done)
          ≡ some (length all))
        × Searched all [] end
  unfolding process
  process-Searched keys zero done [] deg s b = (done, deg, refl, s)
  process-Searched keys (suc fuel) done [] deg s b = (done, deg, refl, s)
  process-Searched keys zero done (c ∷ queue) deg s b =
      let next = next_Searched c done queue deg s keys in
      absurd (
        omega
          (arith, length-le (c ∷ done) (HashMap.keys ts) next.once (done-keys (c ∷ done) _ _ next)))
  process-Searched keys (suc fuel) done (c ∷ queue) deg s b =
      let one_more : length done + 1 ≡ suc (length done) = omega arith in
      let l = lowered c done queue deg s keys in
      let (all, end, e, s') =
        process-Searched keys fuel (c ∷ done) (queue ++ l.fresh) l.deg
          (next_Searched c done queue deg s keys) (omega arith) in
      (
        all,
        end,
        ap
              (λ o. elim o [
                | none ↦ none
                | some r ↦ process (downstream ts) fuel r.1 r.0 (length done + 1)
              ])
              l.returns
            ∙ ap (process (downstream ts) fuel (queue ++ l.fresh) l.deg) one_more
            ∙ e,
        s',
      )

  -- The search as it starts.
  pub roots-Searched :
      Distinct (HashMap.keys ts)
      → Searched [] (roots (degrees ts (HashMap.keys ts))) (degrees ts (HashMap.keys ts))
  roots-Searched keys = record {
    counted = degrees-HasDegrees ts;
    reached = λ y. sym (
        has-roots ts (degrees ts (HashMap.keys ts)) (λ x. waiting (within ts) [] (deps_of ts x)) y
          (degrees-HasDegrees ts) (keys-degrees ts (HashMap.keys ts)));
    once = tt;
    queued_once = roots-Distinct ts keys;
    apart = λ y h. absurd (cc h);
    closed = λ x y h. absurd (cc h);
    sound = λ y h. absurd (cc h);
  }
