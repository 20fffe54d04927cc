-- ===== src/AgentRt/Release/History.antt =====
-- agent_rt/release.rs: the releases that a manager remembers.
use mathlib.Core.List.{reverse}
use zeptobeam.Base.{
  Result, ℕ, ◌+◌, ◌≤◌, ◌<◌, ◌≡◌, refl, sym, ap, subst, ◌∙◌, List, [], ◌∷◌, ◌++◌, inl, inr, Option,
  none, some, ok, err, arith, length, length-append, Option-cases, Bool-cases, ltb,
}
use zeptobeam.AgentRt.Release.{
  ReleaseError, step, ReleasePlan, ReleaseManifest, ReleaseManager, StepHandler, apply_steps, apply,
  rollback_steps, rollback, no_current, finish_apply, finish_rollback, record_apply, pop, trim, new,
}
use zeptobeam.AgentRt.Release.Atomic.{Done, rollback_steps-Walked, apply-ok}

-- There are no earlier releases without a current one, and no more of them than are to be kept.
pub record IsKept {V : Type 0} (m : ReleaseManager V) : Type 0 where
  pub empty : m.current ≡ none → m.history ≡ []
  pub few : length m.history ≤ m.max_history

pop-append : {A : Type 0} (xs : List A) (x : A) → pop (xs ++ x ∷ []) ≡ (xs, some x)
unfolding pop
pop-append [] x = refl
pop-append (y ∷ xs) x =
    ap (λ q. elim q.1 [ none ↦ ([], some y) | some z ↦ (y ∷ q.0, some z) ]) (pop-append xs x)

length-pop : {A : Type 0} (xs : List A) → length (pop xs).0 ≤ length xs
unfolding pop
length-pop [] = omega arith
length-pop (x ∷ xs) = ground (arith, length-pop xs)

pop-none : {A : Type 0} (xs : List A) → (pop xs).1 ≡ none → (pop xs).0 ≡ []
unfolding pop
pop-none [] e = refl
pop-none (x ∷ xs) e = ground arith

length-trim :
    {A : Type 0} (max : ℕ) (xs : List A) → length xs ≤ max + 1 → length (trim max xs) ≤ max
length-trim max [] b = omega arith
length-trim max (x ∷ xs) b = ground arith

trim-append :
    {A : Type 0} (max : ℕ) (xs : List A) (x : A)
    → length xs ≤ max
    → 0 < max
    → (ys : List A) × (trim max (xs ++ x ∷ []) ≡ ys ++ x ∷ []) × (length xs < max → ys ≡ xs)
trim-append max [] x few pos = ([], ground arith, λ _. refl)
trim-append max (y ∷ xs) x few pos = elim (Bool-cases (ltb max (length (y ∷ xs ++ x ∷ [])))) [
  | inl over ↦
      (xs, ground (arith, over), λ b. absurd (ground (arith, over, length-append xs (x ∷ []))))
  | inr under ↦ (y ∷ xs, ground (arith, under), λ _. refl)
]

record_apply-IsKept :
    {V : Type 0} (m : ReleaseManager V) (manifest : ReleaseManifest V)
    → IsKept m
    → IsKept (record_apply m manifest)
unfolding record_apply
record_apply-IsKept m manifest k = elim (Option-cases m.current) [
  | inl e ↦ rw e (record { empty = λ h. absurd (cc h); few = k.few })
  | inr (prev, e) ↦ rw e (record {
    empty = λ h. absurd (cc h);
    few =
        length-trim m.max_history (m.history ++ prev ∷ [])
          (omega (arith, length-append m.history (prev ∷ []), k.few));
  })
]

module _ {V : Type 0} (m : ReleaseManager V) (manifest : ReleaseManifest V) where
  record_apply-current : (record_apply m manifest).current ≡ some manifest
  unfolding record_apply
  record_apply-current = ground arith

  record_apply-max_history : (record_apply m manifest).max_history ≡ m.max_history
  unfolding record_apply
  record_apply-max_history = ground arith

  -- What is taken off the history after a release is recorded.
  pop-record_apply :
      IsKept m
      → 0 < m.max_history
      → (hs : List (ReleaseManifest V)) × (pop (record_apply m manifest).history ≡ (hs, m.current))
        × (length m.history < m.max_history → hs ≡ m.history)
  unfolding record_apply pop
  pop-record_apply k pos = elim (Option-cases m.current) [
    | inl e ↦ ([], rw (e, k.empty e) refl, λ _. sym (k.empty e))
    | inr (prev, e) ↦
        let (hs, t, same) = trim-append m.max_history m.history prev k.few pos in
        (hs, rw (e, t, pop-append hs prev) refl, same)
  ]

module _ {V H X : Type 0} (handler : StepHandler V H X) where
  rollback-current :
      (m : ReleaseManager V) (plan : ReleasePlan V) (h : H) (c : ReleaseManifest V)
      → m.current ≡ some c
      → rollback handler m plan h
        ≡ finish_rollback m (rollback_steps handler (reverse plan.steps) h)
  unfolding rollback
  rollback-current m plan h c now =
      ap
        (λ o. elim o [
          | none ↦ ((m, h), err no_current)
          | some _ ↦ finish_rollback m (rollback_steps handler (reverse plan.steps) h)
        ])
        now

  -- A rollback without an error rolls back every step, and takes the last release off the history.
  rollback-ok :
      (m : ReleaseManager V) (plan : ReleasePlan V) (h : H) (c : ReleaseManifest V)
      → m.current ≡ some c
      → (rollback handler m plan h).1 ≡ ok tt
      → (h' : H) × Done handler.rollback_step (reverse plan.steps) h h'
        × (rollback handler m plan h
            ≡ ((record m { current = (pop m.history).1; history = (pop m.history).0 }, h'), ok tt))
  unfolding finish_rollback
  rollback-ok m plan h c now good =
      let same = rollback-current m plan h c now in
      elim (rollback_steps-Walked handler (reverse plan.steps) h) [
        | inl (h', done, walked) ↦ (h', done, same ∙ ap (finish_rollback m) walked)
        | inr (h', x, f, walked) ↦
            let failed : rollback handler m plan h ≡ ((m, h'), err (step x)) =
              same ∙ ap (finish_rollback m) walked in
            absurd (cc (good, ap (λ r. r.1) failed))
      ]

-- After `apply` and then a `rollback` by the same plan, both without an error, every step of the plan
-- has been done, in order, and then rolled back, the last one first; the release that was current
-- before is current again, and the manager's history is as it was if it was not full. The manager has
-- a history only beside a current release and no longer than it may be, and `max_history` is
-- positive.
pub rollback-apply :
    {V H X : Type 0} (handler : StepHandler V H X) (m : ReleaseManager V)
    (manifest : ReleaseManifest V) (plan : ReleasePlan V) (h : H)
    → IsKept m
    → 0 < m.max_history
    → (apply handler m manifest plan h).1 ≡ ok tt
    → (rollback handler
        (apply handler m manifest plan h).0.0
        plan
        (apply handler m manifest plan h).0.1).1
      ≡ ok tt
    → (h' h'' : H) × (hs : List (ReleaseManifest V)) × Done handler.apply_step plan.steps h h'
      × Done handler.rollback_step (reverse plan.steps) h' h''
      × (rollback handler
            (apply handler m manifest plan h).0.0
            plan
            (apply handler m manifest plan h).0.1
          ≡ ((record m { history = hs }, h''), ok tt))
      × (length m.history < m.max_history → hs ≡ m.history)
rollback-apply handler m manifest plan h k pos good back =
    let (h', done, e) = apply-ok handler m manifest plan h good in
    let there =
      rollback-ok handler (record_apply m manifest) plan h' manifest
        (record_apply-current m manifest) in
    let (h'', undone, e') =
      there (subst (λ r. (rollback handler r.0.0 plan r.0.1).1 ≡ ok tt) e back) in
    let (hs, popped, same) = pop-record_apply m manifest k pos in
    (
      h',
      h'',
      hs,
      done,
      undone,
      ap (λ r. rollback handler r.0.0 plan r.0.1) e
          ∙ e'
          ∙ rw (popped, record_apply-max_history m manifest) refl,
      same,
    )

pub data Call (V : Type 0) : Type 0 where
  call_apply : ReleaseManifest V → ReleasePlan V → Call V
  call_rollback : ReleasePlan V → Call V

module _ {V H X : Type 0} (handler : StepHandler V H X) where
  finish_apply-IsKept :
      (m : ReleaseManager V) (manifest : ReleaseManifest V) (r : H × Result Unit (ReleaseError X))
      → IsKept m
      → IsKept (finish_apply m manifest r).0.0
  unfolding finish_apply
  finish_apply-IsKept m manifest (h, err e) k = k
  finish_apply-IsKept m manifest (h, ok _) k = record_apply-IsKept m manifest k

  finish_rollback-IsKept :
      (m : ReleaseManager V) (r : H × Result Unit X) → IsKept m → IsKept (finish_rollback m r).0.0
  unfolding finish_rollback
  finish_rollback-IsKept m (h, err e) k = k
  finish_rollback-IsKept m (h, ok _) k = record {
    empty = pop-none m.history;
    few = omega (arith, length-pop m.history, k.few);
  }

  current-IsKept :
      (o : Option (ReleaseManifest V)) (m : ReleaseManager V) (h : H) (r : H × Result Unit X)
      → IsKept m
      → IsKept
          (elim o as (λ _. (ReleaseManager V × H) × Result Unit (ReleaseError X)) [
            | none ↦ ((m, h), err no_current)
            | some _ ↦ finish_rollback m r
          ]).0.0
  current-IsKept none m h r k = k
  current-IsKept (some c) m h r k = finish_rollback-IsKept m r k

  -- A call, whatever it returns.
  unfoldable pub perform : ReleaseManager V × H → Call V → ReleaseManager V × H
  unfolding apply rollback
  perform (m, h) (call_apply manifest plan) = (apply handler m manifest plan h).0
  perform (m, h) (call_rollback plan) = (rollback handler m plan h).0

  unfoldable pub perform_all : ReleaseManager V × H → List (Call V) → ReleaseManager V × H
  unfolding perform
  perform_all r [] = r
  perform_all r (c ∷ cs) = perform_all (perform r c) cs

  perform-IsKept :
      (m : ReleaseManager V) (h : H) (c : Call V) → IsKept m → IsKept (perform (m, h) c).0
  unfolding perform apply rollback
  perform-IsKept m h (call_apply manifest plan) k =
      finish_apply-IsKept m manifest (apply_steps handler [] plan.steps h) k
  perform-IsKept m h (call_rollback plan) k =
      current-IsKept m.current m h (rollback_steps handler (reverse plan.steps) h) k

  perform_all-IsKept_from :
      (cs : List (Call V)) (r : ReleaseManager V × H) → IsKept r.0 → IsKept (perform_all r cs).0
  unfolding perform_all
  perform_all-IsKept_from [] r k = k
  perform_all-IsKept_from (c ∷ cs) r k =
      perform_all-IsKept_from cs (perform r c) (perform-IsKept r.0 r.1 c k)

-- Whatever calls of `apply` and `rollback` are made on a new manager, and however the handler
-- answers, the manager keeps no more earlier releases than its history may hold, and none without a
-- current release.
pub perform_all-IsKept :
    {V H X : Type 0} (handler : StepHandler V H X) (max_history : ℕ) (h : H) (cs : List (Call V))
    → IsKept (perform_all handler (new max_history, h) cs).0
unfolding new
perform_all-IsKept handler max_history h cs =
    perform_all-IsKept_from handler cs (new max_history, h)
      (record { empty = λ _. refl; few = omega arith })
