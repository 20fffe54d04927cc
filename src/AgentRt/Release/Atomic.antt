-- ===== src/AgentRt/Release/Atomic.antt =====
-- agent_rt/release.rs: what is done of a release that is applied, and what is undone.
use mathlib.Core.List.{reverse, reverse-append, append_assoc, append-nil}
use zeptobeam.Base.{
  ◌≡◌, refl, sym, ap, subst, ◌∙◌, List, [], ◌∷◌, ◌++◌, ◌⊎◌, inl, inr, ok, err, Result,
}
use zeptobeam.AgentRt.Release.{
  ReleaseStep, ReleasePlan, ReleaseManifest, ReleaseManager, ReleaseError, step, step_and_rollback,
  StepHandler, rollback_steps, undo, apply_steps, apply, finish_apply, record_apply,
}

-- Calls of the handler that all succeed, and the states before and after.
pub data Done {S H X : Type 0} (call : S → H → H × Result Unit X) : List S → H → H → Type 0 where
  none_done : (h : H) → Done call [] h h
  one_done :
      (s : S) (ss : List S) (h h' h'' : H)
      → call s h ≡ (h', ok tt)
      → Done call ss h' h''
      → Done call (s ∷ ss) h h''

-- Calls of the handler of which one fails, the first to do so, and none follows.
pub record Fails {S H X : Type 0} (call : S → H → H × Result Unit X) (ss : List S) (h t : H) (x : X)
    : Type 0 where
  pub before : List S
  pub culprit : S
  pub after : List S
  pub reached : H
  pub split : ss ≡ before ++ culprit ∷ after
  pub done : Done call before h reached
  pub fails : call culprit reached ≡ (t, err x)

Done-snoc :
    {S H X : Type 0} (call : S → H → H × Result Unit X) (ss : List S) (s : S) (h h' h'' : H)
    → Done call ss h h'
    → call s h' ≡ (h'', ok tt)
    → Done call (ss ++ s ∷ []) h h''
Done-snoc call _ s h _ h'' (none_done _) e = one_done s [] h h'' h'' e (none_done h'')
Done-snoc call _ s h h' h'' (one_done q qs _ k _ first rest) e =
    one_done q (qs ++ s ∷ []) h k h'' first (Done-snoc call qs s k h' h'' rest e)

-- A call succeeds or fails.
call-cases :
    {H X : Type 0} (r : H × Result Unit X) → (r ≡ (r.0, ok tt)) ⊎ ((x : X) × (r ≡ (r.0, err x)))
call-cases (h, ok tt) = inl refl
call-cases (h, err x) = inr (x, refl)

module _ {V H X : Type 0} (handler : StepHandler V H X) where
  -- The rollback of steps in the order given: all are rolled back, or one fails.
  abbrev Walked : List (ReleaseStep V) → H → H × Result Unit X → Type 0
  Walked ss h r =
      ((h' : H) × Done handler.rollback_step ss h h' × (r ≡ (h', ok tt)))
      ⊎ ((h' : H) × (x : X) × Fails handler.rollback_step ss h h' x × (r ≡ (h', err x)))

  pub rollback_steps-Walked :
      (ss : List (ReleaseStep V)) (h : H) → Walked ss h (rollback_steps handler ss h)
  unfolding rollback_steps
  rollback_steps-Walked [] h = inl (h, none_done h, refl)
  rollback_steps-Walked (s ∷ ss) h = elim (call-cases (handler.rollback_step s h)) [
    | inr (x, e) ↦ inr (
      (handler.rollback_step s h).0,
      x,
      record {
        before = [];
        culprit = s;
        after = ss;
        reached = h;
        split = refl;
        done = none_done h;
        fails = e;
      },
      ap (λ q. elim q.1 [ err y ↦ (q.0, err y) | ok _ ↦ rollback_steps handler ss q.0 ]) e,
    )
    | inl e ↦
        let h' = (handler.rollback_step s h).0 in
        let goes_on : rollback_steps handler (s ∷ ss) h ≡ rollback_steps handler ss h' =
          ap (λ q. elim q.1 [ err y ↦ (q.0, err y) | ok _ ↦ rollback_steps handler ss q.0 ]) e in
        elim (rollback_steps-Walked ss h') [
          | inl (t, done, same) ↦ inl (t, one_done s ss h h' t e done, goes_on ∙ same)
          | inr (t, x, f, same) ↦ inr (
            t,
            x,
            record {
              before = s ∷ f.before;
              culprit = f.culprit;
              after = f.after;
              reached = f.reached;
              split = ap (λ l. s ∷ l) f.split;
              done = one_done s f.before h h' f.reached e f.done;
              fails = f.fails;
            },
            goes_on ∙ same,
          )
        ]
  ]

  -- How the application of steps ends: all are done; or one fails, and those done before it are
  -- rolled back, the last one first, as far as that does not fail.
  pub data Ended (ss : List (ReleaseStep V)) (h : H) (r : H × Result Unit (ReleaseError X))
      : Type 0 where
    all_done : (h' : H) → Done handler.apply_step ss h h' → r ≡ (h', ok tt) → Ended ss h r
    rolled_back :
        (t h' : H) (x : X) (f : Fails handler.apply_step ss h t x)
        → Done handler.rollback_step (reverse f.before) t h'
        → r ≡ (h', err (step x))
        → Ended ss h r
    stuck :
        (t h' : H) (x y : X) (f : Fails handler.apply_step ss h t x)
        → Fails handler.rollback_step (reverse f.before) t h' y
        → r ≡ (h', err (step_and_rollback x y))
        → Ended ss h r

  undo-Ended :
      (ss : List (ReleaseStep V)) (h t : H) (x : X) (f : Fails handler.apply_step ss h t x)
      → Ended ss h (undo handler x (reverse f.before) t)
  unfolding undo
  undo-Ended ss h t x f =
      let after : H × Result Unit X → H × Result Unit (ReleaseError X) = λ q. elim q.1 [
        | err rb ↦ (q.0, err (step_and_rollback x rb))
        | ok _ ↦ (q.0, err (step x))
      ] in
      elim (rollback_steps-Walked (reverse f.before) t) [
        | inl (h', done, e) ↦ rolled_back t h' x f done (ap after e)
        | inr (h', y, g, e) ↦ stuck t h' x y f g (ap after e)
      ]

  -- One round of the loop of `apply`.
  next_step :
      ReleaseStep V
      → List (ReleaseStep V)
      → List (ReleaseStep V)
      → H × Result Unit X
      → H × Result Unit (ReleaseError X)
  next_step s ss completed q = elim q.1 [
    | err e ↦ undo handler e completed q.0
    | ok _ ↦ apply_steps handler (s ∷ completed) ss q.0
  ]

  apply_steps-Ended :
      (every done ss : List (ReleaseStep V)) (h₀ h : H)
      → Done handler.apply_step done h₀ h
      → every ≡ done ++ ss
      → Ended every h₀ (apply_steps handler (reverse done) ss h)
  unfolding apply_steps next_step
  apply_steps-Ended every done [] h₀ h so_far e =
      all_done h (subst (λ l. Done handler.apply_step l h₀ h) (sym (e ∙ append-nil done)) so_far)
        refl
  apply_steps-Ended every done (s ∷ ss) h₀ h so_far e = elim (call-cases (handler.apply_step s h)) [
    | inl good ↦
        let h' = (handler.apply_step s h).0 in
        subst (Ended every h₀)
          (ap (λ l. apply_steps handler l ss h') (reverse-append done (s ∷ []))
            ∙ sym (ap (next_step s ss (reverse done)) good))
          (apply_steps-Ended every (done ++ s ∷ []) ss h₀ h'
            (Done-snoc handler.apply_step done s h₀ h h' so_far good)
            (e ∙ sym (append_assoc done (s ∷ []) ss)))
    | inr (x, bad) ↦ subst (Ended every h₀) (sym (ap (next_step s ss (reverse done)) bad)) (
        undo-Ended every h₀ (handler.apply_step s h).0 x (record {
          before = done;
          culprit = s;
          after = ss;
          reached = h;
          split = e;
          done = so_far;
          fails = bad;
        }))
  ]

-- The outcome of `apply` for the manager: it records the release just when every step is done.
abbrev pub Recorded :
    {V X : Type 0}
    → ReleaseManager V
    → ReleaseManifest V
    → Result Unit (ReleaseError X)
    → ReleaseManager V
    → Type 0
Recorded m manifest (ok _) m' = m' ≡ record_apply m manifest
Recorded m manifest (err e) m' = m' ≡ m

finish_apply-Ended :
    {V H X : Type 0} (handler : StepHandler V H X) (m : ReleaseManager V)
    (manifest : ReleaseManifest V) (steps : List (ReleaseStep V)) (h : H)
    (r : H × Result Unit (ReleaseError X))
    → Ended handler steps h r
    → let q = finish_apply m manifest r in
      Ended handler steps h (q.0.1, q.1) × Recorded m manifest q.1 q.0.0
unfolding finish_apply
finish_apply-Ended handler m manifest steps h (h', err e) ended = (ended, refl)
finish_apply-Ended handler m manifest steps h (h', ok tt) ended = (ended, refl)

-- Whatever the handler does, `apply` ends in one of three ways. Every step of the plan is done, in
-- order, without an error. Or a step fails after those before it are done: then none after it is
-- done, and those before it are rolled back, the last one first, with the error of the step. Or one
-- of these rollbacks fails too: then none after it is made, and both errors are reported. The manager
-- records the release if there is no error, and stays as it was if there is one.
pub apply-Ended :
    {V H X : Type 0} (handler : StepHandler V H X) (m : ReleaseManager V)
    (manifest : ReleaseManifest V) (plan : ReleasePlan V) (h : H)
    → let r = apply handler m manifest plan h in
      Ended handler plan.steps h (r.0.1, r.1) × Recorded m manifest r.1 r.0.0
unfolding apply finish_apply
apply-Ended handler m manifest plan h =
    finish_apply-Ended handler m manifest plan.steps h (apply_steps handler [] plan.steps h)
      (apply_steps-Ended handler plan.steps [] plan.steps h h (none_done h) refl)

-- An `apply` without an error.
pub apply-ok :
    {V H X : Type 0} (handler : StepHandler V H X) (m : ReleaseManager V)
    (manifest : ReleaseManifest V) (plan : ReleasePlan V) (h : H)
    → (apply handler m manifest plan h).1 ≡ ok tt
    → (h' : H) × Done handler.apply_step plan.steps h h'
      × (apply handler m manifest plan h ≡ ((record_apply m manifest, h'), ok tt))
apply-ok handler m manifest plan h good =
    let r = apply handler m manifest plan h in
    let (ended, recorded) = apply-Ended handler m manifest plan h in
    let managed : r.0.0 ≡ record_apply m manifest =
      subst (λ q. Recorded m manifest q r.0.0) good recorded in
    elim ended [
      | all_done h' done e ↦ (h', done, λ i. ((managed i, (e i).0), (e i).1))
      | rolled_back t h' x f done e ↦ absurd (cc (good, ap (λ q. q.1) e))
      | stuck t h' x y f g e ↦ absurd (cc (good, ap (λ q. q.1) e))
    ]
