-- ===== src/AgentRt/Supervision/Keeps.antt =====
-- agent_rt/supervision.rs: what a supervisor does to the invariant of the scheduler.
use zeptobeam.Base.{
  ℕ, ◌≡◌, refl, List, [], ◌∷◌, inl, inr, Option, none, some, arith, ok, err, Option-cases,
  Bool-cases, subst, nat_eq, ◌==◌,
}
use mathlib.Core.Option.{some-injective}
use zeptobeam.AgentRt.Types.{Env, Reason, shutdown}
use zeptobeam.AgentRt.Process.{Priority}
use zeptobeam.AgentRt.Registry
use zeptobeam.AgentRt.Scheduler.State.{AgentScheduler, modify, enqueue}
use zeptobeam.AgentRt.Scheduler.Holds.{Holds, modify-Holds, enqueue-Holds, Same-Holds}
use zeptobeam.AgentRt.Scheduler.Actions.{Intact}
use zeptobeam.AgentRt.Scheduler.Spawning.{born-Holds, spawn-cases, failed-Same}
use zeptobeam.AgentRt.Scheduler.Cycle.{Inv}
use zeptobeam.AgentRt.Supervision.{
  RestartStrategy, one_for_one, one_for_all, rest_for_one, ChildSpec, RunningChild, Supervisor,
  Place, set_priority, admit, spawn_child, respawn_all, specs_of, terminate_all, restart_one,
  restart_all, restart_rest, restart, handle_death, handle_child_exit, position, is_exceeded,
  note_restart, should_restart,
}

module _ {E : Env} where
  admit-ok :
      (s : AgentScheduler E) (spec : ChildSpec E.Behavior E.Value) (r : Registry.AgentRegistry E)
      (pid : ℕ)
      → (admit s spec (r, ok pid)).0
        ≡ enqueue (modify (record s { registry = r }) pid (set_priority spec.priority)) pid
  unfolding admit
  admit-ok s spec r pid = refl

  admit-err :
      (s : AgentScheduler E) (spec : ChildSpec E.Behavior E.Value) (r : Registry.AgentRegistry E)
      (reason : Reason)
      → (admit s spec (r, err reason)).0 ≡ record s { registry = r }
  unfolding admit
  admit-err s spec r reason = refl

  prioritized-Holds :
      (priority : Priority) (pid : ℕ) (xs : List ℕ) (s : AgentScheduler E)
      → Holds (Intact []) xs s
      → Holds (Intact []) xs (modify s pid (set_priority priority))
  unfolding set_priority
  prioritized-Holds priority pid xs s =
      modify-Holds (Intact []) xs s pid (set_priority priority) (λ p r. r) (λ p _ i. ground arith)

  pub spawn_child-Inv :
      (s : AgentScheduler E) (spec : ChildSpec E.Behavior E.Value)
      → Inv s
      → Inv (spawn_child s spec).0
  unfolding spawn_child
  spawn_child-Inv s spec h = elim (spawn-cases s.registry spec.behavior spec.args) [
    | inl (st, e) ↦
        rw (e, admit-ok)
          (enqueue-Holds (Intact []) [] _ s.registry.next_agent_pid (
            prioritized-Holds spec.priority s.registry.next_agent_pid _ _
              (born-Holds [] [] s spec.behavior st h)))
    | inr (reason, e) ↦ rw (e, admit-err) (Same-Holds (Intact []) [] s (failed-Same [] s) h)
  ]

  respawn_all-Inv :
      (specs : List (ChildSpec E.Behavior E.Value)) (sup : Supervisor E.Behavior E.Value)
      (s : AgentScheduler E)
      → Inv s
      → Inv (respawn_all sup s specs).1
  unfolding respawn_all
  respawn_all-Inv [] sup s h = h
  respawn_all-Inv (spec ∷ specs) sup s h =
      respawn_all-Inv specs _ (spawn_child s spec).0 (spawn_child-Inv s spec h)

module _ {E : Env} (kill : AgentScheduler E → ℕ → Reason → Option (AgentScheduler E))
    (keeps : (s t : AgentScheduler E) (pid : ℕ) (reason : Reason)
      → Inv s
      → kill s pid reason ≡ some t
      → Inv t) where
  terminate_all-Inv :
      (dead : ℕ) (cs : List (RunningChild E.Behavior E.Value)) (s t : AgentScheduler E)
      → Inv s
      → terminate_all kill dead cs s ≡ some t
      → Inv t
  unfolding terminate_all
  terminate_all-Inv dead [] s t h e = subst Inv (some-injective _ _ e) h
  terminate_all-Inv dead (c ∷ cs) s t h e = elim (Bool-cases (c.pid == dead)) [
    | inl hit ↦ terminate_all-Inv dead cs s t h (ground arith)
    | inr miss ↦ elim (Option-cases (kill s c.pid shutdown)) [
      | inl out ↦ absurd (ground arith)
      | inr (s', k) ↦ terminate_all-Inv dead cs s' t (keeps s s' c.pid shutdown h k) (ground arith)
    ]
  ]

  -- What a restart leaves: the supervisor, and a scheduler with the invariant.
  abbrev pub Kept : Option (Supervisor E.Behavior E.Value × AgentScheduler E) → Type 0
  Kept none = Unit
  Kept (some r) = Inv r.1

  restart_all-Kept :
      (sup : Supervisor E.Behavior E.Value) (s : AgentScheduler E) (p : Place E.Behavior E.Value)
      → Inv s
      → Kept (restart_all kill sup s p)
  unfolding restart_all
  restart_all-Kept sup s p h = elim (Option-cases (terminate_all kill p.dead.pid sup.children s)) [
    | inl e ↦ rw (e, restart_all) tt
    | inr (s', e) ↦
        rw (e, restart_all)
          (respawn_all-Inv (specs_of sup.children) _ s'
            (terminate_all-Inv p.dead.pid sup.children s s' h e))
  ]

  restart_rest-Kept :
      (sup : Supervisor E.Behavior E.Value) (s : AgentScheduler E) (p : Place E.Behavior E.Value)
      → Inv s
      → Kept (restart_rest kill sup s p)
  unfolding restart_rest
  restart_rest-Kept sup s p h =
      elim (Option-cases (terminate_all kill p.dead.pid (p.dead ∷ p.after) s)) [
        | inl e ↦ rw (e, restart_rest) tt
        | inr (s', e) ↦
            rw (e, restart_rest)
              (respawn_all-Inv (specs_of (p.dead ∷ p.after)) _ s'
                (terminate_all-Inv p.dead.pid (p.dead ∷ p.after) s s' h e))
      ]

  restart-Kept :
      (strategy : RestartStrategy) (sup : Supervisor E.Behavior E.Value) (s : AgentScheduler E)
      (p : Place E.Behavior E.Value)
      → Inv s
      → Kept (restart kill strategy sup s p)
  unfolding restart restart_one
  restart-Kept one_for_one sup s p h = spawn_child-Inv s p.dead.spec h
  restart-Kept one_for_all sup s p h = restart_all-Kept sup s p h
  restart-Kept rest_for_one sup s p h = restart_rest-Kept sup s p h

  handle_death-Kept :
      (now : ℕ) (sup : Supervisor E.Behavior E.Value) (s : AgentScheduler E)
      (p : Place E.Behavior E.Value) (reason : Reason)
      → Inv s
      → Kept (handle_death kill now sup s p reason)
  unfolding handle_death
  handle_death-Kept now sup s p reason h =
      elim (Bool-cases (should_restart p.dead.spec.restart reason)) [
        | inl again ↦ elim (Bool-cases (is_exceeded (note_restart now sup))) [
          | inl over ↦ rw (again, over) h
          | inr under ↦ rw (again, under) (restart-Kept _ (note_restart now sup) s p h)
        ]
        | inr never ↦ rw never h
      ]

  -- A supervisor that handles the exit of any process keeps the invariant of the scheduler, if the
  -- terminations that it asks for do.
  pub handle_child_exit-Kept :
      (now : ℕ) (sup : Supervisor E.Behavior E.Value) (s : AgentScheduler E) (pid : ℕ)
      (reason : Reason)
      → Inv s
      → Kept (handle_child_exit kill now sup s pid reason)
  unfolding handle_child_exit
  handle_child_exit-Kept now sup s pid reason h = elim (Bool-cases sup.is_shutdown) [
    | inl down ↦ rw down h
    | inr up ↦ elim (Option-cases (position pid sup.children)) [
      | inl e ↦ rw (up, e, handle_child_exit) h
      | inr (p, e) ↦ rw (up, e, handle_child_exit) (handle_death-Kept now sup s p reason h)
    ]
  ]
