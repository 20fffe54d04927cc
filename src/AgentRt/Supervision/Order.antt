-- ===== src/AgentRt/Supervision/Order.antt =====
-- agent_rt/supervision.rs: what a supervisor does at an exit: which children it has afterwards, and
-- in which order.
use zeptobeam.Base.{
  ℕ, ◌≤◌, ◌<◌, ◌≡◌, refl, sym, ap, ◌∙◌, List, [], ◌∷◌, ◌++◌, true, false, inl, inr, Option, some,
  arith, is_ok, Option-cases, Bool-cases, nat_eq, ◌==◌,
}
use mathlib.Core.List.{map-append}
use zeptobeam.AgentRt.Types.{Env, Reason, shutdown}
use zeptobeam.AgentRt.Scheduler.State.{AgentScheduler}
use zeptobeam.AgentRt.Scheduler.Population.{population}
use zeptobeam.AgentRt.Scheduler.Terminate.{terminate_process}
use zeptobeam.AgentRt.Scheduler.Termination.{terminate_process_returns}
use zeptobeam.AgentRt.Supervision.{
  RestartStrategy, one_for_one, one_for_all, rest_for_one, RunningChild, Supervisor, Place,
  respawn_all, specs_of, terminate_all, restart_one, restart_all, restart_rest, restart,
  handle_death, handle_child_exit, position, increment_restart_count, is_exceeded, note_restart,
  should_restart, to_list,
}
use zeptobeam.AgentRt.Supervision.Starting.{
  all_start, one_starts, AllStart-specs_of, spawn_child-Starts, respawn_all-AllStart,
}
use zeptobeam.AgentRt.Supervision.Outcomes.{
  should_restart-Restarts, should_restart-no, IsPlace, position-IsPlace, position-none, others,
  AllStop, all_stop, one_stops, Restarted, Reaction, passed_over, removed, gave_up, restarted,
}

module _ {E : Env}
    (handle : E.Handler → AgentScheduler E → ℕ → Reason → E.Handler × AgentScheduler E) (now : ℕ)
    (calm : (h : E.Handler) (s : AgentScheduler E) (pid : ℕ) (reason : Reason)
      → population (handle h s pid reason).1 ≤ population s)
    (starts : (b : E.Behavior) (v : E.Value) → is_ok (E.init b v) ≡ true) (depth : ℕ) where
  abbrev kill : AgentScheduler E → ℕ → Reason → Option (AgentScheduler E)
  kill = terminate_process handle now depth

  terminate_all-AllStop :
      (dead : ℕ) (cs : List (RunningChild E.Behavior E.Value)) (s : AgentScheduler E)
      → population s < depth
      → (t : AgentScheduler E) × (terminate_all kill dead cs s ≡ some t)
        × AllStop kill s (others dead cs) t
  unfolding terminate_all
  terminate_all-AllStop dead [] s b = (s, refl, all_stop s)
  terminate_all-AllStop dead (c ∷ cs) s b = elim (Bool-cases (c.pid == dead)) [
    | inl hit ↦
        let (t, e, stops) = terminate_all-AllStop dead cs s b in
        (t, ground (arith, hit, e), rw hit stops)
    | inr miss ↦
        let (s', k, le) = terminate_process_returns handle now calm depth s c.pid shutdown b in
        let (t, e, stops) = terminate_all-AllStop dead cs s' (omega arith) in
        (t, ground (arith, k, e, miss), rw miss (one_stops s s' t c.pid (others dead cs) k stops))
  ]

  -- What a restart gives, with the supervisor still up.
  abbrev Recovers :
      RestartStrategy
      → Supervisor E.Behavior E.Value
      → AgentScheduler E
      → Place E.Behavior E.Value
      → Type 0
  Recovers strategy sup s p =
      (r : Supervisor E.Behavior E.Value × AgentScheduler E) × (restart kill strategy sup s p
        ≡ some r)
      × (r.0.is_shutdown ≡ sup.is_shutdown)
      × Restarted kill strategy sup.children s p r

  restart-Recovers :
      (strategy : RestartStrategy) (sup : Supervisor E.Behavior E.Value) (s : AgentScheduler E)
      (p : Place E.Behavior E.Value)
      → population s < depth
      → Recovers strategy sup s p
  unfolding restart restart_one restart_all restart_rest increment_restart_count
  restart-Recovers one_for_one sup s p b =
      let (c, e, one) = spawn_child-Starts starts s p.dead.spec in
      (
        restart_one sup s p,
        refl,
        refl,
        (
          c,
          one_starts s _ _ p.dead.spec c [] [] one (all_start _),
          ap (λ x. p.before ++ (to_list x ++ p.after)) e,
        ),
      )
  restart-Recovers one_for_all sup s p b =
      let (t, e, stops) = terminate_all-AllStop p.dead.pid sup.children s b in
      let emptied = record sup { children = [] } in
      let (new, start, same, up) = respawn_all-AllStart starts (specs_of sup.children) emptied t in
      (
        respawn_all emptied t (specs_of sup.children),
        rw (e, restart_all) refl,
        up,
        (t, new, stops, start, same),
      )
  restart-Recovers rest_for_one sup s p b =
      let (t, e, stops) = terminate_all-AllStop p.dead.pid (p.dead ∷ p.after) s b in
      let cut = record sup { children = p.before } in
      let (new, start, same, up) =
        respawn_all-AllStart starts (specs_of (p.dead ∷ p.after)) cut t in
      (
        respawn_all cut t (specs_of (p.dead ∷ p.after)),
        rw (e, restart_rest) refl,
        up,
        (t, new, stops, start, same),
      )

  specs_of-append :
      (xs ys : List (RunningChild E.Behavior E.Value))
      → specs_of (xs ++ ys) ≡ specs_of xs ++ specs_of ys
  specs_of-append = map-append λ c. c.spec

  Restarted-specs_of :
      (strategy : RestartStrategy) (cs : List (RunningChild E.Behavior E.Value))
      (s : AgentScheduler E) (p : Place E.Behavior E.Value)
      (r : Supervisor E.Behavior E.Value × AgentScheduler E)
      → cs ≡ p.before ++ p.dead ∷ p.after
      → Restarted kill strategy cs s p r
      → specs_of r.0.children ≡ specs_of cs
  Restarted-specs_of one_for_one cs s p r e (c, one, same) =
      ap specs_of same
      ∙ specs_of-append p.before (c ∷ p.after)
      ∙ ap (λ l. specs_of p.before ++ (l ++ specs_of p.after)) (AllStart-specs_of s r.1 _ _ one)
      ∙ sym (specs_of-append p.before (p.dead ∷ p.after))
      ∙ sym (ap specs_of e)
  Restarted-specs_of one_for_all cs s p r e (t, new, stops, start, same) =
      ap specs_of same ∙ AllStart-specs_of t r.1 _ _ start
  Restarted-specs_of rest_for_one cs s p r e (t, new, stops, start, same) =
      ap specs_of same
      ∙ specs_of-append p.before new
      ∙ ap (λ l. specs_of p.before ++ l) (AllStart-specs_of t r.1 _ _ start)
      ∙ sym (specs_of-append p.before (p.dead ∷ p.after))
      ∙ sym (ap specs_of e)

  -- The outcome of a call: it returns, with a reaction.
  abbrev Reacts :
      Supervisor E.Behavior E.Value
      → AgentScheduler E
      → ℕ
      → Reason
      → Option (Supervisor E.Behavior E.Value × AgentScheduler E)
      → Type 0
  Reacts sup s pid reason o =
      (r : Supervisor E.Behavior E.Value × AgentScheduler E) × (o ≡ some r)
      × Reaction kill now sup s pid reason r

  handle_death-Reacts :
      (sup : Supervisor E.Behavior E.Value) (s : AgentScheduler E) (pid : ℕ)
      (p : Place E.Behavior E.Value) (reason : Reason)
      → population s < depth
      → sup.is_shutdown ≡ false
      → IsPlace pid sup.children p
      → Reacts sup s pid reason (handle_death kill now sup s p reason)
  unfolding handle_death note_restart is_exceeded
  handle_death-Reacts sup s pid p reason b up here =
      let noted = note_restart now sup in
      elim (Bool-cases (should_restart p.dead.spec.restart reason)) [
        | inr never ↦ (
          (record sup { children = p.before ++ p.after }, s),
          rw never refl,
          removed p up here (should_restart-no _ _ never) refl,
        )
        | inl again ↦ elim (Bool-cases (is_exceeded noted)) [
          | inl over ↦ (
            (record noted { is_shutdown = true }, s),
            rw (again, over) refl,
            gave_up p up here (should_restart-Restarts _ _ again) (ground arith) refl refl refl,
          )
          | inr under ↦
              let (r, e, still, done) = restart-Recovers sup.strategy noted s p b in
              (
                r,
                rw (again, under) e,
                restarted p up here (should_restart-Restarts _ _ again) (λ h. ground arith)
                    (still ∙ up)
                    (Restarted-specs_of sup.strategy sup.children s p r here.split done) done,
              )
        ]
      ]

  -- The handling of an exit returns, whatever the strategy, when the depth that its terminations may
  -- cascade to exceeds the number of registered processes. It reacts in one of four ways. The exit is
  -- passed over, if the supervisor has shut down or has no child with this pid. A child that is not to
  -- be restarted is removed, and nothing else changes. If more than `max_restarts` deaths that call
  -- for a restart lie in the window that ends now, this one included, the supervisor shuts down and
  -- keeps its children. Otherwise children are started anew, with registered processes under fresh
  -- pids: the dead one, all, or the dead one and those after it, after the others among them are
  -- terminated one by one; the children's specs stay as they were, in order. No exit handler adds a
  -- process, and every child can be started, that is, every `init` succeeds.
  pub handle_child_exit-Reaction :
      (sup : Supervisor E.Behavior E.Value) (s : AgentScheduler E) (pid : ℕ) (reason : Reason)
      → population s < depth
      → (r : Supervisor E.Behavior E.Value × AgentScheduler E) × (handle_child_exit
            (terminate_process handle now depth)
            now
            sup
            s
            pid
            reason
          ≡ some r)
        × Reaction (terminate_process handle now depth) now sup s pid reason r
  unfolding handle_child_exit
  handle_child_exit-Reaction sup s pid reason b = elim (Bool-cases sup.is_shutdown) [
    | inl down ↦ ((sup, s), ground arith, passed_over (inl down) refl)
    | inr up ↦ elim (Option-cases (position pid sup.children)) [
      | inl gone ↦
          ((sup, s), ground arith, passed_over (inr (position-none pid sup.children gone)) refl)
      | inr (p, e) ↦
          let (r, done, reaction) =
            handle_death-Reacts sup s pid p reason b up (position-IsPlace pid sup.children p e) in
          (r, ground (arith, up, e, done), reaction)
    ]
  ]
