-- ===== src/AgentRt/Supervision/Starting.antt =====
-- agent_rt/supervision.rs: what it is that children are started, one after the other.
use zeptobeam.Base.{
  ◌≡◌, refl, sym, ap, ◌∙◌, List, [], ◌∷◌, ◌++◌, true, inl, inr, some, arith, is_ok, Result-cases,
  nat_eq, ok, nat_beq_iff,
}
use mathlib.Core.List.{append_assoc, append-nil}
use zeptobeam.AgentRt.Types.{Env}
use zeptobeam.AgentRt.Process.{AgentProcess}
use zeptobeam.AgentRt.Process
use zeptobeam.AgentRt.Registry
use zeptobeam.AgentRt.Scheduler.State.{AgentScheduler, lookup, modify}
use zeptobeam.AgentRt.Scheduler.Queues.{lookup-modify, lookup-enqueue}
use zeptobeam.AgentRt.Scheduler.Spawning.{born, lookup-born}
use zeptobeam.AgentRt.Supervision.{
  ChildSpec, RunningChild, Supervisor, admit, spawn_child, set_priority, respawn_all, specs_of,
  increment_restart_count, to_list,
}

module _ {E : Env} where
  -- A child that runs: its process is registered under a fresh pid, with what its spec asks for.
  pub record Starts (s : AgentScheduler E) (spec : ChildSpec E.Behavior E.Value)
      (c : RunningChild E.Behavior E.Value) (t : AgentScheduler E) : Type 0 where
    pub spawned : t ≡ (spawn_child s spec).0
    pub same_id : c.id ≡ spec.id
    pub same_spec : c.spec ≡ spec
    pub fresh : c.pid ≡ s.registry.next_agent_pid
    pub runs :
        (p : AgentProcess E) × (lookup t c.pid ≡ some p)
        × (p.behavior ≡ spec.behavior)
        × (p.priority ≡ spec.priority)

  -- Children that are started one after the other.
  pub data AllStart
      : AgentScheduler E
        → List (ChildSpec E.Behavior E.Value)
        → List (RunningChild E.Behavior E.Value)
        → AgentScheduler E
        → Type 0 where
    all_start : (s : AgentScheduler E) → AllStart s [] [] s
    one_starts :
        (s s' t : AgentScheduler E) (spec : ChildSpec E.Behavior E.Value)
        (c : RunningChild E.Behavior E.Value) (specs : List (ChildSpec E.Behavior E.Value))
        (cs : List (RunningChild E.Behavior E.Value))
        → Starts s spec c s'
        → AllStart s' specs cs t
        → AllStart s (spec ∷ specs) (c ∷ cs) t

  pub AllStart-specs_of :
      (s t : AgentScheduler E) (specs : List (ChildSpec E.Behavior E.Value))
      (cs : List (RunningChild E.Behavior E.Value))
      → AllStart s specs cs t
      → specs_of cs ≡ specs
  AllStart-specs_of s t _ _ (all_start _) = refl
  AllStart-specs_of s t _ _ (one_starts _ s' _ spec c specs cs one rest) =
      ground (arith, one.same_spec, AllStart-specs_of s' t specs cs rest)

  spawn-born :
      (r : Registry.AgentRegistry E) (b : E.Behavior) (args : E.Value)
      → is_ok (E.init b args) ≡ true
      → (st : E.State) × (Registry.spawn r b args ≡ (born r b st, ok r.next_agent_pid))
  unfolding Registry.spawn Process.new born
  spawn-born r b args good = elim (Result-cases (E.init b args)) [
    | inl (st, e) ↦ (st, ground arith)
    | inr (reason, e) ↦ absurd (ground arith)
  ]

  lookup-admitted :
      (s : AgentScheduler E) (spec : ChildSpec E.Behavior E.Value) (st : E.State)
      → let pid = s.registry.next_agent_pid in
        (p : AgentProcess E) × (lookup
            (admit s spec (born s.registry spec.behavior st, ok pid)).0
            pid
          ≡ some p)
        × (p.behavior ≡ spec.behavior)
        × (p.priority ≡ spec.priority)
  unfolding admit set_priority lookup Process.fresh
  lookup-admitted s spec st =
      let pid = s.registry.next_agent_pid in
      let r = born s.registry spec.behavior st in
      let s' : AgentScheduler E = record s { registry = r } in
      (
        set_priority spec.priority
            (Process.fresh pid spec.behavior st Process.default_mailbox_capacity),
        lookup-enqueue (modify s' pid (set_priority spec.priority)) pid pid
            ∙ lookup-modify s' pid (set_priority spec.priority) pid
            ∙ ground (arith, lookup-born s.registry spec.behavior st pid, nat_beq_iff pid pid),
        refl,
        refl,
      )

  module _ (starts : (b : E.Behavior) (v : E.Value) → is_ok (E.init b v) ≡ true) where
    pub spawn_child-Starts :
        (s : AgentScheduler E) (spec : ChildSpec E.Behavior E.Value)
        → (c : RunningChild E.Behavior E.Value) × ((spawn_child s spec).1 ≡ ok c)
          × Starts s spec c (spawn_child s spec).0
    spawn_child-Starts s spec =
        let pid = s.registry.next_agent_pid in
        let (st, e) =
          spawn-born s.registry spec.behavior spec.args (starts spec.behavior spec.args) in
        let here : spawn_child s spec ≡ admit s spec (born s.registry spec.behavior st, ok pid) =
          unfold spawn_child in ap (admit s spec) e in
        (
          record { id = spec.id; pid = pid; spec = spec },
          ap (λ r. r.1) here ∙ unfold admit in refl,
          record {
            spawned = refl;
            same_id = refl;
            same_spec = refl;
            fresh = refl;
            runs =
                let (p, found, b, pr) = lookup-admitted s spec st in
                (p, ap (λ r. lookup r.0 pid) here ∙ found, b, pr);
          },
        )

    pub respawn_all-AllStart :
        (specs : List (ChildSpec E.Behavior E.Value)) (sup : Supervisor E.Behavior E.Value)
        (s : AgentScheduler E)
        → (cs : List (RunningChild E.Behavior E.Value)) × AllStart s specs cs
            (respawn_all sup s specs).1
          × ((respawn_all sup s specs).0.children ≡ sup.children ++ cs)
          × ((respawn_all sup s specs).0.is_shutdown ≡ sup.is_shutdown)
    unfolding respawn_all increment_restart_count
    respawn_all-AllStart [] sup s = ([], all_start s, sym (append-nil sup.children), refl)
    respawn_all-AllStart (spec ∷ specs) sup s =
        let (c, e, one) = spawn_child-Starts s spec in
        let (cs, rest, same, up) = respawn_all-AllStart specs _ (spawn_child s spec).0 in
        (
          c ∷ cs,
          one_starts _ _ _ _ _ _ _ one rest,
          same
              ∙ ap (λ x. (sup.children ++ to_list x) ++ cs) e
              ∙ append_assoc sup.children (c ∷ []) cs,
          up,
        )
