-- ===== src/AgentRt/Scheduler/Spawning.antt =====
-- agent_rt/scheduler.rs: the invariant through the sends and spawns that a turn asked for.
use mathlib.Core.Path.{subst₂}
use zeptobeam.Base.{
  ℕ, ◌+◌, ◌≡◌, refl, List, [], ◌∷◌, Bool, true, false, ◌⊎◌, inl, inr, some, arith, if◌then◌else◌,
  ◌==◌, nat_eq, nat_beq_iff, Bool-cases, Result-cases, ok, err, u64,
}
use zeptobeam.HashMap
use zeptobeam.AgentRt.Types.{Env, Reason, Message}
use zeptobeam.AgentRt.Process.{AgentProcess, is_runnable}
use zeptobeam.AgentRt.Process
use zeptobeam.AgentRt.Registry
use zeptobeam.AgentRt.Registry.{AgentRegistry}
use zeptobeam.AgentRt.Scheduler.State.{AgentScheduler, not_found, lookup, modify}
use zeptobeam.AgentRt.Scheduler.Monitors.{monitor, add_monitor, add_monitored_by}
use zeptobeam.AgentRt.Scheduler.Dispatch.{SpawnRequest}
use zeptobeam.AgentRt.Scheduler.Tick.{send_all, add_link, adopt, spawn_child, spawn_all}
use zeptobeam.AgentRt.Scheduler.Queues.{is_queued}
use zeptobeam.AgentRt.Scheduler.Sending.{Same}
use zeptobeam.AgentRt.Scheduler.Holds.{Holds, modify-Holds, enqueue-Holds, send-Holds, Same-Holds}
use zeptobeam.AgentRt.Scheduler.Actions.{Intact, Intact-delivered}

-- The registry with a process born under the next pid.
unfoldable pub born : {E : Env} → AgentRegistry E → E.Behavior → E.State → AgentRegistry E
born r b st =
    let pid = r.next_agent_pid in
    record r {
      next_agent_pid = u64 (pid + 1);
      processes =
          HashMap.insert r.processes pid (Process.fresh pid b st Process.default_mailbox_capacity);
    }

-- `spawn` registers a new process, or uses up a pid and reports the reason that `init` gave.
pub spawn-cases :
    {E : Env} (r : AgentRegistry E) (b : E.Behavior) (args : E.Value)
    → ((st : E.State) × (Registry.spawn r b args ≡ (born r b st, ok r.next_agent_pid)))
      ⊎ ((reason : Reason) × (Registry.spawn r b args
            ≡ (record r { next_agent_pid = u64 (r.next_agent_pid + 1) }, err reason)))
unfolding Registry.spawn Process.new born
spawn-cases {E} r b args = elim (Result-cases (E.init b args)) [
  | inl (st, e) ↦ inl (st, ground arith)
  | inr (reason, e) ↦ inr (reason, ground arith)
]

pub lookup-born :
    {E : Env} (r : AgentRegistry E) (b : E.Behavior) (st : E.State) (j : ℕ)
    → let pid = r.next_agent_pid in
      Registry.lookup (born r b st) j ≡ (
        if pid == j
        then some (Process.fresh pid b st Process.default_mailbox_capacity)
        else Registry.lookup r j)
unfolding born Registry.lookup
lookup-born r b st j = HashMap.get-insert r.processes r.next_agent_pid _ j

fresh-Intact :
    {E : Env} (ex : List ℕ) (pid : ℕ) (b : E.Behavior) (st : E.State)
    → Intact ex pid (Process.fresh {E = E} pid b st Process.default_mailbox_capacity)
unfolding Process.fresh
fresh-Intact ex pid b st = ground arith

module _ {E : Env} (ex : List ℕ) where
  pub failed-Same :
      (s : AgentScheduler E)
      → Same s (record s {
        registry = record (s.registry) { next_agent_pid = u64 (s.registry.next_agent_pid + 1) };
      })
  unfolding lookup is_queued Registry.lookup
  failed-Same s = record { processes = λ q. refl; queues = λ q. refl }

  -- A newborn is runnable, and is yet to be enqueued.
  pub born-Holds :
      (xs : List ℕ) (s : AgentScheduler E) (b : E.Behavior) (st : E.State)
      → Holds (Intact ex) xs s
      → Holds
          (Intact ex)
          (s.registry.next_agent_pid ∷ xs)
          (record s { registry = born s.registry b st })
  unfolding lookup is_queued
  born-Holds xs s b st h = record {
    covered = λ q p e r. ground (arith, lookup-born s.registry b st q, h.covered q p);
    everyone = λ q p e. elim (Bool-cases (s.registry.next_agent_pid == q)) [
      | inl hit ↦
          subst₂ (Intact ex) ((nat_beq_iff _ q).0 hit)
            (ground (arith, lookup-born s.registry b st q))
            (fresh-Intact ex s.registry.next_agent_pid b st)
      | inr miss ↦ h.everyone q p (ground (arith, lookup-born s.registry b st q))
    ];
  }

  pub send_all-Holds :
      (now : ℕ) (xs : List ℕ) (ms : List (ℕ × Message E.Value)) (s : AgentScheduler E)
      → Holds (Intact ex) xs s
      → Holds (Intact ex) xs (send_all now ms s)
  unfolding send_all
  send_all-Holds now xs [] s h = h
  send_all-Holds now xs ((to, msg) ∷ ms) s h =
      send_all-Holds now xs ms _ (send-Holds (Intact ex) (Intact-delivered ex) now s xs to msg h)

  link-Holds :
      (k other : ℕ) (xs : List ℕ) (s : AgentScheduler E)
      → Holds (Intact ex) xs s
      → Holds (Intact ex) xs (modify s k (add_link other))
  unfolding add_link
  link-Holds k other xs s =
      modify-Holds (Intact ex) xs s k (add_link other) (λ p r. r) (λ p _ i. ground arith)

  drawn-Same : (s : AgentScheduler E) (ref : ℕ) → Same s (record s { next_monitor_ref = ref })
  unfolding lookup is_queued
  drawn-Same s ref = record { processes = λ q. refl; queues = λ q. refl }

  monitor-cases :
      (s : AgentScheduler E) (watcher target : ℕ)
      → let ref = s.next_monitor_ref in
        ((monitor s watcher target).0 ≡ s)
        ⊎ ((monitor s watcher target).0
            ≡ modify
                (modify
                  (record s { next_monitor_ref = u64 (ref + 1) })
                  watcher
                  (add_monitor ref target))
                target
                (add_monitored_by ref watcher))
  unfolding monitor
  monitor-cases s watcher target = ground arith

  monitor-Holds :
      (watcher target : ℕ) (xs : List ℕ) (s : AgentScheduler E)
      → Holds (Intact ex) xs s
      → Holds (Intact ex) xs (monitor s watcher target).0
  unfolding add_monitor add_monitored_by
  monitor-Holds watcher target xs s h = elim (monitor-cases s watcher target) [
    | inl e ↦ rw e h
    | inr e ↦ rw e (
        modify-Holds (Intact ex) xs _ target _ (λ p r. r) (λ p _ i. ground arith)
          (modify-Holds (Intact ex) xs _ watcher _ (λ p r. r) (λ p _ i. ground arith)
            (Same-Holds (Intact ex) xs s (drawn-Same s _) h)))
  ]

  adopt-Holds :
      (now parent child : ℕ) (link monitored : Bool) (xs : List ℕ) (s : AgentScheduler E)
      → Holds (Intact ex) (child ∷ xs) s
      → Holds (Intact ex) xs (adopt now parent child link monitored s)
  unfolding adopt
  adopt-Holds now parent child link monitored xs s h =
      let ys = child ∷ xs in
      let linked =
        if link then modify (modify s parent (add_link child)) child (add_link parent) else s in
      let watched =
        if monitored then monitor linked parent child else (linked, err (not_found 0)) in
      let l : Holds (Intact ex) ys linked =
        elim link
          as (λ b.
            Holds (Intact ex) ys (
              if b then modify (modify s parent (add_link child)) child (add_link parent) else s)) [
                | true ↦ link-Holds child parent ys _ (link-Holds parent child ys s h)
                | false ↦ h
              ] in
      let w : Holds (Intact ex) ys watched.0 =
        elim monitored
          as (λ b.
            Holds (Intact ex) ys
              (if b then monitor linked parent child else (linked, err (not_found 0))).0) [
                | true ↦ monitor-Holds parent child ys linked l
                | false ↦ l
              ] in
      enqueue-Holds (Intact ex) xs _ child
        (send-Holds (Intact ex) (Intact-delivered ex) now watched.0 ys parent _ w)

  spawn_child-ok :
      (now parent child : ℕ) (link monitored : Bool) (s : AgentScheduler E) (r : AgentRegistry E)
      → spawn_child now parent link monitored s (r, ok child)
        ≡ adopt now parent child link monitored (record s { registry = r })
  unfolding spawn_child
  spawn_child-ok now parent child link monitored s r = refl

  spawn_child-err :
      (now parent : ℕ) (link monitored : Bool) (s : AgentScheduler E) (r : AgentRegistry E)
      (reason : Reason)
      → spawn_child now parent link monitored s (r, err reason) ≡ record s { registry = r }
  unfolding spawn_child
  spawn_child-err now parent link monitored s r reason = refl

  spawn_child-Holds :
      (now parent : ℕ) (behavior : E.Behavior) (args : E.Value) (link monitored : Bool)
      (xs : List ℕ) (s : AgentScheduler E)
      → Holds (Intact ex) xs s
      → Holds
          (Intact ex)
          xs
          (spawn_child now parent link monitored s (Registry.spawn s.registry behavior args))
  spawn_child-Holds now parent behavior args link monitored xs s h =
      elim (spawn-cases s.registry behavior args) [
        | inl (st, e) ↦
            rw (e, spawn_child-ok)
              (adopt-Holds now parent s.registry.next_agent_pid link monitored xs _
                (born-Holds xs s behavior st h))
        | inr (reason, e) ↦ rw (e, spawn_child-err) (Same-Holds (Intact ex) xs s (failed-Same s) h)
      ]

  pub spawn_all-Holds :
      (now parent : ℕ) (xs : List ℕ) (rs : List (SpawnRequest E)) (s : AgentScheduler E)
      → Holds (Intact ex) xs s
      → Holds (Intact ex) xs (spawn_all now parent rs s)
  unfolding spawn_all
  spawn_all-Holds now parent xs [] s h = h
  spawn_all-Holds now parent xs ((b, v, l, m) ∷ rs) s h =
      spawn_all-Holds now parent xs rs _ (spawn_child-Holds now parent b v l m xs s h)
