-- ===== src/AgentRt/Supervision.antt =====
-- agent_rt/supervision.rs: supervisors that restart their children. A supervisor is over the types
-- of behaviors and of JSON values, so that it can be an exit handler of the scheduler. Instants are
-- in nanoseconds. The delays of `BackoffStrategy` are floating point numbers, and are left out.
pub mod Keeps
pub mod Starting
pub mod Outcomes
pub mod Order
pub mod Limits
pub mod Intensity
pub mod Supervised
use zeptobeam.Base.{
  ℕ, ◌+◌, ◌-◌, ◌*◌, ◌%◌, ◌^◌, List, [], ◌∷◌, ◌++◌, map, Bool, true, false, not, Option, none, some,
  String, string_eq, nat_eq, ◌==◌, leb, ltb, length, keep, if◌then◌else◌, Result, ok, err,
}
use zeptobeam.HashMap
use zeptobeam.HashMap.{HashMap}
use zeptobeam.AgentRt.Types.{Env, Reason, normal, shutdown, custom}
use zeptobeam.AgentRt.Process.{AgentProcess, Priority}
use zeptobeam.AgentRt.Registry
use zeptobeam.AgentRt.Scheduler.State.{AgentScheduler, modify, enqueue}

pub data RestartStrategy : Type 0 where
  one_for_one one_for_all rest_for_one : RestartStrategy

pub data ChildRestart : Type 0 where
  permanent transient temporary : ChildRestart

pub record ChildSpec (B V : Type 0) : Type 0 where
  pub id : String
  pub behavior : B
  pub args : V
  pub restart : ChildRestart
  pub priority : Priority

pub record RunningChild (B V : Type 0) : Type 0 where
  pub id : String
  pub pid : ℕ
  pub spec : ChildSpec B V

pub record SupervisorSpec (B V : Type 0) : Type 0 where
  pub strategy : RestartStrategy
  pub max_restarts : ℕ
  pub max_seconds : ℕ
  pub children : List (ChildSpec B V)

pub record Supervisor (B V : Type 0) : Type 0 where
  pub strategy : RestartStrategy
  pub max_restarts : ℕ
  pub max_seconds : ℕ
  pub children : List (RunningChild B V)
  pub restart_timestamps : List ℕ
  pub is_shutdown : Bool
  pub restart_counts : HashMap String ℕ

unfoldable pub set_priority : {E : Env} → Priority → AgentProcess E → AgentProcess E
set_priority priority p = record p { priority = priority }

-- What follows a `registry.spawn`: the child's priority, its place in a queue, and its record.
unfoldable pub admit :
    {E : Env}
    → AgentScheduler E
    → ChildSpec E.Behavior E.Value
    → Registry.AgentRegistry E × Result ℕ Reason
    → AgentScheduler E × Result (RunningChild E.Behavior E.Value) Reason
unfolding set_priority
admit s spec (r, err reason) = (record s { registry = r }, err reason)
admit s spec (r, ok pid) = (
  enqueue (modify (record s { registry = r }) pid (set_priority spec.priority)) pid,
  ok (record { id = spec.id; pid = pid; spec = spec }),
)

unfoldable pub spawn_child :
    {E : Env}
    → AgentScheduler E
    → ChildSpec E.Behavior E.Value
    → AgentScheduler E × Result (RunningChild E.Behavior E.Value) Reason
unfolding admit
spawn_child s spec = admit s spec (Registry.spawn s.registry spec.behavior spec.args)

-- The loop of `start`: it stops at the first child that cannot be spawned.
unfoldable pub start_children :
    {E : Env}
    → AgentScheduler E
    → List (ChildSpec E.Behavior E.Value)
    → AgentScheduler E × Result (List (RunningChild E.Behavior E.Value)) Reason
unfolding spawn_child
start_children s [] = (s, ok [])
start_children s (spec ∷ specs) =
    let (s', first) = spawn_child s spec in
    elim first [
      | err reason ↦ (s', err reason)
      | ok child ↦
          let (s'', rest) = start_children s' specs in
          elim rest [ err reason ↦ (s'', err reason) | ok children ↦ (s'', ok (child ∷ children)) ]
    ]

unfoldable pub start :
    {E : Env}
    → AgentScheduler E
    → SupervisorSpec E.Behavior E.Value
    → AgentScheduler E × Result (Supervisor E.Behavior E.Value) Reason
unfolding start_children
start s spec =
    let (s', started) = start_children s spec.children in
    elim started [
      | err reason ↦ (s', err reason)
      | ok children ↦ (
        s',
        ok (record {
          strategy = spec.strategy;
          max_restarts = spec.max_restarts;
          max_seconds = spec.max_seconds;
          children = children;
          restart_timestamps = [];
          is_shutdown = false;
          restart_counts = [];
        }),
      )
    ]

-- The children before and after the first one with this pid: the index of the source is the number
-- of those before.
pub record Place (B V : Type 0) : Type 0 where
  pub before : List (RunningChild B V)
  pub dead : RunningChild B V
  pub after : List (RunningChild B V)

unfoldable pub position : {B V : Type 0} → ℕ → List (RunningChild B V) → Option (Place B V)
position pid [] = none
position pid (c ∷ cs) =
    if c.pid == pid
    then some (record { before = []; dead = c; after = cs })
    else elim (position pid cs) [ none ↦ none | some p ↦ some (record p { before = c ∷ p.before }) ]

unfoldable pub should_restart : ChildRestart → Reason → Bool
should_restart permanent reason = true
should_restart temporary reason = false
should_restart transient normal = false
should_restart transient shutdown = false
should_restart transient (custom text) = true

abbrev pub in_window : ℕ → ℕ → ℕ → Bool
in_window now max_seconds t = leb (now - t) (max_seconds * 1000000000)

unfoldable pub note_restart : {B V : Type 0} → ℕ → Supervisor B V → Supervisor B V
note_restart now sup = record sup {
  restart_timestamps = keep (in_window now sup.max_seconds) (sup.restart_timestamps ++ now ∷ []);
}

-- The test of `exceeds_max_restarts`, once the timestamps are up to date.
unfoldable pub is_exceeded : {B V : Type 0} → Supervisor B V → Bool
is_exceeded sup = ltb sup.max_restarts (length sup.restart_timestamps % 2 ^ 32)

unfoldable pub restart_count : {B V : Type 0} → Supervisor B V → String → ℕ
restart_count sup id = elim (HashMap.get sup.restart_counts id) [ none ↦ 0 | some n ↦ n ]

unfoldable pub increment_restart_count : {B V : Type 0} → Supervisor B V → String → Supervisor B V
unfolding restart_count
increment_restart_count sup id = record sup {
  restart_counts = HashMap.insert sup.restart_counts id ((restart_count sup id + 1) % 2 ^ 32);
}

abbrev pub to_list : {A X : Type 0} → Result A X → List A
to_list (ok a) = a ∷ []
to_list (err x) = []

-- The loops that respawn children, with the children spawned.
unfoldable pub respawn_all :
    {E : Env}
    → Supervisor E.Behavior E.Value
    → AgentScheduler E
    → List (ChildSpec E.Behavior E.Value)
    → Supervisor E.Behavior E.Value × AgentScheduler E
unfolding spawn_child increment_restart_count
respawn_all sup s [] = (sup, s)
respawn_all sup s (spec ∷ specs) =
    let counted = increment_restart_count sup spec.id in
    let (s', child) = spawn_child s spec in
    respawn_all (record counted { children = counted.children ++ to_list child }) s' specs

abbrev pub specs_of : {B V : Type 0} → List (RunningChild B V) → List (ChildSpec B V)
specs_of = map λ c. c.spec

unfoldable pub restart_one :
    {E : Env}
    → Supervisor E.Behavior E.Value
    → AgentScheduler E
    → Place E.Behavior E.Value
    → Supervisor E.Behavior E.Value × AgentScheduler E
unfolding spawn_child increment_restart_count
restart_one sup s p =
    let counted = increment_restart_count sup p.dead.id in
    let (s', child) = spawn_child s p.dead.spec in
    (record counted { children = p.before ++ (to_list child ++ p.after) }, s')

module _ {E : Env} (kill : AgentScheduler E → ℕ → Reason → Option (AgentScheduler E)) where
  -- Terminates children but the dead one, for `Reason::Shutdown`.
  unfoldable pub terminate_all :
      ℕ → List (RunningChild E.Behavior E.Value) → AgentScheduler E → Option (AgentScheduler E)
  terminate_all dead [] s = some s
  terminate_all dead (c ∷ cs) s = elim (if c.pid == dead then some s else kill s c.pid shutdown) [
    | none ↦ none
    | some s' ↦ terminate_all dead cs s'
  ]

  unfoldable pub restart_all :
      Supervisor E.Behavior E.Value
      → AgentScheduler E
      → Place E.Behavior E.Value
      → Option (Supervisor E.Behavior E.Value × AgentScheduler E)
  unfolding terminate_all respawn_all
  restart_all sup s p = elim (terminate_all p.dead.pid sup.children s) [
    | none ↦ none
    | some s' ↦ some (respawn_all (record sup { children = [] }) s' (specs_of sup.children))
  ]

  unfoldable pub restart_rest :
      Supervisor E.Behavior E.Value
      → AgentScheduler E
      → Place E.Behavior E.Value
      → Option (Supervisor E.Behavior E.Value × AgentScheduler E)
  unfolding terminate_all respawn_all
  restart_rest sup s p = elim (terminate_all p.dead.pid (p.dead ∷ p.after) s) [
    | none ↦ none
    | some s' ↦
        some (respawn_all (record sup { children = p.before }) s' (specs_of (p.dead ∷ p.after)))
  ]

  unfoldable pub restart :
      RestartStrategy
      → Supervisor E.Behavior E.Value
      → AgentScheduler E
      → Place E.Behavior E.Value
      → Option (Supervisor E.Behavior E.Value × AgentScheduler E)
  unfolding restart_one restart_all restart_rest
  restart one_for_one sup s p = some (restart_one sup s p)
  restart one_for_all sup s p = restart_all sup s p
  restart rest_for_one sup s p = restart_rest sup s p

  -- A death of the child at a place.
  unfoldable pub handle_death :
      ℕ
      → Supervisor E.Behavior E.Value
      → AgentScheduler E
      → Place E.Behavior E.Value
      → Reason
      → Option (Supervisor E.Behavior E.Value × AgentScheduler E)
  unfolding restart should_restart note_restart is_exceeded
  handle_death now sup s p reason =
      if not (should_restart p.dead.spec.restart reason)
      then some (record sup { children = p.before ++ p.after }, s)
      else let noted = note_restart now sup in
        let restarted = restart noted.strategy noted s p in
        if is_exceeded noted then some (record noted { is_shutdown = true }, s) else restarted

  -- `none` when a cascade that `kill` starts exceeds its depth.
  unfoldable pub handle_child_exit :
      ℕ
      → Supervisor E.Behavior E.Value
      → AgentScheduler E
      → ℕ
      → Reason
      → Option (Supervisor E.Behavior E.Value × AgentScheduler E)
  unfolding handle_death position
  handle_child_exit now sup s pid reason =
      if sup.is_shutdown then some (sup, s) else elim (position pid sup.children) [
        | none ↦ some (sup, s)
        | some p ↦ handle_death now sup s p reason
      ]
