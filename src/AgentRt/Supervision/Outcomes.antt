-- ===== src/AgentRt/Supervision/Outcomes.antt =====
-- agent_rt/supervision.rs: what a supervisor may do at an exit.
use zeptobeam.Base.{
  ℕ, ◌*◌, ◌-◌, ◌%◌, ◌^◌, ◌<◌, ◌≡◌, ◌≢◌, refl, List, [], ◌∷◌, ◌++◌, true, false, not, ◌⊎◌, inl, inr,
  Option, none, some, arith, Option-cases, Bool-cases, nat_eq, ◌==◌, all, keep, leb, length, map,
}
use zeptobeam.AgentRt.Types.{Env, Reason, normal, shutdown, custom}
use zeptobeam.AgentRt.Scheduler.State.{AgentScheduler}
use zeptobeam.AgentRt.Supervision.{
  ChildRestart, permanent, transient, temporary, RestartStrategy, one_for_one, one_for_all,
  rest_for_one, RunningChild, Supervisor, Place, specs_of, position, should_restart,
}
use zeptobeam.AgentRt.Supervision.Starting.{AllStart}

-- Which children are restarted: permanent ones, and transient ones that crash.
abbrev pub Restarts : ChildRestart → Reason → Type 0
Restarts kind reason =
    (kind ≡ permanent) ⊎ ((kind ≡ transient) × (reason ≢ normal) × (reason ≢ shutdown))

pub should_restart-Restarts :
    (kind : ChildRestart) (reason : Reason)
    → should_restart kind reason ≡ true
    → Restarts kind reason
unfolding should_restart
should_restart-Restarts permanent reason e = inl refl
should_restart-Restarts temporary reason e = absurd (cc e)
should_restart-Restarts transient normal e = absurd (cc e)
should_restart-Restarts transient shutdown e = absurd (cc e)
should_restart-Restarts transient (custom text) e = inr (refl, λ h. cc h, λ h. cc h)

pub should_restart-no :
    (kind : ChildRestart) (reason : Reason)
    → should_restart kind reason ≡ false
    → ¬ Restarts kind reason
unfolding should_restart
should_restart-no permanent reason e h = cc e
should_restart-no temporary reason e (inl h) = cc h
should_restart-no temporary reason e (inr h) = cc (h.0)
should_restart-no transient normal e (inl h) = cc h
should_restart-no transient normal e (inr h) = h.1 refl
should_restart-no transient shutdown e (inl h) = cc h
should_restart-no transient shutdown e (inr h) = h.2 refl
should_restart-no transient (custom text) e h = cc e

-- The first child with a pid, between the others.
pub record IsPlace {B V : Type 0} (pid : ℕ) (cs : List (RunningChild B V)) (p : Place B V)
    : Type 0 where
  pub split : cs ≡ p.before ++ p.dead ∷ p.after
  pub hit : p.dead.pid ≡ pid
  pub first : all (λ c. not (c.pid == pid)) p.before ≡ true

pub position-IsPlace :
    {B V : Type 0} (pid : ℕ) (cs : List (RunningChild B V)) (p : Place B V)
    → position pid cs ≡ some p
    → IsPlace pid cs p
unfolding position
position-IsPlace pid [] p e = absurd (cc e)
position-IsPlace pid (c ∷ cs) p e = elim (Bool-cases (c.pid == pid)) [
  | inl hit ↦ ground arith
  | inr miss ↦ elim (Option-cases (position pid cs)) [
    | inl gone ↦ absurd (ground arith)
    | inr (q, f) ↦ ground (arith, position-IsPlace pid cs q f)
  ]
]

pub position-none :
    {B V : Type 0} (pid : ℕ) (cs : List (RunningChild B V))
    → position pid cs ≡ none
    → all (λ c. not (c.pid == pid)) cs ≡ true
unfolding position
position-none pid [] e = refl
position-none pid (c ∷ cs) e = elim (Option-cases (position pid cs)) [
  | inl gone ↦ ground (arith, position-none pid cs gone)
  | inr (q, f) ↦ absurd (ground arith)
]

-- A death is one too many if more than `max_restarts` lie in the window that it ends.
abbrev pub Exceeds : {B V : Type 0} → ℕ → Supervisor B V → Type 0
Exceeds now sup =
    sup.max_restarts
    < length (
        keep (λ t. leb (now - t) (sup.max_seconds * 1000000000))
          (sup.restart_timestamps ++ now ∷ []))
      % 2 ^ 32

-- The pids of the children that are terminated before a restart: all but that of the dead child.
abbrev pub others : {B V : Type 0} → ℕ → List (RunningChild B V) → List ℕ
others dead cs = map (λ c. c.pid) (keep (λ c. not (c.pid == dead)) cs)

module _ {E : Env} (kill : AgentScheduler E → ℕ → Reason → Option (AgentScheduler E)) where
  -- Processes that are terminated one after the other.
  pub data AllStop : AgentScheduler E → List ℕ → AgentScheduler E → Type 0 where
    all_stop : (s : AgentScheduler E) → AllStop s [] s
    one_stops :
        (s s' t : AgentScheduler E) (pid : ℕ) (pids : List ℕ)
        → kill s pid shutdown ≡ some s'
        → AllStop s' pids t
        → AllStop s (pid ∷ pids) t

  -- A restart by each strategy, of the child at a place.
  abbrev pub Restarted :
      RestartStrategy
      → List (RunningChild E.Behavior E.Value)
      → AgentScheduler E
      → Place E.Behavior E.Value
      → Supervisor E.Behavior E.Value × AgentScheduler E
      → Type 0
  Restarted one_for_one cs s p r =
      (c : RunningChild E.Behavior E.Value) × AllStart s (p.dead.spec ∷ []) (c ∷ []) r.1
      × (r.0.children ≡ p.before ++ c ∷ p.after)
  Restarted one_for_all cs s p r =
      (t : AgentScheduler E) × (new : List (RunningChild E.Behavior E.Value)) × AllStop s
        (others p.dead.pid cs) t
      × AllStart t (specs_of cs) new r.1
      × (r.0.children ≡ new)
  Restarted rest_for_one cs s p r =
      (t : AgentScheduler E) × (new : List (RunningChild E.Behavior E.Value)) × AllStop s
        (others p.dead.pid (p.dead ∷ p.after)) t
      × AllStart t (specs_of (p.dead ∷ p.after)) new r.1
      × (r.0.children ≡ p.before ++ new)

  -- What an exit leads to: it is passed over, or the dead child is removed, or the supervisor gives
  -- up, or it restarts children and keeps their specs in order.
  pub data Reaction (now : ℕ) (sup : Supervisor E.Behavior E.Value) (s : AgentScheduler E) (pid : ℕ)
      (reason : Reason) (r : Supervisor E.Behavior E.Value × AgentScheduler E) : Type 0 where
    passed_over :
        (sup.is_shutdown ≡ true) ⊎ (all (λ c. not (c.pid == pid)) sup.children ≡ true)
        → r ≡ (sup, s)
        → Reaction now sup s pid reason r
    removed :
        (p : Place E.Behavior E.Value)
        → sup.is_shutdown ≡ false
        → IsPlace pid sup.children p
        → ¬ Restarts p.dead.spec.restart reason
        → r ≡ (record sup { children = p.before ++ p.after }, s)
        → Reaction now sup s pid reason r
    gave_up :
        (p : Place E.Behavior E.Value)
        → sup.is_shutdown ≡ false
        → IsPlace pid sup.children p
        → Restarts p.dead.spec.restart reason
        → Exceeds now sup
        → r.0.is_shutdown ≡ true
        → r.0.children ≡ sup.children
        → r.1 ≡ s
        → Reaction now sup s pid reason r
    restarted :
        (p : Place E.Behavior E.Value)
        → sup.is_shutdown ≡ false
        → IsPlace pid sup.children p
        → Restarts p.dead.spec.restart reason
        → ¬ Exceeds now sup
        → r.0.is_shutdown ≡ false
        → specs_of r.0.children ≡ specs_of sup.children
        → Restarted sup.strategy sup.children s p r
        → Reaction now sup s pid reason r
