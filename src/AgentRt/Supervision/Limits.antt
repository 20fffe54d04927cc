-- ===== src/AgentRt/Supervision/Limits.antt =====
-- agent_rt/supervision.rs: what an exit does to the fields that limit the restarts.
use zeptobeam.Base.{
  ℕ, ◌≡◌, refl, sym, subst, ◌∙◌, List, [], ◌∷◌, Bool, true, false, not, ◌&&◌, inl, inr, Option,
  none, some, arith, if◌then◌else◌, Option-cases, Bool-cases,
}
use zeptobeam.AgentRt.Types.{Env, Reason}
use zeptobeam.AgentRt.Scheduler.State.{AgentScheduler}
use zeptobeam.AgentRt.Supervision.{
  RestartStrategy, one_for_one, one_for_all, rest_for_one, ChildSpec, Supervisor, Place,
  spawn_child, respawn_all, specs_of, terminate_all, restart_one, restart_all, restart_rest,
  restart, handle_death, handle_child_exit, position, increment_restart_count, is_exceeded,
  note_restart, should_restart,
}

-- The fields that limit the restarts.
record SameLimits {B V : Type 0} (sup sup' : Supervisor B V) : Type 0 where
  timestamps : sup'.restart_timestamps ≡ sup.restart_timestamps
  down : sup'.is_shutdown ≡ sup.is_shutdown
  max_restarts : sup'.max_restarts ≡ sup.max_restarts
  max_seconds : sup'.max_seconds ≡ sup.max_seconds

module _ {E : Env} where
  respawn_all-SameLimits :
      (specs : List (ChildSpec E.Behavior E.Value)) (sup : Supervisor E.Behavior E.Value)
      (s : AgentScheduler E)
      → SameLimits sup (respawn_all sup s specs).0
  unfolding respawn_all increment_restart_count
  respawn_all-SameLimits [] sup s = record {
    timestamps = refl;
    down = refl;
    max_restarts = refl;
    max_seconds = refl;
  }
  respawn_all-SameLimits (spec ∷ specs) sup s =
      let rest = respawn_all-SameLimits specs _ (spawn_child s spec).0 in
      record {
        timestamps = rest.timestamps;
        down = rest.down;
        max_restarts = rest.max_restarts;
        max_seconds = rest.max_seconds;
      }

  module _ (kill : AgentScheduler E → ℕ → Reason → Option (AgentScheduler E)) where
    abbrev Limited :
        Supervisor E.Behavior E.Value
        → Option (Supervisor E.Behavior E.Value × AgentScheduler E)
        → Type 0
    Limited sup none = Unit
    Limited sup (some r) = SameLimits sup r.0

    restart-Limited :
        (strategy : RestartStrategy) (sup : Supervisor E.Behavior E.Value) (s : AgentScheduler E)
        (p : Place E.Behavior E.Value)
        → Limited sup (restart kill strategy sup s p)
    unfolding restart restart_one restart_all restart_rest increment_restart_count
    restart-Limited one_for_one sup s p = record {
      timestamps = refl;
      down = refl;
      max_restarts = refl;
      max_seconds = refl;
    }
    restart-Limited one_for_all sup s p =
        elim (Option-cases (terminate_all kill p.dead.pid sup.children s)) [
          | inl out ↦ rw (out, restart_all) tt
          | inr (s', t) ↦
              let same =
                respawn_all-SameLimits (specs_of sup.children) (record sup { children = [] }) s' in
              rw (t, restart_all)
                (record {
                  timestamps = same.timestamps;
                  down = same.down;
                  max_restarts = same.max_restarts;
                  max_seconds = same.max_seconds;
                })
        ]
    restart-Limited rest_for_one sup s p =
        elim (Option-cases (terminate_all kill p.dead.pid (p.dead ∷ p.after) s)) [
          | inl out ↦ rw (out, restart_rest) tt
          | inr (s', t) ↦
              let same =
                respawn_all-SameLimits (specs_of (p.dead ∷ p.after))
                  (record sup { children = p.before }) s' in
              rw (t, restart_rest)
                (record {
                  timestamps = same.timestamps;
                  down = same.down;
                  max_restarts = same.max_restarts;
                  max_seconds = same.max_seconds;
                })
        ]

-- A death that the supervisor is to answer by a restart.
unfoldable pub is_counted : {B V : Type 0} → Supervisor B V → ℕ → Reason → Bool
is_counted sup pid reason = elim (position pid sup.children) [
  | none ↦ false
  | some p ↦ not sup.is_shutdown && should_restart p.dead.spec.restart reason
]

pub note_restart-keeps :
    {B V : Type 0} (now : ℕ) (sup : Supervisor B V)
    → ((note_restart now sup).is_shutdown ≡ sup.is_shutdown)
      × ((note_restart now sup).max_restarts ≡ sup.max_restarts)
      × ((note_restart now sup).max_seconds ≡ sup.max_seconds)
unfolding note_restart
note_restart-keeps now sup = (refl, refl, refl)

-- What an exit does to the limits.
pub record Answer {B V : Type 0} (now : ℕ) (counted : Bool) (sup sup' : Supervisor B V)
    : Type 0 where
  pub timestamps :
      sup'.restart_timestamps
      ≡ (if counted then (note_restart now sup).restart_timestamps else sup.restart_timestamps)
  pub down :
      sup'.is_shutdown ≡ (if counted then is_exceeded (note_restart now sup) else sup.is_shutdown)
  pub max_restarts : sup'.max_restarts ≡ sup.max_restarts
  pub max_seconds : sup'.max_seconds ≡ sup.max_seconds

module _ {E : Env} (kill : AgentScheduler E → ℕ → Reason → Option (AgentScheduler E)) (now : ℕ)
    (sup sup' : Supervisor E.Behavior E.Value) (s s' : AgentScheduler E) (pid : ℕ)
    (reason : Reason) where
  pub handle_child_exit-Answer :
      handle_child_exit kill now sup s pid reason ≡ some (sup', s')
      → Answer now (is_counted sup pid reason) sup sup'
  unfolding handle_child_exit handle_death is_counted
  handle_child_exit-Answer e = elim (Option-cases (position pid sup.children)) [
    | inl gone ↦ ground arith
    | inr (p, here) ↦ elim (Bool-cases sup.is_shutdown) [
      | inl down ↦ ground arith
      | inr up ↦ elim (Bool-cases (should_restart p.dead.spec.restart reason)) [
        | inr never ↦ ground arith
        | inl again ↦
            let noted = note_restart now sup in
            elim (Bool-cases (is_exceeded noted)) [
              | inl over ↦ ground arith
              | inr under ↦
                  let run : restart kill noted.strategy noted s p ≡ some (sup', s') =
                    ground arith in
                  let same : SameLimits noted sup' =
                    subst (Limited kill noted) run
                      (restart-Limited kill noted.strategy noted s p) in
                  let counted : is_counted sup pid reason ≡ true = ground arith in
                  let kept = note_restart-keeps now sup in
                  rw counted (record {
                    timestamps = same.timestamps;
                    down = same.down ∙ kept.0 ∙ up ∙ sym under;
                    max_restarts = same.max_restarts ∙ kept.1;
                    max_seconds = same.max_seconds ∙ kept.2;
                  })
            ]
      ]
    ]
  ]
