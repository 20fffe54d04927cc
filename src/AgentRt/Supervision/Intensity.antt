-- ===== src/AgentRt/Supervision/Intensity.antt =====
-- agent_rt/supervision.rs: the restart intensity over a history of exits.
use mathlib.Core.Option.{some-injective}
use zeptobeam.Base.{
  ℕ, ◌+◌, ◌^◌, ◌≤◌, ◌<◌, ◌≡◌, refl, sym, ap, subst, ◌∙◌, List, [], ◌∷◌, ◌++◌, Bool, true, false,
  inl, inr, Option, none, some, arith, if◌then◌else◌, Option-cases, Bool-cases, length, keep,
  length-append, length-keep,
}
use zeptobeam.AgentRt.Types.{Env, Reason}
use zeptobeam.AgentRt.Scheduler.State.{AgentScheduler}
use zeptobeam.AgentRt.Supervision.{
  Supervisor, handle_child_exit, is_exceeded, note_restart, in_window,
}
use zeptobeam.AgentRt.Supervision.Limits.{
  is_counted, note_restart-keeps, Answer, handle_child_exit-Answer,
}

-- An exit: its time, the process, the reason and the state of the scheduler in which it comes.
pub record Exit (E : Env) : Type 0 where
  pub time : ℕ
  pub pid : ℕ
  pub reason : Reason
  pub sched : AgentScheduler E

-- The supervisor after a history of exits, with the times of the deaths that counted.
unfoldable pub exits :
    {E : Env}
    → (AgentScheduler E → ℕ → Reason → Option (AgentScheduler E))
    → List (Exit E)
    → Supervisor E.Behavior E.Value
    → List ℕ
    → Option (Supervisor E.Behavior E.Value × List ℕ)
unfolding is_counted
exits kill [] sup seen = some (sup, seen)
exits kill (e ∷ es) sup seen = elim (handle_child_exit kill e.time sup e.sched e.pid e.reason) [
  | none ↦ none
  | some r ↦ exits kill es r.0 (if is_counted sup e.pid e.reason then seen ++ e.time ∷ [] else seen)
]

abbrev pub Rising : {E : Env} → ℕ → List (Exit E) → Type 0
Rising t [] = Unit {0}
Rising t (e ∷ es) = (t ≤ e.time) × Rising e.time es

abbrev pub last_time : {E : Env} → ℕ → List (Exit E) → ℕ
last_time t [] = t
last_time t (e ∷ es) = last_time e.time es

keep-append : (p : ℕ → Bool) (xs ys : List ℕ) → keep p (xs ++ ys) ≡ keep p xs ++ keep p ys
keep-append p [] ys = refl
keep-append p (x ∷ xs) ys = ground (arith, keep-append p xs ys)

-- What is in the window later is in it before.
keep_later :
    (t now seconds : ℕ) (xs : List ℕ)
    → t ≤ now
    → keep (in_window now seconds) (keep (in_window t seconds) xs) ≡ keep (in_window now seconds) xs
keep_later t now seconds [] h = refl
keep_later t now seconds (x ∷ xs) h = ground (arith, keep_later t now seconds xs h)

-- While the supervisor is up, its timestamps stand for the deaths seen, and are few.
record Tracks {B V : Type 0} (max seconds t : ℕ) (sup : Supervisor B V) (seen : List ℕ)
    : Type 0 where
  max_restarts : sup.max_restarts ≡ max
  max_seconds : sup.max_seconds ≡ seconds
  same :
      sup.is_shutdown ≡ false
      → (u : ℕ) → t ≤ u
      → keep (in_window u seconds) sup.restart_timestamps ≡ keep (in_window u seconds) seen
  few : sup.is_shutdown ≡ false → length sup.restart_timestamps ≤ max

module _ {B V : Type 0} (max seconds t now : ℕ) (sup sup' : Supervisor B V) (seen : List ℕ)
    (small : max + 1 < 2 ^ 32) (later : t ≤ now) (tracks : Tracks max seconds t sup seen) where
  passed-Tracks : Answer now false sup sup' → Tracks max seconds now sup' seen
  passed-Tracks a = record {
    max_restarts = a.max_restarts ∙ tracks.max_restarts;
    max_seconds = a.max_seconds ∙ tracks.max_seconds;
    same = λ up u h.
        ap (keep (in_window u seconds)) a.timestamps
        ∙ tracks.same (sym a.down ∙ up) u (omega arith);
    few = λ up. subst (λ ts. length ts ≤ max) (sym a.timestamps) (tracks.few (sym a.down ∙ up));
  }

  noted_timestamps :
      (note_restart now sup).restart_timestamps
      ≡ keep (in_window now seconds) (sup.restart_timestamps ++ now ∷ [])
  unfolding note_restart
  noted_timestamps =
      ap (λ w. keep (in_window now w) (sup.restart_timestamps ++ now ∷ [])) tracks.max_seconds

  fewer_noted : sup.is_shutdown ≡ false → length (note_restart now sup).restart_timestamps ≤ max + 1
  fewer_noted up = omega (
    arith,
    ap length noted_timestamps,
    length-keep (in_window now seconds) (sup.restart_timestamps ++ now ∷ []),
    length-append sup.restart_timestamps (now ∷ []),
    tracks.few up,
  )

  few_noted :
      sup.is_shutdown ≡ false
      → is_exceeded (note_restart now sup) ≡ false
      → length (note_restart now sup).restart_timestamps ≤ max
  unfolding is_exceeded
  few_noted up under =
      ground (arith, fewer_noted up, (note_restart-keeps now sup).1, tracks.max_restarts)

  counted-Tracks :
      sup.is_shutdown ≡ false
      → Answer now true sup sup'
      → Tracks max seconds now sup' (seen ++ now ∷ [])
  counted-Tracks up a =
      let stamps = a.timestamps ∙ noted_timestamps in
      record {
        max_restarts = a.max_restarts ∙ tracks.max_restarts;
        max_seconds = a.max_seconds ∙ tracks.max_seconds;
        same = λ _ u h.
            ap (keep (in_window u seconds)) stamps
            ∙ keep_later now u seconds (sup.restart_timestamps ++ now ∷ []) h
            ∙ keep-append (in_window u seconds) sup.restart_timestamps (now ∷ [])
            ∙ ap (λ x. x ++ keep (in_window u seconds) (now ∷ [])) (tracks.same up u (omega arith))
            ∙ sym (keep-append (in_window u seconds) seen (now ∷ []));
        few = λ still.
            subst (λ ts. length ts ≤ max) (sym a.timestamps) (few_noted up (sym a.down ∙ still));
      }

module _ {E : Env} (kill : AgentScheduler E → ℕ → Reason → Option (AgentScheduler E))
    (max seconds : ℕ) (small : max + 1 < 2 ^ 32) where
  counted_up :
      (sup : Supervisor E.Behavior E.Value) (pid : ℕ) (reason : Reason)
      → is_counted sup pid reason ≡ true
      → sup.is_shutdown ≡ false
  unfolding is_counted
  counted_up sup pid reason e = ground arith

  exit-Tracks :
      (t : ℕ) (e : Exit E) (sup sup' : Supervisor E.Behavior E.Value) (s' : AgentScheduler E)
      (seen : List ℕ)
      → t ≤ e.time
      → Tracks max seconds t sup seen
      → handle_child_exit kill e.time sup e.sched e.pid e.reason ≡ some (sup', s')
      → Tracks max seconds e.time sup'
          (if is_counted sup e.pid e.reason then seen ++ e.time ∷ [] else seen)
  exit-Tracks t e sup sup' s' seen later tracks run =
      let a = handle_child_exit-Answer kill e.time sup sup' e.sched s' e.pid e.reason run in
      elim (Bool-cases (is_counted sup e.pid e.reason)) [
        | inl c ↦ rw c (
            counted-Tracks max seconds t e.time sup sup' seen small later tracks
              (counted_up sup e.pid e.reason c) (rw c at a))
        | inr c ↦
            rw c (passed-Tracks max seconds t e.time sup sup' seen small later tracks (rw c at a))
      ]

  exits-Tracks :
      (es : List (Exit E)) (t : ℕ) (sup sup' : Supervisor E.Behavior E.Value) (seen seen' : List ℕ)
      → Rising t es
      → Tracks max seconds t sup seen
      → exits kill es sup seen ≡ some (sup', seen')
      → Tracks max seconds (last_time t es) sup' seen'
  unfolding exits
  exits-Tracks [] t sup sup' seen seen' r tracks e =
      subst (λ q. Tracks max seconds t q.0 q.1) (some-injective _ _ e) tracks
  exits-Tracks (x ∷ es) t sup sup' seen seen' r tracks e =
      elim (Option-cases (handle_child_exit kill x.time sup x.sched x.pid x.reason)) [
        | inl out ↦ absurd (ground arith)
        | inr ((sup₁, s₁), run) ↦
            exits-Tracks es x.time sup₁ sup' _ seen' r.1
              (exit-Tracks t x sup sup₁ s₁ seen r.0 tracks run) (rw (run, exits) at e)
      ]

-- After any exits of any processes, at times that do not fall, a supervisor that has not shut itself
-- down has answered at most `max_restarts` deaths by a restart in the last `max_seconds`, at the time
-- of the last exit and at any later one. It starts without a record of restarts, and `max_restarts`
-- is below 2^32 - 1.
pub exits-le-max_restarts :
    {E : Env} (kill : AgentScheduler E → ℕ → Reason → Option (AgentScheduler E))
    (es : List (Exit E)) (sup sup' : Supervisor E.Behavior E.Value) (seen : List ℕ) (now : ℕ)
    → sup.max_restarts + 1 < 2 ^ 32
    → sup.restart_timestamps ≡ []
    → Rising 0 es
    → exits kill es sup [] ≡ some (sup', seen)
    → sup'.is_shutdown ≡ false
    → last_time 0 es ≤ now
    → length (keep (in_window now sup.max_seconds) seen) ≤ sup.max_restarts
exits-le-max_restarts kill es sup sup' seen now small fresh rising run up later =
    let start : Tracks sup.max_restarts sup.max_seconds 0 sup [] = record {
      max_restarts = refl;
      max_seconds = refl;
      same = λ _ u _. ap (keep (in_window u sup.max_seconds)) fresh;
      few = λ _. omega (arith, ap length fresh);
    } in
    let end =
      exits-Tracks kill sup.max_restarts sup.max_seconds small es 0 sup sup' [] seen rising start
        run in
    omega (
      arith,
      ap length (end.same up now later),
      length-keep (in_window now sup.max_seconds) sup'.restart_timestamps,
      end.few up,
    )
