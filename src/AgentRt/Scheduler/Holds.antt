-- ===== src/AgentRt/Scheduler/Holds.antt =====
-- agent_rt/scheduler.rs: the form of the invariant, and the steps that keep it.
use mathlib.Core.Path.{subst₂}
use zeptobeam.Base.{
  ℕ, ◌≡◌, List, [], ◌∷◌, ◌++◌, inl, inr, some, arith, ◌==◌, nat_eq, nat_beq_iff, Option-cases,
  Bool-cases, subst, sym,
}
use zeptobeam.AgentRt.Types.{Env, Message}
use zeptobeam.AgentRt.Process.{AgentProcess}
use zeptobeam.AgentRt.Scheduler.State.{
  AgentScheduler, lookup, modify, enqueue, send, call_hook, deliver,
}
use zeptobeam.AgentRt.Scheduler.Terminate.{bury, enqueue_all}
use zeptobeam.AgentRt.Scheduler.Sending.{
  Same, call_hook-Same, deliver-Same, deliver-local, send-cases, delivered, lookup-send_local,
}
use zeptobeam.AgentRt.Scheduler.Queues.{lookup-modify, lookup-bury, lookup-enqueue}
use zeptobeam.AgentRt.Scheduler.Wakeup.{
  Covered, Calm, Parks, modify-Covered-Calm, modify-Covered_any, modify-Covered-Parks, bury-Covered,
  enqueue-Covered, Same-Covered, send-Covered, Covered-cons,
}

abbrev pub Everyone : {E : Env} → (ℕ → AgentProcess E → Type 0) → AgentScheduler E → Type 0
Everyone {E} P s = (q : ℕ) (p : AgentProcess E) → lookup s q ≡ some p → P q p

pub record Holds {E : Env} (P : ℕ → AgentProcess E → Type 0) (xs : List ℕ) (s : AgentScheduler E)
    : Type 0 where
  pub covered : Covered xs s
  pub everyone : Everyone P s

module _ {E : Env} (P : ℕ → AgentProcess E → Type 0) (s : AgentScheduler E) where
  pub modify-Everyone :
      (k : ℕ) (f : AgentProcess E → AgentProcess E)
      → ((p : AgentProcess E) → lookup s k ≡ some p → P k p → P k (f p))
      → Everyone P s
      → Everyone P (modify s k f)
  modify-Everyone k f keeps all q p e = elim (Option-cases (lookup s q)) [
    | inl gone ↦ absurd (ground (arith, lookup-modify s k f q))
    | inr (p₀, e₀) ↦ elim (Bool-cases (k == q)) [
      | inl hit ↦
          let here : k ≡ q = (nat_beq_iff k q).0 hit in
          let found : lookup s k ≡ some p₀ = rw here e₀ in
          let changed : f p₀ ≡ p = ground (arith, lookup-modify s k f q) in
          subst₂ P here changed (keeps p₀ found (subst (λ j. P j p₀) (sym here) (all q p₀ e₀)))
      | inr miss ↦ subst (P q) (ground (arith, lookup-modify s k f q)) (all q p₀ e₀)
    ]
  ]

  pub bury-Everyone : (k : ℕ) → Everyone P s → Everyone P (bury s k)
  bury-Everyone k all q p e = all q p (ground (arith, lookup-bury s k q))

  pub enqueue-Everyone : (k : ℕ) → Everyone P s → Everyone P (enqueue s k)
  enqueue-Everyone k all q p e = all q p (rw (lookup-enqueue s k q) at e)

  pub Same-Everyone : {t : AgentScheduler E} → Same s t → Everyone P s → Everyone P t
  Same-Everyone same all q p e = all q p (rw (same.processes q) at e)

-- A property of processes that the arrival of a message keeps.
abbrev pub Welcomes : {E : Env} → (ℕ → AgentProcess E → Type 0) → Type 0
Welcomes {E} P =
    (q : ℕ) (p : AgentProcess E) (msg : Message E.Value) → P q p → P q (delivered msg p)

module _ {E : Env} (P : ℕ → AgentProcess E → Type 0) (welcomes : Welcomes P) (now : ℕ)
    (s : AgentScheduler E) where
  deliver-Everyone :
      (to : ℕ) (msg : Message E.Value) → Everyone P s → Everyone P (deliver now s to msg).0
  deliver-Everyone to msg all = elim (Option-cases (lookup s to)) [
    | inl gone ↦ Same-Everyone P s (deliver-Same s to msg now gone) all
    | inr (p, here) ↦ rw (deliver-local s to msg now p here) λ q p' e.
        modify-Everyone P s to (delivered msg) (λ p₀ _ h. welcomes to p₀ msg h) all q p'
          (rw (lookup-send_local now s to p msg q) at e)
  ]

module _ {E : Env} (P : ℕ → AgentProcess E → Type 0) (welcomes : Welcomes P) (now : ℕ)
    (s : AgentScheduler E) where
  send-Everyone : (to : ℕ) (msg : Message E.Value) → Everyone P s → Everyone P (send now s to msg).0
  send-Everyone to msg all =
      let hooked = Same-Everyone P s (call_hook-Same s to msg) all in
      elim (send-cases s to msg now) [
        | inl e ↦ rw e (deliver-Everyone P welcomes now (call_hook s to msg).0 to msg hooked)
        | inr e ↦ rw e hooked
      ]

  pub send-Holds :
      (xs : List ℕ) (to : ℕ) (msg : Message E.Value)
      → Holds P xs s
      → Holds P xs (send now s to msg).0
  send-Holds xs to msg h = record {
    covered = send-Covered xs now s to msg h.covered;
    everyone = send-Everyone to msg h.everyone;
  }

module _ {E : Env} (P : ℕ → AgentProcess E → Type 0) (xs : List ℕ) (s : AgentScheduler E) where
  pub modify-Holds :
      (k : ℕ) (f : AgentProcess E → AgentProcess E)
      → Calm f
      → ((p : AgentProcess E) → lookup s k ≡ some p → P k p → P k (f p))
      → Holds P xs s
      → Holds P xs (modify s k f)
  modify-Holds k f calm keeps h = record {
    covered = modify-Covered-Calm xs s k f calm h.covered;
    everyone = modify-Everyone P s k f keeps h.everyone;
  }

  -- Any change of a process that is yet to be enqueued.
  pub modify-Holds_listed :
      (k : ℕ) (f : AgentProcess E → AgentProcess E)
      → ((p : AgentProcess E) → lookup s k ≡ some p → P k p → P k (f p))
      → Holds P (k ∷ xs) s
      → Holds P (k ∷ xs) (modify s k f)
  modify-Holds_listed k f keeps h = record {
    covered = λ q p e r. ground (arith, modify-Covered_any (k ∷ xs) s k f h.covered q p e r);
    everyone = modify-Everyone P s k f keeps h.everyone;
  }

  pub modify-Holds-Parks :
      (k : ℕ) (f : AgentProcess E → AgentProcess E)
      → Parks f
      → ((p : AgentProcess E) → lookup s k ≡ some p → P k p → P k (f p))
      → Holds P (k ∷ xs) s
      → Holds P xs (modify s k f)
  modify-Holds-Parks k f parks keeps h = record {
    covered = modify-Covered-Parks xs s k f parks h.covered;
    everyone = modify-Everyone P s k f keeps h.everyone;
  }

  pub bury-Holds : (k : ℕ) → Holds P (k ∷ xs) s → Holds P xs (bury s k)
  bury-Holds k h = record {
    covered = bury-Covered xs s k h.covered;
    everyone = bury-Everyone P s k h.everyone;
  }

  pub enqueue-Holds : (k : ℕ) → Holds P (k ∷ xs) s → Holds P xs (enqueue s k)
  enqueue-Holds k h = record {
    covered = enqueue-Covered xs s k h.covered;
    everyone = enqueue-Everyone P s k h.everyone;
  }

  pub Same-Holds : {t : AgentScheduler E} → Same s t → Holds P xs s → Holds P xs t
  Same-Holds same h = record {
    covered = Same-Covered xs s same h.covered;
    everyone = Same-Everyone P s same h.everyone;
  }

  pub Holds-cons : (k : ℕ) → Holds P xs s → Holds P (k ∷ xs) s
  Holds-cons k h = record { covered = Covered-cons xs s k h.covered; everyone = h.everyone }

module _ {E : Env} (P : ℕ → AgentProcess E → Type 0) (xs : List ℕ) where
  pub enqueue_all-Holds :
      (ps : List ℕ) (s : AgentScheduler E) → Holds P (ps ++ xs) s → Holds P xs (enqueue_all ps s)
  unfolding enqueue_all
  enqueue_all-Holds [] s h = h
  enqueue_all-Holds (p ∷ ps) s h =
      enqueue_all-Holds ps (enqueue s p) (enqueue-Holds P (ps ++ xs) s p h)
