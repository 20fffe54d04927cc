-- ===== src/AgentRt/Scheduler/Sending.antt =====
-- agent_rt/scheduler.rs: what a delivery does to the registry and to the run queues.
use zeptobeam.Base.{
  ℕ, ◌≡◌, refl, ◌∙◌, Bool, true, false, ◌||◌, ◌&&◌, ◌⊎◌, inl, inr, none, some, arith, ◌==◌, nat_eq,
  is_ok,
}
use zeptobeam.AgentRt.Types.{Env, Message}
use zeptobeam.AgentRt.Process.{AgentProcess, is_waiting, deliver_message}
use zeptobeam.AgentRt.DeadLetter
use zeptobeam.AgentRt.Scheduler.State.{
  AgentScheduler, lookup, modify, enqueue, call_hook, deliver, send, send_local,
  record_message_sent, record_mailbox_rejection, dead_letter,
}
use zeptobeam.AgentRt.Scheduler.Queues.{is_queued, lookup-modify, lookup-enqueue, queued-enqueue}

abbrev pub delivered : {E : Env} → Message E.Value → AgentProcess E → AgentProcess E
delivered msg q = (deliver_message q msg).0

module _ {E : Env} (now : ℕ) (s : AgentScheduler E) (to : ℕ) (p : AgentProcess E)
    (msg : Message E.Value) where
  wakes : Bool
  wakes = is_ok (deliver_message p msg).1 && is_waiting p.status

  sent : AgentScheduler E
  sent = record_message_sent (modify s to (delivered msg))

  lookup-sent : (q : ℕ) → lookup sent q ≡ lookup (modify s to (delivered msg)) q
  unfolding sent record_message_sent lookup
  lookup-sent q = refl

  queued-sent : (q : ℕ) → is_queued sent q ≡ is_queued s q
  unfolding sent record_message_sent is_queued modify
  queued-sent q = refl

  rejected : AgentScheduler E
  rejected =
      dead_letter now (record_mailbox_rejection (modify s to (delivered msg))) to
        DeadLetter.mailbox_full

  lookup-rejected : (q : ℕ) → lookup rejected q ≡ lookup (modify s to (delivered msg)) q
  unfolding rejected dead_letter record_mailbox_rejection lookup
  lookup-rejected q = refl

  queued-rejected : (q : ℕ) → is_queued rejected q ≡ is_queued s q
  unfolding rejected dead_letter record_mailbox_rejection is_queued modify
  queued-rejected q = refl

  send_local-cases :
      ((wakes ≡ true) × ((send_local now s to p msg).0 ≡ enqueue sent to))
      ⊎ ((wakes ≡ false)
          × (((send_local now s to p msg).0 ≡ sent) ⊎ ((send_local now s to p msg).0 ≡ rejected)))
  unfolding send_local wakes sent rejected
  send_local-cases = ground arith

  pub lookup-send_local :
      (q : ℕ) → lookup (send_local now s to p msg).0 q ≡ lookup (modify s to (delivered msg)) q
  lookup-send_local q = elim send_local-cases [
    | inl (_, e) ↦ rw e (lookup-enqueue sent to q ∙ lookup-sent q)
    | inr (_, inl e) ↦ rw e (lookup-sent q)
    | inr (_, inr e) ↦ rw e (lookup-rejected q)
  ]

  pub queued-send_local :
      lookup s to ≡ some p
      → (q : ℕ)
      → is_queued (send_local now s to p msg).0 q
        ≡ ((is_ok (deliver_message p msg).1 && is_waiting p.status && to == q) || is_queued s q)
  unfolding wakes
  queued-send_local here q = elim send_local-cases [
    | inl (w, e) ↦ rw e (
        ground (
          arith,
          queued-enqueue sent to q,
          queued-sent q,
          lookup-sent to,
          lookup-modify s to (delivered msg) to,
        ))
    | inr (w, inl e) ↦ rw e (ground (arith, queued-sent q))
    | inr (w, inr e) ↦ rw e (ground (arith, queued-rejected q))
  ]

-- Two schedulers with the same processes and the same queued pids.
pub record Same {E : Env} (s t : AgentScheduler E) : Type 0 where
  pub processes : (q : ℕ) → lookup t q ≡ lookup s q
  pub queues : (q : ℕ) → is_queued t q ≡ is_queued s q

module _ {E : Env} (s : AgentScheduler E) (to : ℕ) (msg : Message E.Value) where
  pub call_hook-Same : Same s (call_hook s to msg).0
  unfolding call_hook lookup is_queued
  call_hook-Same = record { processes = λ q. ground arith; queues = λ q. ground arith }

  module _ (now : ℕ) where
    -- A message to a pid without a process changes neither processes nor queues.
    pub deliver-Same : lookup s to ≡ none → Same s (deliver now s to msg).0
    unfolding deliver lookup is_queued dead_letter
    deliver-Same gone = record { processes = λ q. ground arith; queues = λ q. ground arith }

    pub deliver-local :
        (p : AgentProcess E)
        → lookup s to ≡ some p
        → deliver now s to msg ≡ send_local now s to p msg
    unfolding deliver
    deliver-local p here = ground arith

    pub send-cases :
        (send now s to msg ≡ deliver now (call_hook s to msg).0 to msg)
        ⊎ ((send now s to msg).0 ≡ (call_hook s to msg).0)
    unfolding send
    send-cases = ground arith
