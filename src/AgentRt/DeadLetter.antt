-- ===== src/AgentRt/DeadLetter.antt =====
-- agent_rt/dead_letter.rs: a bounded ring of dropped deliveries.
pub mod Ring
use zeptobeam.Base.{ℕ, ◌+◌, List, [], ◌∷◌, ◌++◌, Option, length, leb, if◌then◌else◌, u64}
use zeptobeam.AgentRt.Process.{pop_front}

pub data DeadLetterReason : Type 0 where
  mailbox_full process_not_found process_terminated : DeadLetterReason

pub record DeadLetter : Type 0 where
  pub timestamp : ℕ
  pub sender_pid : Option ℕ
  pub target_pid : ℕ
  pub reason : DeadLetterReason

pub record DeadLetterQueue : Type 0 where
  pub buffer : List DeadLetter
  pub capacity : ℕ
  pub total_count : ℕ

unfoldable pub new : ℕ → DeadLetterQueue
new capacity = record { buffer = []; capacity = capacity; total_count = 0 }

unfoldable pub push : DeadLetterQueue → DeadLetter → DeadLetterQueue
push q letter =
    let kept = if leb q.capacity (length q.buffer) then (pop_front q.buffer).1 else q.buffer in
    record q { buffer = kept ++ letter ∷ []; total_count = u64 (q.total_count + 1) }

unfoldable pub len : DeadLetterQueue → ℕ
len q = length q.buffer
