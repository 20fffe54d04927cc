-- ===== src/AgentRt/RetryPolicy.antt =====
-- agent_rt/retry_policy.rs: how often a failed task is tried again, and after which delay.
pub mod Attempts
use zeptobeam.Base.{
  ℕ, ◌+◌, ◌-◌, ◌*◌, ◌%◌, ◌^◌, min, [], Option, none, some, String, string_eq, leb, if◌then◌else◌,
  u64_max,
}
use zeptobeam.HashMap
use zeptobeam.HashMap.{HashMap}

pub data RetryStrategy : Type 0 where
  no_retry skip : RetryStrategy
  immediate : ℕ → RetryStrategy
  backoff : ℕ → ℕ → ℕ → RetryStrategy

pub record RetryTracker : Type 0 where
  pub attempts : HashMap String ℕ
  pub default_strategy : RetryStrategy
  pub per_task : HashMap String RetryStrategy

unfoldable pub new : RetryStrategy → RetryTracker
new strategy = record { attempts = []; default_strategy = strategy; per_task = [] }

unfoldable pub set_task_strategy : RetryTracker → String → RetryStrategy → RetryTracker
set_task_strategy t task strategy = record t { per_task = HashMap.insert t.per_task task strategy }

unfoldable pub strategy_of : RetryTracker → String → RetryStrategy
strategy_of t task = elim (HashMap.get t.per_task task) [
  | none ↦ t.default_strategy
  | some strategy ↦ strategy
]

unfoldable pub attempt_count : RetryTracker → String → ℕ
attempt_count t task = elim (HashMap.get t.attempts task) [ none ↦ 0 | some n ↦ n ]

-- `*count += 1` on a u32.
unfoldable pub next_count : RetryTracker → String → ℕ
unfolding attempt_count
next_count t task = (attempt_count t task + 1) % 2 ^ 32

unfoldable pub count_attempt : RetryTracker → String → RetryTracker
unfolding next_count
count_attempt t task = record t { attempts = HashMap.insert t.attempts task (next_count t task) }

-- `base_ms.saturating_mul(2_u64.saturating_pow(count - 1)).min(max_ms)`, with `count - 1` on a u32.
unfoldable pub backoff_delay : ℕ → ℕ → ℕ → ℕ
backoff_delay base_ms max_ms count =
    min (min (base_ms * min (2 ^ ((count + 2 ^ 32 - 1) % 2 ^ 32)) u64_max) u64_max) max_ms

unfoldable pub should_retry : RetryTracker → String → RetryTracker × Option ℕ
unfolding strategy_of count_attempt next_count backoff_delay
should_retry t task = elim (strategy_of t task) [
  | no_retry ↦ (t, none)
  | skip ↦ (t, none)
  | immediate max_attempts ↦
      (count_attempt t task, if leb (next_count t task) max_attempts then some 0 else none)
  | backoff max_attempts base_ms max_ms ↦ (
    count_attempt t task,
    if leb (next_count t task) max_attempts
        then some (backoff_delay base_ms max_ms (next_count t task))
        else none,
  )
]
