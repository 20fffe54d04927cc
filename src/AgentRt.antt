-- ===== src/AgentRt.antt =====
-- lib-erlangrt/src/agent_rt: the agent runtime.
pub mod Types
pub mod Json
pub mod ApprovalGate
pub mod HotCode
pub mod Worker
pub mod Orchestration
pub mod ResourceBudget
pub mod Process
pub mod Registry
pub mod DeadLetter
pub mod Scheduler
pub mod RateLimiter
pub mod DurableMailbox
pub mod Ets
pub mod TaskGraph
pub mod Supervision
pub mod Restarts
pub mod Plans
pub mod Gates
pub mod Release
pub mod RetryPolicy
pub mod Examples
pub mod Scenarios
