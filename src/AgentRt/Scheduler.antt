-- ===== src/AgentRt/Scheduler.antt =====
-- agent_rt/scheduler.rs: the reduction-counting scheduler. `State` holds the run queues and message
-- delivery, `Terminate` the death of a process, `Tick` the scheduling cycle.
pub mod State
pub mod Monitors
pub mod Terminate
pub mod Dispatch
pub mod Tick
pub mod Queues
pub mod Wakeup
pub mod Sending
pub mod Holds
pub mod Death
pub mod Actions
pub mod Turn
pub mod Pick
pub mod Reductions
pub mod Spawning
pub mod Cycle
pub mod Liveness
pub mod Population
pub mod Termination
pub mod Fairness
