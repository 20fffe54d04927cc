-- ===== src/Lib.antt =====
-- zeptobeam runs Erlang-style agents. This library is about its agent runtime,
-- lib-erlangrt/src/agent_rt, whose heart is a reduction-counting scheduler of agent processes.
--
-- The parts and the files that model them:
-- - AgentRt/Types: messages, system messages, actions, exit reasons (types.rs). What the runtime is
--   given stands in the record `Env`: the JSON values, the user's `AgentBehavior` with its state
--   (a callback under `catch_unwind` returns an action or panics), the bridge to the I/O workers,
--   the message hook and the exit handlers. They are parameters: every theorem is about any of them.
-- - AgentRt/Process: `AgentProcess` with its bounded mailbox (process.rs).
-- - AgentRt/Registry: the processes by pid and the registered names (registry.rs).
-- - AgentRt/DeadLetter: the ring of dropped deliveries (dead_letter.rs).
-- - AgentRt/Scheduler: `AgentScheduler` (scheduler.rs). State has the record, the run queues and
--   `send`; Monitors has `monitor`, `demonitor`, `set_receive_timeout`; Terminate has
--   `terminate_process`; Dispatch has the dispatch loop of `tick`; Tick has the rest of `tick` and
--   `graceful_shutdown`. The handlers and the bridge are called in the source's order, and each
--   call returns the state that it changed. The other files of the folder hold proofs: Queues and
--   Sending have equations of the steps; Wakeup, Holds, Death, Actions, Turn, Spawning, Pick and
--   Cycle carry the invariant through a cycle; Population, Termination, Reductions and Liveness are
--   about the loops; Fairness is about the priorities.
-- - AgentRt/RateLimiter: the sliding windows of requests by provider (rate_limiter.rs).
-- - AgentRt/DurableMailbox: the write-ahead log with acknowledgements (durable_mailbox.rs).
-- - AgentRt/Ets: in-memory tables with owners, heirs, access rights and limits (ets.rs).
-- - AgentRt/RetryPolicy: how often a failed task is tried again (retry_policy.rs).
-- - AgentRt/Supervision: supervisors (supervision.rs), which restart the children that die, one, all
--   or the rest of them, until the restart intensity is exceeded. A supervisor is an exit handler
--   of the scheduler. Order is about the children, Limits and Intensity about the intensity, Keeps
--   and Supervised about the scheduler that a supervisor leaves.
-- - AgentRt/TaskGraph: tasks with dependencies (task_graph.rs), their promotion and the cascade of
--   failures; Adding has `add_tasks` with the search for a cycle. Promotion, Downstream, Cascade
--   and Skipped have the proofs about the first, Lowering, Degrees, Kahn, Cycles and Batches those about the
--   second, over the lists of Counting.
-- - AgentRt/Release: releases as plans of steps, applied and rolled back (release.rs), with the
--   caller's `StepHandler` a parameter. Atomic and History have the proofs.
-- - AgentRt/HotCode: the versions of behaviors, and the processes that run them (hot_code.rs).
-- - AgentRt/ApprovalGate: requests for approval and decisions (approval_gate.rs).
-- - AgentRt/ResourceBudget: the tokens and the cost of an orchestration (resource_budget.rs), with
--   the arithmetic of costs a parameter.
-- - AgentRt/Worker: the behavior of the agents that work on subtasks (`WorkerBehavior` of
--   orchestration.rs).
-- - AgentRt/Orchestration: the behavior of the orchestrator, `OrchestratorBehavior` of
--   orchestration.rs, on top of the task graph, the retries, the budget and the approvals.
--   Concurrency and Returns have the proofs.
-- - AgentRt/Json: what is used of JSON values, a parameter of the parts that read them.
-- - AgentRt/Examples, AgentRt/Scenarios, AgentRt/Restarts, AgentRt/Plans, AgentRt/Gates: small
--   systems on which the definitions run.
-- - HashMap and Base: association lists for Rust's `HashMap`, Boolean tests, lists measured by
--   native numbers, results. An association list has one entry for each key; the order of its
--   entries stands for the order of iteration, which Rust leaves open.
--
-- Numbers: pids, monitor references, counters and sequence numbers are ℕ with the wrap at 2^64
-- written out (`u64`), as in a release build. Instants and durations are numbers of one unit, and the
-- clock is an argument `now` of the operations that read it. The static counters of pids and
-- references are fields; the counter of pids, of which the source has one, is a field of the registry
-- and one of the `World` of an orchestrator, which no theorem relates.
--
-- Fuel: six loops are on fuel. `dispatch` gets 201 rounds, one more than the reductions of a
-- turn, since every round but the last uses one up. `pick` gets one more than the entries of the
-- run queues, since each round takes one off. `terminate_process` gets the depth of its cascade;
-- each level removes a process from the registry, so one more than their number is enough; a
-- supervisor passes its own depth on to the terminations that it starts, and does nothing where
-- that depth does not suffice. `cascade` of the task graph gets one more than the dependencies of
-- all tasks, since a round takes one id off the queue and every dependency adds one at most.
-- `process`, the search for a cycle, gets the number of tasks, since each is queued once at most.
-- `next_or_finalize` of the orchestrator calls itself only at the depth limit of sub-orchestrations,
-- once for each task that it fails there; below that limit one call is enough.
--
-- Not modelled: the logging; the contents of messages beyond what the scheduler looks at; the
-- behavior's `terminate` callback, whose effect on the state is dropped with it; dead letters'
-- access functions. File operations of the durable mailbox are taken to succeed, and a file is a
-- list of parsed lines. The mutexes of the rate limiter are held for a whole call, so a call is one
-- step. The delays between restarts are floating point numbers and are left out. A file of a release
-- in progress is not modelled. Other parts of the runtime (the start of an orchestrator with
-- its checkpoint, DETS, cluster, MCP,
-- checkpoints, the HTTP server) and the BEAM emulator under lib-erlangrt/src/emulator are not
-- modelled here.
mod Base
pub mod HashMap
pub mod AgentRt
