-- ===== src/AgentRt/Scheduler/Tick.antt =====
-- agent_rt/scheduler.rs: one scheduling cycle around the dispatch loop, and the shutdown.
use zeptobeam.Base.{
  ℕ, zero, suc, ◌+◌, List, [], ◌∷◌, ◌++◌, Bool, true, false, ◌&&◌, Option, none, some,
  if◌then◌else◌, Result, ok, err, leb, length, String, keep, is_some,
}
use zeptobeam.AgentRt.Types.{
  Env, Reason, Message, shutdown, system, spawn_result, receive_timeout, agent_destroy,
}
use zeptobeam.AgentRt.Process.{AgentProcess, waiting, is_waiting, is_runnable}
use zeptobeam.AgentRt.Registry
use zeptobeam.AgentRt.Scheduler.State.{
  AgentScheduler, SendError, not_found, lookup, modify, enqueue, next_runnable, send,
}
use zeptobeam.AgentRt.Scheduler.Monitors.{monitor}
use zeptobeam.AgentRt.Scheduler.Terminate.{terminate_process}
use zeptobeam.AgentRt.Scheduler.Dispatch.{
  Turn, Ending, SpawnRequest, waits, preempted, left, stopped, set_status, dispatch, start_turn,
}

unfoldable pub send_all :
    {E : Env} → ℕ → List (ℕ × Message E.Value) → AgentScheduler E → AgentScheduler E
send_all now [] s = s
send_all now ((to, msg) ∷ ms) s = send_all now ms (send now s to msg).0

unfoldable pub deliver_responses :
    {E : Env} → ℕ → AgentScheduler E → E.Bridge × List (ℕ × Message E.Value) → AgentScheduler E
unfolding send_all
deliver_responses now s (b, responses) = send_all now responses (record s { bridge = some b })

unfoldable pub drain_bridge : {E : Env} → ℕ → AgentScheduler E → AgentScheduler E
unfolding deliver_responses
drain_bridge {E} now s = elim s.bridge [
  | none ↦ s
  | some b ↦ deliver_responses now s (E.drain_responses b)
]

-- Whether a failed submission leaves the entry in the list, with one retry more.
still_pending : ℕ → ℕ → Option String → List (ℕ × ℕ)
still_pending pid retries none = []
still_pending pid retries (some e) = (pid, retries + 1) ∷ []

unfoldable pub retry_destroy : (E : Env) → E.Bridge → ℕ × ℕ → E.Bridge × List (ℕ × ℕ)
unfolding still_pending
retry_destroy E b (pid, retries) =
    if leb 3 retries
    then (b, [])
    else (let (b', e) = E.submit b pid (agent_destroy pid) in (b', still_pending pid retries e))

-- The `retain_mut` over the pending destroys: the bridge after the submissions, and what is kept.
unfoldable pub retry_destroys : (E : Env) → E.Bridge → List (ℕ × ℕ) → E.Bridge × List (ℕ × ℕ)
unfolding retry_destroy
retry_destroys E b [] = (b, [])
retry_destroys E b (d ∷ ds) =
    let (b', kept) = retry_destroy E b d in
    let (b'', rest) = retry_destroys E b' ds in (b'', kept ++ rest)

unfoldable pub retry_pending : {E : Env} → AgentScheduler E → AgentScheduler E
unfolding retry_destroys
retry_pending {E} s = elim s.bridge [
  | none ↦ s
  | some b ↦
      let (b', kept) = retry_destroys E b s.pending_destroys in
      record s { bridge = some b'; pending_destroys = kept }
]

abbrev pub has_passed : ℕ → Option ℕ → Bool
has_passed now none = false
has_passed now (some deadline) = leb deadline now

unfoldable pub is_timed_out : {E : Env} → ℕ → AgentScheduler E → ℕ → Bool
is_timed_out now s pid = elim (lookup s pid) [
  | none ↦ false
  | some p ↦ is_waiting p.status && has_passed now p.receive_timeout
]

unfoldable pub clear_timeout : {E : Env} → AgentProcess E → AgentProcess E
clear_timeout p = record p { receive_timeout = none }

unfoldable pub fire_timeouts : {E : Env} → ℕ → List ℕ → AgentScheduler E → AgentScheduler E
unfolding clear_timeout
fire_timeouts now [] s = s
fire_timeouts now (pid ∷ pids) s =
    fire_timeouts now pids (send now (modify s pid clear_timeout) pid (system receive_timeout)).0

unfoldable pub check_timeouts : {E : Env} → ℕ → AgentScheduler E → AgentScheduler E
unfolding fire_timeouts is_timed_out
check_timeouts now s = fire_timeouts now (keep (is_timed_out now s) (Registry.pids s.registry)) s

unfoldable pub is_ready : {E : Env} → AgentScheduler E → ℕ → Bool
is_ready s pid = elim (lookup s pid) [ none ↦ false | some p ↦ is_runnable p.status ]

-- Skips stale entries; `none` outside when the fuel runs out, `none` inside when nothing is ready.
unfoldable pub pick : {E : Env} → ℕ → AgentScheduler E → Option (AgentScheduler E × Option ℕ)
unfolding is_ready
pick zero s = none
pick (suc fuel) s = elim (next_runnable s).1 [
  | none ↦ some ((next_runnable s).0, none)
  | some pid ↦
      let rest = pick fuel (next_runnable s).0 in
      if is_ready (next_runnable s).0 pid then some ((next_runnable s).0, some pid) else rest
]

unfoldable pub queued_total : {E : Env} → AgentScheduler E → ℕ
queued_total s = length s.queue_high + length s.queue_normal + length s.queue_low

unfoldable pub settle : {E : Env} → AgentScheduler E → ℕ → Ending → AgentScheduler E
settle s pid waits = modify s pid (set_status waiting)
settle s pid preempted = enqueue s pid
settle s pid left = s
settle s pid (stopped reason) = s

unfoldable pub add_link : {E : Env} → ℕ → AgentProcess E → AgentProcess E
add_link other p = record p { links = p.links ++ other ∷ [] }

abbrev pub monitor_ref : Result ℕ SendError → Option ℕ
monitor_ref (ok ref) = some ref
monitor_ref (err e) = none

-- What follows a successful spawn: link, monitor, the notification, and the child's turn.
unfoldable pub adopt : {E : Env} → ℕ → ℕ → ℕ → Bool → Bool → AgentScheduler E → AgentScheduler E
unfolding add_link
adopt now parent child link monitored s =
    let linked =
      if link then modify (modify s parent (add_link child)) child (add_link parent) else s in
    let watched = if monitored then monitor linked parent child else (linked, err (not_found 0)) in
    let told = send now watched.0 parent (system (spawn_result child (monitor_ref watched.1))) in
    enqueue told.0 child

unfoldable pub spawn_child :
    {E : Env}
    → ℕ
    → ℕ
    → Bool
    → Bool
    → AgentScheduler E
    → Registry.AgentRegistry E × Result ℕ Reason
    → AgentScheduler E
unfolding adopt
spawn_child now parent link monitored s (r, ok child) =
    adopt now parent child link monitored (record s { registry = r })
spawn_child now parent link monitored s (r, err reason) = record s { registry = r }

unfoldable pub spawn_all :
    {E : Env} → ℕ → ℕ → List (SpawnRequest E) → AgentScheduler E → AgentScheduler E
unfolding spawn_child
spawn_all now parent [] s = s
spawn_all now parent ((behavior, args, link, monitored) ∷ rest) s =
    spawn_all now parent rest
      (spawn_child now parent link monitored s (Registry.spawn s.registry behavior args))

-- The deferred operations of a turn, without the stop.
unfoldable pub after_turn : {E : Env} → ℕ → ℕ → Turn E → Ending → AgentScheduler E
unfolding settle spawn_all send_all
after_turn now pid t ending =
    spawn_all now pid t.spawns (send_all now t.sends (settle t.sched pid ending))

-- What a tick does before it picks a process.
unfoldable pub prepare : {E : Env} → ℕ → AgentScheduler E → AgentScheduler E
unfolding drain_bridge retry_pending check_timeouts
prepare now s = check_timeouts now (retry_pending (drain_bridge now s))

module _ {E : Env}
    (handle : E.Handler → AgentScheduler E → ℕ → Reason → E.Handler × AgentScheduler E) (now : ℕ)
    (depth : ℕ) where
  unfoldable pub stop_if : AgentScheduler E → ℕ → Ending → Option (AgentScheduler E)
  stop_if s pid (stopped reason) = terminate_process handle now depth s pid reason
  stop_if s pid waits = some s
  stop_if s pid preempted = some s
  stop_if s pid left = some s

  -- The turn of the selected process; the fuel of `dispatch` is one more than its reductions.
  unfoldable pub run_turn : AgentScheduler E → ℕ → Option (AgentScheduler E)
  unfolding after_turn stop_if
  run_turn s pid = elim (dispatch 201 (start_turn s pid) pid) [
    | none ↦ none
    | some (t, ending) ↦ stop_if (after_turn now pid t ending) pid ending
  ]

  -- The new state, and whether work was done. `depth` bounds the cascade of a termination.
  unfoldable pub tick : AgentScheduler E → Option (AgentScheduler E × Bool)
  unfolding prepare pick run_turn queued_total
  tick s =
      let ready = prepare now s in
      elim (pick (queued_total ready + 1) ready) [
        | none ↦ none
        | some (s', none) ↦ some (s', false)
        | some (s', some pid) ↦ elim (run_turn s' pid) [ none ↦ none | some s'' ↦ some (s'', true) ]
      ]

  -- `bridge.shutdown`, then its last responses.
  unfoldable pub stop_bridge : ℕ → AgentScheduler E → AgentScheduler E
  unfolding deliver_responses
  stop_bridge timeout s = elim s.bridge [
    | none ↦ s
    | some b ↦ deliver_responses now s (E.drain_responses (E.shut_down b timeout))
  ]

  unfoldable pub terminate_all : List ℕ → AgentScheduler E → Option (AgentScheduler E)
  terminate_all [] s = some s
  terminate_all (pid ∷ pids) s =
      elim (if is_some (lookup s pid)
        then terminate_process handle now depth s pid shutdown
        else some s) [ none ↦ none | some s' ↦ terminate_all pids s' ]

  unfoldable pub graceful_shutdown : ℕ → AgentScheduler E → Option (AgentScheduler E)
  unfolding stop_bridge terminate_all
  graceful_shutdown timeout s =
      let stopped = stop_bridge timeout s in
      elim (terminate_all (Registry.pids stopped.registry) stopped) [
        | none ↦ none
        | some s' ↦
            some (record s' { bridge = none; queue_high = []; queue_normal = []; queue_low = [] })
      ]
