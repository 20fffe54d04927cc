-- ===== src/AgentRt/Scheduler/Monitors.antt =====
-- agent_rt/scheduler.rs: monitors, receive timeouts, and messages to processes elsewhere.
use zeptobeam.Base.{
  ℕ, ◌+◌, List, [], ◌∷◌, ◌++◌, Bool, true, false, not, ◌&&◌, Option, none, some, if◌then◌else◌,
  Result, ok, err, ◌==◌, nat_eq, u64, keep, is_some, leb,
}
use zeptobeam.AgentRt.Types.{Env, Message}
use zeptobeam.AgentRt.Process.{AgentProcess}
use zeptobeam.AgentRt.Scheduler.State.{
  AgentScheduler, SendError, not_found, timeout_overflow, lookup, modify,
}

unfoldable pub add_monitor : {E : Env} → ℕ → ℕ → AgentProcess E → AgentProcess E
add_monitor ref target p = record p { monitors = p.monitors ++ (ref, target) ∷ [] }

unfoldable pub add_monitored_by : {E : Env} → ℕ → ℕ → AgentProcess E → AgentProcess E
add_monitored_by ref watcher p = record p { monitored_by = p.monitored_by ++ (ref, watcher) ∷ [] }

abbrev pub is_entry : ℕ → ℕ → ℕ × ℕ → Bool
is_entry ref pid (r, q) = r == ref && q == pid

-- `monitored_by.retain(|(r, w)| !(*r == mon_ref && *w == watcher))`.
unfoldable pub drop_monitored_by : {E : Env} → ℕ → ℕ → AgentProcess E → AgentProcess E
drop_monitored_by ref watcher p = record p {
  monitored_by = keep (λ e. not (is_entry ref watcher e)) p.monitored_by;
}

-- `monitors.retain(|(r, t)| !(*r == mon_ref && *t == pid))`.
unfoldable pub drop_monitor : {E : Env} → ℕ → ℕ → AgentProcess E → AgentProcess E
drop_monitor ref target p = record p {
  monitors = keep (λ e. not (is_entry ref target e)) p.monitors;
}

unfoldable pub monitor :
    {E : Env} → AgentScheduler E → ℕ → ℕ → AgentScheduler E × Result ℕ SendError
unfolding add_monitor add_monitored_by
monitor s watcher target =
    if not (is_some (lookup s watcher))
    then (s, err (not_found watcher))
    else if not (is_some (lookup s target))
    then (s, err (not_found target))
    else let ref = s.next_monitor_ref in
      let drawn = record s { next_monitor_ref = u64 (ref + 1) } in
      (
        modify (modify drawn watcher (add_monitor ref target)) target
            (add_monitored_by ref watcher),
        ok ref,
      )

-- The target under the first entry with this reference: `position`, then the entry's field.
unfoldable pub target_of : ℕ → List (ℕ × ℕ) → Option ℕ
target_of ref [] = none
target_of ref ((r, t) ∷ ms) = if r == ref then some t else target_of ref ms

-- The last element, and the list without it.
unfoldable pub split_last : ℕ × ℕ → List (ℕ × ℕ) → List (ℕ × ℕ) × (ℕ × ℕ)
split_last x [] = ([], x)
split_last x (y ∷ ys) = let (rest, last) = split_last y ys in (x ∷ rest, last)

-- `swap_remove` of the first entry with this reference: the last entry takes its place.
unfoldable pub swap_remove : ℕ → List (ℕ × ℕ) → List (ℕ × ℕ)
unfolding split_last
swap_remove ref [] = []
swap_remove ref (e ∷ []) = if e.0 == ref then [] else e ∷ []
swap_remove ref (e ∷ f ∷ ms) =
    if e.0 == ref
    then (let (rest, last) = split_last f ms in last ∷ rest)
    else e ∷ swap_remove ref (f ∷ ms)

unfoldable pub remove_monitor : {E : Env} → ℕ → AgentProcess E → AgentProcess E
remove_monitor ref p = record p { monitors = swap_remove ref p.monitors }

unfoldable pub demonitor : {E : Env} → AgentScheduler E → ℕ → ℕ → AgentScheduler E × Bool
unfolding remove_monitor drop_monitored_by
demonitor s watcher ref = elim (lookup s watcher) [
  | none ↦ (s, false)
  | some w ↦ elim (target_of ref w.monitors) [
    | none ↦ (s, false)
    | some target ↦ (
      modify (modify s watcher (remove_monitor ref)) target (drop_monitored_by ref watcher),
      true,
    )
  ]
]

unfoldable pub with_timeout : {E : Env} → ℕ → AgentProcess E → AgentProcess E
with_timeout deadline p = record p { receive_timeout = some deadline }

-- `instant_max` is the last instant that the clock can represent.
unfoldable pub set_receive_timeout :
    {E : Env} → ℕ → ℕ → AgentScheduler E → ℕ → ℕ → AgentScheduler E × Result (Unit {0}) SendError
unfolding with_timeout
set_receive_timeout instant_max now s pid duration =
    if not (is_some (lookup s pid))
    then (s, err (not_found pid))
    else if leb (now + duration) instant_max
    then (modify s pid (with_timeout (now + duration)), ok tt)
    else (s, err timeout_overflow)

unfoldable pub set_external_routing : {E : Env} → AgentScheduler E → Bool → AgentScheduler E
set_external_routing s enabled = record s { allow_external_routing = enabled }

unfoldable pub drain_outbound_messages :
    {E : Env} → AgentScheduler E → AgentScheduler E × List (ℕ × Message E.Value)
drain_outbound_messages s = (record s { outbound_messages = [] }, s.outbound_messages)
