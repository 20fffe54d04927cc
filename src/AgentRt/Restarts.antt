-- ===== src/AgentRt/Restarts.antt =====
-- agent_rt/supervision.rs: a supervisor of three processes.
use zeptobeam.Base.{
  ℕ, ◌≤◌, ◌<◌, ◌≡◌, refl, List, [], ◌∷◌, true, false, none, some, arith, ok, length, keep, nat_eq,
  string_eq, String,
}
use zeptobeam.AgentRt.Types.{Env, Reason, normal, custom, continue, returned}
use zeptobeam.AgentRt.Process
use zeptobeam.AgentRt.Process.{low}
use zeptobeam.AgentRt.Scheduler.State.{AgentScheduler, new, enqueue, push_back, next_runnable}
use zeptobeam.AgentRt.Scheduler.State
use zeptobeam.AgentRt.Scheduler.Queues.{is_queued}
use zeptobeam.AgentRt.Scheduler.Actions.{Intact}
use zeptobeam.AgentRt.Scheduler.Holds.{Same-Holds}
use zeptobeam.AgentRt.Scheduler.Dispatch.{dispatch, dispatch_step, start_turn, set_status}
use zeptobeam.AgentRt.Scheduler.Population.{population}
use zeptobeam.AgentRt.Scheduler.Terminate.{terminate_process}
use zeptobeam.AgentRt.Scheduler.Cycle.{Inv, new-Inv}
use zeptobeam.AgentRt.Scheduler.Tick.{tick, settle, after_turn}
use zeptobeam.HashMap
use zeptobeam.AgentRt.Registry
use zeptobeam.AgentRt.Supervision.Limits.{is_counted}
use zeptobeam.AgentRt.Supervision.{
  ChildRestart, permanent, temporary, RunningChild, Supervisor, rest_for_one, one_for_one,
  handle_child_exit, in_window, set_priority, position, handle_death, should_restart, note_restart,
  is_exceeded, restart, restart_one, spawn_child, admit, increment_restart_count, restart_count,
}
use zeptobeam.AgentRt.Supervision.Keeps.{spawn_child-Inv}
use zeptobeam.AgentRt.Supervision.Outcomes.{Reaction}
use zeptobeam.AgentRt.Supervision.Order.{handle_child_exit-Reaction}
use zeptobeam.AgentRt.Supervision.Intensity.{Exit, exits, exits-le-max_restarts}
use zeptobeam.AgentRt.Supervision.Supervised.{kill, supervise, supervised, tick-Inv_supervised}

abbrev Workers : Env
Workers = record {
  Value = ℕ;
  Behavior = ℕ;
  State = ℕ;
  Bridge = Unit {0};
  Hook = Unit {0};
  Handler = Unit {0};
  init = λ b v. ok v;
  handle_message = λ b msg n. returned continue n;
  handle_exit = λ b from reason n. returned continue n;
  submit = λ b pid op. (b, none);
  drain_responses = λ b. (b, []);
  cancel = λ b pid. b;
  shut_down = λ b timeout. b;
  on_send = λ h to msg. (h, none);
}

abbrev worker : String → ℕ → ChildRestart → RunningChild ℕ ℕ
worker id pid restart = record {
  id = id;
  pid = pid;
  spec = record { id = id; behavior = 0; args = 0; restart = restart; priority = low };
}

abbrev team : Supervisor ℕ ℕ
team = record {
  strategy = rest_for_one;
  max_restarts = 1;
  max_seconds = 5;
  children = worker "a" 1 permanent ∷ worker "b" 2 permanent ∷ worker "c" 3 temporary ∷ [];
  restart_timestamps = [];
  is_shutdown = false;
  restart_counts = [];
}

abbrev idle : AgentScheduler Workers
idle = new 10 1

-- An exit handler that forgets the messages for other nodes.
abbrev drop_outbound :
    Unit {0} → AgentScheduler Workers → ℕ → Reason → Unit {0} × AgentScheduler Workers
drop_outbound h s pid reason = (h, record s { outbound_messages = [] })

-- Child 3 runs, child 2 is dead, and the handler is registered.
abbrev observed : AgentScheduler Workers
observed = record (spawn_child (new 3 1) (worker "c" 3 temporary).spec).0 {
  exit_handlers = tt ∷ [];
}

observed-population : population observed < 9
unfolding population spawn_child admit set_priority Registry.spawn Process.new enqueue push_back
    State.lookup Registry.lookup HashMap.get State.modify Registry.modify HashMap.modify
    HashMap.insert new Registry.new Registry.count
observed-population = omega arith

handle_child_exit-Reaction_example :
    (r : Supervisor ℕ ℕ × AgentScheduler Workers) × (handle_child_exit
        (terminate_process drop_outbound 7 9)
        7
        team
        observed
        2
        normal
      ≡ some r)
    × Reaction (terminate_process drop_outbound 7 9) 7 team observed 2 normal r
unfolding population
handle_child_exit-Reaction_example =
    handle_child_exit-Reaction drop_outbound 7 (λ h s pid reason. omega arith) (λ b v. refl) 9 team
      observed 2 normal observed-population

-- Child 1 dies at 3, child 3, which is not restarted, at 4.
abbrev deaths : List (Exit Workers)
deaths =
    record { time = 3; pid = 1; reason = normal; sched = idle }
    ∷ record { time = 4; pid = 3; reason = custom "lost"; sched = idle }
    ∷ []

abbrev all_for_one : Supervisor ℕ ℕ
all_for_one = record {
  strategy = one_for_one;
  max_restarts = 1;
  max_seconds = 5;
  children = worker "a" 1 permanent ∷ worker "c" 3 temporary ∷ [];
  restart_timestamps = [];
  is_shutdown = false;
  restart_counts = [];
}

after_deaths :
    (sup' : Supervisor ℕ ℕ) × (exits (kill 7 9) deaths all_for_one [] ≡ some (sup', 3 ∷ []))
    × (sup'.is_shutdown ≡ false)
unfolding exits is_counted handle_child_exit position handle_death should_restart note_restart
    is_exceeded restart restart_one spawn_child admit increment_restart_count restart_count
    Registry.spawn HashMap.get HashMap.insert Process.new new Registry.new
after_deaths = (_, refl, refl)

exits-le-max_restarts_example : length (keep (in_window 9 5) (3 ∷ [])) ≤ 1
exits-le-max_restarts_example =
    exits-le-max_restarts (kill 7 9) deaths all_for_one after_deaths.0 (3 ∷ []) 9 (omega arith) refl
      (omega arith, (omega arith, tt)) after_deaths.1 after_deaths.2 (omega arith)

-- Process 1, a child of `all_for_one`, waits in a queue with no message.
abbrev watched : AgentScheduler (supervised Workers)
watched = record (new 10 1) { exit_handlers = all_for_one ∷ [] }

abbrev manned : AgentScheduler (supervised Workers)
manned = (spawn_child watched (worker "a" 1 permanent).spec).0

manned_runs :
    (t : AgentScheduler (supervised Workers)) × (tick
        (supervise {E = supervised Workers} 7 2)
        7
        2
        manned
      ≡ some (t, true))
unfolding tick Registry.pids spawn_child admit set_priority Registry.spawn Process.new enqueue
    push_back State.lookup Registry.lookup HashMap.get State.modify Registry.modify HashMap.modify
    HashMap.insert new Registry.new next_runnable dispatch dispatch_step start_turn set_status
    settle after_turn Process.next_message
manned_runs = (_, refl)

watched-Inv : Inv watched
unfolding new Registry.new State.lookup is_queued
watched-Inv =
    Same-Holds (Intact []) [] (new 10 1) (record { processes = λ q. refl; queues = λ q. refl })
      (new-Inv 10 1)

manned-Inv : Inv manned
manned-Inv = spawn_child-Inv watched (worker "a" 1 permanent).spec watched-Inv

tick-Inv_supervised_example : Inv manned_runs.0
tick-Inv_supervised_example =
    tick-Inv_supervised Workers 7 2 manned manned_runs.0 true manned-Inv manned_runs.1
