-- ===== src/AgentRt/Examples.antt =====
-- agent_rt/scheduler.rs: two agents on which the scheduler is run.
use zeptobeam.Base.{
  nat_eq, string_eq, ℕ, zero, ◌+◌, ◌<◌, ◌≡◌, refl, List, [], ◌∷◌, Bool, true, false, none, some,
  arith, ok, any, ◌≤◌,
}
use zeptobeam.HashMap
use zeptobeam.AgentRt.Types.{Env, Reason, normal, text, Action, continue, stop, Outcome, returned}
use zeptobeam.AgentRt.Process.{fresh, waiting, AgentProcess, is_runnable}
use zeptobeam.AgentRt.Scheduler.State.{next_runnable, modify, AgentScheduler, new, lookup}
use zeptobeam.AgentRt.Scheduler.Terminate.{terminate_process}
use zeptobeam.AgentRt.Scheduler.Dispatch.{set_status, Turn, Ending, dispatch, start_turn}
use zeptobeam.AgentRt.Scheduler.Tick.{send_all, spawn_all, tick}
use zeptobeam.AgentRt.Scheduler.Population.{population}
use zeptobeam.AgentRt.Scheduler.Cycle.{Inv, new-Inv, tick-Inv, tick-false_idle}
use zeptobeam.AgentRt.Scheduler.Spawning.{born, born-Holds, send_all-Holds, spawn_all-Holds}
use zeptobeam.AgentRt.Registry
use zeptobeam.AgentRt.Ets.{id_eq}
use zeptobeam.AgentRt.DeadLetter
use zeptobeam.AgentRt.DeadLetter.{DeadLetter, process_not_found}
use zeptobeam.AgentRt.Scheduler.Actions.{Intact}
use zeptobeam.AgentRt.Scheduler.Holds.{modify-Holds-Parks}
use zeptobeam.AgentRt.Scheduler.Liveness.{tick_returns}
use zeptobeam.AgentRt.Scheduler.Termination.{terminate_process_returns}
use zeptobeam.AgentRt.Scheduler.Reductions.{dispatch-start_turn_total}
use zeptobeam.AgentRt.Scheduler.Fairness.{low_served, picks, is_pid}

-- Behavior 0 goes on after each message, every other one stops; the state counts the messages.
abbrev react : ℕ → ℕ → Outcome (Action ℕ ℕ) ℕ
react zero n = returned continue (n + 1)
react _ n = returned (stop normal) n

abbrev Demo : Env
Demo = record {
  Value = ℕ;
  Behavior = ℕ;
  State = ℕ;
  Bridge = Unit {0};
  Hook = Unit {0};
  Handler = Unit {0};
  init = λ b v. ok v;
  handle_message = λ b msg n. react b n;
  handle_exit = λ b from reason n. react b n;
  submit = λ b pid op. (b, none);
  drain_responses = λ b. (b, []);
  cancel = λ b pid. b;
  shut_down = λ b timeout. b;
  on_send = λ h to msg. (h, none);
}

abbrev no_effect : Unit {0} → AgentScheduler Demo → ℕ → Reason → Unit {0} × AgentScheduler Demo
no_effect h s pid reason = (h, s)

-- Process 1 goes on and process 2 stops, each with one message.
abbrev busy : AgentScheduler Demo
busy =
    send_all 5 ((1, text "a") ∷ (2, text "b") ∷ [])
      (spawn_all 5 0 ((0, 0, false, false) ∷ (1, 0, false, false) ∷ []) (new 1 1))

busy-Inv : Inv busy
busy-Inv = send_all-Holds [] 5 [] _ _ (spawn_all-Holds [] 5 0 [] _ (new 1 1) (new-Inv 1 1))

abbrev no_effect-Inv :
    (h : Unit {0}) (s : AgentScheduler Demo) (pid : ℕ) (reason : Reason)
    → Inv s
    → Inv (no_effect h s pid reason).1
no_effect-Inv h s pid reason i = i

no_effect-calm :
    (h : Unit {0}) (s : AgentScheduler Demo) (pid : ℕ) (reason : Reason)
    → population (no_effect h s pid reason).1 ≤ population s
no_effect-calm h s pid reason = omega arith

tick_returns_example :
    (bound : ℕ) × ((depth : ℕ)
      → bound < depth
      → (r : AgentScheduler Demo × Bool) × (tick no_effect 6 depth busy ≡ some r))
tick_returns_example = tick_returns no_effect 6 no_effect-calm busy busy-Inv

-- A cycle of `busy`, with a depth that is enough.
abbrev cycle :
    (depth : ℕ) × (r : AgentScheduler Demo × Bool) × (tick no_effect 6 depth busy ≡ some r)
cycle =
    let (bound, run) = tick_returns no_effect 6 no_effect-calm busy busy-Inv in
    let (r, e) = run (bound + 1) (omega arith) in (bound + 1, r, e)

tick-Inv_example : Inv cycle.1.0
tick-Inv_example =
    tick-Inv no_effect 6 cycle.0 no_effect-Inv busy cycle.1.0 cycle.1.1 busy-Inv cycle.2

-- Process 1 waits for a message.
abbrev quiet : AgentScheduler Demo
quiet = modify (record (new 1 1) { registry = born (Registry.new 1) 0 0 }) 1 (set_status waiting)

quiet-Inv : Inv quiet
unfolding set_status new Registry.new
quiet-Inv =
    modify-Holds-Parks (Intact []) [] _ 1 (set_status waiting) (λ p. refl) (λ p _ i. ground arith)
      (born-Holds [] [] (new 1 1) 0 0 (new-Inv 1 1))

-- A cycle with nothing to do.
quiet_idles : tick no_effect 7 2 quiet ≡ some (quiet, false)
unfolding tick Registry.pids modify new Registry.modify HashMap.modify born HashMap.insert
    Registry.new lookup Registry.lookup HashMap.get set_status fresh next_runnable
quiet_idles = refl

abbrev sleeper : AgentProcess Demo
sleeper = set_status waiting (fresh 1 0 0 1024)

lookup-quiet : lookup quiet 1 ≡ some sleeper
unfolding modify new Registry.modify HashMap.modify born HashMap.insert Registry.new lookup
    Registry.lookup HashMap.get fresh
lookup-quiet = refl

tick-false_idle_example : is_runnable sleeper.status ≡ false
tick-false_idle_example =
    tick-false_idle no_effect 7 2 no_effect-Inv quiet quiet quiet-Inv quiet_idles 1 sleeper
      lookup-quiet

terminate_process_returns_example :
    (t : AgentScheduler Demo) × (terminate_process no_effect 6 (population busy + 1) busy 1 normal
      ≡ some t)
    × (population t ≤ population busy)
terminate_process_returns_example =
    terminate_process_returns no_effect 6 no_effect-calm (population busy + 1) busy 1 normal
      (omega arith)

dispatch-start_turn_total_example :
    (r : Turn Demo × Ending) × (dispatch 201 (start_turn busy 1) 1 ≡ some r)
dispatch-start_turn_total_example = dispatch-start_turn_total 1 busy

-- Process 9 has low priority, and a process of normal priority arrives before each pick.
abbrev crowded : AgentScheduler Demo
crowded = record {
  registry = Registry.new 10;
  queue_high = [];
  queue_normal = 1 ∷ [];
  queue_low = 9 ∷ [];
  allow_external_routing = false;
  outbound_messages = [];
  advantage_count = 0;
  bridge = none;
  pending_destroys = [];
  dead_letters = DeadLetter.new 256;
  metrics = record {
    messages_sent = 0;
    messages_processed = 0;
    mailbox_rejections = 0;
    process_terminations = 0;
  };
  exit_handlers = [];
  message_hook = none;
  next_monitor_ref = 1;
}

abbrev arrivals : List (List ℕ)
arrivals =
    (2 ∷ []) ∷ (3 ∷ []) ∷ (4 ∷ []) ∷ (5 ∷ []) ∷ (6 ∷ []) ∷ (7 ∷ []) ∷ (8 ∷ []) ∷ (2 ∷ []) ∷ []

low_served_example : any (is_pid 9) (picks arrivals crowded) ≡ true
low_served_example = low_served 9 [] arrivals crowded refl refl (omega arith)
