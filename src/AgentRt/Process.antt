-- ===== src/AgentRt/Process.antt =====
-- agent_rt/process.rs: one agent process with its mailbox.
use zeptobeam.Base.{
  ℕ, List, [], ◌∷◌, ◌++◌, Bool, true, false, Option, none, some, length, leb, if◌then◌else◌, Result,
  ok, err, is_empty, not,
}
use zeptobeam.AgentRt.Types.{Env, Reason, Message}

pub data ProcessStatus : Type 0 where
  runnable waiting suspended exiting : ProcessStatus

pub data Priority : Type 0 where
  high normal low : Priority

abbrev pub is_waiting : ProcessStatus → Bool
is_waiting waiting = true
is_waiting _ = false

abbrev pub is_runnable : ProcessStatus → Bool
is_runnable runnable = true
is_runnable _ = false

abbrev pub default_mailbox_capacity : ℕ
default_mailbox_capacity = 1024

pub data MailboxFull : Type 0 where
  mailbox_full : MailboxFull

pub record AgentProcess (E : Env) : Type 0 where
  pub pid : ℕ
  pub behavior : E.Behavior
  pub state : Option E.State
  pub mailbox : List (Message E.Value)
  pub mailbox_capacity : ℕ
  pub reductions : ℕ
  pub status : ProcessStatus
  pub priority : Priority
  pub links : List ℕ
  pub monitors : List (ℕ × ℕ)
  pub monitored_by : List (ℕ × ℕ)
  pub supervisor : Option ℕ
  pub trap_exit : Bool
  pub receive_timeout : Option ℕ

-- The process that `new_with_mailbox_capacity` builds once `init` has returned a state; the pid
-- comes from the registry, which keeps the counter.
unfoldable pub fresh : {E : Env} → ℕ → E.Behavior → E.State → ℕ → AgentProcess E
fresh pid behavior state capacity = record {
  pid = pid;
  behavior = behavior;
  state = some state;
  mailbox = [];
  mailbox_capacity = capacity;
  reductions = 0;
  status = runnable;
  priority = normal;
  links = [];
  monitors = [];
  monitored_by = [];
  supervisor = none;
  trap_exit = false;
  receive_timeout = none;
}

unfoldable pub new_with_mailbox_capacity :
    {E : Env} → ℕ → E.Behavior → E.Value → ℕ → Result (AgentProcess E) Reason
unfolding fresh
new_with_mailbox_capacity {E} pid behavior args capacity = elim (E.init behavior args) [
  | ok state ↦ ok (fresh pid behavior state capacity)
  | err reason ↦ err reason
]

unfoldable pub new : {E : Env} → ℕ → E.Behavior → E.Value → Result (AgentProcess E) Reason
unfolding new_with_mailbox_capacity
new pid behavior args = new_with_mailbox_capacity pid behavior args default_mailbox_capacity

abbrev wake : ProcessStatus → ProcessStatus
wake waiting = runnable
wake runnable = runnable
wake suspended = suspended
wake exiting = exiting

unfoldable pub deliver_message :
    {E : Env} → AgentProcess E → Message E.Value → AgentProcess E × Result (Unit {0}) MailboxFull
deliver_message p msg =
    if leb p.mailbox_capacity (length p.mailbox) then (p, err mailbox_full) else (
      record p { mailbox = p.mailbox ++ msg ∷ []; receive_timeout = none; status = wake p.status },
      ok tt,
    )

unfoldable pub has_messages : {E : Env} → AgentProcess E → Bool
has_messages p = not (is_empty p.mailbox)

abbrev pub pop_front {ℓ} : {A : Type ℓ} → List A → Option A × List A
pop_front [] = (none, [])
pop_front (x ∷ xs) = (some x, xs)

unfoldable pub next_message : {E : Env} → AgentProcess E → AgentProcess E × Option (Message E.Value)
next_message p = let (msg, rest) = pop_front p.mailbox in (record p { mailbox = rest }, msg)

-- The behavior's `terminate` callback sees the state last; what it does to it is dropped.
unfoldable pub terminate : {E : Env} → AgentProcess E → AgentProcess E
terminate p = record p { status = exiting; state = none }
