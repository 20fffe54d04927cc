-- ===== src/AgentRt/Registry.antt =====
-- agent_rt/registry.rs: the processes by pid, and the registered names.
use zeptobeam.Base.{
  ℕ, ◌+◌, List, [], Bool, true, Option, none, some, length, if◌then◌else◌, Result, ok, err, String,
  ◌==◌, nat_eq, string_eq, not, u64, is_some,
}
use zeptobeam.HashMap
use zeptobeam.HashMap.{HashMap}
use zeptobeam.AgentRt.Types.{Env, Reason}
use zeptobeam.AgentRt.Process.{AgentProcess}
use zeptobeam.AgentRt.Process

-- `next_agent_pid` is the static counter of types.rs, which only `spawn` advances.
pub record AgentRegistry (E : Env) : Type 0 where
  pub processes : HashMap ℕ (AgentProcess E)
  pub names : HashMap String ℕ
  pub next_agent_pid : ℕ

unfoldable pub new : {E : Env} → ℕ → AgentRegistry E
new next = record { processes = []; names = []; next_agent_pid = next }

unfoldable pub insert_new :
    {E : Env} → AgentRegistry E → Result (AgentProcess E) Reason → AgentRegistry E × Result ℕ Reason
insert_new r (ok p) = (record r { processes = HashMap.insert r.processes p.pid p }, ok p.pid)
insert_new r (err reason) = (r, err reason)

-- The pid is drawn before `init` runs, so a failed `init` uses one up.
unfoldable pub spawn :
    {E : Env} → AgentRegistry E → E.Behavior → E.Value → AgentRegistry E × Result ℕ Reason
unfolding insert_new
spawn r behavior args =
    insert_new (record r { next_agent_pid = u64 (r.next_agent_pid + 1) })
      (Process.new r.next_agent_pid behavior args)

unfoldable pub lookup : {E : Env} → AgentRegistry E → ℕ → Option (AgentProcess E)
lookup r pid = HashMap.get r.processes pid

-- `if let Some(p) = registry.lookup_mut(pid) { *p = f(p) }`.
unfoldable pub modify :
    {E : Env} → AgentRegistry E → ℕ → (AgentProcess E → AgentProcess E) → AgentRegistry E
modify r pid f = record r { processes = HashMap.modify r.processes pid f }

unfoldable pub remove : {E : Env} → AgentRegistry E → ℕ → AgentRegistry E
remove r pid = record r {
  processes = HashMap.remove r.processes pid;
  names =
      if is_some (HashMap.get r.processes pid)
      then HashMap.retain r.names (λ e. not (e.1 == pid))
      else r.names;
}

pub data NameTaken : Type 0 where
  name_taken : String → NameTaken

-- Whether the name is free or already names this pid.
abbrev pub may_take : Option ℕ → ℕ → Bool
may_take none pid = true
may_take (some existing) pid = existing == pid

unfoldable pub register_name :
    {E : Env} → AgentRegistry E → String → ℕ → AgentRegistry E × Result (Unit {0}) NameTaken
register_name r name pid =
    if may_take (HashMap.get r.names name) pid
    then (record r { names = HashMap.insert r.names name pid }, ok tt)
    else (r, err (name_taken name))

unfoldable pub unregister_name : {E : Env} → AgentRegistry E → String → AgentRegistry E
unregister_name r name = record r { names = HashMap.remove r.names name }

unfoldable pub lookup_name : {E : Env} → AgentRegistry E → String → Option ℕ
lookup_name r name = HashMap.get r.names name

unfoldable pub count : {E : Env} → AgentRegistry E → ℕ
count r = length r.processes

unfoldable pub pids : {E : Env} → AgentRegistry E → List ℕ
pids r = HashMap.keys r.processes
