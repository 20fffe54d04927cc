-- ===== src/AgentRt/Scenarios.antt =====
-- The dead letters, limiter, log, tables and retries of agent_rt on small data.
use zeptobeam.Base.{
  is_ok, ◌^◌, ◌-◌, ◌==◌, nat_eq, string_eq, ◌&&◌, if◌then◌else◌, String, ℕ, ◌+◌, ◌<◌, ◌≡◌, refl,
  List, [], ◌∷◌, true, none, some, arith, ok, length, keep, map, ◌≤◌, all, any, leb, ◌⊎◌,
}
use zeptobeam.HashMap
use zeptobeam.AgentRt.Ets
use zeptobeam.AgentRt.Ets.Limits
use zeptobeam.AgentRt.Ets.{
  EtsTable, EtsRegistry, public, private, ets, put, may_write, is_full_for, id_eq,
}
use zeptobeam.AgentRt.Ets.Access.{get-put, attempt, write_put, attempt-foreign}
use zeptobeam.AgentRt.Ets.Limits.{
  Limited, Op, op_create, op_put, op_process_death, perform_all-Limited,
}
use zeptobeam.AgentRt.RetryPolicy.{RetryTracker, backoff, attempt_count, strategy_of}
use zeptobeam.AgentRt.RetryPolicy.Attempts.{retries, max_attempts, retries-le-max_attempts}
use zeptobeam.AgentRt.DeadLetter
use zeptobeam.AgentRt.DeadLetter.{DeadLetter, process_not_found}
use zeptobeam.AgentRt.DeadLetter.Ring.{Recent, push_all, push_all-Recent}
use zeptobeam.AgentRt.RateLimiter.{ProviderLimit, acquire, evict, oldest_wait, wait, granted}
use zeptobeam.AgentRt.RateLimiter.Window.{is_recent, requests, fresh_limit, granted-le-max}
use zeptobeam.AgentRt.RateLimiter.Wait.{wait-granted}
use zeptobeam.AgentRt.DurableMailbox.{
  WalEntry, DurableMailbox, header, entry, number, read_ack, open_mailbox, append, replay, truncate,
}
use zeptobeam.AgentRt.DurableMailbox.Replay.{
  Queue, Stands, Call, call_append, call_ack, call_truncate, perform_all, expect, expect_all,
  replay-perform_all,
}
use zeptobeam.AgentRt.DurableMailbox.Reopen.{replay-open, append-open_lost}

abbrev letter : ℕ → DeadLetter
letter n = record { timestamp = n; sender_pid = none; target_pid = 1; reason = process_not_found }

abbrev letters : List DeadLetter
letters = letter 1 ∷ letter 2 ∷ letter 3 ∷ []

push_all-Recent_example : Recent 2 letters (push_all letters (DeadLetter.new 2))
push_all-Recent_example = push_all-Recent 2 letters (omega arith)

abbrev times : List ℕ
times = 1 ∷ 2 ∷ 3 ∷ 12 ∷ []

granted-le-max_example :
    length (keep (is_recent 12 10) (requests times (fresh_limit 2 10) []).1) ≤ 2
granted-le-max_example = granted-le-max 2 10 times 12 (ground arith) (omega arith)

-- Two requests are granted, at 1 and 2, and one more comes at 5.
abbrev used_up : ProviderLimit
used_up = record { max_requests = 2; window = 10; timestamps = 1 ∷ 2 ∷ [] }

used_up_waits : (acquire 5 used_up).1 ≡ wait 6
unfolding acquire evict oldest_wait
used_up_waits = refl

wait-granted_example :
    (0 < 6) × (6 ≤ used_up.window) × ((acquire (5 + 6) (acquire 5 used_up).0).1 ≡ granted)
wait-granted_example = wait-granted 5 used_up 6 (omega arith) (ground arith) used_up_waits

abbrev item : ℕ → WalEntry ℕ
item n = record { seq = n; stamp = 0; msg = n }

-- A log with the entries es, of which `acked` are acknowledged.
abbrev mailbox_of : List (WalEntry ℕ) → ℕ → DurableMailbox ℕ
mailbox_of es acked = record {
  disk = record { wal = some (header ∷ map entry es); ack_file = some (number acked) };
  sequence = length es;
  last_acked_seq = acked;
}

abbrev calls : List (Call ℕ)
calls = call_append 7 3 ∷ call_ack 1 ∷ call_truncate ∷ call_append 8 4 ∷ call_ack 9 ∷ []

abbrev log_of_two : List (WalEntry ℕ)
log_of_two = item 1 ∷ item 2 ∷ []

abbrev queue_of_two : Queue ℕ
queue_of_two = record { count = 2; acked = 1; pending = item 2 ∷ [] }

two-Stands : Stands log_of_two (mailbox_of log_of_two 1) queue_of_two
two-Stands = record {
  logged = refl;
  counted = refl;
  acked = refl;
  ordered = omega arith;
  pending = refl;
}

replay-perform_all_example :
    replay (perform_all (mailbox_of log_of_two 1) calls)
    ≡ ok (expect_all queue_of_two calls).pending
replay-perform_all_example =
    replay-perform_all calls log_of_two (mailbox_of log_of_two 1) queue_of_two (omega arith)
      two-Stands

expected :
    (expect_all queue_of_two calls).pending
    ≡ item 2 ∷ record { seq = 3; stamp = 7; msg = 3 } ∷ record { seq = 4; stamp = 8; msg = 4 } ∷ []
unfolding expect_all expect
expected = refl

two_acked : read_ack (mailbox_of log_of_two 1).disk.ack_file ≡ ok 1
unfolding read_ack
two_acked = refl

replay-open_example :
    (m : DurableMailbox ℕ) × (open_mailbox (mailbox_of log_of_two 1).disk ≡ ok m)
    × (replay m ≡ replay (mailbox_of log_of_two 1))
    × (m.last_acked_seq ≡ 1)
    × (all (λ e. leb e.seq m.sequence) log_of_two ≡ true)
    × (((log_of_two ≡ []) × (m.sequence ≡ 0)) ⊎ (any (λ e. e.seq == m.sequence) log_of_two ≡ true))
replay-open_example =
    replay-open log_of_two (mailbox_of log_of_two 1) queue_of_two two-Stands two_acked

abbrev queue_of_none : Queue ℕ
queue_of_none = record { count = 2; acked = 2; pending = [] }

none-Stands : Stands log_of_two (mailbox_of log_of_two 2) queue_of_none
none-Stands = record {
  logged = refl;
  counted = refl;
  acked = refl;
  ordered = omega arith;
  pending = refl;
}

all_acked : read_ack (mailbox_of log_of_two 2).disk.ack_file ≡ ok 2
unfolding read_ack
all_acked = refl

append-open_lost_example :
    (m : DurableMailbox ℕ) × (open_mailbox (truncate (mailbox_of log_of_two 2)).disk ≡ ok m)
    × (replay (append 9 m 5).0 ≡ ok [])
append-open_lost_example =
    append-open_lost log_of_two (mailbox_of log_of_two 2) queue_of_none 9 5 none-Stands refl
      (omega arith) all_acked

-- Process 7 owns a private table.
abbrev private_table : EtsTable ℕ
private_table = record {
  name = "t";
  access = private;
  owner = 7;
  heir = none;
  contents = ("a", 1) ∷ [];
  max_entries = 3;
}

abbrev one_table : EtsRegistry ℕ
one_table = record {
  tables = (ets 1, private_table) ∷ [];
  max_tables = 2;
  max_entries_per_table = 3;
  next_table_id = 2;
}

put_succeeds : is_ok (put one_table (ets 1) "b" 5 7).1 ≡ true
unfolding put may_write is_full_for HashMap.get
put_succeeds = refl

get-put_example : Ets.get (put one_table (ets 1) "b" 5 7).0 (ets 1) "b" 7 ≡ (
    if (ets 1 == ets 1) && (◌==◌ {A = String} "b" "b") && is_ok (Ets.get one_table (ets 1) "b" 7)
    then ok (some 5)
    else Ets.get one_table (ets 1) "b" 7)
get-put_example = get-put one_table (ets 1) "b" 5 7 (ets 1) "b" 7 put_succeeds

found : HashMap.get one_table.tables (ets 1) ≡ some private_table
unfolding HashMap.get
found = refl

attempt-foreign_example : attempt one_table (ets 1) (write_put "a" 9) 8 ≡ one_table
attempt-foreign_example =
    attempt-foreign one_table (ets 1) (write_put "a" 9) 8 private_table found (omega arith)
      (ground arith)

abbrev table_ops : List (Op ℕ)
table_ops =
    op_create "t" public 7 (some 8)
    ∷ op_put (ets 1) "a" 5 9
    ∷ op_create "u" private 7 none
    ∷ op_process_death 7
    ∷ []

perform_all-Limited_example : Limited 1 3 (Limits.perform_all (Ets.new {V = ℕ} 1 1 3) table_ops)
perform_all-Limited_example = perform_all-Limited 1 3 1 table_ops

abbrev failing : RetryTracker
failing = record { attempts = ("x", 1) ∷ []; default_strategy = backoff 3 100 1000; per_task = [] }

abbrev failures : List String
failures = "x" ∷ "y" ∷ "x" ∷ "x" ∷ []

few_failures : attempt_count failing "x" + length failures < 2 ^ 32
unfolding attempt_count HashMap.get
few_failures = omega arith

retries-le-max_attempts_example :
    retries "x" failures failing
    ≤ max_attempts (strategy_of failing "x") - attempt_count failing "x"
retries-le-max_attempts_example = retries-le-max_attempts "x" failures failing few_failures
