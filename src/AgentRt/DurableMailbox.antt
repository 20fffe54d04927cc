-- ===== src/AgentRt/DurableMailbox.antt =====
-- agent_rt/durable_mailbox.rs: a write-ahead log with acknowledgements. The two files are kept as
-- lists of parsed lines, and file operations succeed; a line that does not parse is `garbage`.
pub mod Replay
pub mod Reopen
use zeptobeam.Base.{
  ℕ, ◌+◌, List, [], ◌∷◌, ◌++◌, Bool, Option, none, some, ltb, leb, if◌then◌else◌, Result, ok, err,
  keep, map, max, u64,
}

-- A message and the second of its append; the content is opaque to the mailbox.
pub record WalEntry (M : Type 0) : Type 0 where
  pub seq : ℕ
  pub stamp : ℕ
  pub msg : M

pub data Line (M : Type 0) : Type 0 where
  header blank garbage : Line M
  entry : WalEntry M → Line M

pub data AckFile : Type 0 where
  number : ℕ → AckFile
  unreadable : AckFile

-- The files of one mailbox; `none` for a file that does not exist.
pub record Disk (M : Type 0) : Type 0 where
  pub wal : Option (List (Line M))
  pub ack_file : Option AckFile

pub data MailboxError : Type 0 where
  bad_ack_file bad_entry : MailboxError
  not_above_last not_yet_sent : ℕ → ℕ → MailboxError

pub record DurableMailbox (M : Type 0) : Type 0 where
  pub disk : Disk M
  pub sequence : ℕ
  pub last_acked_seq : ℕ

-- The lines that are not blank, without the first of them, which is taken for the header.
unfoldable pub written : {M : Type 0} → List (Line M) → List (Line M)
written [] = []
written (blank ∷ ls) = written ls
written (header ∷ ls) = header ∷ written ls
written (garbage ∷ ls) = garbage ∷ written ls
written (entry e ∷ ls) = entry e ∷ written ls

abbrev pub tail {ℓ} : {A : Type ℓ} → List A → List A
tail [] = []
tail (x ∷ xs) = xs

unfoldable pub body : {M : Type 0} → Disk M → List (Line M)
unfolding written
body d = elim d.wal [ none ↦ [] | some ls ↦ tail (written ls) ]

-- The entries that parse; the others are passed over.
unfoldable pub entries_of : {M : Type 0} → List (Line M) → List (WalEntry M)
entries_of [] = []
entries_of (entry e ∷ ls) = e ∷ entries_of ls
entries_of (header ∷ ls) = entries_of ls
entries_of (garbage ∷ ls) = entries_of ls
entries_of (blank ∷ ls) = entries_of ls

unfoldable pub max_seq : {M : Type 0} → List (WalEntry M) → ℕ
max_seq [] = 0
max_seq (e ∷ es) = max e.seq (max_seq es)

unfoldable pub read_ack : Option AckFile → Result ℕ MailboxError
read_ack none = ok 0
read_ack (some (number n)) = ok n
read_ack (some unreadable) = err bad_ack_file

unfoldable pub create_wal : {M : Type 0} → Option (List (Line M)) → List (Line M)
create_wal none = header ∷ []
create_wal (some ls) = ls

unfoldable pub open_mailbox : {M : Type 0} → Disk M → Result (DurableMailbox M) MailboxError
unfolding body entries_of max_seq read_ack create_wal
open_mailbox d = elim (read_ack d.ack_file) [
  | err e ↦ err e
  | ok acked ↦ ok (record {
    disk = record d { wal = some (create_wal d.wal) };
    sequence = max_seq (entries_of (body d));
    last_acked_seq = acked;
  })
]

-- The file that the writer appends to; a mailbox that is open has one.
unfoldable pub write_line : {M : Type 0} → Disk M → Line M → Disk M
unfolding create_wal
write_line d l = record d { wal = some (create_wal d.wal ++ l ∷ []) }

unfoldable pub append : {M : Type 0} → ℕ → DurableMailbox M → M → DurableMailbox M × ℕ
unfolding write_line
append now m msg =
    let seq = u64 (m.sequence + 1) in
    (
      record m {
        sequence = seq;
        disk = write_line m.disk (entry (record { seq = seq; stamp = now; msg = msg }));
      },
      seq,
    )

-- The entries of the log, or an error at the first line that does not parse.
unfoldable pub parse_all : {M : Type 0} → List (Line M) → Result (List (WalEntry M)) MailboxError
parse_all [] = ok []
parse_all (header ∷ ls) = err bad_entry
parse_all (garbage ∷ ls) = err bad_entry
parse_all (blank ∷ ls) = parse_all ls
parse_all (entry e ∷ ls) = elim (parse_all ls) [ ok es ↦ ok (e ∷ es) | err x ↦ err x ]

abbrev pub is_unacked : {M : Type 0} → ℕ → WalEntry M → Bool
is_unacked acked e = ltb acked e.seq

unfoldable pub replay : {M : Type 0} → DurableMailbox M → Result (List (WalEntry M)) MailboxError
unfolding parse_all body
replay m = elim (parse_all (body m.disk)) [
  | ok es ↦ ok (keep (is_unacked m.last_acked_seq) es)
  | err x ↦ err x
]

unfoldable pub replay_all : {M : Type 0} → DurableMailbox M → List (WalEntry M)
unfolding entries_of body
replay_all m = entries_of (body m.disk)

-- The new ack file replaces the old one by a rename.
unfoldable pub ack :
    {M : Type 0} → DurableMailbox M → ℕ → DurableMailbox M × Result (Unit {0}) MailboxError
ack m seq =
    if leb seq m.last_acked_seq
    then (m, err (not_above_last seq m.last_acked_seq))
    else if ltb m.sequence seq
    then (m, err (not_yet_sent seq m.sequence))
    else (
      record m { last_acked_seq = seq; disk = record (m.disk) { ack_file = some (number seq) } },
      ok tt,
    )

-- Rewrites the log without the acknowledged entries.
unfoldable pub truncate : {M : Type 0} → DurableMailbox M → DurableMailbox M
unfolding replay_all
truncate m = record m {
  disk = record (m.disk) {
    wal = some (header ∷ map entry (keep (is_unacked m.last_acked_seq) (replay_all m)));
  };
}
