-- ===== src/AgentRt/DurableMailbox/Reopen.antt =====
-- agent_rt/durable_mailbox.rs: a mailbox that is opened again from the files that another one left.
use zeptobeam.Base.{
  ℕ, ◌≤◌, ◌<◌, ◌≡◌, refl, sym, ap, subst, ◌∙◌, List, [], ◌∷◌, map, some, arith, ok, keep, all, any,
  leb, true, ◌⊎◌, inl, inr, ◌==◌, nat_eq, max, Bool-cases,
}
use zeptobeam.AgentRt.DurableMailbox.{
  WalEntry, header, entry, DurableMailbox, max_seq, read_ack, create_wal, open_mailbox, write_line,
  append, truncate, is_unacked, replay,
}
use zeptobeam.AgentRt.DurableMailbox.Replay.{
  body-logged, replay-logged, entries_of-map, Queue, Stands, truncate-Stands,
}

seq-le-max_seq :
    {M : Type 0} (es : List (WalEntry M)) (n : ℕ)
    → max_seq es ≤ n
    → all (λ e. leb e.seq n) es ≡ true
unfolding max_seq
seq-le-max_seq [] n h = refl
seq-le-max_seq (e ∷ es) n h = ground (arith, seq-le-max_seq es n)

max_seq-attained :
    {M : Type 0} (es : List (WalEntry M))
    → ((es ≡ []) × (max_seq es ≡ 0)) ⊎ (any (λ e. e.seq == max_seq es) es ≡ true)
unfolding max_seq
max_seq-attained [] = inl (refl, refl)
max_seq-attained (e ∷ es) = elim (max_seq-attained es) [
  | inl (empty, low) ↦ inr (ground (arith, low))
  | inr hit ↦ elim (Bool-cases (leb e.seq (max_seq es))) [
    | inl le ↦
        let same : max e.seq (max_seq es) ≡ max_seq es = ground arith in
        inr (subst (λ n. any (λ x. x.seq == n) (e ∷ es) ≡ true) (sym same) (ground (arith, hit)))
    | inr gt ↦
        let same : max e.seq (max_seq es) ≡ e.seq = ground arith in inr (ground (arith, same))
  ]
]

module _ {M : Type 0} (es : List (WalEntry M)) (m : DurableMailbox M) where
  -- The state that `open` restores from a log with the entries es.
  abbrev restored : ℕ → DurableMailbox M
  restored acked = record {
    disk = record (m.disk) { wal = some (header ∷ map entry es) };
    sequence = max_seq es;
    last_acked_seq = acked;
  }

  open-logged :
      (acked : ℕ)
      → m.disk.wal ≡ some (header ∷ map entry es)
      → read_ack m.disk.ack_file ≡ ok acked
      → open_mailbox m.disk ≡ ok (restored acked)
  unfolding open_mailbox create_wal
  open-logged acked e a = rw (a, open_mailbox) (rw (body-logged es m e, entries_of-map es, e) refl)

  -- A mailbox opened from the files of another one replays what the other one would have replayed,
  -- keeps its last acknowledged number, and counts on from a number that no entry of the log exceeds
  -- and that is one of an entry, or 0 where the log is empty. The log is one that parses, and the ack
  -- file holds the last acknowledged number (or is missing, which reads as 0).
  pub replay-open :
      (q : Queue M)
      → Stands es m q
      → read_ack m.disk.ack_file ≡ ok m.last_acked_seq
      → (m' : DurableMailbox M) × (open_mailbox m.disk ≡ ok m')
        × (replay m' ≡ replay m)
        × (m'.last_acked_seq ≡ m.last_acked_seq)
        × (all (λ e. leb e.seq m'.sequence) es ≡ true)
        × (((es ≡ []) × (m'.sequence ≡ 0)) ⊎ (any (λ e. e.seq == m'.sequence) es ≡ true))
  replay-open q s a =
      let m' = restored m.last_acked_seq in
      (
        m',
        open-logged m.last_acked_seq s.logged a,
        replay-logged es m' refl ∙ sym (replay-logged es m s.logged),
        refl,
        seq-le-max_seq es (max_seq es) (omega arith),
        max_seq-attained es,
      )

ack_file-truncate :
    {M : Type 0} (m : DurableMailbox M) {acked : ℕ}
    → read_ack m.disk.ack_file ≡ ok acked
    → read_ack (truncate m).disk.ack_file ≡ ok acked
unfolding truncate
ack_file-truncate m a = a

first_acked :
    {M : Type 0} (e : WalEntry M) (acked : ℕ)
    → e.seq ≤ acked
    → keep (is_unacked acked) (e ∷ []) ≡ []
first_acked e acked h = ground arith

-- When every message is acknowledged, at least one, and the log is truncated, then the mailbox that
-- is opened from the files does not deliver the next message: its append succeeds, but `replay`
-- returns nothing, because the sequence numbers start at 1 again.
pub append-open_lost :
    {M : Type 0} (es : List (WalEntry M)) (m : DurableMailbox M) (q : Queue M) (now : ℕ) (msg : M)
    → Stands es m q
    → q.pending ≡ []
    → 0 < q.acked
    → read_ack m.disk.ack_file ≡ ok m.last_acked_seq
    → (m' : DurableMailbox M) × (open_mailbox (truncate m).disk ≡ ok m')
      × (replay (append now m' msg).0 ≡ ok [])
unfolding append write_line create_wal max_seq
append-open_lost es m q now msg s none_left some_acked a =
    let cut : Stands [] (truncate m) q =
      subst (λ fs. Stands fs (truncate m) q) none_left (truncate-Stands es m q s) in
    let m' = restored [] (truncate m) m.last_acked_seq in
    (
      m',
      open-logged [] (truncate m) m.last_acked_seq cut.logged (ack_file-truncate m a),
      replay-logged (record { seq = 1; stamp = now; msg = msg } ∷ []) (append now m' msg).0 refl
          ∙ ap ok (
              first_acked (record { seq = 1; stamp = now; msg = msg }) m.last_acked_seq
                (omega (arith, s.acked, some_acked))),
    )
