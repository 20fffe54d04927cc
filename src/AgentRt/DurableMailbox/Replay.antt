-- ===== src/AgentRt/DurableMailbox/Replay.antt =====
-- agent_rt/durable_mailbox.rs: one session of a mailbox against a queue of the messages that are
-- not acknowledged.
use zeptobeam.Base.{
  ℕ, ◌+◌, ◌^◌, ◌≤◌, ◌<◌, ◌≡◌, refl, sym, ap, List, [], ◌∷◌, ◌++◌, map, some, arith, ltb, leb,
  if◌then◌else◌, ok, keep, length, u64,
}
use zeptobeam.AgentRt.DurableMailbox.{
  WalEntry, header, entry, DurableMailbox, written, body, entries_of, parse_all, append, ack,
  truncate, is_unacked, replay, replay_all, write_line, create_wal, number,
}

module _ {M : Type 0} where
  pub written-map : (es : List (WalEntry M)) → written (map entry es) ≡ map entry es
  unfolding written
  written-map [] = refl
  written-map (e ∷ es) = ap (λ ls. entry e ∷ ls) (written-map es)

  pub parse_all-map : (es : List (WalEntry M)) → parse_all (map entry es) ≡ ok es
  unfolding parse_all
  parse_all-map [] = refl
  parse_all-map (e ∷ es) = rw (parse_all-map es)

  pub entries_of-map : (es : List (WalEntry M)) → entries_of (map entry es) ≡ es
  unfolding entries_of
  entries_of-map [] = refl
  entries_of-map (e ∷ es) = ap (λ fs. e ∷ fs) (entries_of-map es)

  map-append_one :
      (es : List (WalEntry M)) (e : WalEntry M)
      → map entry es ++ entry e ∷ [] ≡ map entry (es ++ e ∷ [])
  map-append_one [] e = refl
  map-append_one (x ∷ es) e = ap (λ ls. entry x ∷ ls) (map-append_one es e)

  keep-append_one :
      (acked : ℕ) (es : List (WalEntry M)) (e : WalEntry M)
      → acked < e.seq
      → keep (is_unacked acked) (es ++ e ∷ []) ≡ keep (is_unacked acked) es ++ e ∷ []
  keep-append_one acked [] e h = ground arith
  keep-append_one acked (x ∷ es) e h = ground (arith, keep-append_one acked es e h)

  keep-keep :
      (low high : ℕ) (es : List (WalEntry M))
      → low ≤ high
      → keep (is_unacked high) (keep (is_unacked low) es) ≡ keep (is_unacked high) es
  keep-keep low high [] h = refl
  keep-keep low high (x ∷ es) h = ground (arith, keep-keep low high es h)

-- What a client of the mailbox sees: how many messages were appended, up to which of them they are
-- acknowledged, and the others in the order of their appends.
pub record Queue (M : Type 0) : Type 0 where
  pub count : ℕ
  pub acked : ℕ
  pub pending : List (WalEntry M)

pub data Call (M : Type 0) : Type 0 where
  call_append : ℕ → M → Call M
  call_ack : ℕ → Call M
  call_truncate : Call M

unfoldable pub perform : {M : Type 0} → DurableMailbox M → Call M → DurableMailbox M
unfolding append ack truncate
perform m (call_append now msg) = (append now m msg).0
perform m (call_ack n) = (ack m n).0
perform m call_truncate = truncate m

unfoldable pub perform_all : {M : Type 0} → DurableMailbox M → List (Call M) → DurableMailbox M
unfolding perform
perform_all m [] = m
perform_all m (c ∷ cs) = perform_all (perform m c) cs

unfoldable pub expect : {M : Type 0} → Queue M → Call M → Queue M
expect q (call_append now msg) = record q {
  count = q.count + 1;
  pending = q.pending ++ record { seq = q.count + 1; stamp = now; msg = msg } ∷ [];
}
expect q (call_ack n) =
    if leb n q.acked
    then q
    else if ltb q.count n
    then q
    else record q { acked = n; pending = keep (is_unacked n) q.pending }
expect q call_truncate = q

unfoldable pub expect_all : {M : Type 0} → Queue M → List (Call M) → Queue M
unfolding expect
expect_all q [] = q
expect_all q (c ∷ cs) = expect_all (expect q c) cs

-- The mailbox m, whose log holds a header and the entries es, stands for the queue q.
pub record Stands {M : Type 0} (es : List (WalEntry M)) (m : DurableMailbox M) (q : Queue M)
    : Type 0 where
  pub logged : m.disk.wal ≡ some (header ∷ map entry es)
  pub counted : m.sequence ≡ q.count
  pub acked : m.last_acked_seq ≡ q.acked
  pub ordered : q.acked ≤ q.count
  pub pending : keep (is_unacked q.acked) es ≡ q.pending

module _ {M : Type 0} (es : List (WalEntry M)) (m : DurableMailbox M) where
  pub body-logged : m.disk.wal ≡ some (header ∷ map entry es) → body m.disk ≡ map entry es
  unfolding body written
  body-logged e = rw e (written-map es)

  pub replay-logged :
      m.disk.wal ≡ some (header ∷ map entry es)
      → replay m ≡ ok (keep (is_unacked m.last_acked_seq) es)
  unfolding replay
  replay-logged e = rw (body-logged e, replay) (rw (parse_all-map es))

  pub replay_all-logged : m.disk.wal ≡ some (header ∷ map entry es) → replay_all m ≡ es
  unfolding replay_all
  replay_all-logged e = rw (body-logged e) (entries_of-map es)

  module _ (q : Queue M) (s : Stands es m q) where
    pub replay-Stands : replay m ≡ ok q.pending
    replay-Stands = rw (replay-logged s.logged, s.acked, s.pending)

    append-Stands :
        (now : ℕ) (msg : M)
        → q.count + 1 < 2 ^ 64
        → Stands
            (es ++ record { seq = q.count + 1; stamp = now; msg = msg } ∷ [])
            (append now m msg).0
            (expect q (call_append now msg))
    unfolding append expect write_line create_wal
    append-Stands now msg h =
        let e : WalEntry M = record { seq = q.count + 1; stamp = now; msg = msg } in
        let wrapped : u64 (m.sequence + 1) ≡ q.count + 1 = ground (arith, s.counted) in
        record {
          logged = rw (s.logged, wrapped) (ap (λ ls. some (header ∷ ls)) (map-append_one es e));
          counted = wrapped;
          acked = s.acked;
          ordered = omega (arith, s.ordered);
          pending = rw (keep-append_one q.acked es e (omega (arith, s.ordered)), s.pending) refl;
        }

    ack-moves :
        (n : ℕ)
        → q.acked < n
        → n ≤ q.count
        → Stands es
            (record m { last_acked_seq = n; disk = record (m.disk) { ack_file = some (number n) } })
            (record q { acked = n; pending = keep (is_unacked n) q.pending })
    ack-moves n low high = record {
      logged = s.logged;
      counted = s.counted;
      acked = refl;
      ordered = high;
      pending = rw (sym s.pending) (sym (keep-keep q.acked n es (omega (arith, low))));
    }

    ack-Stands : (n : ℕ) → Stands es (ack m n).0 (expect q (call_ack n))
    unfolding ack expect
    ack-Stands n = rw (s.acked, s.counted) (ground (arith, s, ack-moves n))

    pub truncate-Stands : Stands q.pending (truncate m) q
    unfolding truncate
    truncate-Stands = record {
      logged = rw (replay_all-logged s.logged, s.acked, s.pending) refl;
      counted = s.counted;
      acked = s.acked;
      ordered = s.ordered;
      pending = rw (sym s.pending) (keep-keep q.acked q.acked es (omega arith));
    }

module _ {M : Type 0} where
  perform-Stands :
      (c : Call M) (es : List (WalEntry M)) (m : DurableMailbox M) (q : Queue M)
      → q.count + 1 < 2 ^ 64
      → Stands es m q
      → (fs : List (WalEntry M)) × Stands fs (perform m c) (expect q c)
  unfolding perform expect
  perform-Stands (call_append now msg) es m q h s = (_, append-Stands es m q s now msg h)
  perform-Stands (call_ack n) es m q h s = (es, ack-Stands es m q s n)
  perform-Stands call_truncate es m q h s = (q.pending, truncate-Stands es m q s)

  expect-grows : (c : Call M) (q : Queue M) → (expect q c).count ≤ q.count + 1
  unfolding expect
  expect-grows (call_append now msg) q = omega arith
  expect-grows (call_ack n) q = ground arith
  expect-grows call_truncate q = omega arith

  perform_all-Stands :
      (cs : List (Call M)) (es : List (WalEntry M)) (m : DurableMailbox M) (q : Queue M)
      → q.count + length cs < 2 ^ 64
      → Stands es m q
      → (fs : List (WalEntry M)) × Stands fs (perform_all m cs) (expect_all q cs)
  unfolding perform_all expect_all
  perform_all-Stands [] es m q h s = (es, s)
  perform_all-Stands (c ∷ cs) es m q h s =
      let (fs, r) = perform-Stands c es m q (omega (arith, h)) s in
      perform_all-Stands cs fs (perform m c) (expect q c) (omega (arith, h, expect-grows c q)) r

  -- Any calls of `append`, `ack` and `truncate`, in any order and with any sequence numbers: what
  -- `replay` then returns are the appended messages that no `ack` took, in the order of their
  -- appends. The log is one that parses, and the sequence numbers do not reach 2^64.
  pub replay-perform_all :
      (cs : List (Call M)) (es : List (WalEntry M)) (m : DurableMailbox M) (q : Queue M)
      → q.count + length cs < 2 ^ 64
      → Stands es m q
      → replay (perform_all m cs) ≡ ok (expect_all q cs).pending
  replay-perform_all cs es m q h s =
      let (fs, r) = perform_all-Stands cs es m q h s in
      replay-Stands fs (perform_all m cs) (expect_all q cs) r
