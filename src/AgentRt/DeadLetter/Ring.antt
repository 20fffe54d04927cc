-- ===== src/AgentRt/DeadLetter/Ring.antt =====
-- agent_rt/dead_letter.rs: the queue against the history of all letters pushed.
use mathlib.Core.List.{append_assoc, append-nil}
use zeptobeam.Base.{
  ℕ, ◌≤◌, ◌<◌, ◌≡◌, refl, sym, ap, ◌∙◌, List, [], ◌∷◌, ◌++◌, ◌⊎◌, inl, inr, arith, length,
  length-append, u64,
}
use native.Mathlib.Decide.{dec_lt}
use zeptobeam.AgentRt.DeadLetter.{DeadLetter, DeadLetterQueue, new, push}

-- The queue after a history of letters.
unfoldable pub push_all : List DeadLetter → DeadLetterQueue → DeadLetterQueue
push_all [] q = q
push_all (l ∷ ls) q = push_all ls (push q l)

-- The buffer is the end of the history: all of it, or as many letters as the capacity allows.
pub record Recent (cap : ℕ) (history : List DeadLetter) (q : DeadLetterQueue) : Type 0 where
  pub dropped : List DeadLetter
  pub history_split : dropped ++ q.buffer ≡ history
  pub bounded : length q.buffer ≤ cap
  pub full_if_dropped : (dropped ≡ []) ⊎ (length q.buffer ≡ cap)
  pub same_capacity : q.capacity ≡ cap
  pub counted : q.total_count ≡ u64 (length history)

push-Recent_room :
    (cap : ℕ) (h : List DeadLetter) (q : DeadLetterQueue) (l : DeadLetter)
    → length q.buffer < cap
    → Recent cap h q
    → Recent cap (h ++ l ∷ []) (push q l)
unfolding push
push-Recent_room cap h q l room r = record {
  dropped = r.dropped;
  history_split = rw (← r.history_split) (ground (arith, append_assoc r.dropped q.buffer (l ∷ [])));
  bounded = ground (arith, length-append q.buffer (l ∷ []));
  full_if_dropped = ground arith;
  same_capacity = r.same_capacity;
  counted = omega (arith, length-append h (l ∷ []), r.counted);
}

buffer-push_full :
    (cap : ℕ) (q : DeadLetterQueue) (l x : DeadLetter) (rest : List DeadLetter)
    → q.buffer ≡ x ∷ rest
    → length q.buffer ≡ cap
    → q.capacity ≡ cap
    → (push q l).buffer ≡ rest ++ l ∷ []
unfolding push
buffer-push_full cap q l x rest e full same = ground arith

push-Recent_full :
    (cap : ℕ) (h : List DeadLetter) (q : DeadLetterQueue) (l x : DeadLetter)
    (rest : List DeadLetter)
    → q.buffer ≡ x ∷ rest
    → length q.buffer ≡ cap
    → Recent cap h q
    → Recent cap (h ++ l ∷ []) (push q l)
push-Recent_full cap h q l x rest e full r =
    let pushed = buffer-push_full cap q l x rest e full r.same_capacity in
    let size : length (push q l).buffer ≡ cap =
      omega (arith, ap length pushed, ap length e, length-append rest (l ∷ [])) in
    record {
      dropped = r.dropped ++ x ∷ [];
      history_split =
          ap (◌++◌ (r.dropped ++ x ∷ [])) pushed
          ∙ append_assoc r.dropped (x ∷ []) (rest ++ l ∷ [])
          ∙ sym (append_assoc r.dropped (x ∷ rest) (l ∷ []))
          ∙ ap (λ b. b ++ l ∷ []) (ap (◌++◌ r.dropped) (sym e) ∙ r.history_split);
      bounded = omega arith;
      full_if_dropped = inr size;
      same_capacity = unfold push in r.same_capacity;
      counted = unfold push in omega (arith, length-append h (l ∷ []), r.counted);
    }

push-Recent :
    (cap : ℕ) (h : List DeadLetter) (q : DeadLetterQueue) (l : DeadLetter)
    → 0 < cap
    → Recent cap h q
    → Recent cap (h ++ l ∷ []) (push q l)
push-Recent cap h q l pos r = go q.buffer refl
  where
    go : (b : List DeadLetter) → q.buffer ≡ b → Recent cap (h ++ l ∷ []) (push q l)
    go [] e = push-Recent_room cap h q l (omega (arith, ap length e)) r
    go (x ∷ rest) e = elim (dec_lt (length q.buffer) cap) [
      | yes room ↦ push-Recent_room cap h q l room r
      | no full ↦ push-Recent_full cap h q l x rest e (omega (arith, r.bounded)) r
    ]

push_all_from :
    (cap : ℕ) (ls h : List DeadLetter) (q : DeadLetterQueue)
    → 0 < cap
    → Recent cap h q
    → Recent cap (h ++ ls) (push_all ls q)
unfolding push_all
push_all_from cap [] h q pos r = rw append-nil r
push_all_from cap (l ∷ ls) h q pos r =
    rw (← append_assoc h (l ∷ []) ls)
      (push_all_from cap ls (h ++ l ∷ []) (push q l) pos (push-Recent cap h q l pos r))

-- After any history of letters, a queue of positive capacity holds the end of that history: all of
-- it or as many letters as the capacity, in order; and the total counts every letter ever pushed.
pub push_all-Recent :
    (cap : ℕ) (ls : List DeadLetter) → 0 < cap → Recent cap ls (push_all ls (new cap))
push_all-Recent cap ls pos = push_all_from cap ls [] (new cap) pos start
  where
    start : Recent cap [] (new cap)
    start =
        unfold new in
        record {
          dropped = [];
          history_split = refl;
          bounded = omega arith;
          full_if_dropped = inl refl;
          same_capacity = refl;
          counted = refl;
        }
