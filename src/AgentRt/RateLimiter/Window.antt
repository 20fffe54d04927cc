-- ===== src/AgentRt/RateLimiter/Window.antt =====
-- agent_rt/rate_limiter.rs: sequences of requests against one limit.
use zeptobeam.Base.{
  ℕ, ◌-◌, ◌≤◌, ◌<◌, ◌≡◌, refl, sym, ap, subst, ◌∙◌, List, [], ◌∷◌, ◌++◌, Bool, true, false, inl,
  inr, arith, length, ltb, keep, length-append, length-keep, Bool-cases,
}
use zeptobeam.AgentRt.RateLimiter.{
  ProviderLimit, Verdict, granted, wait, panics, evict, oldest_wait, acquire,
}

-- The times of the granted requests, oldest first, after requests at the given times.
abbrev grant : ℕ → Verdict → List ℕ → List ℕ
grant now granted ts = ts ++ now ∷ []
grant now (wait d) ts = ts
grant now panics ts = ts

unfoldable pub requests : List ℕ → ProviderLimit → List ℕ → ProviderLimit × List ℕ
requests [] limit ts = (limit, ts)
requests (now ∷ times) limit ts =
    let (limit', verdict) = acquire now limit in requests times limit' (grant now verdict ts)

-- Times that do not fall, from `t` on.
abbrev pub Rising : ℕ → List ℕ → Type 0
Rising t [] = Unit {0}
Rising t (u ∷ us) = (t ≤ u) × Rising u us

abbrev pub last_time : ℕ → List ℕ → ℕ
last_time t [] = t
last_time t (u ∷ us) = last_time u us

abbrev pub is_recent : ℕ → ℕ → ℕ → Bool
is_recent now window t = ltb (now - t) window

-- The timestamps are rising up to `t`.
abbrev Upto : ℕ → ℕ → List ℕ → Type 0
Upto lo t [] = lo ≤ t
Upto lo t (u ∷ us) = (lo ≤ u) × Upto u t us

evict_all :
    (lo t now w : ℕ) (ts : List ℕ) → Upto lo t ts → now - lo < w → keep (is_recent now w) ts ≡ ts
evict_all lo t now w [] up h = refl
evict_all lo t now w (u ∷ us) up h = ground (arith, evict_all u t now w us up.1)

-- On rising times the front loop keeps just the recent ones.
evict-keep :
    (lo t now w : ℕ) (ts : List ℕ) → Upto lo t ts → evict now w ts ≡ keep (is_recent now w) ts
unfolding evict
evict-keep lo t now w [] up = refl
evict-keep lo t now w (u ∷ us) up =
    ground (arith, evict-keep u t now w us up.1, evict_all u t now w us up.1)

Upto-snoc : (lo t now : ℕ) (ts : List ℕ) → Upto lo t ts → t ≤ now → Upto lo now (ts ++ now ∷ [])
Upto-snoc lo t now [] up h = (omega arith, omega arith)
Upto-snoc lo t now (u ∷ us) up h = (up.0, Upto-snoc u t now us up.1 h)

Upto-mono : (lo t now : ℕ) (ts : List ℕ) → Upto lo t ts → t ≤ now → Upto lo now ts
Upto-mono lo t now [] up h = omega arith
Upto-mono lo t now (u ∷ us) up h = (up.0, Upto-mono u t now us up.1 h)

Upto-lower : (lo l t : ℕ) (ts : List ℕ) → lo ≤ l → Upto l t ts → Upto lo t ts
Upto-lower lo l t [] h up = omega arith
Upto-lower lo l t (u ∷ us) h up = (omega arith, up.1)

Upto-evict : (lo t now w : ℕ) (ts : List ℕ) → Upto lo t ts → Upto lo t (evict now w ts)
unfolding evict
Upto-evict lo t now w [] up = up
Upto-evict lo t now w (u ∷ us) up =
    ground (arith, Upto-lower lo u t (evict now w us) up.0 (Upto-evict u t now w us up.1))

keep-append : (p : ℕ → Bool) (xs ys : List ℕ) → keep p (xs ++ ys) ≡ keep p xs ++ keep p ys
keep-append p [] ys = refl
keep-append p (x ∷ xs) ys = ground (arith, keep-append p xs ys)

-- What is recent later was recent before.
keep_later :
    (t now w : ℕ) (xs : List ℕ)
    → t ≤ now
    → keep (is_recent now w) (keep (is_recent t w) xs) ≡ keep (is_recent now w) xs
keep_later t now w [] h = refl
keep_later t now w (x ∷ xs) h = ground (arith, keep_later t now w xs h)

-- At any time from `t` on, the recent grants are the recent timestamps.
record Tracks (t : ℕ) (limit : ProviderLimit) (gs : List ℕ) : Type 0 where
  rising : Upto 0 t limit.timestamps
  same :
      (now : ℕ)
      → t ≤ now
      → keep (is_recent now limit.window) limit.timestamps ≡ keep (is_recent now limit.window) gs
  bounded : length limit.timestamps ≤ limit.max_requests

module _ (t now : ℕ) (limit : ProviderLimit) (gs : List ℕ) (later : t ≤ now)
    (tracks : Tracks t limit gs) where
  ts : List ℕ
  ts = evict now limit.window limit.timestamps

  kept : ts ≡ keep (is_recent now limit.window) limit.timestamps
  unfolding ts
  kept = evict-keep 0 t now limit.window limit.timestamps tracks.rising

  same_after :
      (u : ℕ) → now ≤ u → keep (is_recent u limit.window) ts ≡ keep (is_recent u limit.window) gs
  same_after u h =
      ap (keep (is_recent u limit.window)) kept
      ∙ keep_later now u limit.window limit.timestamps h
      ∙ tracks.same u (omega arith)

  acquire-granted :
      ltb (length ts) limit.max_requests ≡ true
      → acquire now limit ≡ (record limit { timestamps = ts ++ now ∷ [] }, granted)
  unfolding acquire ts
  acquire-granted h = ground arith

  acquire-refused :
      ltb (length ts) limit.max_requests ≡ false
      → acquire now limit ≡ (record limit { timestamps = ts }, oldest_wait now limit.window ts)
  unfolding acquire ts
  acquire-refused h = ground arith

  refused-grant : (v : List ℕ) → grant now (oldest_wait now limit.window v) gs ≡ gs
  unfolding oldest_wait
  refused-grant [] = refl
  refused-grant (x ∷ xs) = refl

  acquire-Tracks : let (l, v) = acquire now limit in Tracks now l (grant now v gs)
  acquire-Tracks = elim (Bool-cases (ltb (length ts) limit.max_requests)) [
    | inl h ↦ rw (acquire-granted h) (record {
      rising = Upto-snoc 0 t now ts risen later;
      same = λ u g.
          keep-append (is_recent u limit.window) ts (now ∷ [])
          ∙ ap (λ x. x ++ keep (is_recent u limit.window) (now ∷ [])) (same_after u g)
          ∙ sym (keep-append (is_recent u limit.window) gs (now ∷ []));
      bounded = ground (arith, length-append ts (now ∷ []));
    })
    | inr h ↦
        rw (acquire-refused h, refused-grant ts)
          (record {
            rising = Upto-mono 0 t now ts risen later;
            same = same_after;
            bounded = omega (
              arith,
              ap length kept,
              tracks.bounded,
              length-keep (is_recent now limit.window) limit.timestamps,
            );
          })
  ]
    where
      risen : Upto 0 t ts
      risen = unfold ts in Upto-evict 0 t now limit.window limit.timestamps tracks.rising

requests-Tracks :
    (t : ℕ) (times : List ℕ) (limit : ProviderLimit) (gs : List ℕ)
    → Rising t times
    → Tracks t limit gs
    → let (l, gs') = requests times limit gs in Tracks (last_time t times) l gs'
unfolding requests
requests-Tracks t [] limit gs r tr = tr
requests-Tracks t (now ∷ times) limit gs r tr =
    requests-Tracks now times _ _ r.1 (acquire-Tracks t now limit gs r.0 tr)

acquire_same :
    (now : ℕ) (limit : ProviderLimit)
    → let l = (acquire now limit).0 in
      (l.window ≡ limit.window) × (l.max_requests ≡ limit.max_requests)
unfolding acquire
acquire_same now limit = ground arith

requests_same :
    (times : List ℕ) (limit : ProviderLimit) (gs : List ℕ)
    → let l = (requests times limit gs).0 in
      (l.window ≡ limit.window) × (l.max_requests ≡ limit.max_requests)
unfolding requests
requests_same [] limit gs = (refl, refl)
requests_same (now ∷ times) limit gs =
    let e = acquire_same now limit in
    let (v, f) = requests_same times (acquire now limit).0 (grant now (acquire now limit).1 gs) in
    (v ∙ e.0, f ∙ e.1)

abbrev pub fresh_limit : ℕ → ℕ → ProviderLimit
fresh_limit max window = record { max_requests = max; window = window; timestamps = [] }

fresh-Tracks : (max window : ℕ) → Tracks 0 (fresh_limit max window) []
fresh-Tracks max window = record {
  rising = omega arith;
  same = λ now h. refl;
  bounded = omega arith;
}

-- After any requests at times that do not fall, against a fresh limit, the requests granted within
-- the window that ends at the last of them, or at any later time, are at most `max_requests`.
pub granted-le-max :
    (max window : ℕ) (times : List ℕ) (now : ℕ)
    → Rising 0 times
    → last_time 0 times ≤ now
    → length (keep (is_recent now window) (requests times (fresh_limit max window) []).1) ≤ max
granted-le-max max window times now r h =
    let limit = fresh_limit max window in
    let after = requests times limit [] in
    let tr = requests-Tracks 0 times limit [] r (fresh-Tracks max window) in
    let (w, m) = requests_same times limit [] in
    let same : keep (is_recent now window) after.0.timestamps
        ≡ keep (is_recent now window) after.1 =
      subst (λ v. keep (is_recent now v) after.0.timestamps ≡ keep (is_recent now v) after.1) w
        (tr.same now h) in
    omega
      (arith, ap length same, length-keep (is_recent now window) after.0.timestamps, tr.bounded, m)
