-- ===== src/AgentRt/RateLimiter/Wait.antt =====
-- agent_rt/rate_limiter.rs: the waiting time that a refused request is told.
use zeptobeam.Base.{
  ℕ, ◌+◌, ◌-◌, ◌≤◌, ◌<◌, ◌≡◌, refl, List, [], ◌∷◌, arith, length, All, subst, ap, ◌∙◌,
}
use zeptobeam.AgentRt.RateLimiter.{ProviderLimit, granted, wait, evict, oldest_wait, acquire}

length-evict : (now w : ℕ) (ts : List ℕ) → length (evict now w ts) ≤ length ts
unfolding evict
length-evict now w [] = omega arith
length-evict now w (t ∷ ts) = ground (arith, length-evict now w ts)

-- What is left at the front is inside the window.
evict-front : (now w t : ℕ) (ts us : List ℕ) → evict now w us ≡ t ∷ ts → now - t < w
unfolding evict
evict-front now w t ts [] e = absurd (cc e)
evict-front now w t ts (u ∷ us) e = ground (arith, evict-front now w t ts us)

All-evict : (now w n : ℕ) (ts : List ℕ) → All (λ t. t ≤ n) ts → All (λ t. t ≤ n) (evict now w ts)
unfolding evict
All-evict now w n [] h = h
All-evict now w n (t ∷ ts) h = ground (arith, All-evict now w n ts h.1)

granted_after :
    (now : ℕ) (limit : ProviderLimit) (t : ℕ) (ts : List ℕ)
    → limit.window ≤ now - t
    → length (t ∷ ts) ≤ limit.max_requests
    → (acquire now (record limit { timestamps = t ∷ ts })).1 ≡ granted
unfolding acquire evict
granted_after now limit t ts old fits = ground (arith, length-evict now limit.window ts)

module _ (now : ℕ) (limit : ProviderLimit) where
  -- The verdict tells to wait just if the oldest timestamp left is the one to wait for.
  waits-for :
      (d : ℕ)
      → (acquire now limit).1 ≡ wait d
      → (t : ℕ) × (ts : List ℕ) × (evict now limit.window limit.timestamps ≡ t ∷ ts)
        × (d ≡ limit.window - (now - t))
        × ((acquire now limit).0 ≡ record limit { timestamps = t ∷ ts })
  unfolding acquire oldest_wait
  waits-for d e = go (evict now limit.window limit.timestamps) refl
    where
      go :
          (v : List ℕ)
          → evict now limit.window limit.timestamps ≡ v
          → (t : ℕ) × (ts : List ℕ) × (evict now limit.window limit.timestamps ≡ t ∷ ts)
            × (d ≡ limit.window - (now - t))
            × ((acquire now limit).0 ≡ record limit { timestamps = t ∷ ts })
      go [] f = absurd (ground arith)
      go (t ∷ ts) f = (t, ts, f, ground arith, ground arith)

  -- A request that must wait is told a positive time of at most the window, and a request after
  -- just that time, with none in between, is granted; given that the limit holds no more
  -- timestamps than it may and none of the future.
  pub wait-granted :
      (d : ℕ)
      → length limit.timestamps ≤ limit.max_requests
      → All (λ t. t ≤ now) limit.timestamps
      → (acquire now limit).1 ≡ wait d
      → (0 < d) × (d ≤ limit.window) × ((acquire (now + d) (acquire now limit).0).1 ≡ granted)
  wait-granted d fits past e =
      let (t, ts, f, due, left) = waits-for d e in
      let w = limit.window in
      let old : All (λ u. u ≤ now) (t ∷ ts) =
        subst (All (λ u. u ≤ now)) f (All-evict now w now limit.timestamps past) in
      let young = evict-front now w t ts limit.timestamps f in
      let fewer : length (t ∷ ts) ≤ limit.max_requests =
        omega (arith, length-evict now w limit.timestamps, ap length f) in
      (
        omega arith,
        omega arith,
        ap (λ l. (acquire (now + d) l).1) left
            ∙ granted_after (now + d) limit t ts (omega (arith, old.0)) fewer,
      )
