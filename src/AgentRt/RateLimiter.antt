-- ===== src/AgentRt/RateLimiter.antt =====
-- agent_rt/rate_limiter.rs: a sliding window of requests for each provider. Instants and durations
-- are numbers of one unit, and `now` is what `Instant::now()` returns in the call.
pub mod Window
pub mod Wait
use zeptobeam.Base.{
  ℕ, ◌+◌, ◌-◌, List, [], ◌∷◌, ◌++◌, Option, none, some, String, string_eq, length, leb, ltb,
  if◌then◌else◌, u64,
}
use zeptobeam.HashMap
use zeptobeam.HashMap.{HashMap}

pub record ProviderLimit : Type 0 where
  pub max_requests : ℕ
  pub window : ℕ
  pub timestamps : List ℕ

-- `rejections` is the counter of the shared metrics, if one is set.
pub record RateLimiter : Type 0 where
  pub providers : HashMap String ProviderLimit
  pub default_limit : Option (ℕ × ℕ)
  pub rejections : Option ℕ

-- `wait d` is `Err(d)`. The call panics on `front().unwrap()` when nothing may ever be granted.
pub data Verdict : Type 0 where
  granted : Verdict
  wait : ℕ → Verdict
  panics : Verdict

unfoldable pub new : RateLimiter
new = record { providers = []; default_limit = none; rejections = none }

unfoldable pub set_limit : RateLimiter → String → ℕ → ℕ → RateLimiter
set_limit r provider max window = record r {
  providers =
      HashMap.insert r.providers provider
        (record { max_requests = max; window = window; timestamps = [] });
}

unfoldable pub set_default_limit : RateLimiter → ℕ → ℕ → RateLimiter
set_default_limit r max window = record r { default_limit = some (max, window) }

-- The loop that pops timestamps outside the window off the front.
unfoldable pub evict : ℕ → ℕ → List ℕ → List ℕ
evict now window [] = []
evict now window (t ∷ ts) =
    let rest = evict now window ts in if leb window (now - t) then rest else t ∷ ts

unfoldable pub oldest_wait : ℕ → ℕ → List ℕ → Verdict
oldest_wait now window [] = panics
oldest_wait now window (t ∷ ts) = wait (window - (now - t))

-- The part of `try_acquire` that works on one provider's limit.
unfoldable pub acquire : ℕ → ProviderLimit → ProviderLimit × Verdict
unfolding evict oldest_wait
acquire now limit =
    let ts = evict now limit.window limit.timestamps in
    if ltb (length ts) limit.max_requests
    then (record limit { timestamps = ts ++ now ∷ [] }, granted)
    else (record limit { timestamps = ts }, oldest_wait now limit.window ts)

count_rejection : Verdict → Option ℕ → Option ℕ
count_rejection (wait d) (some n) = some (u64 (n + 1))
count_rejection (wait d) none = none
count_rejection granted m = m
count_rejection panics m = m

-- The provider's limit, made from the default one on the first request.
unfoldable pub limit_of : RateLimiter → String → Option ProviderLimit
limit_of r provider = elim (HashMap.get r.providers provider) [
  | some limit ↦ some limit
  | none ↦ elim r.default_limit [
    | none ↦ none
    | some d ↦ some (record { max_requests = d.0; window = d.1; timestamps = [] })
  ]
]

unfoldable pub try_acquire : ℕ → RateLimiter → String → RateLimiter × Verdict
unfolding limit_of acquire count_rejection
try_acquire now r provider = elim (limit_of r provider) [
  | none ↦ (r, granted)
  | some limit ↦
      let (limit', verdict) = acquire now limit in
      (
        record r {
          providers = HashMap.insert r.providers provider limit';
          rejections = count_rejection verdict r.rejections;
        },
        verdict,
      )
]
