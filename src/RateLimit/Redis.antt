-- ===== src/RateLimit/Redis.antt =====
-- adapter/rate_limit/redis_rate_limiter.py.
--
-- Redis is a parameter: its commands at a moment (in nanoseconds) on a state of its own, and what
-- its documentation says of them, in terms of the entries of the keys.
pub mod Laws
pub mod Refinement
use video_site.Common.{
  ℕ, zero, ◌+◌, ◌-◌, ◌*◌, ◌≤◌, max, String, ◌≡◌, Bool, true, false, Option, none, some, ◌==◌,
  text_eq, ltb, leb, if◌then◌else◌,
}
use video_site.RateLimit.{RateLimitDecision, second}

-- An answer of `TTL`: -2, -1, or the seconds that are left.
pub data Ttl : Type 0 where
  no_key no_expiry : Ttl
  seconds : ℕ → Ttl

-- A number under a key, and the moment at which it expires, if it does.
pub record Entry : Type 0 where
  pub number : ℕ
  pub expires_at : Option ℕ

pub record Redis : Type 1 where
  pub State : Type 0
  -- what a key holds at a moment, and the state in which no key holds anything
  pub entry : State → ℕ → String → Option Entry
  pub empty : State
  -- INCR, TTL, EXPIRE, GET of a number, and DEL
  pub incr : State → ℕ → String → ℕ × State
  pub ttl : State → ℕ → String → Ttl
  pub expire : State → ℕ → String → ℕ → State
  pub get : State → ℕ → String → Option ℕ
  pub delete : State → String → State

-- `_decide`, on whole seconds.
unfoldable pub decide : ℕ → ℕ → ℕ → Bool → RateLimitDecision
decide count limit ttl counted =
    let allowed : Bool = if counted then leb count limit else ltb count limit in
    record {
      allowed = allowed;
      remaining = limit - count;
      retry_after_seconds = if allowed then 0 else max ttl 1;
    }

-- `max(int(ttl), 0)`.
abbrev pub seconds_left : Ttl → ℕ
seconds_left no_key = 0
seconds_left no_expiry = 0
seconds_left (seconds n) = n

abbrev pub count_or_zero : Option ℕ → ℕ
count_or_zero none = 0
count_or_zero (some n) = n

module _ (redis : Redis) where
  -- The rest of `hit`, after the pipeline of INCR and TTL: a negative answer of TTL is one that the
  -- key never expires.
  abbrev pub with_expiry :
      redis.State → ℕ → String → ℕ → ℕ → ℕ → Ttl → RateLimitDecision × redis.State
  with_expiry state now key limit window_seconds count (seconds n) =
      (decide count limit n true, state)
  with_expiry state now key limit window_seconds count _ =
      (decide count limit window_seconds true, redis.expire state now key window_seconds)

  unfoldable pub hit : redis.State → ℕ → String → ℕ → ℕ → RateLimitDecision × redis.State
  hit state now key limit window_seconds =
      let (count, state') = redis.incr state now key in
      with_expiry state' now key limit window_seconds count (redis.ttl state' now key)

  unfoldable pub peek : redis.State → ℕ → String → ℕ → RateLimitDecision
  unfolding decide
  peek state now key limit =
      decide (count_or_zero (redis.get state now key)) limit
        (seconds_left (redis.ttl state now key)) false

  unfoldable pub reset : redis.State → String → redis.State
  reset = redis.delete
