-- ===== src/RateLimit.antt =====
-- adapter/rate_limit/in_memory_rate_limiter.py, with RateLimitPolicy and RateLimitDecision.
--
-- `time.monotonic()` is a count of nanoseconds; `int(ttl)` is the whole seconds of a span. Limits
-- and windows are natural numbers: the use cases call the limiter only under a positive limit.
pub mod Laws
pub mod Window
pub mod Redis
use video_site.Common.{
  ℕ, ◌+◌, ◌-◌, ◌*◌, ◌/◌, max, String, Bool, not, Option, none, some, List, [], ◌∷◌, ◌==◌, text_eq,
  ltb, leb, if◌then◌else◌,
}

pub record RateLimitPolicy : Type 0 where
  pub limit : ℕ
  pub window_seconds : ℕ

-- A policy that is not positive disables the rule.
abbrev pub is_enforced : RateLimitPolicy → Bool
is_enforced policy = ltb 0 policy.limit

pub record RateLimitDecision : Type 0 where
  pub allowed : Bool
  pub remaining : ℕ
  pub retry_after_seconds : ℕ

-- The count of a key and the moment at which its window ends.
pub record Counter : Type 0 where
  pub count : ℕ
  pub expires_at : ℕ

-- The dict `_counters`.
abbrev pub Counters : Type 0
Counters = List (String × Counter)

-- `self._counters.get(key, (0, 0.0))`.
unfoldable pub counter_of : Counters → String → Counter
counter_of [] key = record { count = 0; expires_at = 0 }
counter_of ((k, c) ∷ rest) key = if k == key then c else counter_of rest key

-- `self._counters[key] = c`.
unfoldable pub set_counter : Counters → String → Counter → Counters
set_counter [] key c = (key, c) ∷ []
set_counter ((k, d) ∷ rest) key c =
    if k == key then (key, c) ∷ rest else (k, d) ∷ set_counter rest key c

-- `self._counters.pop(key, None)`.
unfoldable pub pop : Counters → String → Counters
pop [] key = []
pop ((k, d) ∷ rest) key = let others = pop rest key in if k == key then others else (k, d) ∷ others

abbrev pub second : ℕ
second = 1_000_000_000

-- `_decide` on an attempt that `hit` has counted, or that `peek` asks about.
unfoldable pub decide : ℕ → ℕ → ℕ → Bool → RateLimitDecision
decide count limit ttl counted =
    let allowed : Bool = if counted then leb count limit else ltb count limit in
    record {
      allowed = allowed;
      remaining = limit - count;
      retry_after_seconds = if allowed then 0 else max (ttl / second) 1;
    }

-- The counter that a hit leaves: one more, in a window that is begun anew once it has run out.
unfoldable pub charged : Counter → ℕ → ℕ → Counter
charged c now window_seconds =
    if leb c.expires_at now
    then record { count = 1; expires_at = now + window_seconds * second }
    else record { count = c.count + 1; expires_at = c.expires_at }

unfoldable pub hit : Counters → ℕ → String → ℕ → ℕ → RateLimitDecision × Counters
hit counters now key limit window_seconds =
    let c : Counter = charged (counter_of counters key) now window_seconds in
    (decide c.count limit (c.expires_at - now) Bool.true, set_counter counters key c)

unfoldable pub peek : Counters → ℕ → String → ℕ → RateLimitDecision
peek counters now key limit =
    let c : Counter = counter_of counters key in
    if leb c.expires_at now
    then decide 0 limit 0 Bool.false
    else decide c.count limit (c.expires_at - now) Bool.false

unfoldable pub reset : Counters → String → Counters
reset counters key = pop counters key
