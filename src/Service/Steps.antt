-- ===== src/Service/Steps.antt =====
-- What several use cases call: the clocks, the audit record, the limiter and the keys.
use video_site.Common.{ℕ, String, Option, List, [], ◌∷◌, fstring, str, strip}
use video_site.Entities.Datetime.{Datetime, utc}
use video_site.Entities.Audit.{AuditAction, Detail, AuditEvent}
use video_site.Database.AuditLog
use video_site.RateLimit.{Counters, RateLimitPolicy, RateLimitDecision}
use video_site.RateLimit
use video_site.Service.{External, DeviceInfo, device_or_empty, Action, ◌>>=◌, ask, try_write_only}
use video_site.Errors.{ok}

-- `user_cache_codec.user_cache_key`.
unfoldable pub user_cache_key : ℕ → String
user_cache_key user_id = fstring ("auth:user:" ∷ str user_id ∷ [])

-- A call of the limiter, which owns the counters.
abbrev pub charge : {A : Type 0} → (Counters → A × Counters) → Action A
charge f w = let (a, counters) = f w.counters in (ok a, record w { counters = counters })

module _ (ext : External) where
  -- `datetime.now(UTC)`.
  abbrev pub utc_now : Action Datetime
  utc_now = ask (λ n. utc (ext.utc_now n))

  -- `email.strip().lower()`.
  abbrev pub normalized : String → String
  normalized email = ext.lower (strip email)

  -- The row that `record` appends.
  abbrev pub event_of :
      AuditAction → Datetime → Option ℕ → DeviceInfo → List (String × Detail) → AuditEvent
  event_of action now user_id device metadata = record {
    id = 0;
    action = action;
    created_at = now;
    user_id = user_id;
    ip_address = device.ip_address;
    user_agent = device.user_agent;
    metadata = metadata;
  }

  -- `audit.record`.
  unfoldable pub audit :
      AuditAction → Option ℕ → Option DeviceInfo → List (String × Detail) → Action (Unit {0})
  audit action user_id device metadata = do
    now ← utc_now
    try_write_only
        (λ db. AuditLog.add db (event_of action now user_id (device_or_empty device) metadata))

  -- The limiter's operations at the moment of the monotonic clock.
  unfoldable pub limiter_hit : String → RateLimitPolicy → Action RateLimitDecision
  limiter_hit key policy = do
    now ← ask ext.monotonic
    charge (λ counters. RateLimit.hit counters now key policy.limit policy.window_seconds)

  unfoldable pub limiter_peek : String → RateLimitPolicy → Action RateLimitDecision
  limiter_peek key policy = do
    now ← ask ext.monotonic
    charge (λ counters. (RateLimit.peek counters now key policy.limit, counters))

  unfoldable pub limiter_reset : String → Action (Unit {0})
  limiter_reset key w = (ok tt, record w { counters = RateLimit.reset w.counters key })
