-- ===== src/Service/Outside.antt =====
-- What the use cases rely on and this repository does not implement: clocks, randomness, the
-- password and token libraries, the Unicode case tables, and the settings of the deployment.
-- Whatever can differ from call to call takes the number of the call.
use video_site.Common.{ℕ, String, Bool, Option}
use video_site.Entities.Datetime.{Datetime}
use video_site.RateLimit.{RateLimitPolicy}

-- What a claim of a decoded token reads as: it may be missing (`KeyError`), or not convert
-- (`ValueError`).
pub data Claim (A : Type 0) : Type 0 where
  missing malformed : Claim A
  claim : A → Claim A

pub record Claims : Type 0 where
  pub sub : Claim ℕ
  pub jti : Claim String
  pub token_type : Claim String
  pub exp : Claim ℕ

-- How `jwt.decode` ends.
pub data Decoded : Type 0 where
  expired_signature invalid : Decoded
  decoded : Claims → Decoded

-- The parts of `Config` that the container hands to the use cases.
pub record Settings : Type 0 where
  pub access_expire_minutes : ℕ
  pub refresh_expire_minutes : ℕ
  pub login_ip_policy : RateLimitPolicy
  pub login_account_policy : RateLimitPolicy
  pub register_ip_policy : RateLimitPolicy
  pub forgot_password_email_policy : RateLimitPolicy
  pub forgot_password_ip_policy : RateLimitPolicy
  pub reset_password_ip_policy : RateLimitPolicy
  pub verification_url : String
  pub verification_ttl_hours : ℕ
  pub reset_url : String
  pub reset_ttl_minutes : ℕ
  pub default_role_name : String

pub record External : Type 0 where
  -- `datetime.now(UTC)` in microseconds, and `time.monotonic()` in nanoseconds
  pub utc_now : ℕ → ℕ
  pub monotonic : ℕ → ℕ
  -- the server's `now()`, and what its `onupdate` does to a row's `updated_at`
  pub server_now : ℕ → Datetime
  pub on_update : ℕ → Option Datetime → Option Datetime
  -- `uuid.uuid4().hex` and `secrets.token_urlsafe(32)`
  pub uuid4_hex : ℕ → String
  pub token_urlsafe : ℕ → String
  -- `hashlib.sha256(secret.encode()).hexdigest()`
  pub sha256_hex : String → String
  -- the password hasher: a salted hash, and its test of a password against a hash
  pub hash_password : ℕ → String → String
  pub verify_password : String → String → Bool
  -- `jwt.encode` and `jwt.decode` under the service's secret
  pub jwt_encode : Claims → String
  pub jwt_decode : ℕ → String → Decoded
  -- `str.lower`, and `template.format(token=…)`
  pub lower : String → String
  pub format_token : String → String → String
  -- whether a cache still holds what was set (never, for the cache of no Redis)
  pub cache_holds : ℕ → Bool
  pub settings : Settings
