-- ===== src/Api/Config.antt =====
-- infrastructure/config.py: the settings that decide something in this program, the policies made
-- of them, and the check of a production deployment.
use Prim.Native.String.{[] as empty, ◌∷◌ as cons}
use video_site.Common.{
  ℕ, zero, suc, String, Bool, not, Option, List, [], ◌∷◌, ◌&&◌, ◌==◌, text_eq, leb, truthy?,
  if◌then◌else◌,
}
use video_site.RateLimit.{RateLimitPolicy}

pub record Config : Type 0 where
  pub environment : String
  pub jwt_secret : String
  pub access_token_expire_minutes : ℕ
  pub refresh_token_expire_minutes : ℕ
  pub password_hasher : String
  pub redis_url : Option String
  pub cookie_auth_enabled : Bool
  pub cookie_domain : Option String
  pub cookie_secure : Bool
  pub cookie_samesite : String
  pub access_cookie_name : String
  pub refresh_cookie_name : String
  pub refresh_cookie_path : String
  pub csrf_protection : Bool
  pub csrf_cookie_name : String
  pub csrf_header_name : String
  pub visitor_cookie_name : String
  pub visitor_cookie_max_age_days : ℕ
  pub email_backend : String
  pub email_verification_url : String
  pub password_reset_url : String
  pub email_verification_ttl_hours : ℕ
  pub password_reset_ttl_minutes : ℕ
  pub rate_limit_enabled : Bool
  pub login_max_attempts_per_ip : ℕ
  pub login_max_attempts_per_account : ℕ
  pub login_window_seconds : ℕ
  pub register_max_per_ip : ℕ
  pub register_window_seconds : ℕ
  pub forgot_password_max_per_email : ℕ
  pub forgot_password_max_per_ip : ℕ
  pub forgot_password_window_seconds : ℕ
  pub reset_password_max_per_ip : ℕ
  pub reset_password_window_seconds : ℕ
  pub default_role_name : String
  pub trust_proxy_headers : Bool
  pub seed_on_startup : Bool

-- `_policy`.
unfoldable pub policy : Config → ℕ → ℕ → RateLimitPolicy
policy config limit window_seconds = record {
  limit = if config.rate_limit_enabled then limit else 0;
  window_seconds = window_seconds;
}

unfoldable pub login_ip_policy : Config → RateLimitPolicy
unfolding policy
login_ip_policy config = policy config config.login_max_attempts_per_ip config.login_window_seconds

unfoldable pub login_account_policy : Config → RateLimitPolicy
unfolding policy
login_account_policy config =
    policy config config.login_max_attempts_per_account config.login_window_seconds

unfoldable pub register_ip_policy : Config → RateLimitPolicy
unfolding policy
register_ip_policy config = policy config config.register_max_per_ip config.register_window_seconds

unfoldable pub forgot_password_email_policy : Config → RateLimitPolicy
unfolding policy
forgot_password_email_policy config =
    policy config config.forgot_password_max_per_email config.forgot_password_window_seconds

unfoldable pub forgot_password_ip_policy : Config → RateLimitPolicy
unfolding policy
forgot_password_ip_policy config =
    policy config config.forgot_password_max_per_ip config.forgot_password_window_seconds

unfoldable pub reset_password_ip_policy : Config → RateLimitPolicy
unfolding policy
reset_password_ip_policy config =
    policy config config.reset_password_max_per_ip config.reset_password_window_seconds

-- `len` of a text.
abbrev pub len : String → ℕ
len empty = zero
len (cons _ s) = suc (len s)

-- The conditions of `_check_production_safety` in their order, each with its problem.
abbrev pub conditions : Config → List (Bool × String)
conditions config =
    (
      not (config.jwt_secret == "change_me_to_a_long_random_secret"),
      "JWT_SECRET is still the default",
    )
    ∷ (leb 32 (len config.jwt_secret), "JWT_SECRET must be at least 32 characters")
    ∷ (not (config.cookie_auth_enabled && not config.cookie_secure), "COOKIE_SECURE must be true")
    ∷ (
      not (config.cookie_auth_enabled && not config.csrf_protection),
      "CSRF_PROTECTION must be on with cookie auth",
    )
    ∷ (config.email_backend == "smtp", "EMAIL_BACKEND must be smtp, not console")
    ∷ (config.rate_limit_enabled, "RATE_LIMIT_ENABLED must be true")
    ∷ (truthy? config.redis_url, "REDIS_URL must be set so rate limits hold across workers")
    ∷ (not config.seed_on_startup, "SEED_ON_STARTUP must be false (Alembic owns the schema)")
    ∷ []

-- The problems of the conditions that do not hold.
unfoldable pub problems : List (Bool × String) → List String
problems [] = []
problems ((holds, problem) ∷ rest) =
    let others = problems rest in if holds then others else problem ∷ others

-- `_check_production_safety`: the problems with which the service does not start. `lower` is
-- `str.lower`.
unfoldable pub check_production_safety : (String → String) → Config → List String
unfolding problems
check_production_safety lower config =
    if not (lower config.environment == "production") then [] else problems (conditions config)
