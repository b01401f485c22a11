-- ===== src/Tests/Api.antt =====
-- Examples of the checks before a use case.
use video_site.Common.{ℕ, ◌≤◌, ◌≡◌, ◌≢◌, ◌⊎◌, refl, true, false, none, some, [], ◌∷◌, str, truthy?}
use video_site.Errors
use video_site.Errors.{ok}
use video_site.Gateway.Headers.{get}
use video_site.Api.Config.{
  Config, len, problems, check_production_safety, login_ip_policy, login_account_policy,
  register_ip_policy, forgot_password_email_policy, forgot_password_ip_policy,
  reset_password_ip_policy,
}
use video_site.Api.Csrf.{ApiRequest, requires_check, token_matches, goes_on}
use video_site.Api.ErrorHandlers.{status_of, headers_of}
use video_site.Api.Laws.{production_safe, wait_of, status_of_429}

abbrev pub config : Config
config = record {
  environment = "production";
  jwt_secret = "0123456789abcdef0123456789abcdef";
  access_token_expire_minutes = 15;
  refresh_token_expire_minutes = 43_200;
  password_hasher = "argon2";
  redis_url = some "redis://cache";
  cookie_auth_enabled = true;
  cookie_domain = none;
  cookie_secure = true;
  cookie_samesite = "lax";
  access_cookie_name = "access_token";
  refresh_cookie_name = "refresh_token";
  refresh_cookie_path = "/api/v1/auth";
  csrf_protection = true;
  csrf_cookie_name = "csrf_token";
  csrf_header_name = "x-csrf-token";
  visitor_cookie_name = "visitor_id";
  visitor_cookie_max_age_days = 400;
  email_backend = "smtp";
  email_verification_url = "/verify?token=";
  password_reset_url = "/reset?token=";
  email_verification_ttl_hours = 24;
  password_reset_ttl_minutes = 30;
  rate_limit_enabled = true;
  login_max_attempts_per_ip = 30;
  login_max_attempts_per_account = 5;
  login_window_seconds = 900;
  register_max_per_ip = 10;
  register_window_seconds = 3_600;
  forgot_password_max_per_email = 3;
  forgot_password_max_per_ip = 10;
  forgot_password_window_seconds = 3_600;
  reset_password_max_per_ip = 10;
  reset_password_window_seconds = 3_600;
  default_role_name = "user";
  trust_proxy_headers = true;
  seed_on_startup = false;
}

safe : check_production_safety (λ s. s) config ≡ []
unfolding check_production_safety problems
safe = refl

production_safe_example :
    (config.jwt_secret ≢ "change_me_to_a_long_random_secret")
    × (32 ≤ len config.jwt_secret)
    × ((config.cookie_auth_enabled ≡ false)
        ⊎ ((config.cookie_secure ≡ true) × (config.csrf_protection ≡ true)))
    × (config.email_backend ≡ "smtp")
    × (truthy? config.redis_url ≡ true)
    × (config.seed_on_startup ≡ false)
    × ((login_account_policy config).limit ≡ 5)
    × ((login_ip_policy config).limit ≡ 30)
    × ((register_ip_policy config).limit ≡ 10)
    × ((forgot_password_email_policy config).limit ≡ 3)
    × ((forgot_password_ip_policy config).limit ≡ 10)
    × ((reset_password_ip_policy config).limit ≡ 10)
production_safe_example = production_safe (λ s. s) config refl safe

abbrev pub request : ApiRequest
request = record {
  method = "POST";
  headers = ("x-csrf-token", "t") ∷ [];
  cookies = ("access_token", "access-1") ∷ ("csrf_token", "t") ∷ [];
  client_host = none;
  visitor_id = none;
  bearer = none;
}

passes : goes_on (λ s. s) config request ≡ true
unfolding goes_on requires_check token_matches get
passes = refl

status_of_429_example :
    ((status_of (Errors.Error.account_locked 9) ≡ some 429)
      × ((n : ℕ) × (wait_of (Errors.Error.account_locked 9) ≡ some n)
          × (headers_of (Errors.Error.account_locked 9) ≡ ("Retry-After", str n) ∷ [])))
    ⊎ ((status_of (Errors.Error.account_locked 9) ≢ some 429)
        × (wait_of (Errors.Error.account_locked 9) ≡ none)
        × (headers_of (Errors.Error.account_locked 9) ≡ []))
status_of_429_example = status_of_429 (Errors.Error.account_locked 9)
