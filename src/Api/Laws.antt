-- ===== src/Api/Laws.antt =====
-- What the checks before a use case guarantee, and how errors come out.
use video_site.Common.{
  ℕ, ◌≤◌, String, ◌≡◌, ◌≢◌, refl, ◌⊎◌, inl, inr, Option-cases, Bool, true, false, Option, none,
  some, List, [], ◌∷◌, ◌==◌, text_eq, any, is_some, truthy, truthy?, arith, str, All,
}
use video_site.Errors
use video_site.Errors.{Error, ok, err}
use video_site.Gateway.Headers.{get}
use video_site.Api.Config.{
  Config, len, problems, conditions, check_production_safety, login_ip_policy, login_account_policy,
  register_ip_policy, forgot_password_email_policy, forgot_password_ip_policy,
  reset_password_ip_policy,
}
use video_site.Api.Csrf.{ApiRequest, requires_check, token_matches, goes_on}
use video_site.Api.ErrorHandlers.{status_of, headers_of}

conditions_hold :
    (conditions : List (Bool × String))
    → problems conditions ≡ []
    → All (λ c. c.0 ≡ true) conditions
unfolding problems
conditions_hold [] h = tt
conditions_hold ((holds, problem) ∷ rest) h = ground (arith, conditions_hold rest)

no_problems :
    (config : Config)
    → problems (conditions config) ≡ []
    → (config.jwt_secret ≢ "change_me_to_a_long_random_secret")
      × (32 ≤ len config.jwt_secret)
      × ((config.cookie_auth_enabled ≡ false)
          ⊎ ((config.cookie_secure ≡ true) × (config.csrf_protection ≡ true)))
      × (config.email_backend ≡ "smtp")
      × (config.rate_limit_enabled ≡ true)
      × (truthy? config.redis_url ≡ true)
      × (config.seed_on_startup ≡ false)
no_problems config none_left =
    let (secret, (long, (secure, (csrf, (smtp, (limited, (redis, (unseeded, _)))))))) =
      conditions_hold (conditions config) none_left in
    (
      ground (arith, secret, text_eq.beq_iff config.jwt_secret "change_me_to_a_long_random_secret"),
      ground (arith, long),
      ground (arith, secure, csrf),
      ground (arith, smtp, text_eq.beq_iff config.email_backend "smtp"),
      limited,
      redis,
      ground (arith, unseeded),
    )

-- A production deployment that starts has a JWT secret of its own of 32 characters or more, a cache
-- to share the counters, no seeding, mail that is sent, cookies that are secure and checked against
-- forgery where cookies carry the tokens, and rate limits that are those of the settings.
pub production_safe :
    (lower : String → String) (config : Config)
    → lower config.environment ≡ "production"
    → check_production_safety lower config ≡ []
    → (config.jwt_secret ≢ "change_me_to_a_long_random_secret")
      × (32 ≤ len config.jwt_secret)
      × ((config.cookie_auth_enabled ≡ false)
          ⊎ ((config.cookie_secure ≡ true) × (config.csrf_protection ≡ true)))
      × (config.email_backend ≡ "smtp")
      × (truthy? config.redis_url ≡ true)
      × (config.seed_on_startup ≡ false)
      × ((login_account_policy config).limit ≡ config.login_max_attempts_per_account)
      × ((login_ip_policy config).limit ≡ config.login_max_attempts_per_ip)
      × ((register_ip_policy config).limit ≡ config.register_max_per_ip)
      × ((forgot_password_email_policy config).limit ≡ config.forgot_password_max_per_email)
      × ((forgot_password_ip_policy config).limit ≡ config.forgot_password_max_per_ip)
      × ((reset_password_ip_policy config).limit ≡ config.reset_password_max_per_ip)
unfolding check_production_safety login_account_policy login_ip_policy register_ip_policy
    forgot_password_email_policy forgot_password_ip_policy reset_password_ip_policy
production_safe lower config live safe =
    let none_left : problems (conditions config) ≡ [] =
      ground (arith, live, safe, text_eq.beq_iff (lower config.environment) "production") in
    let facts = no_problems config none_left in
    let (secret, long, cookies, smtp, limited, redis, unseeded) = facts in
    (
      secret,
      long,
      cookies,
      smtp,
      redis,
      unseeded,
      ground (arith, limited),
      ground (arith, limited),
      ground (arith, limited),
      ground (arith, limited),
      ground (arith, limited),
      ground (arith, limited),
    )

-- A request of an unsafe method that carries the cookie of the access token goes on, where cookies
-- carry the tokens and the check is on, only if its header repeats a token that its cookie holds.
pub goes_on-cookie :
    (lower : String → String) (config : Config) (request : ApiRequest)
    → goes_on lower config request ≡ true
    → config.csrf_protection ≡ true
    → config.cookie_auth_enabled ≡ true
    → any (λ m. request.method == m) ("GET" ∷ "HEAD" ∷ "OPTIONS" ∷ "TRACE" ∷ []) ≡ false
    → is_some (get request.cookies config.access_cookie_name) ≡ true
    → (token : String) × (get request.cookies config.csrf_cookie_name ≡ some token)
      × (get request.headers (lower config.csrf_header_name) ≡ some token)
      × (truthy token ≡ true)
unfolding goes_on requires_check token_matches
goes_on-cookie lower config request pass on cookies unsafe there =
    elim (Option-cases (get request.cookies config.csrf_cookie_name)) [
      | inl missing ↦ absurd (grind arith)
      | inr (token, e) ↦ (token, e, grind (arith, text_eq.beq_iff), grind arith)
    ]

-- The wait that an error carries: only the errors of the limits carry one.
abbrev pub wait_of : Error → Option ℕ
wait_of (Errors.Error.rate_limited n _) = some n
wait_of (Errors.Error.account_locked n) = some n
wait_of _ = none

-- An error that carries a wait is answered 429 with this wait in Retry-After, and no other error is
-- answered 429 or has a header.
pub status_of_429 :
    (e : Error)
    → ((status_of e ≡ some 429)
        × ((n : ℕ) × (wait_of e ≡ some n) × (headers_of e ≡ ("Retry-After", str n) ∷ [])))
      ⊎ ((status_of e ≢ some 429) × (wait_of e ≡ none) × (headers_of e ≡ []))
unfolding status_of headers_of
status_of_429 (Errors.Error.authentication m) = inr (ground arith, refl, refl)
status_of_429 (Errors.Error.invalid_credentials m) = inr (ground arith, refl, refl)
status_of_429 (Errors.Error.authorization m) = inr (ground arith, refl, refl)
status_of_429 (Errors.Error.rate_limited n m) = inl (refl, (n, refl, refl))
status_of_429 (Errors.Error.account_locked n) = inl (refl, (n, refl, refl))
status_of_429 Errors.Error.user_not_found = inr (ground arith, refl, refl)
status_of_429 Errors.Error.role_not_found = inr (ground arith, refl, refl)
status_of_429 Errors.Error.permission_not_found = inr (ground arith, refl, refl)
status_of_429 Errors.Error.session_not_found = inr (ground arith, refl, refl)
status_of_429 (Errors.Error.conflict m) = inr (ground arith, refl, refl)
status_of_429 Errors.Error.email_already_exists = inr (ground arith, refl, refl)
status_of_429 Errors.Error.username_already_exists = inr (ground arith, refl, refl)
status_of_429 (Errors.Error.validation m) = inr (ground arith, refl, refl)
status_of_429 Errors.Error.password_mismatch = inr (ground arith, refl, refl)
status_of_429 Errors.Error.invalid_token = inr (ground arith, refl, refl)
status_of_429 Errors.Error.integrity = inr (ground arith, refl, refl)
status_of_429 Errors.Error.too_long = inr (ground arith, refl, refl)
status_of_429 (Errors.Error.disappeared n) = inr (ground arith, refl, refl)
