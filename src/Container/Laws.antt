-- ===== src/Container/Laws.antt =====
-- What a production deployment runs on.
use video_site.Common.{String, ◌≡◌, some, [], text_eq, arith, ltb}
use video_site.RateLimit.{is_enforced}
use video_site.Api.Config.{Config, check_production_safety}
use video_site.Api.Laws.{production_safe}
use video_site.Container.{redis, smtp, redis_backend, email_sender, settings_of}

-- A production deployment that starts keeps its counters and its cache in Redis and sends its mail
-- by SMTP, and its use cases run with limits in force wherever the limit that is set is positive.
production_backends :
    (lower : String → String) (config : Config)
    → lower config.environment ≡ "production"
    → check_production_safety lower config ≡ []
    → (redis_backend config ≡ redis)
      × (email_sender config ≡ some smtp)
      × (is_enforced (settings_of config).login_ip_policy ≡ ltb 0 config.login_max_attempts_per_ip)
      × (is_enforced (settings_of config).login_account_policy
          ≡ ltb 0 config.login_max_attempts_per_account)
      × (is_enforced (settings_of config).register_ip_policy ≡ ltb 0 config.register_max_per_ip)
      × (is_enforced (settings_of config).forgot_password_email_policy
          ≡ ltb 0 config.forgot_password_max_per_email)
      × (is_enforced (settings_of config).forgot_password_ip_policy
          ≡ ltb 0 config.forgot_password_max_per_ip)
      × (is_enforced (settings_of config).reset_password_ip_policy
          ≡ ltb 0 config.reset_password_max_per_ip)
unfolding redis_backend email_sender settings_of
production_backends lower config live safe =
    let (
      secret, long, cookies, mail, url, unseeded, account, ip, register, forgot_email, forgot_ip,
      reset_ip,
    ) =
      production_safe lower config live safe in
    (
      grind arith,
      grind (
        arith,
        text_eq.beq_iff config.email_backend "console",
        text_eq.beq_iff config.email_backend "smtp",
        text_eq.beq_iff "smtp" "console",
        text_eq.beq_iff "smtp" "smtp",
      ),
      grind arith,
      grind arith,
      grind arith,
      grind arith,
      grind arith,
      grind arith,
    )
