-- ===== src/Container.antt =====
-- dependency_injection.py: what the container makes of the settings, and the backends that it
-- selects.
pub mod Laws
use video_site.Common.{String, Option, none, some, ◌==◌, text_eq, truthy?, if◌then◌else◌}
use video_site.Service.{Settings}
use video_site.Api.Config.{
  Config, login_ip_policy, login_account_policy, register_ip_policy, forgot_password_email_policy,
  forgot_password_ip_policy, reset_password_ip_policy,
}

-- `_redis_backend`, on which the cache and the limiter are selected.
pub data Backend : Type 0 where
  redis memory : Backend

unfoldable pub redis_backend : Config → Backend
redis_backend config = if truthy? config.redis_url then redis else memory

pub data EmailSender : Type 0 where
  console smtp : EmailSender

-- `email_sender`; a selector has no provider for another name.
unfoldable pub email_sender : Config → Option EmailSender
email_sender config =
    if config.email_backend == "console"
    then some console
    else if config.email_backend == "smtp"
    then some smtp
    else none

pub data PasswordHasher : Type 0 where
  argon2 pbkdf2 : PasswordHasher

-- `password_hasher`.
unfoldable pub password_hasher : Config → Option PasswordHasher
password_hasher config =
    if config.password_hasher == "argon2"
    then some argon2
    else if config.password_hasher == "pbkdf2"
    then some pbkdf2
    else none

-- The settings that the token service, the issuer of links and the use cases are built with.
unfoldable pub settings_of : Config → Settings
unfolding login_ip_policy login_account_policy register_ip_policy forgot_password_email_policy
    forgot_password_ip_policy reset_password_ip_policy
settings_of config = record {
  access_expire_minutes = config.access_token_expire_minutes;
  refresh_expire_minutes = config.refresh_token_expire_minutes;
  login_ip_policy = login_ip_policy config;
  login_account_policy = login_account_policy config;
  register_ip_policy = register_ip_policy config;
  forgot_password_email_policy = forgot_password_email_policy config;
  forgot_password_ip_policy = forgot_password_ip_policy config;
  reset_password_ip_policy = reset_password_ip_policy config;
  verification_url = config.email_verification_url;
  verification_ttl_hours = config.email_verification_ttl_hours;
  reset_url = config.password_reset_url;
  reset_ttl_minutes = config.password_reset_ttl_minutes;
  default_role_name = config.default_role_name;
}
