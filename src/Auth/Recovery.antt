-- ===== src/Auth/Recovery.antt =====
-- usecases/forgot_password_usecase.py and reset_password_usecase.py.
use video_site.Common.{
  String, not, Option, none, some, [], ◌∷◌, ◌==◌, text_eq, fstring, str, if◌then◌else◌,
}
use video_site.Errors.{password_mismatch, invalid_token, too_many_requests}
use video_site.Entities.Datetime.{add_minutes}
use video_site.Entities.User.{User}
use video_site.Entities.SecurityToken.{TokenPurpose}
use video_site.Entities.Audit.{AuditAction, number}
use video_site.Database.Users
use video_site.Database.Tokens
use video_site.Database.Sessions
use video_site.RateLimit.{is_enforced}
use video_site.Service.{
  External, DeviceInfo, device_or_empty, ResetPassword, Action, ◌>>=◌, ◌>>◌, pure, or_raise,
  raise_if, query, write, write_with, try_write_only, commit, cache_delete, send_email, transaction,
}
use video_site.Service.TokenService.{generate}
use video_site.Service.Steps.{utc_now, normalized, audit, limiter_hit, user_cache_key}
use video_site.Auth.Refresh.{active_only}
use video_site.Auth.Verification.{fresh_token, usable_only}
use video_site.Auth.Register.{charge_address}
use video_site.Auth.ChangePassword.{set_password, spend_reset_links}

module _ (ext : External) where
  -- The cap on an address of the mail.
  unfoldable pub charge_email : String → Action (Unit {0})
  charge_email address =
      if not (is_enforced ext.settings.forgot_password_email_policy) then pure tt else do
        decision ←
            limiter_hit ext (fstring ("forgot-password:" ∷ address ∷ []))
              ext.settings.forgot_password_email_policy
        raise_if (not decision.allowed) (too_many_requests decision.retry_after_seconds)

  -- The transaction, on an account that is there and active: the secret to be mailed.
  unfoldable pub issue_reset : User → Action (Option String)
  issue_reset user = do
    spend_reset_links ext user.id
    secret ← generate ext
    now ← utc_now ext
    try_write_only (λ db. Tokens.add db (
        fresh_token user.id TokenPurpose.password_reset secret.hashed now
          (add_minutes now ext.settings.reset_ttl_minutes)))
    commit
    pure (some secret.plain)

  -- Nothing for an address without an account that is active.
  unfoldable pub prepare_reset : String → Action (Option String)
  prepare_reset address = do
    account ← query (λ db. Users.get_by_email db address)
    elim (active_only account) [ none ↦ pure none | some user ↦ issue_reset user ]

  -- The mail, if there is a secret to send.
  unfoldable pub send_reset : String → Option String → Action (Unit {0})
  send_reset address none = pure tt
  send_reset address (some secret) = send_email (record {
    to = address;
    subject = "Reset your password";
    body = fstring (
        "Someone asked to reset the password for this account.\n\n"
        ∷ ext.format_token ext.settings.reset_url secret
        ∷ "\n\nThe link expires in "
        ∷ str ext.settings.reset_ttl_minutes
        ∷ " minutes. If this was not you, you can ignore this email — nothing has changed."
        ∷ []);
  })

  -- `ForgotPasswordUseCase.__call__`.
  unfoldable pub forgot_password : String → Option DeviceInfo → Action (Unit {0})
  forgot_password email device? = do
    let address = normalized ext email
    charge_email address
    charge_address ext ext.settings.forgot_password_ip_policy "forgot-password:ip:"
        too_many_requests (device_or_empty device?).ip_address
    secret ← transaction (prepare_reset address)
    send_reset address secret

  unfoldable pub spend_reset : String → String → Option DeviceInfo → Action User
  spend_reset token_hash password device = do
    found ← query (λ db. Tokens.get_by_hash db token_hash TokenPurpose.password_reset)
    moment ← utc_now ext
    stored ← or_raise (usable_only found moment) invalid_token
    account ← query (λ db. Users.get_by_id db stored.user_id)
    user ← or_raise (active_only account) invalid_token
    now ← utc_now ext
    set_password ext user password
    used_at ← utc_now ext
    write (λ db. Tokens.mark_used db stored used_at)
    spend_reset_links ext user.id
    revoked ← write_with (λ db. Sessions.revoke_all_for_user db user.id now none)
    audit ext AuditAction.password_reset (some user.id) device
        (("sessions_revoked", number revoked) ∷ [])
    commit
    pure user

  -- `ResetPasswordUseCase.__call__`.
  unfoldable pub reset_password : ResetPassword → Option DeviceInfo → Action (Unit {0})
  reset_password input device? = do
    let device = device_or_empty device?
    charge_address ext ext.settings.reset_password_ip_policy "reset-password:ip:" too_many_requests
        device.ip_address
    raise_if (not (input.password == input.password_repeat)) password_mismatch
    user ← transaction (spend_reset (ext.sha256_hex input.token) input.password (some device))
    cache_delete (user_cache_key user.id)
