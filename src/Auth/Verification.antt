-- ===== src/Auth/Verification.antt =====
-- services/email_verification_issuer.py and usecases/verify_email_usecase.py.
use video_site.Common.{ℕ, String, Option, none, some, [], ◌∷◌, fstring, str, if◌then◌else◌}
use video_site.Errors.{invalid_token}
use video_site.Entities.Datetime.{Datetime, add_hours}
use video_site.Entities.User.{User, is_email_verified}
use video_site.Entities.SecurityToken.{SecurityToken, TokenPurpose, email_verification, is_usable}
use video_site.Entities.Audit.{AuditAction, text}
use video_site.Database.Users
use video_site.Database.Tokens
use video_site.Service.{
  External, DeviceInfo, Action, ◌>>=◌, ◌>>◌, ask, pure, or_raise, query, write, try_write,
  try_write_only, commit, cache_delete, send_email, transaction,
}
use video_site.Service.TokenService.{generate}
use video_site.Service.Steps.{utc_now, audit, user_cache_key}
use video_site.Auth.Refresh.{active_only}

-- The row of a fresh token.
abbrev pub fresh_token : ℕ → TokenPurpose → String → Datetime → Datetime → SecurityToken
fresh_token user_id purpose token_hash now expires_at = record {
  id = 0;
  user_id = user_id;
  purpose = purpose;
  token_hash = token_hash;
  created_at = now;
  expires_at = expires_at;
  used_at = none;
}

-- `stored is None or not stored.is_usable()`, else the token.
unfoldable pub usable_only : Option SecurityToken → Datetime → Option SecurityToken
usable_only none now = none
usable_only (some token) now = if is_usable token now then some token else none

module _ (ext : External) where
  -- `EmailVerificationIssuer.issue`.
  unfoldable pub issue_verification : ℕ → Action String
  issue_verification user_id = do
    moment ← utc_now ext
    write (λ db. Tokens.invalidate_for_user db user_id email_verification moment)
    secret ← generate ext
    now ← utc_now ext
    try_write_only (λ db. Tokens.add db (
        fresh_token user_id email_verification secret.hashed now
          (add_hours now ext.settings.verification_ttl_hours)))
    pure secret.plain

  -- `EmailVerificationIssuer.send`.
  unfoldable pub send_verification : String → String → Action (Unit {0})
  send_verification email secret = send_email (record {
    to = email;
    subject = "Confirm your email address";
    body = fstring (
        "Confirm your email address to finish setting up your account:\n\n"
        ∷ ext.format_token ext.settings.verification_url secret
        ∷ "\n\nThe link expires in "
        ∷ str ext.settings.verification_ttl_hours
        ∷ " hours."
        ∷ []);
  })

  -- `users.update` in the open transaction.
  unfoldable pub update_user_row : User → Action User
  update_user_row user = do
    restamp ← ask ext.on_update
    try_write (λ db. Users.update db user restamp)

  -- A first confirmation is stamped; an account that is confirmed keeps its stamp.
  unfoldable pub stamp_verified : User → Action User
  stamp_verified user =
      if is_email_verified user
      then pure user
      else do now ← utc_now ext; update_user_row (record user { email_verified_at = some now })

  unfoldable pub spend_verification : String → Option DeviceInfo → Action User
  spend_verification token_hash device = do
    found ← query (λ db. Tokens.get_by_hash db token_hash email_verification)
    moment ← utc_now ext
    stored ← or_raise (usable_only found moment) invalid_token
    account ← query (λ db. Users.get_by_id db stored.user_id)
    user ← or_raise (active_only account) invalid_token
    now ← utc_now ext
    write (λ db. Tokens.mark_used db stored now)
    verified ← stamp_verified user
    audit ext AuditAction.email_verified (some verified.id) device
        (("email", text verified.email) ∷ [])
    commit
    pure verified

  -- `VerifyEmailUseCase.__call__`.
  unfoldable pub verify_email : String → Option DeviceInfo → Action User
  verify_email token device = do
    user ← transaction (spend_verification (ext.sha256_hex token) device)
    cache_delete (user_cache_key user.id)
    pure user
