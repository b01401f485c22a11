-- ===== src/Auth/ChangePassword.antt =====
-- usecases/change_password_usecase.py.
use video_site.Common.{ℕ, String, not, Option, none, some, [], ◌∷◌, ◌==◌, text_eq}
use video_site.Errors.{password_mismatch, user_not_found, invalid_credentials, validation}
use video_site.Entities.User.{User}
use video_site.Entities.SecurityToken.{TokenPurpose}
use video_site.Entities.Audit.{AuditAction, number}
use video_site.Database.Users
use video_site.Database.Tokens
use video_site.Database.Sessions
use video_site.Service.{
  External, DeviceInfo, ChangePassword, Action, ◌>>=◌, ◌>>◌, ask, pure, or_raise, raise_if, query,
  write, write_with, try_write_only, commit, cache_delete, transaction,
}
use video_site.Service.Steps.{utc_now, audit, user_cache_key}

module _ (ext : External) where
  -- `users.update_password`, with the salted hash of the new password.
  unfoldable pub set_password : User → String → Action (Unit {0})
  set_password user password = do
    password_hash ← ask (λ n. ext.hash_password n password)
    restamp ← ask ext.on_update
    try_write_only
        (λ db. Users.update_password db (record user { password_hash = password_hash }) restamp)

  -- `security_tokens.invalidate_for_user`, for reset links.
  unfoldable pub spend_reset_links : ℕ → Action (Unit {0})
  spend_reset_links user_id = do
    now ← utc_now ext
    write (λ db. Tokens.invalidate_for_user db user_id TokenPurpose.password_reset now)

  -- `sessions.revoke_all_for_user`, with the number of sessions revoked.
  unfoldable pub revoke_sessions : ℕ → Option String → Action ℕ
  revoke_sessions user_id except_jti = do
    now ← utc_now ext
    write_with (λ db. Sessions.revoke_all_for_user db user_id now except_jti)

  unfoldable pub replace_password : ℕ → ChangePassword → Option DeviceInfo → Action ℕ
  replace_password user_id input device = do
    account ← query (λ db. Users.get_by_id db user_id)
    user ← or_raise account user_not_found
    raise_if (not (ext.verify_password input.current_password user.password_hash))
        (invalid_credentials "Current password is incorrect")
    raise_if (input.current_password == input.new_password)
        (validation "The new password must differ from the current one")
    set_password user input.new_password
    spend_reset_links user_id
    revoked ← revoke_sessions user_id none
    audit ext AuditAction.password_changed (some user_id) device
        (("sessions_revoked", number revoked) ∷ [])
    commit
    pure revoked

  -- `ChangePasswordUseCase.__call__`.
  unfoldable pub change_password : ℕ → ChangePassword → Option DeviceInfo → Action ℕ
  change_password user_id input device = do
    raise_if (not (input.new_password == input.new_password_repeat)) password_mismatch
    revoked ← transaction (replace_password user_id input device)
    cache_delete (user_cache_key user_id)
    pure revoked
