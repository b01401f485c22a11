-- ===== src/Auth/DeleteUser.antt =====
-- usecases/delete_user_usecase.py.
use video_site.Common.{ℕ, false, Option, none, some, [], ◌∷◌}
use video_site.Errors.{user_not_found}
use video_site.Entities.Audit.{AuditAction, text, number}
use video_site.Database.Users
use video_site.Service.{
  External, DeviceInfo, Action, ◌>>=◌, ◌>>◌, or_raise, query, commit, cache_delete, transaction,
}
use video_site.Service.Steps.{audit, user_cache_key}
use video_site.Auth.Verification.{update_user_row}
use video_site.Auth.ChangePassword.{revoke_sessions}

module _ (ext : External) where
  unfoldable pub deactivate : ℕ → Option DeviceInfo → Action (Unit {0})
  deactivate user_id device = do
    account ← query (λ db. Users.get_by_id db user_id)
    user ← or_raise account user_not_found
    updated ← update_user_row ext (record user { is_active = false })
    revoked ← revoke_sessions ext user_id none
    audit ext AuditAction.user_banned (some user_id) device
        (("reason", text "self_deactivated") ∷ ("sessions_revoked", number revoked) ∷ [])
    commit

  -- `DeleteUserUseCase.__call__`.
  unfoldable pub delete_user : ℕ → Option DeviceInfo → Action (Unit {0})
  delete_user user_id device = do
    transaction (deactivate user_id device)
    cache_delete (user_cache_key user_id)
