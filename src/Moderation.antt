-- ===== src/Moderation.antt =====
-- application/moderation: usecases/ban_user_usecase.py and unban_user_usecase.py.
use video_site.Common.{
  ℕ, String, Bool, true, false, not, Option, none, some, [], ◌∷◌, ◌==◌, nat_eq, if◌then◌else◌,
}
use video_site.Errors.{user_not_found, authorization, validation}
use video_site.Entities.User.{User}
use video_site.Entities.Audit.{AuditAction, number}
use video_site.Database.Users
use video_site.Service.{
  External, DeviceInfo, Action, ◌>>=◌, ◌>>◌, pure, or_raise, raise_if, query, commit, cache_delete,
  transaction,
}
use video_site.Service.Steps.{audit, user_cache_key}
use video_site.Auth.Login.{text_or_null}
use video_site.Auth.Verification.{update_user_row}
use video_site.Auth.ChangePassword.{revoke_sessions}

-- What a block hands back: the account, and whether it went on past an early return.
abbrev pub Outcome : Type 0
Outcome = User × Bool

module _ (ext : External) where
  unfoldable pub apply_ban : User → User → ℕ → Option String → Option DeviceInfo → Action Outcome
  apply_ban actor target target_id reason device = do
    banned ← update_user_row ext (record target { is_active = false })
    revoked ← revoke_sessions ext target_id none
    audit ext AuditAction.user_banned (some target_id) device (
        ("actor_id", number actor.id)
        ∷ ("reason", text_or_null reason)
        ∷ ("sessions_revoked", number revoked)
        ∷ [])
    commit
    pure (banned, true)

  unfoldable pub ban_target : User → ℕ → Option String → Option DeviceInfo → Action Outcome
  ban_target actor target_id reason device = do
    account ← query (λ db. Users.get_by_id db target_id)
    target ← or_raise account user_not_found
    raise_if target.is_superuser (authorization "Superusers cannot be banned")
    if not target.is_active
        then pure (target, false)
        else apply_ban actor target target_id reason device

  -- An early return skips the cache too.
  abbrev pub forget : Outcome → ℕ → Action User
  forget (user, changed) user_id =
      if changed then cache_delete (user_cache_key user_id) >> pure user else pure user

  -- `BanUserUseCase.__call__`.
  unfoldable pub ban_user : User → ℕ → Option String → Option DeviceInfo → Action User
  ban_user actor target_id reason device = do
    raise_if (actor.id == target_id) (validation "You cannot ban your own account")
    outcome ← transaction (ban_target actor target_id reason device)
    forget outcome target_id

  unfoldable pub apply_unban : User → User → ℕ → Option DeviceInfo → Action Outcome
  apply_unban actor target target_id device = do
    restored ← update_user_row ext (record target { is_active = true })
    audit ext AuditAction.user_unbanned (some target_id) device (("actor_id", number actor.id) ∷ [])
    commit
    pure (restored, true)

  unfoldable pub unban_target : User → ℕ → Option DeviceInfo → Action Outcome
  unban_target actor target_id device = do
    account ← query (λ db. Users.get_by_id db target_id)
    target ← or_raise account user_not_found
    if target.is_active then pure (target, false) else apply_unban actor target target_id device

  -- `UnbanUserUseCase.__call__`.
  unfoldable pub unban_user : User → ℕ → Option DeviceInfo → Action User
  unban_user actor target_id device = do
    outcome ← transaction (unban_target actor target_id device)
    forget outcome target_id
