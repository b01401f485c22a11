-- ===== src/Accounts.antt =====
-- application/users: the profile and the devices of an account.
use video_site.Common.{ℕ, String, Option, none, some, List, [], ◌∷◌, ◌==◌, nat_eq, if◌then◌else◌}
use video_site.Errors.{user_not_found, session_not_found}
use video_site.Entities.User.{User}
use video_site.Entities.Session.{AuthSession}
use video_site.Entities.Audit.{AuditAction, text, number}
use video_site.Database.Users
use video_site.Database.Sessions
use video_site.Service.{
  External, DeviceInfo, Action, ◌>>=◌, ◌>>◌, pure, or_raise, query, write, commit, transaction,
}
use video_site.Service.Steps.{utc_now, audit}
use video_site.Auth.Refresh.{active_only}
use video_site.Auth.ChangePassword.{revoke_sessions}

-- `GetUserProfileUseCase.__call__`: an account that is not active is not found.
unfoldable pub get_user_profile : ℕ → Action User
get_user_profile user_id = transaction (do
  account ← query (λ db. Users.get_by_id db user_id)
  or_raise (active_only account) user_not_found)

-- The caller's session, and nobody else's.
unfoldable pub own_session : ℕ → Option AuthSession → Option AuthSession
own_session user_id none = none
own_session user_id (some session) = if session.user_id == user_id then some session else none

-- The `scope` of an event.
abbrev pub scope_of : Option String → String
scope_of none = "all"
scope_of (some _) = "others"

module _ (ext : External) where
  -- `ListUserSessionsUseCase.__call__`.
  unfoldable pub list_user_sessions : ℕ → Action (List AuthSession)
  list_user_sessions user_id =
      transaction (do now ← utc_now ext; query (λ db. Sessions.list_active_for_user db user_id now))

  unfoldable pub sign_out : ℕ → Option String → Option DeviceInfo → Action ℕ
  sign_out user_id except_jti device = do
    revoked ← revoke_sessions ext user_id except_jti
    audit ext AuditAction.session_revoked (some user_id) device
        (("scope", text (scope_of except_jti)) ∷ ("sessions_revoked", number revoked) ∷ [])
    commit
    pure revoked

  -- `RevokeAllSessionsUseCase.__call__`.
  unfoldable pub revoke_all_sessions : ℕ → Option String → Option DeviceInfo → Action ℕ
  revoke_all_sessions user_id except_jti device = transaction (sign_out user_id except_jti device)

  unfoldable pub sign_out_one : ℕ → ℕ → Option DeviceInfo → Action (Unit {0})
  sign_out_one user_id session_id device = do
    found ← query (λ db. Sessions.get_by_id db session_id)
    session ← or_raise (own_session user_id found) session_not_found
    now ← utc_now ext
    write (λ db. Sessions.revoke db session.jti now)
    audit ext AuditAction.session_revoked (some user_id) device
        (("scope", text "one") ∷ ("session_id", number session_id) ∷ [])
    commit

  -- `RevokeUserSessionUseCase.__call__`.
  unfoldable pub revoke_user_session : ℕ → ℕ → Option DeviceInfo → Action (Unit {0})
  revoke_user_session user_id session_id device =
      transaction (sign_out_one user_id session_id device)
