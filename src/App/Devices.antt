-- ===== src/App/Devices.antt =====
-- Signing out the other devices keeps the device that asks.
use video_site.Common.{
  String, Bool, true, false, not, ◌≡◌, none, some, ◌==◌, nat_eq, text_eq, arith, ◌&&◌,
  if◌then◌else◌,
}
use video_site.Errors.{ok}
use video_site.Entities.Datetime.{utc}
use video_site.Entities.User.{User}
use video_site.Entities.Session.{AuthSession, is_revoked}
use video_site.Database.Sessions.{get_by_jti, revoked_session}
use video_site.Service.{External, World}
use video_site.Service.TokenService.{decode}
use video_site.Theorems.Widths.{FitsAudit}
use video_site.Theorems.Accounts.{revoke_all_sessions_scope}
use video_site.Api.Config.{Config}
use video_site.Api.Csrf.{ApiRequest}
use video_site.Api.Dependencies.{get_current_user, get_current_jti, get_device_info}
use video_site.Api.Routers.Users.{revoke_my_sessions}
use video_site.App.Refusals.{get_current_user_db}

module _ (ext : External) (config : Config) where
  get_current_jti_db :
      (request : ApiRequest) (w : World) → (get_current_jti ext config request w).1.db ≡ w.db
  unfolding get_current_jti decode
  get_current_jti_db request w = grind arith

  -- Where the caller is authenticated and its token names a session, signing out with
  -- `keep_current` leaves that session as it was, and revokes every other session of the account
  -- that was not revoked; without it, that session is revoked too if it is the account's. Sessions
  -- of other accounts stay as they were either way. The address and the user agent of the caller
  -- must fit the columns of the audit log.
  pub revoke_my_sessions_effect :
      (keep : Bool) (request : ApiRequest) (w w1 w2 : World) (user : User) (current jti : String)
      (s : AuthSession)
      → get_current_user ext config request w ≡ (ok user, w1)
      → get_current_jti ext config request w1 ≡ (ok current, w2)
      → get_by_jti w.db jti ≡ some s
      → FitsAudit (get_device_info request config)
      → get_by_jti (revoke_my_sessions ext config keep request w).1.db jti
        ≡ some (
            if s.user_id == user.id && not (is_revoked s) && not (keep && s.jti == current)
            then revoked_session (utc (ext.utc_now w2.calls)) s
            else s)
  unfolding revoke_my_sessions
  revoke_my_sessions_effect true request w w1 w2 user current jti s who which found fit = grind (
    arith,
    get_current_user_db ext config request w,
    get_current_jti_db request w1,
    revoke_all_sessions_scope ext user.id (some current) (some (get_device_info request config)) w2
        jti s,
  )
  revoke_my_sessions_effect false request w w1 w2 user current jti s who which found fit = grind (
    arith,
    get_current_user_db ext config request w,
    get_current_jti_db request w1,
    revoke_all_sessions_scope ext user.id none (some (get_device_info request config)) w2 jti s,
  )
