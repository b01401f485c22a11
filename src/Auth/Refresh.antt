-- ===== src/Auth/Refresh.antt =====
-- usecases/refresh_token_usecase.py.
use video_site.Common.{String, not, Option, none, some, ◌==◌, text_eq, or_text, if◌then◌else◌}
use video_site.Errors.{authentication}
use video_site.Entities.Datetime.{Datetime}
use video_site.Entities.User.{User}
use video_site.Entities.Session.{AuthSession, is_valid}
use video_site.Database.Users
use video_site.Database.Sessions
use video_site.Service.{
  External, DeviceInfo, device_or_empty, AuthResult, Action, ◌>>=◌, ◌>>◌, ask, pure, or_raise,
  raise_if, query, write, try_write_only, commit, transaction,
}
use video_site.Service.TokenService.{TokenPayload, decode, issue_access, issue_refresh}
use video_site.Service.Steps.{utc_now}
use video_site.Auth.Login.{auth_result}

-- The session that takes the place of `old`: the device of the request where it is known.
abbrev pub rotated_session :
    User → AuthSession → String → Datetime → Datetime → DeviceInfo → AuthSession
rotated_session user old jti now expires_at device = record {
  id = 0;
  user_id = user.id;
  jti = jti;
  created_at = old.created_at;
  expires_at = expires_at;
  revoked_at = none;
  visitor_id = or_text device.visitor_id old.visitor_id;
  user_agent = or_text device.user_agent old.user_agent;
  ip_address = or_text device.ip_address old.ip_address;
  device = or_text device.device old.device;
  last_seen_at = some now;
}

-- `user is None or not user.is_active`, else the account.
unfoldable pub active_only : Option User → Option User
active_only none = none
active_only (some user) = if user.is_active then some user else none

-- `session is None or not session.is_valid()`, else the session.
unfoldable pub valid_only : Option AuthSession → Datetime → Option AuthSession
valid_only none now = none
valid_only (some session) now = if is_valid session now then some session else none

module _ (ext : External) where
  -- The end of the transaction: the old session is revoked and a new one takes its place.
  unfoldable pub rotate : User → AuthSession → String → DeviceInfo → Action AuthResult
  rotate user session jti device = do
    now ← utc_now ext
    write (λ db. Sessions.revoke db jti now)
    new_jti ← ask ext.uuid4_hex
    access ← issue_access ext user.id new_jti
    refresh ← issue_refresh ext user.id new_jti
    try_write_only
        (λ db. Sessions.add db (rotated_session user session new_jti now refresh.expires_at device))
    commit
    pure (auth_result user access refresh)

  unfoldable pub exchange : TokenPayload → DeviceInfo → Action AuthResult
  exchange payload device = do
    found ← query (λ db. Sessions.get_by_jti db payload.jti)
    moment ← utc_now ext
    session ←
        or_raise (valid_only found moment) (authentication "Refresh session is no longer valid")
    account ← query (λ db. Users.get_by_id db payload.user_id)
    user ← or_raise (active_only account) (authentication "User is inactive or missing")
    rotate user session payload.jti device

  -- `RefreshTokenUseCase.__call__`.
  unfoldable pub refresh : String → Option DeviceInfo → Action AuthResult
  refresh refresh_token device? = do
    let device = device_or_empty device?
    payload ← decode ext refresh_token
    raise_if (not (payload.token_type == "refresh")) (authentication "A refresh token is required")
    transaction (exchange payload device)
