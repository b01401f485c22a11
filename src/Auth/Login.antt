-- ===== src/Auth/Login.antt =====
-- usecases/login_usecase.py.
use video_site.Common.{ℕ, String, not, Option, none, some, [], ◌∷◌, ◌&&◌, fstring, if◌then◌else◌}
use video_site.Errors.{bad_login, rate_limited, account_locked}
use video_site.Entities.Datetime.{Datetime}
use video_site.Entities.User.{User}
use video_site.Entities.Session.{AuthSession}
use video_site.Entities.Audit.{AuditAction, Detail, text, null}
use video_site.Database.Users
use video_site.Database.Sessions
use video_site.RateLimit.{is_enforced}
use video_site.Service.{
  External, DeviceInfo, device_or_empty, Login, AuthResult, Action, ◌>>=◌, ◌>>◌, ask, pure, raise,
  raise_if, query, try_write_only, commit, transaction,
}
use video_site.Service.TokenService.{IssuedToken, issue_access, issue_refresh}
use video_site.Service.Steps.{utc_now, normalized, audit, limiter_hit, limiter_peek, limiter_reset}

-- `_account_key`, and the key of an address.
abbrev pub account_key : String → String
account_key email = fstring ("login:user:" ∷ email ∷ [])

abbrev pub ip_key : String → String
ip_key ip = fstring ("login:ip:" ∷ ip ∷ [])

-- The pair of tokens as it is handed back; `refresh` returns the same.
abbrev pub auth_result : User → IssuedToken → IssuedToken → AuthResult
auth_result user access refresh = record {
  tokens = record {
    access_token = access.token;
    refresh_token = refresh.token;
    token_type = "bearer";
    access_expires_at = access.expires_at;
    refresh_expires_at = refresh.expires_at;
  };
  user = user;
}

-- The `reason` of a failed login.
unfoldable pub failure_reason : Option User → String
failure_reason none = "unknown_account"
failure_reason (some user) = if not user.is_active then "inactive" else "bad_password"

abbrev pub id_of : Option User → Option ℕ
id_of none = none
id_of (some user) = some user.id

abbrev pub text_or_null : Option String → Detail
text_or_null none = null
text_or_null (some s) = text s

-- The session that a login opens.
abbrev pub login_session : User → String → Datetime → Datetime → DeviceInfo → AuthSession
login_session user jti now expires_at device = record {
  id = 0;
  user_id = user.id;
  jti = jti;
  created_at = now;
  expires_at = expires_at;
  revoked_at = none;
  visitor_id = device.visitor_id;
  user_agent = device.user_agent;
  ip_address = device.ip_address;
  device = device.device;
  last_seen_at = some now;
}

module _ (ext : External) where
  -- The account, if it is there, active, and the password is its own.
  unfoldable pub admitted : Option User → String → Option User
  admitted none password = none
  admitted (some user) password =
      if user.is_active && ext.verify_password password user.password_hash then some user else none

  -- `_guard_ip`, on the address of the device.
  unfoldable pub guard_ip : Option String → Action (Unit {0})
  guard_ip none = pure tt
  guard_ip (some ip) = if not (is_enforced ext.settings.login_ip_policy) then pure tt else do
    decision ← limiter_peek ext (ip_key ip) ext.settings.login_ip_policy
    raise_if (not decision.allowed)
        (rate_limited decision.retry_after_seconds "Too many login attempts from this address")

  -- `_guard_account`.
  unfoldable pub guard_account : String → Action (Unit {0})
  guard_account email = if not (is_enforced ext.settings.login_account_policy) then pure tt else do
    decision ← limiter_peek ext (account_key email) ext.settings.login_account_policy
    raise_if (not decision.allowed) (account_locked decision.retry_after_seconds)

  -- `_count_failure`, for the address and then for the account.
  unfoldable pub count_ip_failure : Option String → Action (Unit {0})
  count_ip_failure none = pure tt
  count_ip_failure (some ip) =
      if is_enforced ext.settings.login_ip_policy
      then limiter_hit ext (ip_key ip) ext.settings.login_ip_policy >>= (λ _. pure tt)
      else pure tt

  unfoldable pub count_account_failure : String → Action (Unit {0})
  count_account_failure email =
      if is_enforced ext.settings.login_account_policy
      then limiter_hit ext (account_key email) ext.settings.login_account_policy >>= (λ _. pure tt)
      else pure tt

  unfoldable pub count_failure : String → DeviceInfo → Action (Unit {0})
  unfolding count_ip_failure count_account_failure
  count_failure email device = do count_ip_failure device.ip_address; count_account_failure email

  -- The branch `if not valid`.
  unfoldable pub reject : Option User → String → DeviceInfo → Action AuthResult
  reject user email device = do
    count_failure email device
    audit ext AuditAction.login_failed (id_of user) (some device)
        (("email", text email) ∷ ("reason", text (failure_reason user)) ∷ [])
    commit
    raise bad_login

  -- The rest of the transaction, for a valid login.
  unfoldable pub open_session : User → DeviceInfo → Action AuthResult
  open_session user device = do
    jti ← ask ext.uuid4_hex
    access ← issue_access ext user.id jti
    refresh ← issue_refresh ext user.id jti
    now ← utc_now ext
    try_write_only (λ db. Sessions.add db (login_session user jti now refresh.expires_at device))
    audit ext AuditAction.login (some user.id) (some device)
        (("visitor_id", text_or_null device.visitor_id) ∷ [])
    commit
    pure (auth_result user access refresh)

  unfoldable pub check_credentials : String → String → DeviceInfo → Action AuthResult
  check_credentials email password device = do
    user ← query (λ db. Users.get_by_email db email)
    elim (admitted user password) [
      | none ↦ reject user email device
      | some valid ↦ open_session valid device
    ]

  -- `LoginUseCase.__call__`.
  unfoldable pub login : Login → Option DeviceInfo → Action AuthResult
  login credentials device? = do
    let device = device_or_empty device?
    let email = normalized ext credentials.email
    guard_ip device.ip_address
    guard_account email
    result ← transaction (check_credentials email credentials.password device)
    limiter_reset ext (account_key email)
    pure result
