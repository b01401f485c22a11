-- ===== src/Auth/Register.antt =====
-- usecases/register_user_usecase.py.
use video_site.Common.{
  ℕ, String, true, false, not, Option, none, some, [], ◌∷◌, ◌==◌, text_eq, is_some, fstring, strip,
  if◌then◌else◌,
}
use video_site.Errors.{
  Error, rate_limited, password_mismatch, email_already_exists, username_already_exists,
}
use video_site.Entities.User.{User, Role}
use video_site.Entities.Audit.{AuditAction, text}
use video_site.Database.Users
use video_site.Database.Roles
use video_site.RateLimit.{RateLimitPolicy, is_enforced}
use video_site.Service.{
  External, DeviceInfo, device_or_empty, RegisterUser, Action, ◌>>=◌, ◌>>◌, ask, pure, raise_if,
  query, write, try_write, commit, transaction,
}
use video_site.Service.Steps.{normalized, audit, limiter_hit}
use video_site.Auth.Login.{text_or_null}
use video_site.Auth.Verification.{issue_verification, send_verification}

-- The account that a signup asks for.
abbrev pub new_user : RegisterUser → String → String → String → User
new_user input email username password_hash = record {
  id = 0;
  email = email;
  username = username;
  password_hash = password_hash;
  display_name = input.display_name;
  is_active = true;
  is_superuser = false;
  email_verified_at = none;
  visitor_id = input.visitor_id;
  created_at = none;
  updated_at = none;
  roles = [];
}

-- The default role, if there is one.
unfoldable pub grant_default : ℕ → Option Role → Action (Unit {0})
grant_default user_id none = pure tt
grant_default user_id (some role) = write (λ db. Users.assign_role db user_id role.id)

-- `stored if stored is not None else created`.
abbrev pub stored_or : User → Option User → User
stored_or created none = created
stored_or created (some stored) = stored

module _ (ext : External) where
  -- A charge to a key of an address, under a policy that may be off; `register`, `reset_password`
  -- and `forgot_password` guard their address so.
  unfoldable pub charge_address :
      RateLimitPolicy → String → (ℕ → Error) → Option String → Action (Unit {0})
  charge_address policy prefix refusal none = pure tt
  charge_address policy prefix refusal (some ip) = if not (is_enforced policy) then pure tt else do
    decision ← limiter_hit ext (fstring (prefix ∷ ip ∷ [])) policy
    raise_if (not decision.allowed) (refusal decision.retry_after_seconds)

  -- `users.add`, with the salted hash of the password.
  unfoldable pub add_user : RegisterUser → String → String → Action User
  add_user input email username = do
    password_hash ← ask (λ n. ext.hash_password n input.password)
    stamp ← ask ext.server_now
    try_write (λ db. Users.add db (new_user input email username password_hash) stamp)

  unfoldable pub create_account :
      RegisterUser → String → String → DeviceInfo → Action (User × String)
  create_account input email username device = do
    by_email ← query (λ db. Users.get_by_email db email)
    raise_if (is_some by_email) email_already_exists
    by_username ← query (λ db. Users.get_by_username db username)
    raise_if (is_some by_username) username_already_exists
    created ← add_user input email username
    default_role ← query (λ db. Roles.get_by_name db ext.settings.default_role_name)
    grant_default created.id default_role
    secret ← issue_verification ext created.id
    audit ext AuditAction.register (some created.id) (some device)
        (("username", text username) ∷ ("visitor_id", text_or_null input.visitor_id) ∷ [])
    commit
    stored ← query (λ db. Users.get_by_id db created.id)
    pure (stored_or created stored, secret)

  -- `RegisterUserUseCase.__call__`.
  unfoldable pub register : RegisterUser → Option DeviceInfo → Action User
  register input device? = do
    let device = device_or_empty device?
    let email = normalized ext input.email
    charge_address ext.settings.register_ip_policy "register:ip:"
        (λ n. rate_limited n "Too many accounts created from this address") device.ip_address
    raise_if (not (input.password == input.password_repeat)) password_mismatch
    made ← transaction (create_account input email (strip input.username) device)
    send_verification ext email made.1
    pure made.0
