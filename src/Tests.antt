-- ===== src/Tests.antt =====
-- A small deployment to try the development on: two accounts, their sessions and tokens, and
-- concrete functions in the place of what comes from outside. The children hold the tests and
-- the examples of the theorems.
pub mod Sessions
pub mod Accounts
pub mod Admission
pub mod Requests
pub mod Limits
pub mod Gateway
pub mod Api
pub mod Cookies
pub mod App
pub mod Cached
pub mod Pbkdf2
pub mod Seeded
pub mod Signup
pub mod Recovered
pub mod Guesses
pub mod Redis
use Prim.Native.String.{◌++◌ as join}
use video_site.Common.{
  ℕ, ◌+◌, ◌*◌, String, Bool, true, false, Option, none, some, List, [], ◌∷◌, ◌==◌, text_eq, str,
  if◌then◌else◌,
}
use video_site.Entities.Datetime.{utc}
use video_site.Entities.User.{User}
use video_site.Entities.Session.{AuthSession}
use video_site.Entities.SecurityToken.{SecurityToken, TokenPurpose}
use video_site.Database.{Db, UserRow}
use video_site.RateLimit.{RateLimitPolicy, second}
use video_site.Service.{
  External, Settings, Claim, Claims, Decoded, claim, invalid, decoded, DeviceInfo, World,
}

abbrev pub policy : ℕ → RateLimitPolicy
policy limit = record { limit = limit; window_seconds = 900 }

abbrev pub settings : Settings
settings = record {
  access_expire_minutes = 15;
  refresh_expire_minutes = 43_200;
  login_ip_policy = policy 30;
  login_account_policy = policy 2;
  register_ip_policy = policy 10;
  forgot_password_email_policy = policy 3;
  forgot_password_ip_policy = policy 10;
  reset_password_ip_policy = policy 10;
  verification_url = "/verify?token=";
  verification_ttl_hours = 24;
  reset_url = "/reset?token=";
  reset_ttl_minutes = 30;
  default_role_name = "user";
}

abbrev claims : String → String → Claims
claims jti token_type = record {
  sub = claim 1;
  jti = claim jti;
  token_type = claim token_type;
  exp = claim 1_000;
}

-- An access and a refresh token of the first session.
abbrev decode_sample : String → Decoded
decode_sample token =
    if token == "access-1"
    then decoded (claims "jti-1" "access")
    else if token == "refresh-1"
    then decoded (claims "jti-1" "refresh")
    else invalid

abbrev pub sample : External
sample = record {
  utc_now = λ n. 1_000_000 + n;
  monotonic = λ n. n * second;
  server_now = λ n. utc n;
  on_update = λ n old. some (utc n);
  uuid4_hex = λ n. join "new-" (str n);
  token_urlsafe = λ n. join "secret-" (str n);
  sha256_hex = λ s. join "#" s;
  hash_password = λ n p. join "hashed:" p;
  verify_password = λ p h. join "hashed:" p == h;
  jwt_encode = λ c. "signed";
  jwt_decode = λ n token. decode_sample token;
  lower = λ s. s;
  format_token = λ template token. join template token;
  cache_holds = λ n. true;
  settings = settings;
}

abbrev pub device : DeviceInfo
device = record {
  visitor_id = some "browser";
  user_agent = some "agent";
  ip_address = some "10.0.0.1";
  device = none;
}

abbrev account : ℕ → String → String → UserRow
account id email username = record {
  id = id;
  email = email;
  username = username;
  password_hash = "hashed:old";
  display_name = none;
  is_active = true;
  is_superuser = false;
  email_verified_at = none;
  visitor_id = some "browser";
  created_at = some (utc 0);
  updated_at = some (utc 0);
}

abbrev pub session : ℕ → ℕ → String → AuthSession
session id user_id jti = record {
  id = id;
  user_id = user_id;
  jti = jti;
  created_at = utc 0;
  expires_at = utc 2_000_000;
  revoked_at = none;
  visitor_id = none;
  user_agent = none;
  ip_address = none;
  device = none;
  last_seen_at = none;
}

abbrev pub reset_link : SecurityToken
reset_link = record {
  id = 6;
  user_id = 1;
  purpose = TokenPurpose.password_reset;
  token_hash = "#link";
  created_at = utc 0;
  expires_at = utc 2_000_000;
  used_at = none;
}

abbrev pub tables : Db
tables = record {
  users = account 1 "ann@x" "ann" ∷ account 2 "bob@x" "bob" ∷ [];
  roles = [];
  permissions = [];
  user_roles = [];
  role_permissions = [];
  sessions = session 3 1 "jti-1" ∷ session 4 1 "jti-2" ∷ session 5 2 "jti-3" ∷ [];
  security_tokens = reset_link ∷ [];
  audit_log = [];
  next_id = 7;
}

abbrev pub world : World
world = record { db = tables; work = tables; counters = []; cache = []; outbox = []; calls = 0 }

-- An account as the repository reads it.
abbrev pub user_of : ℕ → String → String → User
user_of id email username = record {
  id = id;
  email = email;
  username = username;
  password_hash = "hashed:old";
  display_name = none;
  is_active = true;
  is_superuser = false;
  email_verified_at = none;
  visitor_id = some "browser";
  created_at = some (utc 0);
  updated_at = some (utc 0);
  roles = [];
}
