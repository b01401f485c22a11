-- ===== src/Api/Models.antt =====
-- infrastructure/api/models: the bodies of requests with the checks of their fields, and the
-- bodies of answers. An address is the text that `EmailStr` accepted.
use Prim.Native.String.{[] as empty, ◌∷◌ as cons}
use Prim.Native.Char.{code}
use video_site.Common.{
  ℕ, String, Bool, true, Option, none, some, List, ◌&&◌, ◌||◌, ◌==◌, nat_eq, leb,
}
use video_site.Entities.Datetime.{Datetime}
use video_site.Entities.Session.{SessionStatus}
use video_site.Api.Config.{len}

-- `Field(min_length=…, max_length=…)`.
abbrev pub has_length : ℕ → ℕ → String → Bool
has_length least most s = leb least (len s) && leb (len s) most

-- A field that may be left out.
abbrev pub when_there : (String → Bool) → Option String → Bool
when_there accepts none = true
when_there accepts (some s) = accepts s

abbrev pub at_most : ℕ → Option String → Bool
at_most most = when_there (λ s. leb (len s) most)

-- `[a-zA-Z0-9_]`.
abbrev is_handle_code : ℕ → Bool
is_handle_code c =
    (leb b'a' c && leb c b'z')
    || (leb b'A' c && leb c b'Z')
    || (leb b'0' c && leb c b'9')
    || c == b'_'

abbrev pub is_handle : String → Bool
is_handle empty = true
is_handle (cons c s) = is_handle_code (code c) && is_handle s

-- `USERNAME_PATTERN`.
unfoldable pub username_pattern : String → Bool
username_pattern s = is_handle s && has_length 3 30 s

-- `PASSWORD_MIN_LENGTH` and `PASSWORD_MAX_LENGTH`.
unfoldable pub is_password : String → Bool
is_password = has_length 8 128

pub record RegisterRequest : Type 0 where
  pub email : String
  pub username : String
  pub password : String
  pub password_repeat : String
  pub display_name : Option String

unfoldable pub register_fields : RegisterRequest → Bool
unfolding username_pattern is_password
register_fields body =
    username_pattern body.username
    && is_password body.password
    && is_password body.password_repeat
    && at_most 100 body.display_name

pub record UpdateProfileRequest : Type 0 where
  pub username : Option String
  pub display_name : Option String
  pub email : Option String

unfoldable pub update_profile_fields : UpdateProfileRequest → Bool
unfolding username_pattern
update_profile_fields body =
    when_there username_pattern body.username && at_most 100 body.display_name

pub record LoginRequest : Type 0 where
  pub email : String
  pub password : String

pub record RefreshRequest : Type 0 where
  pub refresh_token : Option String

pub record ForgotPasswordRequest : Type 0 where
  pub email : String

pub record ResetPasswordRequest : Type 0 where
  pub token : String
  pub password : String
  pub password_repeat : String

unfoldable pub reset_password_fields : ResetPasswordRequest → Bool
unfolding is_password
reset_password_fields body =
    leb 1 (len body.token) && is_password body.password && is_password body.password_repeat

pub record ChangePasswordRequest : Type 0 where
  pub current_password : String
  pub new_password : String
  pub new_password_repeat : String

unfoldable pub change_password_fields : ChangePasswordRequest → Bool
unfolding is_password
change_password_fields body =
    leb 1 (len body.current_password)
    && is_password body.new_password
    && is_password body.new_password_repeat

pub record BanUserRequest : Type 0 where
  pub reason : Option String

unfoldable pub ban_user_fields : BanUserRequest → Bool
ban_user_fields body = at_most 500 body.reason

pub record CreateRoleRequest : Type 0 where
  pub name : String
  pub description : Option String

unfoldable pub create_role_fields : CreateRoleRequest → Bool
create_role_fields body = has_length 1 100 body.name && at_most 255 body.description

pub record CreatePermissionRequest : Type 0 where
  pub resource : String
  pub action : String
  pub description : Option String

unfoldable pub create_permission_fields : CreatePermissionRequest → Bool
create_permission_fields body =
    has_length 1 100 body.resource && has_length 1 100 body.action && at_most 255 body.description

pub record TokenResponse : Type 0 where
  pub access_token : String
  pub refresh_token : String
  pub token_type : String
  pub access_expires_at : Datetime
  pub refresh_expires_at : Datetime

pub record RoleSummary : Type 0 where
  pub id : ℕ
  pub name : String
  pub description : Option String

pub record UserResponse : Type 0 where
  pub id : ℕ
  pub email : String
  pub username : String
  pub display_name : Option String
  pub is_active : Bool
  pub is_superuser : Bool
  pub email_verified : Bool
  pub email_verified_at : Option Datetime
  pub visitor_id : Option String
  pub created_at : Option Datetime
  pub roles : List RoleSummary
  pub permissions : List String

pub record PublicUserResponse : Type 0 where
  pub id : ℕ
  pub username : String
  pub display_name : Option String
  pub created_at : Option Datetime

pub record SessionResponse : Type 0 where
  pub user : UserResponse
  pub csrf_token : Option String
  pub tokens : Option TokenResponse

pub record SessionSummary : Type 0 where
  pub id : ℕ
  pub status : SessionStatus
  pub created_at : Datetime
  pub expires_at : Datetime
  pub last_seen_at : Option Datetime
  pub user_agent : Option String
  pub ip_address : Option String
  pub device : Option String
  pub current : Bool

pub record PermissionResponse : Type 0 where
  pub id : ℕ
  pub resource : String
  pub action : String
  pub description : Option String

pub record RoleResponse : Type 0 where
  pub id : ℕ
  pub name : String
  pub description : Option String
  pub permissions : List PermissionResponse
