-- ===== src/Api/Routers.antt =====
-- infrastructure/api/routers: the handlers of the routes, each with what its route declares: the
-- dependencies in their order, the checks of the body, the status and the body of the answer.
--
-- The web framework resolves the dependencies before it refuses a body, and gives the handler's
-- response the cookies that were set on it. Ids in paths and bodies are natural numbers.
pub mod Auth
pub mod Users
pub mod Admin
pub mod Moderation
pub mod Health
use video_site.Common.{ℕ, String, Bool, Option, none, some, List, [], if◌then◌else◌}
use video_site.Service.{External, AuthResult, Action, ◌>>=◌, pure}
use video_site.Api.Config.{Config}
use video_site.Api.Cookies.{CookieCall, set_tokens}
use video_site.Api.Models.{
  UserResponse, PublicUserResponse, SessionResponse, SessionSummary, PermissionResponse,
  RoleResponse,
}
use video_site.Api.Serializers.{to_user_response, to_token_response}

pub data Body : Type 0 where
  nothing : Body
  message : String → Body
  account : UserResponse → Body
  public_account : PublicUserResponse → Body
  accounts : List UserResponse → Body
  session : SessionResponse → Body
  sessions : List SessionSummary → Body
  -- `PasswordChangedResponse` and `RevokedSessionsResponse`
  password_changed : String → ℕ → Body
  revoked_sessions : ℕ → Body
  role : RoleResponse → Body
  roles : List RoleResponse → Body
  permission : PermissionResponse → Body
  permissions : List PermissionResponse → Body
  fields : List (String × String) → Body

-- An answer of a handler, or the framework's refusal of the request's fields.
pub data Reply : Type 0 where
  unprocessable : Reply
  reply : ℕ → Body → List CookieCall → Reply

-- The rest of a handler, for a body whose fields are accepted.
abbrev pub checked : Bool → Action Reply → Action Reply
checked accepted handler = if accepted then handler else pure unprocessable

abbrev session_with : AuthResult → Option String × List CookieCall → Reply
session_with result (csrf_token, cookies) =
    reply 200
      (session
        (record { user = to_user_response result.user; csrf_token = csrf_token; tokens = none }))
      cookies

abbrev session_in_body : AuthResult → Reply
session_in_body result =
    reply 200
      (session (record {
        user = to_user_response result.user;
        csrf_token = none;
        tokens = some (to_token_response result.tokens);
      }))
      []

-- `_to_session_response` of routers/auth.py.
unfoldable pub to_session_response : External → Config → AuthResult → Action Reply
to_session_response ext config result =
    if config.cookie_auth_enabled
    then set_tokens config ext result.tokens >>= (λ given. pure (session_with result given))
    else pure (session_in_body result)
