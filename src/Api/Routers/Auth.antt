-- ===== src/Api/Routers/Auth.antt =====
-- infrastructure/api/routers/auth.py.
use video_site.Common.{String, Option, none, some, [], or_text, truthy?, leb, if◌then◌else◌}
use video_site.Errors.{authentication}
use video_site.Service.{
  External, RegisterUser, Login, ResetPassword, Action, ◌>>=◌, ◌>>◌, lift, or_raise, pure,
}
use video_site.Auth.Register
use video_site.Auth.Login
use video_site.Auth.Refresh
use video_site.Auth.Logout
use video_site.Auth.Verification
use video_site.Auth.Recovery
use video_site.Api.Config.{Config, len}
use video_site.Api.Csrf.{ApiRequest}
use video_site.Api.Cookies.{read_refresh_token, clear_tokens}
use video_site.Api.Dependencies.{get_access_token, get_current_user, get_device_info}
use video_site.Api.Models.{
  RegisterRequest, register_fields, LoginRequest, RefreshRequest, ForgotPasswordRequest,
  ResetPasswordRequest, reset_password_fields,
}
use video_site.Api.Serializers.{to_user_response}
use video_site.Api.Routers.{Reply, reply, nothing, message, account, checked, to_session_response}

-- `not refresh_token`, for the token of the cookie or else of the body.
abbrev pub given : Option String → Option String
given token = if truthy? token then token else none

abbrev pub token_of : Option RefreshRequest → Option String
token_of none = none
token_of (some body) = body.refresh_token

-- The inputs that the handlers make of the bodies.
abbrev pub new_account : RegisterRequest → Option String → RegisterUser
new_account body visitor_id = record {
  email = body.email;
  username = body.username;
  password = body.password;
  password_repeat = body.password_repeat;
  display_name = body.display_name;
  visitor_id = visitor_id;
}

abbrev pub credentials : LoginRequest → Login
credentials body = record { email = body.email; password = body.password }

abbrev pub new_password : ResetPasswordRequest → ResetPassword
new_password body = record {
  token = body.token;
  password = body.password;
  password_repeat = body.password_repeat;
}

module _ (ext : External) (config : Config) where
  unfoldable pub register : RegisterRequest → ApiRequest → Action Reply
  register body request = checked (register_fields body) (do
    user ←
        Register.register ext (new_account body request.visitor_id)
          (some (get_device_info request config))
    pure (reply 201 (account (to_user_response user)) []))

  unfoldable pub login : LoginRequest → ApiRequest → Action Reply
  login body request = do
    result ← Login.login ext (credentials body) (some (get_device_info request config))
    to_session_response ext config result

  unfoldable pub refresh : Option RefreshRequest → ApiRequest → Action Reply
  refresh body request = do
    refresh_token ←
        or_raise (given (or_text (read_refresh_token config request) (token_of body)))
          (authentication "Missing refresh token")
    result ← Refresh.refresh ext refresh_token (some (get_device_info request config))
    to_session_response ext config result

  unfoldable pub logout : ApiRequest → Action Reply
  logout request = do
    token ← lift (get_access_token request config)
    _ ← get_current_user ext config request
    Logout.logout ext token (some (get_device_info request config))
    pure (reply 204 nothing (clear_tokens config))

  unfoldable pub verify_email : String → ApiRequest → Action Reply
  verify_email token request = checked (leb 1 (len token)) (do
    user ← Verification.verify_email ext token (some (get_device_info request config))
    pure (reply 200 (account (to_user_response user)) []))

  unfoldable pub forgot_password : ForgotPasswordRequest → ApiRequest → Action Reply
  forgot_password body request = do
    Recovery.forgot_password ext body.email (some (get_device_info request config))
    pure (reply 200 (message "If that address has an account, a reset link is on its way.") [])

  unfoldable pub reset_password : ResetPasswordRequest → ApiRequest → Action Reply
  reset_password body request = checked (reset_password_fields body) (do
    Recovery.reset_password ext (new_password body) (some (get_device_info request config))
    pure (reply 200 (message "Password updated. All sessions have been signed out.") []))

  unfoldable pub read_me : ApiRequest → Action Reply
  read_me request = do
    user ← get_current_user ext config request
    pure (reply 200 (account (to_user_response user)) [])
