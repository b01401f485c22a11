-- ===== src/Api/Routers/Users.antt =====
-- infrastructure/api/routers/users.py.
use video_site.Common.{ℕ, String, Bool, Option, none, some, List, [], ◌∷◌, if◌then◌else◌}
use video_site.Entities.Session.{AuthSession}
use video_site.Service.{External, UpdateUser, ChangePassword, Action, ◌>>=◌, ◌>>◌, pure}
use video_site.Service.Steps.{utc_now}
use video_site.Auth.ChangePassword
use video_site.Auth.UpdateUser
use video_site.Auth.DeleteUser
use video_site.Accounts
use video_site.Api.Config.{Config}
use video_site.Api.Csrf.{ApiRequest}
use video_site.Api.Cookies.{clear_tokens}
use video_site.Api.Dependencies.{get_current_jti, get_current_user, get_device_info}
use video_site.Api.Models.{
  UpdateProfileRequest, update_profile_fields, SessionSummary, ChangePasswordRequest,
  change_password_fields,
}
use video_site.Api.Serializers.{to_user_response, to_public_user_response, to_session_summary}
use video_site.Api.Routers.{
  Reply, reply, nothing, account, public_account, sessions, password_changed, revoked_sessions,
  checked,
}

-- The inputs that the handlers make of the bodies.
abbrev pub changes : UpdateProfileRequest → UpdateUser
changes body = record {
  username = body.username;
  display_name = body.display_name;
  email = body.email;
}

abbrev pub passwords : ChangePasswordRequest → ChangePassword
passwords body = record {
  current_password = body.current_password;
  new_password = body.new_password;
  new_password_repeat = body.new_password_repeat;
}

-- The session that is to be kept.
abbrev pub spared : Bool → String → Option String
spared keep_current current_jti = if keep_current then some current_jti else none

module _ (ext : External) (config : Config) where
  unfoldable pub read_me : ApiRequest → Action Reply
  read_me request = do
    user ← get_current_user ext config request
    pure (reply 200 (account (to_user_response user)) [])

  unfoldable pub update_me : UpdateProfileRequest → ApiRequest → Action Reply
  update_me body request = do
    user ← get_current_user ext config request
    checked (update_profile_fields body) (do
      updated ← UpdateUser.update_user ext user.id (changes body)
      pure (reply 200 (account (to_user_response updated)) []))

  unfoldable pub change_my_password : ChangePasswordRequest → ApiRequest → Action Reply
  change_my_password body request = do
    user ← get_current_user ext config request
    checked (change_password_fields body) (do
      revoked ←
          ChangePassword.change_password ext user.id (passwords body)
            (some (get_device_info request config))
      pure (
          reply 200
            (password_changed "Password updated. All sessions have been signed out." revoked)
            (clear_tokens config)))

  unfoldable pub delete_me : ApiRequest → Action Reply
  delete_me request = do
    user ← get_current_user ext config request
    DeleteUser.delete_user ext user.id (some (get_device_info request config))
    pure (reply 204 nothing (clear_tokens config))

  -- Each row reads the clock for its status.
  unfoldable pub summaries : Option String → List AuthSession → Action (List SessionSummary)
  summaries current_jti [] = pure []
  summaries current_jti (session ∷ rest) = do
    now ← utc_now ext
    others ← summaries current_jti rest
    pure (to_session_summary now current_jti session ∷ others)

  unfoldable pub list_my_sessions : ApiRequest → Action Reply
  list_my_sessions request = do
    user ← get_current_user ext config request
    current_jti ← get_current_jti ext config request
    found ← Accounts.list_user_sessions ext user.id
    rows ← summaries (some current_jti) found
    pure (reply 200 (sessions rows) [])

  unfoldable pub revoke_my_sessions : Bool → ApiRequest → Action Reply
  revoke_my_sessions keep_current request = do
    user ← get_current_user ext config request
    current_jti ← get_current_jti ext config request
    revoked ←
        Accounts.revoke_all_sessions ext user.id (spared keep_current current_jti)
          (some (get_device_info request config))
    pure (reply 200 (revoked_sessions revoked) (if keep_current then [] else clear_tokens config))

  unfoldable pub revoke_my_session : ℕ → ApiRequest → Action Reply
  revoke_my_session session_id request = do
    user ← get_current_user ext config request
    Accounts.revoke_user_session ext user.id session_id (some (get_device_info request config))
    pure (reply 204 nothing [])

  unfoldable pub read_user : ℕ → ApiRequest → Action Reply
  read_user user_id request = do
    user ← Accounts.get_user_profile user_id
    pure (reply 200 (public_account (to_public_user_response user)) [])
