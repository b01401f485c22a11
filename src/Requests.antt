-- ===== src/Requests.antt =====
-- The requests that the service answers, one for each use case, and runs of them: each request is
-- handled to its end before the next, on the state that the one before left.
use video_site.Common.{ℕ, String, Option, List, [], ◌∷◌}
use video_site.Errors.{Error, Result, ok, err}
use video_site.Entities.User.{User}
use video_site.Service
use video_site.Service.{External, DeviceInfo, World}
use video_site.Auth.Login
use video_site.Auth.Refresh
use video_site.Auth.Authenticate
use video_site.Auth.Logout
use video_site.Auth.Verification
use video_site.Auth.Register
use video_site.Auth.ChangePassword
use video_site.Auth.Recovery
use video_site.Auth.UpdateUser
use video_site.Auth.DeleteUser
use video_site.Moderation
use video_site.Accounts
use video_site.AccessControl

pub data Request : Type 0 where
  register : Service.RegisterUser → Option DeviceInfo → Request
  login : Service.Login → Option DeviceInfo → Request
  refresh : String → Option DeviceInfo → Request
  authenticate : String → Request
  logout : String → Option DeviceInfo → Request
  verify_email : String → Option DeviceInfo → Request
  change_password : ℕ → Service.ChangePassword → Option DeviceInfo → Request
  forgot_password : String → Option DeviceInfo → Request
  reset_password : Service.ResetPassword → Option DeviceInfo → Request
  update_user : ℕ → Service.UpdateUser → Request
  delete_user : ℕ → Option DeviceInfo → Request
  ban_user : User → ℕ → Option String → Option DeviceInfo → Request
  unban_user : User → ℕ → Option DeviceInfo → Request
  get_user_profile : ℕ → Request
  list_user_sessions : ℕ → Request
  revoke_all_sessions : ℕ → Option String → Option DeviceInfo → Request
  revoke_user_session : ℕ → ℕ → Option DeviceInfo → Request
  create_permission : String → String → Option String → Request
  create_role : String → Option String → Request
  delete_role : ℕ → Request
  grant_permission_to_role : ℕ → ℕ → Request
  revoke_permission_from_role : ℕ → ℕ → Request
  assign_role_to_user : ℕ → ℕ → Request
  revoke_role_from_user : ℕ → ℕ → Request
  list_permissions list_roles list_users : Request

-- How a request ended, its answer left aside.
pub data Outcome : Type 0 where
  done : Outcome
  failed : Error → Outcome

abbrev pub ended : {A : Type 0} → Result A × World → Outcome × World
ended (ok _, w) = (done, w)
ended (err e, w) = (failed e, w)

module _ (ext : External) where
  unfoldable pub handle : Request → World → Outcome × World
  handle (register input device) w = ended (Register.register ext input device w)
  handle (login credentials device) w = ended (Login.login ext credentials device w)
  handle (refresh token device) w = ended (Refresh.refresh ext token device w)
  handle (authenticate token) w = ended (Authenticate.authenticate ext token w)
  handle (logout token device) w = ended (Logout.logout ext token device w)
  handle (verify_email token device) w = ended (Verification.verify_email ext token device w)
  handle (change_password user_id input device) w =
      ended (ChangePassword.change_password ext user_id input device w)
  handle (forgot_password email device) w = ended (Recovery.forgot_password ext email device w)
  handle (reset_password input device) w = ended (Recovery.reset_password ext input device w)
  handle (update_user user_id input) w = ended (UpdateUser.update_user ext user_id input w)
  handle (delete_user user_id device) w = ended (DeleteUser.delete_user ext user_id device w)
  handle (ban_user actor target_id reason device) w =
      ended (Moderation.ban_user ext actor target_id reason device w)
  handle (unban_user actor target_id device) w =
      ended (Moderation.unban_user ext actor target_id device w)
  handle (get_user_profile user_id) w = ended (Accounts.get_user_profile user_id w)
  handle (list_user_sessions user_id) w = ended (Accounts.list_user_sessions ext user_id w)
  handle (revoke_all_sessions user_id except_jti device) w =
      ended (Accounts.revoke_all_sessions ext user_id except_jti device w)
  handle (revoke_user_session user_id session_id device) w =
      ended (Accounts.revoke_user_session ext user_id session_id device w)
  handle (create_permission resource action description) w =
      ended (AccessControl.create_permission resource action description w)
  handle (create_role name description) w = ended (AccessControl.create_role name description w)
  handle (delete_role role_id) w = ended (AccessControl.delete_role role_id w)
  handle (grant_permission_to_role role_id permission_id) w =
      ended (AccessControl.grant_permission_to_role role_id permission_id w)
  handle (revoke_permission_from_role role_id permission_id) w =
      ended (AccessControl.revoke_permission_from_role role_id permission_id w)
  handle (assign_role_to_user user_id role_id) w =
      ended (AccessControl.assign_role_to_user user_id role_id w)
  handle (revoke_role_from_user user_id role_id) w =
      ended (AccessControl.revoke_role_from_user user_id role_id w)
  handle list_permissions w = ended (AccessControl.list_permissions w)
  handle list_roles w = ended (AccessControl.list_roles w)
  handle list_users w = ended (AccessControl.list_users w)

  -- The state after a run of requests.
  unfoldable pub run : List Request → World → World
  run [] w = w
  run (request ∷ rest) w = run rest (handle request w).1
