-- ===== src/App/Endpoints.antt =====
-- The routes that `routers/__init__.py` and `setup_routes` include, with what their paths, queries
-- and bodies carry.
use video_site.Common.{ℕ, String, Bool, Option}
use video_site.Service.{External, Action, pure}
use video_site.Api.Config.{Config}
use video_site.Api.Csrf.{ApiRequest}
use video_site.Api.Models.{
  RegisterRequest, LoginRequest, RefreshRequest, ForgotPasswordRequest, ResetPasswordRequest,
  UpdateProfileRequest, ChangePasswordRequest, BanUserRequest, CreateRoleRequest,
  CreatePermissionRequest,
}
use video_site.Api.Routers.{Reply}
use video_site.Api.Routers.Auth
use video_site.Api.Routers.Users
use video_site.Api.Routers.Admin
use video_site.Api.Routers.Moderation
use video_site.Api.Routers.Health

pub data AuthRoute : Type 0 where
  register : RegisterRequest → AuthRoute
  login : LoginRequest → AuthRoute
  refresh : Option RefreshRequest → AuthRoute
  logout : AuthRoute
  verify_email : String → AuthRoute
  forgot_password : ForgotPasswordRequest → AuthRoute
  reset_password : ResetPasswordRequest → AuthRoute
  read_me : AuthRoute

pub data UserRoute : Type 0 where
  read_own : UserRoute
  update_me : UpdateProfileRequest → UserRoute
  change_my_password : ChangePasswordRequest → UserRoute
  delete_me list_my_sessions : UserRoute
  revoke_my_sessions : Bool → UserRoute
  revoke_my_session : ℕ → UserRoute
  read_user : ℕ → UserRoute

pub data AdminRoute : Type 0 where
  list_permissions list_roles list_users : AdminRoute
  create_permission : CreatePermissionRequest → AdminRoute
  create_role : CreateRoleRequest → AdminRoute
  delete_role : ℕ → AdminRoute
  grant_permission_to_role : ℕ → ℕ → AdminRoute
  revoke_permission_from_role : ℕ → ℕ → AdminRoute
  assign_role_to_user : ℕ → ℕ → AdminRoute
  revoke_role_from_user : ℕ → ℕ → AdminRoute

pub data ModerationRoute : Type 0 where
  ban_user : ℕ → BanUserRequest → ModerationRoute
  unban_user : ℕ → ModerationRoute

pub data HealthRoute : Type 0 where
  health readiness : HealthRoute

pub data Endpoint : Type 0 where
  auth : AuthRoute → Endpoint
  users : UserRoute → Endpoint
  admin : AdminRoute → Endpoint
  moderation : ModerationRoute → Endpoint
  probe : HealthRoute → Endpoint

module _ (ext : External) (config : Config) where
  unfoldable pub call_auth : AuthRoute → ApiRequest → Action Reply
  call_auth (register body) = Auth.register ext config body
  call_auth (login body) = Auth.login ext config body
  call_auth (refresh body) = Auth.refresh ext config body
  call_auth logout = Auth.logout ext config
  call_auth (verify_email token) = Auth.verify_email ext config token
  call_auth (forgot_password body) = Auth.forgot_password ext config body
  call_auth (reset_password body) = Auth.reset_password ext config body
  call_auth read_me = Auth.read_me ext config

  unfoldable pub call_users : UserRoute → ApiRequest → Action Reply
  call_users read_own = Users.read_me ext config
  call_users (update_me body) = Users.update_me ext config body
  call_users (change_my_password body) = Users.change_my_password ext config body
  call_users delete_me = Users.delete_me ext config
  call_users list_my_sessions = Users.list_my_sessions ext config
  call_users (revoke_my_sessions keep) = Users.revoke_my_sessions ext config keep
  call_users (revoke_my_session id) = Users.revoke_my_session ext config id
  call_users (read_user id) = Users.read_user ext config id

  unfoldable pub call_admin : AdminRoute → ApiRequest → Action Reply
  call_admin list_permissions = Admin.list_permissions ext config
  call_admin list_roles = Admin.list_roles ext config
  call_admin list_users = Admin.list_users ext config
  call_admin (create_permission body) = Admin.create_permission ext config body
  call_admin (create_role body) = Admin.create_role ext config body
  call_admin (delete_role role_id) = Admin.delete_role ext config role_id
  call_admin (grant_permission_to_role role_id permission_id) =
      Admin.grant_permission_to_role ext config role_id permission_id
  call_admin (revoke_permission_from_role role_id permission_id) =
      Admin.revoke_permission_from_role ext config role_id permission_id
  call_admin (assign_role_to_user user_id role_id) =
      Admin.assign_role_to_user ext config user_id role_id
  call_admin (revoke_role_from_user user_id role_id) =
      Admin.revoke_role_from_user ext config user_id role_id

  unfoldable pub call_moderation : ModerationRoute → ApiRequest → Action Reply
  call_moderation (ban_user user_id body) = Moderation.ban_user ext config user_id body
  call_moderation (unban_user user_id) = Moderation.unban_user ext config user_id

  module _ (select_1 : ℕ → Option String) where
    unfoldable pub call_health : HealthRoute → Action Reply
    call_health health = pure Health.health
    call_health readiness = Health.readiness select_1

    unfoldable pub call : Endpoint → ApiRequest → Action Reply
    unfolding call_auth call_users call_admin call_moderation call_health
    call (auth route) = call_auth route
    call (users route) = call_users route
    call (admin route) = call_admin route
    call (moderation route) = call_moderation route
    call (probe route) = λ request. call_health route
