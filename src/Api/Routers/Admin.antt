-- ===== src/Api/Routers/Admin.antt =====
-- infrastructure/api/routers/admin.py: every route depends on the permission users:manage.
use video_site.Common.{ℕ, [], map}
use video_site.Service.{External, Action, ◌>>=◌, ◌>>◌, pure}
use video_site.AccessControl
use video_site.Api.Config.{Config}
use video_site.Api.Csrf.{ApiRequest}
use video_site.Api.Dependencies.{require_permission}
use video_site.Api.Models.{
  CreateRoleRequest, create_role_fields, CreatePermissionRequest, create_permission_fields,
}
use video_site.Api.Serializers.{to_user_response, to_role_response, to_permission_response}
use video_site.Api.Routers.{
  Reply, reply, nothing, account, accounts, role, roles, permission, permissions, checked,
}

module _ (ext : External) (config : Config) where
  -- The router's own dependency, before the handler.
  unfoldable pub managed : ApiRequest → Action Reply → Action Reply
  managed request handler = do _ ← require_permission ext config "users" "manage" request; handler

  unfoldable pub list_permissions : ApiRequest → Action Reply
  list_permissions request = managed request (do
    found ← AccessControl.list_permissions
    pure (reply 200 (permissions (map to_permission_response found)) []))

  unfoldable pub create_permission : CreatePermissionRequest → ApiRequest → Action Reply
  create_permission body request = managed request (
      checked (create_permission_fields body) (do
        created ← AccessControl.create_permission body.resource body.action body.description
        pure (reply 201 (permission (to_permission_response created)) [])))

  unfoldable pub list_roles : ApiRequest → Action Reply
  list_roles request = managed request (do
    found ← AccessControl.list_roles
    pure (reply 200 (roles (map to_role_response found)) []))

  unfoldable pub create_role : CreateRoleRequest → ApiRequest → Action Reply
  create_role body request = managed request (
      checked (create_role_fields body) (do
        created ← AccessControl.create_role body.name body.description
        pure (reply 201 (role (to_role_response created)) [])))

  unfoldable pub delete_role : ℕ → ApiRequest → Action Reply
  delete_role role_id request =
      managed request (do AccessControl.delete_role role_id; pure (reply 204 nothing []))

  unfoldable pub grant_permission_to_role : ℕ → ℕ → ApiRequest → Action Reply
  grant_permission_to_role role_id permission_id request = managed request (do
    granted ← AccessControl.grant_permission_to_role role_id permission_id
    pure (reply 200 (role (to_role_response granted)) []))

  unfoldable pub revoke_permission_from_role : ℕ → ℕ → ApiRequest → Action Reply
  revoke_permission_from_role role_id permission_id request = managed request (do
    revoked ← AccessControl.revoke_permission_from_role role_id permission_id
    pure (reply 200 (role (to_role_response revoked)) []))

  unfoldable pub list_users : ApiRequest → Action Reply
  list_users request = managed request (do
    found ← AccessControl.list_users
    pure (reply 200 (accounts (map to_user_response found)) []))

  unfoldable pub assign_role_to_user : ℕ → ℕ → ApiRequest → Action Reply
  assign_role_to_user user_id role_id request = managed request (do
    user ← AccessControl.assign_role_to_user user_id role_id
    pure (reply 200 (account (to_user_response user)) []))

  unfoldable pub revoke_role_from_user : ℕ → ℕ → ApiRequest → Action Reply
  revoke_role_from_user user_id role_id request = managed request (do
    user ← AccessControl.revoke_role_from_user user_id role_id
    pure (reply 200 (account (to_user_response user)) []))
