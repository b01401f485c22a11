-- ===== src/AccessControl.antt =====
-- application/access_control: roles, permissions and who holds them.
use video_site.Common.{ℕ, String, Option, List, [], ◌∷◌, is_none, is_some, fstring}
use video_site.Errors.{user_not_found, role_not_found, permission_not_found, conflict}
use video_site.Entities.User.{User, Role, Permission}
use video_site.Database.Users
use video_site.Database.Roles
use video_site.Database.Permissions
use video_site.Service.{
  Action, ◌>>=◌, ◌>>◌, pure, or_raise, raise_if, query, write, try_write, commit, cache_delete,
  transaction,
}
use video_site.Service.Steps.{user_cache_key}

-- `CreatePermissionUseCase.__call__`.
unfoldable pub create_permission : String → String → Option String → Action Permission
create_permission resource action description = transaction (do
  existing ← query (λ db. Permissions.get_by_resource_action db resource action)
  raise_if (is_some existing)
      (conflict (fstring ("Permission " ∷ resource ∷ ":" ∷ action ∷ " already exists" ∷ [])))
  permission ← try_write (λ db. Permissions.add db resource action description)
  commit
  pure permission)

-- `CreateRoleUseCase.__call__`.
unfoldable pub create_role : String → Option String → Action Role
create_role name description =
    transaction (do role ← try_write (λ db. Roles.add db name description); commit; pure role)

-- `DeleteRoleUseCase.__call__`.
unfoldable pub delete_role : ℕ → Action (Unit {0})
delete_role role_id = transaction (do
  role ← query (λ db. Roles.get_by_id db role_id)
  raise_if (is_none role) role_not_found
  write (λ db. Roles.delete db role_id)
  commit)

-- `GrantPermissionToRoleUseCase.__call__`. The last read is of the role that was just found; where
-- the source asserts that it is there, the model raises `role_not_found`.
unfoldable pub grant_permission_to_role : ℕ → ℕ → Action Role
grant_permission_to_role role_id permission_id = transaction (do
  role ← query (λ db. Roles.get_by_id db role_id)
  raise_if (is_none role) role_not_found
  permission ← query (λ db. Permissions.get_by_id db permission_id)
  raise_if (is_none permission) permission_not_found
  write (λ db. Roles.grant_permission db role_id permission_id)
  commit
  updated ← query (λ db. Roles.get_by_id db role_id)
  or_raise updated role_not_found)

-- `RevokePermissionFromRoleUseCase.__call__`.
unfoldable pub revoke_permission_from_role : ℕ → ℕ → Action Role
revoke_permission_from_role role_id permission_id = transaction (do
  role ← query (λ db. Roles.get_by_id db role_id)
  raise_if (is_none role) role_not_found
  write (λ db. Roles.revoke_permission db role_id permission_id)
  commit
  updated ← query (λ db. Roles.get_by_id db role_id)
  or_raise updated role_not_found)

-- `AssignRoleToUserUseCase.__call__`.
unfoldable pub assign_role_to_user : ℕ → ℕ → Action User
assign_role_to_user user_id role_id = do
  user ← transaction (do
    account ← query (λ db. Users.get_by_id db user_id)
    raise_if (is_none account) user_not_found
    role ← query (λ db. Roles.get_by_id db role_id)
    raise_if (is_none role) role_not_found
    write (λ db. Users.assign_role db user_id role_id)
    commit
    updated ← query (λ db. Users.get_by_id db user_id)
    or_raise updated user_not_found)
  cache_delete (user_cache_key user_id)
  pure user

-- `RevokeRoleFromUserUseCase.__call__`.
unfoldable pub revoke_role_from_user : ℕ → ℕ → Action User
revoke_role_from_user user_id role_id = do
  user ← transaction (do
    account ← query (λ db. Users.get_by_id db user_id)
    raise_if (is_none account) user_not_found
    write (λ db. Users.revoke_role db user_id role_id)
    commit
    updated ← query (λ db. Users.get_by_id db user_id)
    or_raise updated user_not_found)
  cache_delete (user_cache_key user_id)
  pure user

-- `ListPermissionsUseCase`, `ListRolesUseCase` and `ListUsersUseCase`.
unfoldable pub list_permissions : Action (List Permission)
list_permissions = transaction (query Permissions.list_all)

unfoldable pub list_roles : Action (List Role)
list_roles = transaction (query Roles.list_all)

unfoldable pub list_users : Action (List User)
list_users = transaction (query Users.list_all)
