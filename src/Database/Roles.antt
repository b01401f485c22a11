-- ===== src/Database/Roles.antt =====
-- repositories/role_repository.py, permission_repository.py and their mappers.
use video_site.Common.{
  ℕ, ◌+◌, String, not, Option, List, [], ◌∷◌, ◌++◌, map, ◌&&◌, ◌==◌, nat_eq, text_eq, any, find,
  keep, if◌then◌else◌,
}
use video_site.Entities.User.{Permission, Role}
use video_site.Errors.{Result, ok, err, integrity}
use video_site.Database.Tables.{Db, RoleRow}
use mathlib.Core.Option

-- The permissions that the table `role_permissions` links to a role.
unfoldable pub permissions_of : Db → ℕ → List Permission
permissions_of db role_id =
    keep (λ p. any (λ link. link.0 == role_id && link.1 == p.id) db.role_permissions) db.permissions

-- `role_to_entity`.
unfoldable pub role_to_entity : Db → RoleRow → Role
unfolding permissions_of
role_to_entity db row = record {
  id = row.id;
  name = row.name;
  description = row.description;
  permissions = permissions_of db row.id;
}

-- `add`: the name is unique.
unfoldable pub add : Db → String → Option String → Result (Role × Db)
unfolding role_to_entity
add db name description =
    let row : RoleRow = record { id = db.next_id; name = name; description = description } in
    let db' : Db = record db { roles = db.roles ++ row ∷ []; next_id = db.next_id + 1 } in
    if any (λ r. r.name == name) db.roles then err integrity else ok (role_to_entity db' row, db')

unfoldable pub get_by_id : Db → ℕ → Option Role
unfolding role_to_entity
get_by_id db role_id = Option.map (role_to_entity db) (find (λ r. r.id == role_id) db.roles)

unfoldable pub get_by_name : Db → String → Option Role
unfolding role_to_entity
get_by_name db name = Option.map (role_to_entity db) (find (λ r. r.name == name) db.roles)

unfoldable pub list_all : Db → List Role
unfolding role_to_entity
list_all db = map (role_to_entity db) db.roles

-- `delete`: the links of the role go with it (ON DELETE CASCADE).
unfoldable pub delete : Db → ℕ → Db
delete db role_id = record db {
  roles = keep (λ r. not (r.id == role_id)) db.roles;
  user_roles = keep (λ link. not (link.1 == role_id)) db.user_roles;
  role_permissions = keep (λ link. not (link.0 == role_id)) db.role_permissions;
}

unfoldable pub grant_permission : Db → ℕ → ℕ → Db
grant_permission db role_id permission_id =
    if any (λ link. link.0 == role_id && link.1 == permission_id) db.role_permissions
    then db
    else record db { role_permissions = db.role_permissions ++ (role_id, permission_id) ∷ [] }

unfoldable pub revoke_permission : Db → ℕ → ℕ → Db
revoke_permission db role_id permission_id = record db {
  role_permissions =
      keep (λ link. not (link.0 == role_id && link.1 == permission_id)) db.role_permissions;
}
