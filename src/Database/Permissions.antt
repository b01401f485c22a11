-- ===== src/Database/Permissions.antt =====
-- repositories/permission_repository.py.
use video_site.Common.{
  ℕ, ◌+◌, String, not, Option, List, [], ◌∷◌, ◌++◌, ◌&&◌, ◌==◌, nat_eq, text_eq, any, find, keep,
  if◌then◌else◌,
}
use video_site.Entities.User.{Permission}
use video_site.Errors.{Result, ok, err, integrity}
use video_site.Database.Tables.{Db}

-- `add`: the pair of resource and action is unique.
unfoldable pub add : Db → String → String → Option String → Result (Permission × Db)
add db resource action description =
    let row : Permission = record {
      id = db.next_id;
      resource = resource;
      action = action;
      description = description;
    } in
    if any (λ p. p.resource == resource && p.action == action) db.permissions
    then err integrity
    else ok (row, record db { permissions = db.permissions ++ row ∷ []; next_id = db.next_id + 1 })

unfoldable pub get_by_id : Db → ℕ → Option Permission
get_by_id db permission_id = find (λ p. p.id == permission_id) db.permissions

unfoldable pub get_by_resource_action : Db → String → String → Option Permission
get_by_resource_action db resource action =
    find (λ p. p.resource == resource && p.action == action) db.permissions

unfoldable pub list_all : Db → List Permission
list_all db = db.permissions

-- `delete`: the links to the permission go with it (ON DELETE CASCADE).
unfoldable pub delete : Db → ℕ → Db
delete db permission_id = record db {
  permissions = keep (λ p. not (p.id == permission_id)) db.permissions;
  role_permissions = keep (λ link. not (link.1 == permission_id)) db.role_permissions;
}
