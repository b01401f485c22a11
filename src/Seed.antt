-- ===== src/Seed.antt =====
-- adapter/seed_data.py and adapter/database/seed.py: the demo data, and its loading.
--
-- The rows are inserted table by table, in the order in which the session was given them; a
-- constraint that fails raises at the commit, which leaves nothing.
pub mod Laws
use video_site.Common.{
  ℕ, ◌+◌, String, Bool, true, false, Option, none, some, List, [], ◌∷◌, ◌++◌, ◌&&◌, ◌||◌, ◌==◌,
  text_eq, any, if◌then◌else◌,
}
use video_site.Errors.{Result, ok, err, integrity}
use video_site.Entities.Datetime.{Datetime}
use video_site.Database.{Db, UserRow}
use video_site.Database.Users
use video_site.Database.Roles
use video_site.Database.Permissions
use video_site.Service.{
  External, Action, ◌>>=◌, ◌>>◌, ask, pure, query, write, try_write, try_write_only, commit,
  transaction,
}
use video_site.Service.Steps.{utc_now}

pub record SeedPermission : Type 0 where
  pub resource : String
  pub action : String
  pub description : String

abbrev seed_permission : String → String → String → SeedPermission
seed_permission resource action description = record {
  resource = resource;
  action = action;
  description = description;
}

-- `PERMISSIONS`.
abbrev pub permissions : List SeedPermission
permissions =
    seed_permission "content" "read" "Watch published content"
    ∷ seed_permission "content" "moderate" "Take content down and review reports"
    ∷ seed_permission "users" "read" "View any account, including soft-deleted ones"
    ∷ seed_permission "users" "ban" "Deactivate or restore an account"
    ∷ seed_permission "users" "manage" "Administer roles and permissions"
    ∷ []

-- A role of `ROLE_GRANTS` with its text of `ROLE_DESCRIPTIONS`.
pub record SeedRole : Type 0 where
  pub name : String
  pub description : String
  pub grants : List (String × String)

abbrev all_keys : List SeedPermission → List (String × String)
all_keys [] = []
all_keys (p ∷ rest) = (p.resource, p.action) ∷ all_keys rest

abbrev pub role_grants : List SeedRole
role_grants =
    record {
      name = "admin";
      description = "Full access, including role and permission administration";
      grants = all_keys permissions;
    }
    ∷ record {
      name = "moderator";
      description = "Reviews content and accounts";
      grants =
          ("content", "read") ∷ ("content", "moderate") ∷ ("users", "read") ∷ ("users", "ban") ∷ [];
    }
    ∷ record {
      name = "user";
      description = "Default role for a registered visitor";
      grants = ("content", "read") ∷ [];
    }
    ∷ []

pub record SeedUser : Type 0 where
  pub email : String
  pub username : String
  pub password : String
  pub display_name : String
  pub is_superuser : Bool
  pub role : String

-- `USERS`.
abbrev pub users : List SeedUser
users =
    record {
      email = "admin@example.com";
      username = "admin";
      password = "admin123";
      display_name = "Alice";
      is_superuser = true;
      role = "admin";
    }
    ∷ record {
      email = "moderator@example.com";
      username = "moderator";
      password = "moderator123";
      display_name = "Mod";
      is_superuser = false;
      role = "moderator";
    }
    ∷ record {
      email = "viewer@example.com";
      username = "viewer";
      password = "viewer123";
      display_name = "Vic";
      is_superuser = false;
      role = "user";
    }
    ∷ []

-- The ids of the permissions, by resource and action, and of the roles, by name.
abbrev id_of_key : List ((String × String) × ℕ) → String × String → Option ℕ
id_of_key [] key = none
id_of_key ((k, id) ∷ rest) key =
    if k.0 == key.0 && k.1 == key.1 then some id else id_of_key rest key

abbrev pub id_of_name : List (String × ℕ) → String → Option ℕ
id_of_name [] name = none
id_of_name ((n, id) ∷ rest) name = if n == name then some id else id_of_name rest name

unfoldable pub add_permissions : List SeedPermission → Action (List ((String × String) × ℕ))
add_permissions [] = pure []
add_permissions (p ∷ rest) = do
  perm ← try_write (λ db. Permissions.add db p.resource p.action (some p.description))
  others ← add_permissions rest
  pure (((p.resource, p.action), perm.id) ∷ others)

-- `role.permissions = [permissions[key] for key in grants]`; every key is there.
unfoldable pub grant_all : ℕ → List (Option ℕ) → Db → Db
grant_all role_id [] db = db
grant_all role_id (none ∷ rest) db = grant_all role_id rest db
grant_all role_id (some id ∷ rest) db =
    grant_all role_id rest (Roles.grant_permission db role_id id)

abbrev ids_of : List ((String × String) × ℕ) → List (String × String) → List (Option ℕ)
ids_of ids [] = []
ids_of ids (key ∷ rest) = id_of_key ids key ∷ ids_of ids rest

unfoldable pub add_roles : List ((String × String) × ℕ) → List SeedRole → Action (List (String × ℕ))
add_roles ids [] = pure []
add_roles ids (r ∷ rest) = do
  role ← try_write (λ db. Roles.add db r.name (some r.description))
  write (grant_all role.id (ids_of ids r.grants))
  others ← add_roles ids rest
  pure ((r.name, role.id) ∷ others)

-- `user.roles = [roles[role_name]]`; every name is there.
abbrev linked : Db → ℕ → Option ℕ → Db
linked db user_id none = db
linked db user_id (some role_id) = Users.assign_role db user_id role_id

-- The insertion of an account, whose email and username are unique.
unfoldable pub insert_user : UserRow → Option ℕ → Db → Result Db
insert_user row role_id db =
    if any (λ r. r.email == row.email || r.username == row.username) db.users
    then err integrity
    else ok (
        linked (record db { users = db.users ++ row ∷ []; next_id = db.next_id + 1 }) row.id
          role_id)

abbrev pub seeded_row : SeedUser → Datetime → String → ℕ → UserRow
seeded_row u now password_hash id = record {
  id = id;
  email = u.email;
  username = u.username;
  password_hash = password_hash;
  display_name = some u.display_name;
  is_active = true;
  is_superuser = u.is_superuser;
  email_verified_at = some now;
  visitor_id = none;
  created_at = some now;
  updated_at = some now;
}

module _ (ext : External) where
  unfoldable pub add_users : Datetime → List (String × ℕ) → List SeedUser → Action (Unit {0})
  add_users now roles [] = pure tt
  add_users now roles (u ∷ rest) = do
    password_hash ← ask (λ n. ext.hash_password n u.password)
    try_write_only
        (λ db. insert_user (seeded_row u now password_hash db.next_id) (id_of_name roles u.role) db)
    add_users now roles rest

  unfoldable pub load_demo_data : Action (Unit {0})
  load_demo_data = do
    ids ← add_permissions permissions
    roles ← add_roles ids role_grants
    now ← utc_now ext
    add_users now roles users
    commit

  -- `seed_demo_data`.
  unfoldable pub seed_demo_data : Action (Unit {0})
  seed_demo_data = transaction (do
    existing ← query (λ db. any (λ r. true) db.users)
    if existing then pure tt else load_demo_data)
