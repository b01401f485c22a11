-- ===== src/Database/Users.antt =====
-- repositories/user_repository.py and mappers/user_mapper.py.
pub mod Laws
use mathlib.Core.Option
use video_site.Common.{
  ℕ, ◌+◌, String, Bool, not, Option, some, List, [], ◌∷◌, ◌++◌, map, ◌&&◌, ◌||◌, ◌==◌, nat_eq,
  text_eq, any, find, keep, update_where, if◌then◌else◌,
}
use video_site.Entities.Datetime.{Datetime}
use video_site.Entities.User.{Role, User}
use video_site.Errors.{Result, ok, err, integrity, too_long, disappeared}
use video_site.Database.Tables.{Db, UserRow, fits}
use video_site.Database.Roles

-- The roles that the table `user_roles` links to an account.
unfoldable pub roles_of : Db → ℕ → List Role
roles_of db user_id =
    map (Roles.role_to_entity db)
      (keep (λ r. any (λ link. link.0 == user_id && link.1 == r.id) db.user_roles) db.roles)

-- `user_to_entity`.
unfoldable pub user_to_entity : Db → UserRow → User
user_to_entity db row = record {
  id = row.id;
  email = row.email;
  username = row.username;
  password_hash = row.password_hash;
  display_name = row.display_name;
  is_active = row.is_active;
  is_superuser = row.is_superuser;
  email_verified_at = row.email_verified_at;
  visitor_id = row.visitor_id;
  created_at = row.created_at;
  updated_at = row.updated_at;
  roles = roles_of db row.id;
}

-- The row that `add` inserts; `stamp` is what the server's `now()` gives.
abbrev pub new_row : Db → User → Datetime → UserRow
new_row db user stamp = record {
  id = db.next_id;
  email = user.email;
  username = user.username;
  password_hash = user.password_hash;
  display_name = user.display_name;
  is_active = user.is_active;
  is_superuser = user.is_superuser;
  email_verified_at = user.email_verified_at;
  visitor_id = user.visitor_id;
  created_at = some stamp;
  updated_at = some stamp;
}

-- `add`: the email and the username are unique, and the column of the visitor has a width.
unfoldable pub add : Db → User → Datetime → Result (User × Db)
unfolding user_to_entity
add db user stamp =
    let row : UserRow = new_row db user stamp in
    let db' : Db = record db { users = db.users ++ row ∷ []; next_id = db.next_id + 1 } in
    if not (fits 36 user.visitor_id)
    then err too_long
    else if any (λ r. r.email == user.email || r.username == user.username) db.users
    then err integrity
    else ok (user_to_entity db' row, db')

unfoldable pub find_by_id : Db → ℕ → Option UserRow
find_by_id db user_id = find (λ r. r.id == user_id) db.users

unfoldable pub get_by_id : Db → ℕ → Option User
unfolding user_to_entity find_by_id
get_by_id db user_id = Option.map (user_to_entity db) (find_by_id db user_id)

unfoldable pub get_by_email : Db → String → Option User
unfolding user_to_entity
get_by_email db email = Option.map (user_to_entity db) (find (λ r. r.email == email) db.users)

unfoldable pub get_by_username : Db → String → Option User
unfolding user_to_entity
get_by_username db username =
    Option.map (user_to_entity db) (find (λ r. r.username == username) db.users)

unfoldable pub list_all : Db → List User
list_all db = map (user_to_entity db) db.users

-- The columns that `update` writes; `restamp` is what the server's `onupdate` does to `updated_at`.
abbrev pub updated_row : User → (Option Datetime → Option Datetime) → UserRow → UserRow
updated_row user restamp row = record row {
  email = user.email;
  username = user.username;
  display_name = user.display_name;
  is_active = user.is_active;
  is_superuser = user.is_superuser;
  email_verified_at = user.email_verified_at;
  updated_at = restamp row.updated_at;
}

-- Another row holds the email or the username.
unfoldable pub is_taken : Db → User → Bool
is_taken db user =
    any (λ r. not (r.id == user.id) && (r.email == user.email || r.username == user.username))
      db.users

-- The view after the rows of one id have been rewritten.
abbrev pub rewrite_user : Db → ℕ → (UserRow → UserRow) → Db
rewrite_user db user_id f = record db { users = update_where (λ r. r.id == user_id) f db.users }

unfoldable pub update : Db → User → (Option Datetime → Option Datetime) → Result (User × Db)
unfolding user_to_entity is_taken find_by_id
update db user restamp =
    let db' : Db = rewrite_user db user.id (updated_row user restamp) in
    elim (find_by_id db user.id) [
      | Option.none ↦ err (disappeared user.id)
      | some row ↦
          if is_taken db user
          then err integrity
          else ok (user_to_entity db' (updated_row user restamp row), db')
    ]

abbrev pub rehashed_row : User → (Option Datetime → Option Datetime) → UserRow → UserRow
rehashed_row user restamp row = record row {
  password_hash = user.password_hash;
  updated_at = restamp row.updated_at;
}

unfoldable pub update_password : Db → User → (Option Datetime → Option Datetime) → Result Db
unfolding find_by_id
update_password db user restamp = elim (find_by_id db user.id) [
  | Option.none ↦ err (disappeared user.id)
  | some _ ↦ ok (rewrite_user db user.id (rehashed_row user restamp))
]

unfoldable pub assign_role : Db → ℕ → ℕ → Db
assign_role db user_id role_id =
    if any (λ link. link.0 == user_id && link.1 == role_id) db.user_roles
    then db
    else record db { user_roles = db.user_roles ++ (user_id, role_id) ∷ [] }

unfoldable pub revoke_role : Db → ℕ → ℕ → Db
revoke_role db user_id role_id = record db {
  user_roles = keep (λ link. not (link.0 == user_id && link.1 == role_id)) db.user_roles;
}
