-- ===== src/UserCache/Laws.antt =====
-- What is cached is what is read back.
use video_site.Common.{String, ◌≡◌, refl, Option, none, some, List, [], ◌∷◌, arith}
use video_site.Entities.Datetime.{Datetime}
use video_site.Entities.User.{Permission, Role, User}
use video_site.UserCache.{
  Texts, optional_text, as_optional_text, dump_permission, dump_permissions, dump_role, dump_roles,
  load_permission, load_permissions, load_role, load_roles, iso, parse, to_dict, of_dict, dumps,
  loads,
}

optional_text_back : (o : Option String) → as_optional_text (optional_text o) ≡ some o
optional_text_back none = refl
optional_text_back (some s) = refl

permission_back : (perm : Permission) → load_permission (dump_permission perm) ≡ some perm
unfolding load_permission
permission_back perm = grind (arith, optional_text_back perm.description)

permissions_back :
    (perms : List Permission) → load_permissions (dump_permissions perms) ≡ some perms
permissions_back [] = refl
permissions_back (perm ∷ rest) = grind (arith, permission_back perm, permissions_back rest)

role_back : (role : Role) → load_role (dump_role role) ≡ some role
unfolding load_role
role_back role =
    grind (arith, optional_text_back role.description, permissions_back role.permissions)

roles_back : (roles : List Role) → load_roles (dump_roles roles) ≡ some roles
roles_back [] = refl
roles_back (role ∷ rest) = grind (arith, role_back role, roles_back rest)

module _ (py : Texts) (iso_back : (d : Datetime) → py.fromisoformat (py.isoformat d) ≡ some d) where
  moment_back : (o : Option Datetime) → parse py (iso py o) ≡ some o
  unfolding parse iso
  moment_back none = refl
  moment_back (some d) = grind (arith, iso_back d)

  account_back : (user : User) → of_dict py (to_dict py user) ≡ some user
  unfolding of_dict to_dict
  account_back user = grind (
    arith,
    optional_text_back user.display_name,
    optional_text_back user.visitor_id,
    moment_back user.email_verified_at,
    moment_back user.created_at,
    moment_back user.updated_at,
    roles_back user.roles,
  )

  -- Reading the text of an account gives the account back, with its roles, their permissions and
  -- its moments, where `fromisoformat` reads what `isoformat` writes and `json.loads` reads the
  -- dict that `json.dumps` wrote for this account.
  pub loads-dumps :
      (user : User)
      → py.json_loads (py.json_dumps (to_dict py user)) ≡ some (to_dict py user)
      → loads py (dumps py user) ≡ some user
  unfolding loads dumps
  loads-dumps user json_back = grind (arith, account_back user)
