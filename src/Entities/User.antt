-- ===== src/Entities/User.antt =====
-- entities/permission, entities/role, entities/user: accounts and what they may do.
use video_site.Common.{
  ℕ, String, Bool, true, Option, List, [], ◌∷◌, ◌++◌, map, fstring, truthy, sorted_set, ◌&&◌, ◌==◌,
  text_eq, any, is_some, if◌then◌else◌,
}
use video_site.Entities.Datetime.{Datetime}

pub record Permission : Type 0 where
  pub id : ℕ
  pub resource : String
  pub action : String
  pub description : Option String

-- `Permission.code`.
unfoldable pub code : Permission → String
code perm = fstring (perm.resource ∷ "." ∷ perm.action ∷ [])

pub record Role : Type 0 where
  pub id : ℕ
  pub name : String
  pub description : Option String
  pub permissions : List Permission

-- `Role.grants`.
unfoldable pub grants : Role → String → String → Bool
grants role resource action =
    any (λ perm. perm.resource == resource && perm.action == action) role.permissions

pub record User : Type 0 where
  pub id : ℕ
  pub email : String
  pub username : String
  pub password_hash : String
  pub display_name : Option String
  pub is_active : Bool
  pub is_superuser : Bool
  pub email_verified_at : Option Datetime
  pub visitor_id : Option String
  pub created_at : Option Datetime
  pub updated_at : Option Datetime
  pub roles : List Role

-- `User.is_email_verified`.
abbrev pub is_email_verified : User → Bool
is_email_verified user = is_some user.email_verified_at

-- `User.has_permission`.
unfoldable pub has_permission : User → String → String → Bool
unfolding grants
has_permission user resource action =
    if user.is_superuser then true else any (λ role. grants role resource action) user.roles

abbrev pub role_codes : List Role → List String
role_codes [] = []
role_codes (role ∷ roles) = map code role.permissions ++ role_codes roles

-- `User.permission_codes`: the set of the codes, sorted.
unfoldable pub permission_codes : User → List String
unfolding code sorted_set
permission_codes user = sorted_set (role_codes user.roles)

-- `User.public_name`: `self.display_name or str(self.username)`.
unfoldable pub public_name : User → String
public_name user = elim user.display_name [
  | Option.some name ↦ if truthy name then name else user.username
  | Option.none ↦ user.username
]
