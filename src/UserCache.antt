-- ===== src/UserCache.antt =====
-- application/common/user_cache_codec.py: an account as the text that the cache holds.
--
-- `json.dumps`, `json.loads`, `isoformat` and `fromisoformat` belong to Python and are parameters.
-- The texts of the cache are those that `dumps` wrote: on any other, where the code raises or
-- builds an entity of ill-typed parts, `loads` is none.
pub mod Laws
pub mod Keys
use video_site.Common.{
  ℕ, String, Bool, Option, none, some, List, [], ◌∷◌, ◌==◌, text_eq, if◌then◌else◌,
}
use video_site.Entities.Datetime.{Datetime}
use video_site.Entities.User.{Permission, Role, User}

-- What `json` writes and reads; an object is a dict in the order of its insertions.
mutual
  pub data Json : Type 0 where
    null : Json
    boolean : Bool → Json
    number : ℕ → Json
    text : String → Json
    array : Items → Json
    object : Fields → Json

  pub data Items : Type 0 where
    nil : Items
    cons : Json → Items → Items

  pub data Fields : Type 0 where
    end : Fields
    field : String → Json → Fields → Fields

-- Python's `json` and `datetime` texts; none stands for a `ValueError`.
pub record Texts : Type 0 where
  pub json_dumps : Json → String
  pub json_loads : String → Option Json
  pub isoformat : Datetime → String
  pub fromisoformat : String → Option Datetime

infixl 5 ◌>>=◌
abbrev ◌>>=◌ : {A B : Type 0} → Option A → (A → Option B) → Option B
none >>= f = none
some a >>= f = f a

-- `data[key]`.
abbrev lookup : Fields → String → Option Json
lookup end key = none
lookup (field k v rest) key = if k == key then some v else lookup rest key

abbrev at : Json → String → Option Json
at (object fields) key = lookup fields key
at _ key = none

abbrev as_number : Json → Option ℕ
as_number (number n) = some n
as_number _ = none

abbrev as_text : Json → Option String
as_text (text s) = some s
as_text _ = none

abbrev as_boolean : Json → Option Bool
as_boolean (boolean b) = some b
as_boolean _ = none

abbrev as_optional_text : Json → Option (Option String)
as_optional_text null = some none
as_optional_text (text s) = some (some s)
as_optional_text _ = none

abbrev optional_text : Option String → Json
optional_text none = null
optional_text (some s) = text s

-- The dict of a permission, and of a role.
abbrev dump_permission : Permission → Json
dump_permission perm = object (
    field "id" (number perm.id) (
      field "resource" (text perm.resource) (
        field "action" (text perm.action)
          (field "description" (optional_text perm.description) end))))

abbrev dump_permissions : List Permission → Items
dump_permissions [] = nil
dump_permissions (perm ∷ rest) = cons (dump_permission perm) (dump_permissions rest)

abbrev dump_role : Role → Json
dump_role role = object (
    field "id" (number role.id) (
      field "name" (text role.name) (
        field "description" (optional_text role.description)
          (field "permissions" (array (dump_permissions role.permissions)) end))))

abbrev dump_roles : List Role → Items
dump_roles [] = nil
dump_roles (role ∷ rest) = cons (dump_role role) (dump_roles rest)

unfoldable pub load_permission : Json → Option Permission
load_permission perm = do
  id ← at perm "id" >>= as_number
  resource ← at perm "resource" >>= as_text
  action ← at perm "action" >>= as_text
  description ← at perm "description" >>= as_optional_text
  some (record { id = id; resource = resource; action = action; description = description })

abbrev load_permissions : Items → Option (List Permission)
load_permissions nil = some []
load_permissions (cons perm rest) = do
  p ← load_permission perm
  ps ← load_permissions rest
  some (p ∷ ps)

abbrev as_permissions : Json → Option (List Permission)
as_permissions (array perms) = load_permissions perms
as_permissions _ = none

unfoldable pub load_role : Json → Option Role
load_role role = do
  id ← at role "id" >>= as_number
  name ← at role "name" >>= as_text
  description ← at role "description" >>= as_optional_text
  permissions ← at role "permissions" >>= as_permissions
  some (record { id = id; name = name; description = description; permissions = permissions })

abbrev load_roles : Items → Option (List Role)
load_roles nil = some []
load_roles (cons role rest) = do r ← load_role role; rs ← load_roles rest; some (r ∷ rs)

abbrev as_roles : Json → Option (List Role)
as_roles (array roles) = load_roles roles
as_roles _ = none

module _ (py : Texts) where
  -- `_iso`.
  unfoldable pub iso : Option Datetime → Json
  iso none = null
  iso (some value) = text (py.isoformat value)

  -- `_parse`.
  unfoldable pub parse : Json → Option (Option Datetime)
  parse null = some none
  parse (text value) = do moment ← py.fromisoformat value; some (some moment)
  parse _ = none

  -- The dict that `dumps` builds.
  unfoldable pub to_dict : User → Json
  unfolding iso
  to_dict user = object (
      field "id" (number user.id) (
        field "email" (text user.email) (
          field "username" (text user.username) (
            field "password_hash" (text user.password_hash) (
              field "display_name" (optional_text user.display_name) (
                field "is_active" (boolean user.is_active) (
                  field "is_superuser" (boolean user.is_superuser) (
                    field "email_verified_at" (iso user.email_verified_at) (
                      field "visitor_id" (optional_text user.visitor_id) (
                        field "created_at" (iso user.created_at) (
                          field "updated_at" (iso user.updated_at)
                            (field "roles" (array (dump_roles user.roles)) end))))))))))))

  unfoldable pub dumps : User → String
  unfolding to_dict
  dumps user = py.json_dumps (to_dict user)

  -- The account of the dict that `loads` reads.
  unfoldable pub of_dict : Json → Option User
  unfolding parse load_role
  of_dict dict = do
    roles ← at dict "roles" >>= as_roles
    visitor_id ← at dict "visitor_id" >>= as_optional_text
    id ← at dict "id" >>= as_number
    email ← at dict "email" >>= as_text
    username ← at dict "username" >>= as_text
    password_hash ← at dict "password_hash" >>= as_text
    display_name ← at dict "display_name" >>= as_optional_text
    is_active ← at dict "is_active" >>= as_boolean
    is_superuser ← at dict "is_superuser" >>= as_boolean
    email_verified_at ← at dict "email_verified_at" >>= parse
    created_at ← at dict "created_at" >>= parse
    updated_at ← at dict "updated_at" >>= parse
    some (record {
      id = id;
      email = email;
      username = username;
      password_hash = password_hash;
      display_name = display_name;
      is_active = is_active;
      is_superuser = is_superuser;
      email_verified_at = email_verified_at;
      visitor_id = visitor_id;
      created_at = created_at;
      updated_at = updated_at;
      roles = roles;
    })

  unfoldable pub loads : String → Option User
  unfolding of_dict
  loads raw = do dict ← py.json_loads raw; of_dict dict
