-- ===== src/Database/Tables.antt =====
-- orm_models/*.py and base.py: the tables. A session row and a token row hold just the fields of
-- their entity, so the entity stands for both.
use Prim.Native.String.{[] as empty, ◌∷◌ as cons}
use video_site.Common.{ℕ, suc, String, Bool, true, Option, none, some, List, leb}
use video_site.Entities.Datetime.{Datetime}
use video_site.Entities.User.{Permission}
use video_site.Entities.Session.{AuthSession}
use video_site.Entities.SecurityToken.{SecurityToken}
use video_site.Entities.Audit.{AuditEvent}

-- `len` of a text.
abbrev pub width : String → ℕ
width empty = 0
width (cons _ s) = suc (width s)

-- Whether a text fits a column `String(n)`; a null always does.
unfoldable pub fits : ℕ → Option String → Bool
fits n none = true
fits n (some s) = leb (width s) n

-- `UserORM`; its roles are in the table `user_roles`.
pub record UserRow : Type 0 where
  pub id : ℕ
  pub email : String
  pub username : String
  pub password_hash : String
  pub display_name : Option String
  pub is_active : Bool
  pub is_superuser : Bool
  pub email_verified_at : Option Datetime
  pub visitor_id : Option String
  pub created_at : Option Datetime
  pub updated_at : Option Datetime

-- `RoleORM`; its permissions are in the table `role_permissions`.
pub record RoleRow : Type 0 where
  pub id : ℕ
  pub name : String
  pub description : Option String

pub record Db : Type 0 where
  pub users : List UserRow
  pub roles : List RoleRow
  pub permissions : List Permission
  -- pairs of a user and a role, and of a role and a permission
  pub user_roles : List (ℕ × ℕ)
  pub role_permissions : List (ℕ × ℕ)
  pub sessions : List AuthSession
  pub security_tokens : List SecurityToken
  pub audit_log : List AuditEvent
  pub next_id : ℕ
