-- ===== src/Theorems/Kept/Writes.antt =====
-- The writes of the repositories, as the law record that the use cases are proved over.
use video_site.Common.{ℕ, String, Option}
use video_site.Errors.{Result, ok, err}
use video_site.Entities.Datetime.{Datetime}
use video_site.Entities.User.{User}
use video_site.Entities.Session.{AuthSession}
use video_site.Entities.SecurityToken.{SecurityToken, TokenPurpose}
use video_site.Entities.Audit.{AuditEvent}
use video_site.Database.{Db}
use video_site.Database.Users
use video_site.Database.Roles
use video_site.Database.Permissions
use video_site.Database.Sessions
use video_site.Database.Tokens
use video_site.Database.AuditLog

-- `P` holds of what a write leaves, if it does not fail.
abbrev pub OnOk : (Db → Type 0) → Result Db → Type 0
OnOk P (ok db) = P db
OnOk P (err _) = Unit

abbrev pub OnOkWith : {A : Type 0} → (Db → Type 0) → Result (A × Db) → Type 0
OnOkWith P (ok (_, db)) = P db
OnOkWith P (err _) = Unit

pub record Kept (P : Db → Type 0) : Type 0 where
  pub add_user :
      (db : Db) (user : User) (stamp : Datetime) → P db → OnOkWith P (Users.add db user stamp)
  pub update :
      (db : Db) (user : User) (restamp : Option Datetime → Option Datetime)
      → P db
      → OnOkWith P (Users.update db user restamp)
  pub update_password :
      (db : Db) (user : User) (restamp : Option Datetime → Option Datetime)
      → P db
      → OnOk P (Users.update_password db user restamp)
  pub assign_role :
      (db : Db) (user_id role_id : ℕ) → P db → P (Users.assign_role db user_id role_id)
  pub revoke_role :
      (db : Db) (user_id role_id : ℕ) → P db → P (Users.revoke_role db user_id role_id)
  pub add_session : (db : Db) (s : AuthSession) → P db → OnOk P (Sessions.add db s)
  pub revoke : (db : Db) (jti : String) (now : Datetime) → P db → P (Sessions.revoke db jti now)
  pub revoke_all :
      (db : Db) (user_id : ℕ) (now : Datetime) (except_jti : Option String)
      → P db
      → P (Sessions.revoke_all_for_user db user_id now except_jti).1
  pub add_token : (db : Db) (t : SecurityToken) → P db → OnOk P (Tokens.add db t)
  pub mark_used :
      (db : Db) (t : SecurityToken) (now : Datetime) → P db → P (Tokens.mark_used db t now)
  pub invalidate :
      (db : Db) (user_id : ℕ) (purpose : TokenPurpose) (now : Datetime)
      → P db
      → P (Tokens.invalidate_for_user db user_id purpose now)
  pub log : (db : Db) (event : AuditEvent) → P db → OnOk P (AuditLog.add db event)
  pub add_role :
      (db : Db) (name : String) (description : Option String)
      → P db
      → OnOkWith P (Roles.add db name description)
  pub delete_role : (db : Db) (role_id : ℕ) → P db → P (Roles.delete db role_id)
  pub grant_permission :
      (db : Db) (role_id permission_id : ℕ)
      → P db
      → P (Roles.grant_permission db role_id permission_id)
  pub revoke_permission :
      (db : Db) (role_id permission_id : ℕ)
      → P db
      → P (Roles.revoke_permission db role_id permission_id)
  pub add_permission :
      (db : Db) (resource action : String) (description : Option String)
      → P db
      → OnOkWith P (Permissions.add db resource action description)
