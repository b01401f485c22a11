-- ===== src/Entities/Audit.antt =====
-- entities/audit: one security-relevant thing that happened.
use video_site.Common.{ℕ, String, Option, List}
use video_site.Entities.Datetime.{Datetime}

pub data AuditAction : Type 0 where
  register login login_failed logout password_changed password_reset email_verified session_revoked
        user_banned user_unbanned :
      AuditAction

-- The values that the program puts into an event's metadata.
pub data Detail : Type 0 where
  text : String → Detail
  number : ℕ → Detail
  null : Detail

pub record AuditEvent : Type 0 where
  pub id : ℕ
  pub action : AuditAction
  pub created_at : Datetime
  pub user_id : Option ℕ
  pub ip_address : Option String
  pub user_agent : Option String
  pub metadata : List (String × Detail)
