-- ===== src/Database/AuditLog.antt =====
-- repositories/audit_log_repository.py: append-only.
use mathlib.Core.List.{reverse}
use video_site.Common.{
  ℕ, zero, suc, ◌+◌, Bool, false, Option, none, some, List, [], ◌∷◌, ◌++◌, ◌==◌, nat_eq, keep, ◌&&◌,
  if◌then◌else◌,
}
use video_site.Entities.Audit.{AuditEvent}
use video_site.Errors.{Result, ok, err, too_long}
use video_site.Database.Tables.{Db, fits}

-- `add`: the columns of the address and of the user agent have a width.
unfoldable pub add : Db → AuditEvent → Result Db
add db event =
    if fits 45 event.ip_address && fits 400 event.user_agent
    then ok (record db {
      audit_log = db.audit_log ++ record event { id = db.next_id } ∷ [];
      next_id = db.next_id + 1;
    })
    else err too_long

abbrev is_about : ℕ → Option ℕ → Bool
is_about user_id none = false
is_about user_id (some n) = n == user_id

-- LIMIT n.
abbrev take : ℕ → List AuditEvent → List AuditEvent
take zero _ = []
take (suc n) [] = []
take (suc n) (e ∷ events) = e ∷ take n events

-- Newest first.
unfoldable pub list_for_user : Db → ℕ → ℕ → List AuditEvent
list_for_user db user_id limit =
    take limit (reverse (keep (λ e. is_about user_id e.user_id) db.audit_log))
