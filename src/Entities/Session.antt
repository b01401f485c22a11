-- ===== src/Entities/Session.antt =====
-- entities/session: one login on one device.
use video_site.Common.{ℕ, String, Bool, not, Option, ◌&&◌, is_some, if◌then◌else◌}
use video_site.Entities.Datetime.{Datetime, as_utc, is_before}

pub data SessionStatus : Type 0 where
  active expired revoked : SessionStatus

pub record AuthSession : Type 0 where
  pub id : ℕ
  pub user_id : ℕ
  pub jti : String
  pub created_at : Datetime
  pub expires_at : Datetime
  pub revoked_at : Option Datetime
  pub visitor_id : Option String
  pub user_agent : Option String
  pub ip_address : Option String
  pub device : Option String
  pub last_seen_at : Option Datetime

abbrev pub is_revoked : AuthSession → Bool
is_revoked s = is_some s.revoked_at

-- `_not_expired`, with the moment that the caller or the clock gives.
abbrev pub not_expired : AuthSession → Datetime → Bool
not_expired s moment = is_before moment (as_utc s.expires_at)

unfoldable pub status : AuthSession → Datetime → SessionStatus
status s now =
    if is_revoked s
    then SessionStatus.revoked
    else if not (not_expired s now)
    then expired
    else active

unfoldable pub is_valid : AuthSession → Datetime → Bool
is_valid s now = not (is_revoked s) && not_expired s now
