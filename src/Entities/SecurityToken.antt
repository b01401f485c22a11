-- ===== src/Entities/SecurityToken.antt =====
-- entities/security_token: a single-use, expiring secret mailed to a user.
use video_site.Common.{
  ℕ, String, Bool, true, false, not, Option, ◌≡◌, ◌↔◌, ◌&&◌, Eq, is_some, arith,
}
use video_site.Entities.Datetime.{Datetime, as_utc, is_before}

pub data TokenPurpose : Type 0 where
  email_verification password_reset : TokenPurpose

abbrev pub purpose_beq : TokenPurpose → TokenPurpose → Bool
purpose_beq email_verification email_verification = true
purpose_beq password_reset password_reset = true
purpose_beq _ _ = false

pub purpose_beq_iff : (p q : TokenPurpose) → (purpose_beq p q ≡ true) ↔ (p ≡ q)
purpose_beq_iff p q = ground arith

instance abbrev pub purpose_eq : Eq TokenPurpose
purpose_eq = record { beq = purpose_beq; beq_iff = purpose_beq_iff }

pub record SecurityToken : Type 0 where
  pub id : ℕ
  pub user_id : ℕ
  pub purpose : TokenPurpose
  pub token_hash : String
  pub created_at : Datetime
  pub expires_at : Datetime
  pub used_at : Option Datetime

abbrev pub is_used : SecurityToken → Bool
is_used t = is_some t.used_at

-- `is_usable`, with the moment that the caller or the clock gives.
unfoldable pub is_usable : SecurityToken → Datetime → Bool
is_usable t moment = not (is_used t) && is_before moment (as_utc t.expires_at)
