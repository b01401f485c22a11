-- ===== src/Theorems/Kept/Recovery.antt =====
-- Signing up, confirming an address, and passwords.
use video_site.Common.{ℕ, ◌≡◌, String, Option, arith}
use video_site.RateLimit.{RateLimitPolicy}
use video_site.Errors.{Error}
use video_site.Database.{Db}
use video_site.Service.{External, DeviceInfo, RegisterUser, ChangePassword, ResetPassword, World}
use video_site.Service.Steps.{audit, limiter_hit}
use video_site.Service.TokenService.{generate}
use video_site.Auth.Verification.{
  issue_verification, send_verification, update_user_row, stamp_verified, spend_verification,
  verify_email,
}
use video_site.Auth.Register.{charge_address, grant_default, add_user, create_account, register}
use video_site.Auth.ChangePassword.{
  set_password, spend_reset_links, revoke_sessions, replace_password, change_password,
}
use video_site.Auth.Recovery.{
  charge_email, issue_reset, prepare_reset, send_reset, forgot_password, spend_reset,
  reset_password,
}
use video_site.Theorems.Kept.Writes.{Kept}

module _ (ext : External) where
  pub charge_address_frame :
      (policy : RateLimitPolicy) (prefix : String) (refusal : ℕ → Error) (ip : Option String)
      (w : World)
      → ((charge_address ext policy prefix refusal ip w).1.db ≡ w.db)
        × ((charge_address ext policy prefix refusal ip w).1.work ≡ w.work)
  unfolding charge_address limiter_hit
  charge_address_frame policy prefix refusal ip w = ground arith

  pub charge_email_frame :
      (address : String) (w : World)
      → ((charge_email ext address w).1.db ≡ w.db) × ((charge_email ext address w).1.work ≡ w.work)
  unfolding charge_email limiter_hit
  charge_email_frame address w = ground arith

module _ (ext : External) (P : Db → Type 0) (kept : Kept P) where
  pub issue_verification-Kept :
      (user_id : ℕ) (w : World)
      → P w.db
      → P w.work
      → P (issue_verification ext user_id w).1.db × P (issue_verification ext user_id w).1.work
  unfolding issue_verification generate
  issue_verification-Kept user_id w h k = grind (arith, kept.invalidate, kept.add_token)

  create_account-Kept :
      (input : RegisterUser) (email username : String) (device : DeviceInfo) (w : World)
      → P w.db
      → P w.work
      → P (create_account ext input email username device w).1.db
  unfolding create_account add_user grant_default audit
  create_account-Kept input email username device w h k =
      grind (arith, kept.add_user, kept.assign_role, kept.log, issue_verification-Kept)

  pub register-Kept :
      (input : RegisterUser) (device : Option DeviceInfo) (w : World)
      → P w.db
      → P (register ext input device w).1.db
  unfolding register send_verification
  register-Kept input device w h = grind (arith, create_account-Kept, charge_address_frame ext)

  pub verify_email-Kept :
      (token : String) (device : Option DeviceInfo) (w : World)
      → P w.db
      → P (verify_email ext token device w).1.db
  unfolding verify_email spend_verification stamp_verified update_user_row audit
  verify_email-Kept token device w h = grind (arith, kept.mark_used, kept.update, kept.log)

  pub change_password-Kept :
      (user_id : ℕ) (input : ChangePassword) (device : Option DeviceInfo) (w : World)
      → P w.db
      → P (change_password ext user_id input device w).1.db
  unfolding change_password replace_password set_password spend_reset_links revoke_sessions audit
  change_password-Kept user_id input device w h =
      grind (arith, kept.update_password, kept.revoke_all, kept.invalidate, kept.log)

  prepare_reset-Kept :
      (address : String) (w : World) → P w.db → P w.work → P (prepare_reset ext address w).1.db
  unfolding prepare_reset issue_reset spend_reset_links generate
  prepare_reset-Kept address w h k = grind (arith, kept.invalidate, kept.add_token)

  pub forgot_password-Kept :
      (email : String) (device : Option DeviceInfo) (w : World)
      → P w.db
      → P (forgot_password ext email device w).1.db
  unfolding forgot_password send_reset
  forgot_password-Kept email device w h =
      grind (arith, prepare_reset-Kept, charge_address_frame ext, charge_email_frame ext)

  spend_reset-Kept :
      (token_hash password : String) (device : Option DeviceInfo) (w : World)
      → P w.db
      → P w.work
      → P (spend_reset ext token_hash password device w).1.db
  unfolding spend_reset set_password spend_reset_links audit
  spend_reset-Kept token_hash password device w h k =
      grind
        (arith, kept.update_password, kept.mark_used, kept.invalidate, kept.revoke_all, kept.log)

  pub reset_password-Kept :
      (input : ResetPassword) (device : Option DeviceInfo) (w : World)
      → P w.db
      → P (reset_password ext input device w).1.db
  unfolding reset_password
  reset_password-Kept input device w h = grind (arith, spend_reset-Kept, charge_address_frame ext)
