-- ===== src/Theorems/Atomic/Auth.antt =====
-- The credential flow: what raises before the commit has committed nothing.
use video_site.Common.{ℕ, ◌≡◌, ◌≢◌, String, Option, arith}
use video_site.Errors.{Error, err, bad_login}
use video_site.Service.{
  External, DeviceInfo, Login, RegisterUser, ChangePassword, ResetPassword, World,
}
use video_site.Service.Steps.{audit, limiter_reset}
use video_site.Service.TokenService.{decode, generate, issue_access, issue_refresh}
use video_site.Auth.Login.{reject, open_session, check_credentials, login}
use video_site.Auth.Refresh.{rotate, exchange, refresh}
use video_site.Auth.Authenticate.{load_user, resolve, authenticate}
use video_site.Auth.Logout.{end_session, logout}
use video_site.Auth.Verification.{
  issue_verification, send_verification, update_user_row, stamp_verified, spend_verification,
  verify_email,
}
use video_site.Auth.Register.{grant_default, add_user, create_account, register}
use video_site.Auth.ChangePassword.{
  set_password, spend_reset_links, revoke_sessions, replace_password, change_password,
}
use video_site.Auth.Recovery.{
  issue_reset, prepare_reset, send_reset, forgot_password, spend_reset, reset_password,
}
use video_site.Theorems.Kept.Auth.{guard_ip_frame, guard_account_frame, count_failure_frame}
use video_site.Theorems.Kept.Recovery.{charge_address_frame, charge_email_frame}

module _ (ext : External) where
  check_credentials_failed :
      (email password : String) (device : DeviceInfo) (w : World) (e : Error)
      → (check_credentials ext email password device w).0 ≡ err e
      → e ≢ bad_login
      → (check_credentials ext email password device w).1.db ≡ w.db
  unfolding check_credentials reject open_session audit issue_access issue_refresh
  check_credentials_failed email password device w e h ne = grind (arith, count_failure_frame ext)

  pub login_failed :
      (input : Login) (device : Option DeviceInfo) (w : World) (e : Error)
      → (login ext input device w).0 ≡ err e
      → e ≢ bad_login
      → (login ext input device w).1.db ≡ w.db
  unfolding login limiter_reset
  login_failed input device w e h ne =
      grind (arith, check_credentials_failed, guard_ip_frame ext, guard_account_frame ext)

  pub refresh_failed :
      (token : String) (device : Option DeviceInfo) (w : World) (e : Error)
      → (refresh ext token device w).0 ≡ err e
      → (refresh ext token device w).1.db ≡ w.db
  unfolding refresh decode exchange rotate issue_access issue_refresh
  refresh_failed token device w e h = grind arith

  pub authenticate_db : (token : String) (w : World) → (authenticate ext token w).1.db ≡ w.db
  unfolding authenticate decode resolve load_user
  authenticate_db token w = grind arith

  pub logout_failed :
      (token : String) (device : Option DeviceInfo) (w : World) (e : Error)
      → (logout ext token device w).0 ≡ err e
      → (logout ext token device w).1.db ≡ w.db
  unfolding logout decode end_session audit
  logout_failed token device w e h = grind arith

  pub issue_verification_db :
      (user_id : ℕ) (w : World) → (issue_verification ext user_id w).1.db ≡ w.db
  unfolding issue_verification generate
  issue_verification_db user_id w = grind arith

  create_account_failed :
      (input : RegisterUser) (email username : String) (device : DeviceInfo) (w : World) (e : Error)
      → (create_account ext input email username device w).0 ≡ err e
      → (create_account ext input email username device w).1.db ≡ w.db
  unfolding create_account add_user grant_default audit
  create_account_failed input email username device w e h = grind (arith, issue_verification_db)

  pub register_failed :
      (input : RegisterUser) (device : Option DeviceInfo) (w : World) (e : Error)
      → (register ext input device w).0 ≡ err e
      → (register ext input device w).1.db ≡ w.db
  unfolding register send_verification
  register_failed input device w e h =
      grind (arith, create_account_failed, charge_address_frame ext)

  pub verify_email_failed :
      (token : String) (device : Option DeviceInfo) (w : World) (e : Error)
      → (verify_email ext token device w).0 ≡ err e
      → (verify_email ext token device w).1.db ≡ w.db
  unfolding verify_email spend_verification stamp_verified update_user_row audit
  verify_email_failed token device w e h = grind arith

  pub change_password_failed :
      (user_id : ℕ) (input : ChangePassword) (device : Option DeviceInfo) (w : World) (e : Error)
      → (change_password ext user_id input device w).0 ≡ err e
      → (change_password ext user_id input device w).1.db ≡ w.db
  unfolding change_password replace_password set_password spend_reset_links revoke_sessions audit
  change_password_failed user_id input device w e h = grind arith

  prepare_reset_failed :
      (address : String) (w : World) (e : Error)
      → (prepare_reset ext address w).0 ≡ err e
      → (prepare_reset ext address w).1.db ≡ w.db
  unfolding prepare_reset issue_reset spend_reset_links generate
  prepare_reset_failed address w e h = grind arith

  pub forgot_password_failed :
      (email : String) (device : Option DeviceInfo) (w : World) (e : Error)
      → (forgot_password ext email device w).0 ≡ err e
      → (forgot_password ext email device w).1.db ≡ w.db
  unfolding forgot_password send_reset
  forgot_password_failed email device w e h =
      grind (arith, prepare_reset_failed, charge_address_frame ext, charge_email_frame ext)

  spend_reset_failed :
      (token_hash password : String) (device : Option DeviceInfo) (w : World) (e : Error)
      → (spend_reset ext token_hash password device w).0 ≡ err e
      → (spend_reset ext token_hash password device w).1.db ≡ w.db
  unfolding spend_reset set_password spend_reset_links audit
  spend_reset_failed token_hash password device w e h = grind arith

  pub reset_password_failed :
      (input : ResetPassword) (device : Option DeviceInfo) (w : World) (e : Error)
      → (reset_password ext input device w).0 ≡ err e
      → (reset_password ext input device w).1.db ≡ w.db
  unfolding reset_password
  reset_password_failed input device w e h =
      grind (arith, spend_reset_failed, charge_address_frame ext)
