-- ===== src/Theorems/Kept/Auth.antt =====
-- Sessions: login, refresh, authentication, logout.
use video_site.Common.{◌≡◌, String, Option, arith}
use video_site.Database.{Db}
use video_site.Service.{External, DeviceInfo, Login, World}
use video_site.Service.Steps.{audit, limiter_hit, limiter_peek, limiter_reset}
use video_site.Service.TokenService.{decode, issue_access, issue_refresh}
use video_site.Auth.Login.{
  guard_ip, guard_account, count_failure, reject, open_session, check_credentials, login,
}
use video_site.Auth.Refresh.{rotate, exchange, refresh}
use video_site.Auth.Authenticate.{load_user, resolve, authenticate}
use video_site.Auth.Logout.{end_session, logout}
use video_site.Theorems.Kept.Writes.{Kept}

-- The limiter's calls leave the database alone.
module _ (ext : External) where
  pub guard_ip_frame :
      (ip : Option String) (w : World)
      → ((guard_ip ext ip w).1.db ≡ w.db) × ((guard_ip ext ip w).1.work ≡ w.work)
  unfolding guard_ip limiter_peek
  guard_ip_frame ip w = ground arith

  pub guard_account_frame :
      (email : String) (w : World)
      → ((guard_account ext email w).1.db ≡ w.db) × ((guard_account ext email w).1.work ≡ w.work)
  unfolding guard_account limiter_peek
  guard_account_frame email w = ground arith

  pub count_failure_frame :
      (email : String) (device : DeviceInfo) (w : World)
      → ((count_failure ext email device w).1.db ≡ w.db)
        × ((count_failure ext email device w).1.work ≡ w.work)
  unfolding count_failure limiter_hit
  count_failure_frame email device w = ground arith

module _ (ext : External) (P : Db → Type 0) (kept : Kept P) where
  check_credentials-Kept :
      (email password : String) (device : DeviceInfo) (w : World)
      → P w.db
      → P w.work
      → P (check_credentials ext email password device w).1.db
  unfolding check_credentials reject open_session audit issue_access issue_refresh
  check_credentials-Kept email password device w h k =
      grind (arith, kept.add_session, kept.log, count_failure_frame ext)

  pub login-Kept :
      (input : Login) (device : Option DeviceInfo) (w : World)
      → P w.db
      → P (login ext input device w).1.db
  unfolding login limiter_reset
  login-Kept input device w h =
      grind (arith, check_credentials-Kept, guard_ip_frame ext, guard_account_frame ext)

  pub refresh-Kept :
      (token : String) (device : Option DeviceInfo) (w : World)
      → P w.db
      → P (refresh ext token device w).1.db
  unfolding refresh decode exchange rotate issue_access issue_refresh
  refresh-Kept token device w h = grind (arith, kept.add_session, kept.revoke)

  pub authenticate-Kept : (token : String) (w : World) → P w.db → P (authenticate ext token w).1.db
  unfolding authenticate decode resolve load_user
  authenticate-Kept token w h = grind arith

  pub logout-Kept :
      (token : String) (device : Option DeviceInfo) (w : World)
      → P w.db
      → P (logout ext token device w).1.db
  unfolding logout decode end_session audit
  logout-Kept token device w h = grind (arith, kept.revoke, kept.log)
