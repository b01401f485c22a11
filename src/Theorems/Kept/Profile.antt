-- ===== src/Theorems/Kept/Profile.antt =====
-- Profiles, moderation and devices.
use video_site.Common.{ℕ, String, Option, arith}
use video_site.Entities.User.{User}
use video_site.Database.{Db}
use video_site.Service.{External, DeviceInfo, UpdateUser, World}
use video_site.Service.Steps.{audit}
use video_site.Auth.Verification.{send_verification, update_user_row}
use video_site.Auth.ChangePassword.{revoke_sessions}
use video_site.Auth.UpdateUser.{
  change_email, change_username, renew_verification, save_profile, send_pending, update_user,
}
use video_site.Auth.DeleteUser.{deactivate, delete_user}
use video_site.Moderation.{apply_ban, ban_target, ban_user, apply_unban, unban_target, unban_user}
use video_site.Accounts.{
  get_user_profile, list_user_sessions, sign_out, revoke_all_sessions, sign_out_one,
  revoke_user_session,
}
use video_site.Theorems.Kept.Writes.{Kept}
use video_site.Theorems.Kept.Recovery.{issue_verification-Kept}

module _ (ext : External) (P : Db → Type 0) (kept : Kept P) where
  save_profile-Kept :
      (user_id : ℕ) (input : UpdateUser) (w : World)
      → P w.db
      → P w.work
      → P (save_profile ext user_id input w).1.db
  unfolding save_profile change_email change_username renew_verification update_user_row
  save_profile-Kept user_id input w h k =
      grind (arith, kept.update, issue_verification-Kept ext P kept)

  pub update_user-Kept :
      (user_id : ℕ) (input : UpdateUser) (w : World)
      → P w.db
      → P (update_user ext user_id input w).1.db
  unfolding update_user send_pending send_verification
  update_user-Kept user_id input w h = grind (arith, save_profile-Kept)

  pub delete_user-Kept :
      (user_id : ℕ) (device : Option DeviceInfo) (w : World)
      → P w.db
      → P (delete_user ext user_id device w).1.db
  unfolding delete_user deactivate update_user_row revoke_sessions audit
  delete_user-Kept user_id device w h = grind (arith, kept.update, kept.revoke_all, kept.log)

  pub ban_user-Kept :
      (actor : User) (target_id : ℕ) (reason : Option String) (device : Option DeviceInfo)
      (w : World)
      → P w.db
      → P (ban_user ext actor target_id reason device w).1.db
  unfolding ban_user ban_target apply_ban update_user_row revoke_sessions audit
  ban_user-Kept actor target_id reason device w h =
      grind (arith, kept.update, kept.revoke_all, kept.log)

  pub unban_user-Kept :
      (actor : User) (target_id : ℕ) (device : Option DeviceInfo) (w : World)
      → P w.db
      → P (unban_user ext actor target_id device w).1.db
  unfolding unban_user unban_target apply_unban update_user_row audit
  unban_user-Kept actor target_id device w h = grind (arith, kept.update, kept.log)

  pub get_user_profile-Kept :
      (user_id : ℕ) (w : World) → P w.db → P (get_user_profile user_id w).1.db
  unfolding get_user_profile
  get_user_profile-Kept user_id w h = grind arith

  pub list_user_sessions-Kept :
      (user_id : ℕ) (w : World) → P w.db → P (list_user_sessions ext user_id w).1.db
  unfolding list_user_sessions
  list_user_sessions-Kept user_id w h = grind arith

  pub revoke_all_sessions-Kept :
      (user_id : ℕ) (except_jti : Option String) (device : Option DeviceInfo) (w : World)
      → P w.db
      → P (revoke_all_sessions ext user_id except_jti device w).1.db
  unfolding revoke_all_sessions sign_out revoke_sessions audit
  revoke_all_sessions-Kept user_id except_jti device w h = grind (arith, kept.revoke_all, kept.log)

  pub revoke_user_session-Kept :
      (user_id session_id : ℕ) (device : Option DeviceInfo) (w : World)
      → P w.db
      → P (revoke_user_session ext user_id session_id device w).1.db
  unfolding revoke_user_session sign_out_one audit
  revoke_user_session-Kept user_id session_id device w h = grind (arith, kept.revoke, kept.log)
