-- ===== src/Theorems/Atomic/Profile.antt =====
-- Profiles, moderation, devices and access control: what raises before the commit has committed
-- nothing, and nothing raises after it.
use video_site.Common.{ℕ, ◌≡◌, String, Option, arith}
use video_site.Entities.User.{User}
use video_site.Errors.{Error, err}
use video_site.Database.Users
use video_site.Database.Roles
use video_site.Service.{External, DeviceInfo, UpdateUser, World}
use video_site.Service.Steps.{audit}
use video_site.Auth.Verification.{send_verification, update_user_row}
use video_site.Auth.ChangePassword.{revoke_sessions}
use video_site.Auth.UpdateUser.{
  change_email, change_username, renew_verification, save_profile, send_pending, update_user,
}
use video_site.Auth.DeleteUser.{deactivate, delete_user}
use video_site.Moderation.{apply_ban, ban_target, ban_user, apply_unban, unban_target, unban_user}
use video_site.Accounts.{
  get_user_profile, list_user_sessions, sign_out, revoke_all_sessions, sign_out_one,
  revoke_user_session,
}
use video_site.AccessControl.{
  create_permission, create_role, delete_role, grant_permission_to_role,
  revoke_permission_from_role, assign_role_to_user, revoke_role_from_user,
}
use video_site.Theorems.Atomic.Auth.{issue_verification_db}

module _ (ext : External) where
  save_profile_failed :
      (user_id : ℕ) (input : UpdateUser) (w : World) (e : Error)
      → (save_profile ext user_id input w).0 ≡ err e
      → (save_profile ext user_id input w).1.db ≡ w.db
  unfolding save_profile change_email change_username renew_verification update_user_row
  save_profile_failed user_id input w e h = grind (arith, issue_verification_db ext)

  pub update_user_failed :
      (user_id : ℕ) (input : UpdateUser) (w : World) (e : Error)
      → (update_user ext user_id input w).0 ≡ err e
      → (update_user ext user_id input w).1.db ≡ w.db
  unfolding update_user send_pending send_verification
  update_user_failed user_id input w e h = grind (arith, save_profile_failed)

  pub delete_user_failed :
      (user_id : ℕ) (device : Option DeviceInfo) (w : World) (e : Error)
      → (delete_user ext user_id device w).0 ≡ err e
      → (delete_user ext user_id device w).1.db ≡ w.db
  unfolding delete_user deactivate update_user_row revoke_sessions audit
  delete_user_failed user_id device w e h = grind arith

  pub ban_user_failed :
      (actor : User) (target_id : ℕ) (reason : Option String) (device : Option DeviceInfo)
      (w : World) (e : Error)
      → (ban_user ext actor target_id reason device w).0 ≡ err e
      → (ban_user ext actor target_id reason device w).1.db ≡ w.db
  unfolding ban_user ban_target apply_ban update_user_row revoke_sessions audit
  ban_user_failed actor target_id reason device w e h = grind arith

  pub unban_user_failed :
      (actor : User) (target_id : ℕ) (device : Option DeviceInfo) (w : World) (e : Error)
      → (unban_user ext actor target_id device w).0 ≡ err e
      → (unban_user ext actor target_id device w).1.db ≡ w.db
  unfolding unban_user unban_target apply_unban update_user_row audit
  unban_user_failed actor target_id device w e h = grind arith

  pub get_user_profile_db : (user_id : ℕ) (w : World) → (get_user_profile user_id w).1.db ≡ w.db
  unfolding get_user_profile
  get_user_profile_db user_id w = grind arith

  pub list_user_sessions_db :
      (user_id : ℕ) (w : World) → (list_user_sessions ext user_id w).1.db ≡ w.db
  unfolding list_user_sessions
  list_user_sessions_db user_id w = grind arith

  pub revoke_all_sessions_failed :
      (user_id : ℕ) (except_jti : Option String) (device : Option DeviceInfo) (w : World)
      (e : Error)
      → (revoke_all_sessions ext user_id except_jti device w).0 ≡ err e
      → (revoke_all_sessions ext user_id except_jti device w).1.db ≡ w.db
  unfolding revoke_all_sessions sign_out revoke_sessions audit
  revoke_all_sessions_failed user_id except_jti device w e h = grind arith

  pub revoke_user_session_failed :
      (user_id session_id : ℕ) (device : Option DeviceInfo) (w : World) (e : Error)
      → (revoke_user_session ext user_id session_id device w).0 ≡ err e
      → (revoke_user_session ext user_id session_id device w).1.db ≡ w.db
  unfolding revoke_user_session sign_out_one audit
  revoke_user_session_failed user_id session_id device w e h = grind arith

pub create_permission_failed :
    (resource action : String) (description : Option String) (w : World) (e : Error)
    → (create_permission resource action description w).0 ≡ err e
    → (create_permission resource action description w).1.db ≡ w.db
unfolding create_permission
create_permission_failed resource action description w e h = grind arith

pub create_role_failed :
    (name : String) (description : Option String) (w : World) (e : Error)
    → (create_role name description w).0 ≡ err e
    → (create_role name description w).1.db ≡ w.db
unfolding create_role
create_role_failed name description w e h = grind arith

pub delete_role_failed :
    (role_id : ℕ) (w : World) (e : Error)
    → (delete_role role_id w).0 ≡ err e
    → (delete_role role_id w).1.db ≡ w.db
unfolding delete_role
delete_role_failed role_id w e h = grind arith

-- The reads after the commit find what the reads before it found.
pub grant_permission_to_role_failed :
    (role_id permission_id : ℕ) (w : World) (e : Error)
    → (grant_permission_to_role role_id permission_id w).0 ≡ err e
    → (grant_permission_to_role role_id permission_id w).1.db ≡ w.db
unfolding grant_permission_to_role Roles.get_by_id Roles.grant_permission
grant_permission_to_role_failed role_id permission_id w e h = grind arith

pub revoke_permission_from_role_failed :
    (role_id permission_id : ℕ) (w : World) (e : Error)
    → (revoke_permission_from_role role_id permission_id w).0 ≡ err e
    → (revoke_permission_from_role role_id permission_id w).1.db ≡ w.db
unfolding revoke_permission_from_role Roles.get_by_id Roles.revoke_permission
revoke_permission_from_role_failed role_id permission_id w e h = grind arith

pub assign_role_to_user_failed :
    (user_id role_id : ℕ) (w : World) (e : Error)
    → (assign_role_to_user user_id role_id w).0 ≡ err e
    → (assign_role_to_user user_id role_id w).1.db ≡ w.db
unfolding assign_role_to_user Users.get_by_id Users.assign_role
assign_role_to_user_failed user_id role_id w e h = grind arith

pub revoke_role_from_user_failed :
    (user_id role_id : ℕ) (w : World) (e : Error)
    → (revoke_role_from_user user_id role_id w).0 ≡ err e
    → (revoke_role_from_user user_id role_id w).1.db ≡ w.db
unfolding revoke_role_from_user Users.get_by_id Users.revoke_role
revoke_role_from_user_failed user_id role_id w e h = grind arith
