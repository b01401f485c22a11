-- ===== src/Theorems/Atomic.antt =====
-- A request that fails leaves the committed database as it found it.
pub mod Auth
pub mod Profile
use video_site.Common.{◌≡◌, ◌≢◌, refl, arith}
use video_site.Errors.{Error, Result, ok, err, bad_login}
use video_site.Database.{Db}
use video_site.AccessControl.{list_permissions, list_roles, list_users}
use video_site.Service.{External, World}
use video_site.Requests.{Request, Outcome, done, failed, ended, handle}

-- From an answer to the outcome of a request.
failed_db :
    {A : Type 0} (db : Db) (r : Result A × World) (e : Error)
    → (ended r).0 ≡ failed e
    → (r.0 ≡ err e → r.1.db ≡ db)
    → (ended r).1.db ≡ db
failed_db db (ok a, w) e h same = cc
failed_db db (err f, w) e h same = same (cc)

-- A request that fails, other than a login that is refused for its credentials, has committed
-- nothing.
pub failed_keeps_db :
    (ext : External) (request : Request) (w : World) (e : Error)
    → (handle ext request w).0 ≡ failed e
    → e ≢ bad_login
    → (handle ext request w).1.db ≡ w.db
unfolding handle list_permissions list_roles list_users
failed_keeps_db ext (Request.register i d) w e h ne =
    failed_db w.db _ e h (Auth.register_failed ext i d w e)
failed_keeps_db ext (Request.login i d) w e h ne =
    failed_db w.db _ e h (λ f. Auth.login_failed ext i d w e f ne)
failed_keeps_db ext (Request.refresh t d) w e h ne =
    failed_db w.db _ e h (Auth.refresh_failed ext t d w e)
failed_keeps_db ext (Request.authenticate t) w e h ne =
    failed_db w.db _ e h (λ _. Auth.authenticate_db ext t w)
failed_keeps_db ext (Request.logout t d) w e h ne =
    failed_db w.db _ e h (Auth.logout_failed ext t d w e)
failed_keeps_db ext (Request.verify_email t d) w e h ne =
    failed_db w.db _ e h (Auth.verify_email_failed ext t d w e)
failed_keeps_db ext (Request.change_password u i d) w e h ne =
    failed_db w.db _ e h (Auth.change_password_failed ext u i d w e)
failed_keeps_db ext (Request.forgot_password m d) w e h ne =
    failed_db w.db _ e h (Auth.forgot_password_failed ext m d w e)
failed_keeps_db ext (Request.reset_password i d) w e h ne =
    failed_db w.db _ e h (Auth.reset_password_failed ext i d w e)
failed_keeps_db ext (Request.update_user u i) w e h ne =
    failed_db w.db _ e h (Profile.update_user_failed ext u i w e)
failed_keeps_db ext (Request.delete_user u d) w e h ne =
    failed_db w.db _ e h (Profile.delete_user_failed ext u d w e)
failed_keeps_db ext (Request.ban_user a u r d) w e h ne =
    failed_db w.db _ e h (Profile.ban_user_failed ext a u r d w e)
failed_keeps_db ext (Request.unban_user a u d) w e h ne =
    failed_db w.db _ e h (Profile.unban_user_failed ext a u d w e)
failed_keeps_db ext (Request.get_user_profile u) w e h ne =
    failed_db w.db _ e h (λ _. Profile.get_user_profile_db ext u w)
failed_keeps_db ext (Request.list_user_sessions u) w e h ne =
    failed_db w.db _ e h (λ _. Profile.list_user_sessions_db ext u w)
failed_keeps_db ext (Request.revoke_all_sessions u j d) w e h ne =
    failed_db w.db _ e h (Profile.revoke_all_sessions_failed ext u j d w e)
failed_keeps_db ext (Request.revoke_user_session u s d) w e h ne =
    failed_db w.db _ e h (Profile.revoke_user_session_failed ext u s d w e)
failed_keeps_db ext (Request.create_permission r a d) w e h ne =
    failed_db w.db _ e h (Profile.create_permission_failed r a d w e)
failed_keeps_db ext (Request.create_role n d) w e h ne =
    failed_db w.db _ e h (Profile.create_role_failed n d w e)
failed_keeps_db ext (Request.delete_role r) w e h ne =
    failed_db w.db _ e h (Profile.delete_role_failed r w e)
failed_keeps_db ext (Request.grant_permission_to_role r p) w e h ne =
    failed_db w.db _ e h (Profile.grant_permission_to_role_failed r p w e)
failed_keeps_db ext (Request.revoke_permission_from_role r p) w e h ne =
    failed_db w.db _ e h (Profile.revoke_permission_from_role_failed r p w e)
failed_keeps_db ext (Request.assign_role_to_user u r) w e h ne =
    failed_db w.db _ e h (Profile.assign_role_to_user_failed u r w e)
failed_keeps_db ext (Request.revoke_role_from_user u r) w e h ne =
    failed_db w.db _ e h (Profile.revoke_role_from_user_failed u r w e)
failed_keeps_db ext Request.list_permissions w e h ne = refl
failed_keeps_db ext Request.list_roles w e h ne = refl
failed_keeps_db ext Request.list_users w e h ne = refl
