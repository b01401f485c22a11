-- ===== src/Theorems/Kept/Runs.antt =====
-- Every request, and every run of requests.
use video_site.Common.{List, [], ◌∷◌}
use video_site.Database.{Db}
use video_site.Errors.{Result, ok, err}
use video_site.Service.{External, World}
use video_site.AccessControl.{list_permissions, list_roles, list_users}
use video_site.Requests.{Request, ended, handle, run}
use video_site.Theorems.Kept.Writes.{Kept}
use video_site.Theorems.Kept.Auth
use video_site.Theorems.Kept.Recovery
use video_site.Theorems.Kept.Profile
use video_site.Theorems.Kept.Access

-- Leaving the answer aside leaves the database as it is.
ended-Kept : {A : Type 0} (P : Db → Type 0) (r : Result A × World) → P r.1.db → P (ended r).1.db
ended-Kept P (ok _, w) h = h
ended-Kept P (err _, w) h = h

module _ (ext : External) (P : Db → Type 0) (kept : Kept P) where
  pub handle-Kept : (request : Request) (w : World) → P w.db → P (handle ext request w).1.db
  unfolding handle list_permissions list_roles list_users
  handle-Kept (Request.register i d) w h =
      ended-Kept P _ (Recovery.register-Kept ext P kept i d w h)
  handle-Kept (Request.login i d) w h = ended-Kept P _ (Auth.login-Kept ext P kept i d w h)
  handle-Kept (Request.refresh t d) w h = ended-Kept P _ (Auth.refresh-Kept ext P kept t d w h)
  handle-Kept (Request.authenticate t) w h =
      ended-Kept P _ (Auth.authenticate-Kept ext P kept t w h)
  handle-Kept (Request.logout t d) w h = ended-Kept P _ (Auth.logout-Kept ext P kept t d w h)
  handle-Kept (Request.verify_email t d) w h =
      ended-Kept P _ (Recovery.verify_email-Kept ext P kept t d w h)
  handle-Kept (Request.change_password u i d) w h =
      ended-Kept P _ (Recovery.change_password-Kept ext P kept u i d w h)
  handle-Kept (Request.forgot_password e d) w h =
      ended-Kept P _ (Recovery.forgot_password-Kept ext P kept e d w h)
  handle-Kept (Request.reset_password i d) w h =
      ended-Kept P _ (Recovery.reset_password-Kept ext P kept i d w h)
  handle-Kept (Request.update_user u i) w h =
      ended-Kept P _ (Profile.update_user-Kept ext P kept u i w h)
  handle-Kept (Request.delete_user u d) w h =
      ended-Kept P _ (Profile.delete_user-Kept ext P kept u d w h)
  handle-Kept (Request.ban_user a u r d) w h =
      ended-Kept P _ (Profile.ban_user-Kept ext P kept a u r d w h)
  handle-Kept (Request.unban_user a u d) w h =
      ended-Kept P _ (Profile.unban_user-Kept ext P kept a u d w h)
  handle-Kept (Request.get_user_profile u) w h =
      ended-Kept P _ (Profile.get_user_profile-Kept ext P kept u w h)
  handle-Kept (Request.list_user_sessions u) w h =
      ended-Kept P _ (Profile.list_user_sessions-Kept ext P kept u w h)
  handle-Kept (Request.revoke_all_sessions u j d) w h =
      ended-Kept P _ (Profile.revoke_all_sessions-Kept ext P kept u j d w h)
  handle-Kept (Request.revoke_user_session u s d) w h =
      ended-Kept P _ (Profile.revoke_user_session-Kept ext P kept u s d w h)
  handle-Kept (Request.create_permission r a d) w h =
      ended-Kept P _ (Access.create_permission-Kept P kept r a d w h)
  handle-Kept (Request.create_role n d) w h =
      ended-Kept P _ (Access.create_role-Kept P kept n d w h)
  handle-Kept (Request.delete_role r) w h = ended-Kept P _ (Access.delete_role-Kept P kept r w h)
  handle-Kept (Request.grant_permission_to_role r p) w h =
      ended-Kept P _ (Access.grant_permission_to_role-Kept P kept r p w h)
  handle-Kept (Request.revoke_permission_from_role r p) w h =
      ended-Kept P _ (Access.revoke_permission_from_role-Kept P kept r p w h)
  handle-Kept (Request.assign_role_to_user u r) w h =
      ended-Kept P _ (Access.assign_role_to_user-Kept P kept u r w h)
  handle-Kept (Request.revoke_role_from_user u r) w h =
      ended-Kept P _ (Access.revoke_role_from_user-Kept P kept u r w h)
  handle-Kept Request.list_permissions w h = h
  handle-Kept Request.list_roles w h = h
  handle-Kept Request.list_users w h = h

  pub run-Kept : (requests : List Request) (w : World) → P w.db → P (run ext requests w).db
  unfolding run
  run-Kept [] w h = h
  run-Kept (request ∷ rest) w h = run-Kept rest (handle ext request w).1 (handle-Kept request w h)
