-- ===== src/Theorems/Kept/Access.antt =====
-- Roles and permissions.
use video_site.Common.{ℕ, String, Option, arith}
use video_site.Database.{Db}
use video_site.Service.{World}
use video_site.AccessControl.{
  create_permission, create_role, delete_role, grant_permission_to_role,
  revoke_permission_from_role, assign_role_to_user, revoke_role_from_user,
}
use video_site.Theorems.Kept.Writes.{Kept}

module _ (P : Db → Type 0) (kept : Kept P) where
  pub create_permission-Kept :
      (resource action : String) (description : Option String) (w : World)
      → P w.db
      → P (create_permission resource action description w).1.db
  unfolding create_permission
  create_permission-Kept resource action description w h = grind (arith, kept.add_permission)

  pub create_role-Kept :
      (name : String) (description : Option String) (w : World)
      → P w.db
      → P (create_role name description w).1.db
  unfolding create_role
  create_role-Kept name description w h = grind (arith, kept.add_role)

  pub delete_role-Kept : (role_id : ℕ) (w : World) → P w.db → P (delete_role role_id w).1.db
  unfolding delete_role
  delete_role-Kept role_id w h = grind (arith, kept.delete_role)

  pub grant_permission_to_role-Kept :
      (role_id permission_id : ℕ) (w : World)
      → P w.db
      → P (grant_permission_to_role role_id permission_id w).1.db
  unfolding grant_permission_to_role
  grant_permission_to_role-Kept role_id permission_id w h = grind (arith, kept.grant_permission)

  pub revoke_permission_from_role-Kept :
      (role_id permission_id : ℕ) (w : World)
      → P w.db
      → P (revoke_permission_from_role role_id permission_id w).1.db
  unfolding revoke_permission_from_role
  revoke_permission_from_role-Kept role_id permission_id w h = grind (arith, kept.revoke_permission)

  pub assign_role_to_user-Kept :
      (user_id role_id : ℕ) (w : World) → P w.db → P (assign_role_to_user user_id role_id w).1.db
  unfolding assign_role_to_user
  assign_role_to_user-Kept user_id role_id w h = grind (arith, kept.assign_role)

  pub revoke_role_from_user-Kept :
      (user_id role_id : ℕ) (w : World) → P w.db → P (revoke_role_from_user user_id role_id w).1.db
  unfolding revoke_role_from_user
  revoke_role_from_user-Kept user_id role_id w h = grind (arith, kept.revoke_role)
