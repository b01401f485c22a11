-- ===== src/Tests/Seeded.antt =====
-- The demo data in an empty database.
use mathlib.Core.Option
use video_site.Common.{◌≡◌, ◌≢◌, ◌⊎◌, true, false, refl, some, [], ◌∷◌}
use video_site.Errors.{ok}
use video_site.Entities.User.{permission_codes}
use video_site.Database.Users
use video_site.Database.Roles
use video_site.Database.Permissions
use video_site.Service.{World}
use video_site.Seed.{
  add_permissions, grant_all, add_roles, insert_user, add_users, load_demo_data, seed_demo_data,
}
use video_site.Seed.Laws.{shown, seed_demo_data_once}
use video_site.Tests.{sample, world, tables}

abbrev empty : World
empty = record world {
  db = record tables { users = []; sessions = []; security_tokens = []; next_id = 1 };
}

seeds : (seed_demo_data sample empty).0 ≡ ok tt
unfolding seed_demo_data load_demo_data add_permissions add_roles grant_all add_users insert_user
    Permissions.add Roles.add Roles.grant_permission Users.assign_role Roles.role_to_entity
    Roles.permissions_of
seeds = refl

-- What the moderator of the demo data may do.
moderator_codes :
    Option.map permission_codes
      (Users.get_by_email (seed_demo_data sample empty).1.db "moderator@example.com")
    ≡ some ("content.moderate" ∷ "content.read" ∷ "users.ban" ∷ "users.read" ∷ [])
unfolding seed_demo_data load_demo_data add_permissions add_roles grant_all add_users insert_user
    Permissions.add Roles.add Roles.grant_permission Users.assign_role Roles.role_to_entity
    Roles.permissions_of Users.get_by_email permission_codes Users.roles_of
moderator_codes = refl

seed_demo_data_once_example :
    (((empty.db.users ≢ []) × ((seed_demo_data sample empty).1.db ≡ empty.db))
      ⊎ ((empty.db.users ≡ [])
          × (shown (seed_demo_data sample empty).1.db.users
              ≡ ("admin@example.com", "admin", true, true)
                ∷ ("moderator@example.com", "moderator", false, true)
                ∷ ("viewer@example.com", "viewer", false, true)
                ∷ [])))
    × ((seed_demo_data sample (seed_demo_data sample empty).1).1.db
        ≡ (seed_demo_data sample empty).1.db)
seed_demo_data_once_example = seed_demo_data_once sample empty seeds
