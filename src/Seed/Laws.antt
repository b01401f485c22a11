-- ===== src/Seed/Laws.antt =====
-- What a seeding leaves.
use video_site.Common.{
  ℕ, suc, String, true, ◌≡◌, refl, List, [], ◌∷◌, ◌++◌, any, arith, Bool-cases, Bool, false, ◌≢◌,
  ◌⊎◌, sym, inl, inr, Option, none, some,
}
use video_site.Errors.{ok, Result-cases}
use video_site.Entities.Datetime.{Datetime, utc}
use video_site.Database.{Db, UserRow}
use video_site.Database.Users
use video_site.Database.Roles
use video_site.Database.Permissions
use video_site.Service.{External, World}
use video_site.Seed.{
  SeedPermission, SeedRole, SeedUser, grant_all, users, seeded_row, id_of_name, permissions,
  role_grants, add_permissions, add_roles, insert_user, add_users, load_demo_data, seed_demo_data,
}

-- Of each account its email, its username, and whether it is a superuser and active.
abbrev pub shown : List UserRow → List (String × String × Bool × Bool)
shown [] = []
shown (r ∷ rest) = (r.email, r.username, r.is_superuser, r.is_active) ∷ shown rest

abbrev described : List SeedUser → List (String × String × Bool × Bool)
described [] = []
described (u ∷ rest) = (u.email, u.username, u.is_superuser, true) ∷ described rest

shown_last :
    (rows : List UserRow) (row : UserRow) (more : List (String × String × Bool × Bool))
    → shown (rows ++ row ∷ []) ++ more
      ≡ shown rows ++ (row.email, row.username, row.is_superuser, row.is_active) ∷ more
shown_last [] row more = refl
shown_last (r ∷ rest) row more = grind (arith, shown_last rest row more)

shown_nothing : (rows : List UserRow) → shown rows ++ [] ≡ shown rows
shown_nothing [] = refl
shown_nothing (r ∷ rest) = grind (arith, shown_nothing rest)

any-shown :
    (rows : List UserRow) (first : String × String × Bool × Bool)
    (rest : List (String × String × Bool × Bool))
    → shown rows ≡ first ∷ rest
    → any (λ r. true) rows ≡ true
any-shown [] first rest same = absurd (grind arith)
any-shown (r ∷ rows) first rest same = refl

insert_user_rows :
    (row : UserRow) (role_id : Option ℕ) (db db' : Db)
    → insert_user row role_id db ≡ ok db'
    → db'.users ≡ db.users ++ row ∷ []
unfolding insert_user Users.assign_role
insert_user_rows row none db db' done = grind arith
insert_user_rows row (some role_id) db db' done = grind arith

-- The permissions and the roles are no accounts.
add_permissions_users :
    (ps : List SeedPermission) (w : World) → (add_permissions ps w).1.work.users ≡ w.work.users
unfolding add_permissions Permissions.add
add_permissions_users [] w = refl
add_permissions_users (p ∷ rest) w = grind (arith, add_permissions_users rest)

grant_all_users :
    (role_id : ℕ) (ids : List (Option ℕ)) (db : Db) → (grant_all role_id ids db).users ≡ db.users
unfolding grant_all Roles.grant_permission
grant_all_users role_id [] db = refl
grant_all_users role_id (none ∷ rest) db = grant_all_users role_id rest db
grant_all_users role_id (some id ∷ rest) db = grind (arith, grant_all_users role_id rest)

add_roles_users :
    (ids : List ((String × String) × ℕ)) (rs : List SeedRole) (w : World)
    → (add_roles ids rs w).1.work.users ≡ w.work.users
unfolding add_roles Roles.add
add_roles_users ids [] w = refl
add_roles_users ids (r ∷ rest) w = grind (arith, add_roles_users ids rest, grant_all_users)

module _ (ext : External) where
  shown-add_users :
      (now : Datetime) (roles : List (String × ℕ)) (us : List SeedUser) (w : World)
      → (add_users ext now roles us w).0 ≡ ok tt
      → shown (add_users ext now roles us w).1.work.users ≡ shown w.work.users ++ described us
  unfolding add_users
  shown-add_users now roles [] w done = sym (shown_nothing w.work.users)
  shown-add_users now roles (u ∷ rest) w done =
      let row : UserRow = seeded_row u now (ext.hash_password w.calls u.password) w.work.next_id in
      elim (Result-cases (insert_user row (id_of_name roles u.role) w.work)) [
        | inl (db, e) ↦ grind (
          arith,
          shown-add_users now roles rest (record w { calls = suc w.calls; work = db }),
          insert_user_rows row (id_of_name roles u.role) w.work db e,
          shown_last w.work.users row (described rest),
        )
        | inr (error, e) ↦ absurd (grind arith)
      ]

  loaded :
      (w : World)
      → (load_demo_data ext w).0 ≡ ok tt
      → shown (load_demo_data ext w).1.db.users ≡ shown w.work.users ++ described users
  unfolding load_demo_data
  loaded w done = elim (Result-cases (add_permissions permissions w).0) [
    | inl (ids, e) ↦
        let w1 : World = (add_permissions permissions w).1 in
        elim (Result-cases (add_roles ids role_grants w1).0) [
          | inl (roles, e1) ↦
              let w2 : World = (add_roles ids role_grants w1).1 in
              grind (
                arith,
                add_permissions_users permissions w,
                add_roles_users ids role_grants w1,
                shown-add_users (utc (ext.utc_now w2.calls)) roles users
                    (record w2 { calls = suc w2.calls }),
              )
          | inr (error, e1) ↦ absurd (grind arith)
        ]
    | inr (error, e) ↦ absurd (grind arith)
  ]

  empty_users : (rows : List UserRow) → any (λ r. true) rows ≡ false → rows ≡ []
  empty_users [] none_there = refl
  empty_users (r ∷ rest) none_there = absurd (grind arith)

  -- A seeding that succeeds leaves a database that has accounts as it is, and gives a database
  -- without any the three demo accounts, of which the first alone is a superuser; a second one then
  -- changes nothing.
  pub seed_demo_data_once :
      (w : World)
      → (seed_demo_data ext w).0 ≡ ok tt
      → (((w.db.users ≢ []) × ((seed_demo_data ext w).1.db ≡ w.db))
          ⊎ ((w.db.users ≡ [])
              × (shown (seed_demo_data ext w).1.db.users
                  ≡ ("admin@example.com", "admin", true, true)
                    ∷ ("moderator@example.com", "moderator", false, true)
                    ∷ ("viewer@example.com", "viewer", false, true)
                    ∷ [])))
        × ((seed_demo_data ext (seed_demo_data ext w).1).1.db ≡ (seed_demo_data ext w).1.db)
  unfolding seed_demo_data
  seed_demo_data_once w done = elim (Bool-cases (any (λ r. true) w.db.users)) [
    | inl some_there ↦ (inl (λ none. grind arith, grind arith), grind arith)
    | inr empty ↦
        let begun : World = record w { work = w.db } in
        let none_there = empty_users w.db.users empty in
        let load : shown (load_demo_data ext begun).1.db.users ≡ described users =
          grind (arith, loaded begun) in
        let there = any-shown (load_demo_data ext begun).1.db.users _ _ load in
        (inr (none_there, grind (arith, load)), grind (arith, there))
  ]
