-- ===== src/Database/Users/Laws.antt =====
-- Reading an account after it was rewritten.
use mathlib.Core.Option
use video_site.Common.{
  ℕ, ◌≡◌, some, List, [], ◌∷◌, ◌==◌, nat_eq, find, update_where, arith, if◌then◌else◌, Option-cases,
  inl, inr,
}
use video_site.Entities.User.{User}
use video_site.Database.Tables.{Db, UserRow}
use video_site.Database.Users.{find_by_id, get_by_id, user_to_entity, rewrite_user}

pub find-rewrite :
    (user_id other : ℕ) (f : UserRow → UserRow) (rows : List UserRow)
    → ((r : UserRow) → (f r).id ≡ r.id)
    → find (λ r. r.id == other) (update_where (λ r. r.id == user_id) f rows) ≡ (
        if user_id == other
        then Option.map f (find (λ r. r.id == other) rows)
        else find (λ r. r.id == other) rows)
find-rewrite user_id other f [] same = ground arith
find-rewrite user_id other f (r ∷ rest) same =
    ground (arith, same r, find-rewrite user_id other f rest same)

-- The row of an account after the row of `user_id` was rewritten.
pub find_by_id-rewrite :
    (db : Db) (user_id other : ℕ) (f : UserRow → UserRow)
    → ((r : UserRow) → (f r).id ≡ r.id)
    → find_by_id (rewrite_user db user_id f) other
      ≡ (if user_id == other then Option.map f (find_by_id db other) else find_by_id db other)
unfolding find_by_id
find_by_id-rewrite db user_id other f same = find-rewrite user_id other f db.users same

-- A row that is found by its id has that id.
pub find_id :
    (user_id : ℕ) (rows : List UserRow) (r : UserRow)
    → find (λ q. q.id == user_id) rows ≡ some r
    → r.id ≡ user_id
find_id user_id [] r found = cc
find_id user_id (q ∷ rest) r found = ground (arith, find_id user_id rest r)

-- An account that is read by its id is the entity of the row with that id.
pub get_by_id_row :
    (db : Db) (user_id : ℕ) (u : User)
    → get_by_id db user_id ≡ some u
    → (r : UserRow) × (find_by_id db user_id ≡ some r)
      × (u ≡ user_to_entity db r)
      × (r.id ≡ user_id)
unfolding get_by_id
get_by_id_row db user_id u found = elim (Option-cases (find (λ q. q.id == user_id) db.users)) [
  | inl missing ↦ absurd (ground arith)
  | inr (r, e) ↦ (r, e, ground arith, find_id user_id db.users r e)
]

-- An account that is read by its id has that id.
pub found_id : (db : Db) (user_id : ℕ) (u : User) → get_by_id db user_id ≡ some u → u.id ≡ user_id
unfolding user_to_entity
found_id db user_id u found = let (r, _, is, same) = get_by_id_row db user_id u found in grind arith
