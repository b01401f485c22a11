-- ===== src/Theorems/Unique.antt =====
-- The uniqueness constraints of the tables, and that every use case keeps them.
use video_site.Common.{
  ℕ, ◌+◌, ◌<◌, ◌≡◌, refl, ◌⊎◌, inl, inr, Bool, Bool-cases, subst, sym, true, false, not, ◌&&◌, ◌||◌,
  Option, List, [], ◌∷◌, ◌++◌, arith, ◌==◌, nat_eq, text_eq, if◌then◌else◌, update_where, any,
  Distinct, Distinct-append, Distinct-update_same, Distinct-rewrite, All,
}
use video_site.Errors.{Error, ok, err}
use video_site.Entities.Datetime.{Datetime}
use video_site.Entities.User.{User}
use video_site.Entities.Session.{AuthSession}
use video_site.Database.{Db, UserRow}
use video_site.Database.Users
use video_site.Database.Users.{updated_row, rehashed_row}
use video_site.Database.Sessions.{revoked_session}
use video_site.Database.Roles
use video_site.Database.Permissions
use video_site.Database.Sessions
use video_site.Database.Tokens
use video_site.Database.AuditLog
use video_site.Service.{External, World}
use video_site.Requests.{Request, run}
use video_site.Theorems.Kept.{Kept, OnOk, OnOkWith}
use video_site.Theorems.Kept.Runs.{run-Kept}

-- No two accounts share an id, an email or a username, the ids are below the next one, and no two
-- sessions share a `jti`.
pub record Unique (db : Db) : Type 0 where
  pub below : All (λ r. r.id < db.next_id) db.users
  pub ids : Distinct (λ (r : UserRow). r.id) db.users
  pub emails : Distinct (λ (r : UserRow). r.email) db.users
  pub usernames : Distinct (λ (r : UserRow). r.username) db.users
  pub jtis : Distinct (λ (s : AuthSession). s.jti) db.sessions

All-below : (n : ℕ) (rows : List UserRow) → All (λ r. r.id < n) rows → All (λ r. r.id < n + 1) rows
All-below n [] h = tt
All-below n (r ∷ rows) h = (ground (arith, h.0), All-below n rows h.1)

All-below_new :
    (n : ℕ) (row : UserRow) (rows : List UserRow)
    → row.id ≡ n
    → All (λ r. r.id < n) rows
    → All (λ r. r.id < n + 1) (rows ++ row ∷ [])
All-below_new n row [] e h = (ground arith, tt)
All-below_new n row (r ∷ rows) e h = (ground (arith, h.0), All-below_new n row rows e h.1)

All-below_rewrite :
    (n user_id : ℕ) (f : UserRow → UserRow) (rows : List UserRow)
    → ((r : UserRow) → (f r).id ≡ r.id)
    → All (λ r. r.id < n) rows
    → All (λ r. r.id < n) (update_where (λ r. r.id == user_id) f rows)
All-below_rewrite n user_id f [] same h = tt
All-below_rewrite n user_id f (r ∷ rows) same h =
    (ground (arith, h.0, same r), All-below_rewrite n user_id f rows same h.1)

-- The next id is nobody's.
fresh_id :
    (n : ℕ) (rows : List UserRow) → All (λ r. r.id < n) rows → any (λ r. r.id == n) rows ≡ false
fresh_id n [] h = refl
fresh_id n (r ∷ rows) h = ground (arith, h.0, fresh_id n rows h.1)

-- What a test on two columns says of each.
any_split :
    (p q : UserRow → Bool) (rows : List UserRow)
    → any (λ r. p r || q r) rows ≡ false
    → (any p rows ≡ false) × (any q rows ≡ false)
any_split p q [] h = (refl, refl)
any_split p q (r ∷ rows) h = ground (arith, any_split p q rows)

any_split_both :
    (g p q : UserRow → Bool) (rows : List UserRow)
    → any (λ r. g r && (p r || q r)) rows ≡ false
    → (any (λ r. g r && p r) rows ≡ false) × (any (λ r. g r && q r) rows ≡ false)
any_split_both g p q [] h = (refl, refl)
any_split_both g p q (r ∷ rows) h = ground (arith, any_split_both g p q rows)

with_users :
    (db : Db) (users : List UserRow) (next_id : ℕ)
    → Unique db
    → All (λ r. r.id < next_id) users
    → Distinct (λ (r : UserRow). r.id) users
    → Distinct (λ (r : UserRow). r.email) users
    → Distinct (λ (r : UserRow). r.username) users
    → Unique (record db { users = users; next_id = next_id })
with_users db users next_id h below ids emails usernames = record {
  below = below;
  ids = ids;
  emails = emails;
  usernames = usernames;
  jtis = h.jtis;
}

add_user-Unique :
    (db : Db) (user : User) (stamp : Datetime)
    → Unique db
    → OnOkWith Unique (Users.add db user stamp)
unfolding Users.add
add_user-Unique db user stamp h =
    elim (Bool-cases (any (λ r. r.email == user.email || r.username == user.username) db.users)) [
      | inl taken ↦ ground arith
      | inr free ↦
          let row : UserRow = Users.new_row db user stamp in
          let (email, username) =
            any_split (λ r. r.email == user.email) (λ r. r.username == user.username) db.users
              free in
          ground (
            arith,
            with_users db (db.users ++ row ∷ []) (db.next_id + 1) h
                (All-below_new db.next_id row db.users refl h.below)
                (Distinct-append (λ r. r.id) db.users row (fresh_id db.next_id db.users h.below)
                  h.ids)
                (Distinct-append (λ r. r.email) db.users row email h.emails)
                (Distinct-append (λ r. r.username) db.users row username h.usernames),
          )
    ]

update-Unique :
    (db : Db) (user : User) (restamp : Option Datetime → Option Datetime)
    → Unique db
    → OnOkWith Unique (Users.update db user restamp)
unfolding Users.update Users.is_taken
update-Unique db user restamp h = elim (Bool-cases (Users.is_taken db user)) [
  | inl taken ↦ ground arith
  | inr free ↦
      let f : UserRow → UserRow = updated_row user restamp in
      let (email, username) =
        any_split_both (λ r. not (r.id == user.id)) (λ r. r.email == user.email)
          (λ r. r.username == user.username) db.users free in
      ground (
        arith,
        with_users db (update_where (λ r. r.id == user.id) f db.users) db.next_id h
            (All-below_rewrite db.next_id user.id f db.users (λ r. refl) h.below)
            (Distinct-update_same (λ r. r.id) (λ r. r.id == user.id) f (λ r. refl) db.users h.ids)
            (Distinct-rewrite (λ r. r.id) (λ r. r.email) user.id user.email f (λ r. refl) db.users
              email h.ids h.emails)
            (Distinct-rewrite (λ r. r.id) (λ r. r.username) user.id user.username f (λ r. refl)
              db.users username h.ids h.usernames),
      )
]

update_password-Unique :
    (db : Db) (user : User) (restamp : Option Datetime → Option Datetime)
    → Unique db
    → OnOk Unique (Users.update_password db user restamp)
unfolding Users.update_password
update_password-Unique db user restamp h =
    let f : UserRow → UserRow = rehashed_row user restamp in
    let hit : UserRow → Bool = λ r. r.id == user.id in
    ground (
      arith,
      with_users db (update_where hit f db.users) db.next_id h
          (All-below_rewrite db.next_id user.id f db.users (λ r. refl) h.below)
          (Distinct-update_same (λ r. r.id) hit f (λ r. refl) db.users h.ids)
          (Distinct-update_same (λ r. r.email) hit f (λ r. refl) db.users h.emails)
          (Distinct-update_same (λ r. r.username) hit f (λ r. refl) db.users h.usernames),
    )

with_sessions :
    (db : Db) (sessions : List AuthSession)
    → Unique db
    → Distinct (λ (s : AuthSession). s.jti) sessions
    → Unique (record db { sessions = sessions })
with_sessions db sessions h d = record {
  below = h.below;
  ids = h.ids;
  emails = h.emails;
  usernames = h.usernames;
  jtis = d;
}

-- A table that is none of these was written, and an id may have been handed out.
other_table :
    (db db' : Db)
    → Unique db
    → db'.users ≡ db.users
    → db'.sessions ≡ db.sessions
    → (db'.next_id ≡ db.next_id) ⊎ (db'.next_id ≡ db.next_id + 1)
    → Unique db'
other_table db db' h users sessions next = record {
  below = elim next [
    | inl e ↦
        subst (λ n. All (λ r. r.id < n) db'.users) (sym e)
          (subst (All (λ r. r.id < db.next_id)) (sym users) h.below)
    | inr e ↦
        subst (λ n. All (λ r. r.id < n) db'.users) (sym e)
          (subst (All (λ r. r.id < db.next_id + 1)) (sym users)
            (All-below db.next_id db.users h.below))
  ];
  ids = subst (Distinct (λ r. r.id)) (sym users) h.ids;
  emails = subst (Distinct (λ r. r.email)) (sym users) h.emails;
  usernames = subst (Distinct (λ r. r.username)) (sym users) h.usernames;
  jtis = subst (Distinct (λ s. s.jti)) (sym sessions) h.jtis;
}

add_session-Unique : (db : Db) (s : AuthSession) → Unique db → OnOk Unique (Sessions.add db s)
unfolding Sessions.add
add_session-Unique db s h =
    let row : AuthSession = record s { id = db.next_id } in
    ground (
      arith,
      with_sessions db (db.sessions ++ row ∷ []) h,
      Distinct-append (λ (q : AuthSession). q.jti) db.sessions row,
      other_table (record db { sessions = db.sessions ++ row ∷ [] })
          (record db { sessions = db.sessions ++ row ∷ []; next_id = db.next_id + 1 }),
    )

if-Unique : (b : Bool) (x y : Db) → Unique x → Unique y → Unique (if b then x else y)
if-Unique true x y hx hy = hx
if-Unique false x y hx hy = hy

if-OnOk : (b : Bool) (e : Error) (db : Db) → Unique db → OnOk Unique (if b then err e else ok db)
if-OnOk true e db h = tt
if-OnOk false e db h = h

if_else-OnOk :
    (b : Bool) (e : Error) (db : Db) → Unique db → OnOk Unique (if b then ok db else err e)
if_else-OnOk true e db h = h
if_else-OnOk false e db h = tt

if-OnOkWith :
    {A : Type 0} (b : Bool) (e : Error) (a : A) (db : Db)
    → Unique db
    → OnOkWith Unique (if b then err e else ok (a, db))
if-OnOkWith true e a db h = tt
if-OnOkWith false e a db h = h

pub Unique-Kept : Kept Unique
unfolding Users.assign_role Users.revoke_role Sessions.revoke Sessions.revoke_all_for_user
    Tokens.add Tokens.mark_used Tokens.invalidate_for_user AuditLog.add Roles.add Roles.delete
    Roles.grant_permission Roles.revoke_permission Permissions.add
Unique-Kept = record {
  add_user = add_user-Unique;
  update = update-Unique;
  update_password = update_password-Unique;
  assign_role = λ db u r h. if-Unique _ db _ h (other_table db _ h refl refl (inl refl));
  revoke_role = λ db u r h. grind (arith, other_table db);
  add_session = add_session-Unique;
  revoke = λ db jti now h.
      with_sessions db _ h
        (Distinct-update_same (λ s. s.jti) _ (revoked_session now) (λ s. refl) db.sessions h.jtis);
  revoke_all = λ db u now x h.
      with_sessions db _ h
        (Distinct-update_same (λ s. s.jti) _ (revoked_session now) (λ s. refl) db.sessions h.jtis);
  add_token = λ db t h. if-OnOk _ _ _ (other_table db _ h refl refl (inr refl));
  mark_used = λ db t now h. other_table db _ h refl refl (inl refl);
  invalidate = λ db u p now h. other_table db _ h refl refl (inl refl);
  log = λ db e h. if_else-OnOk _ _ _ (other_table db _ h refl refl (inr refl));
  add_role = λ db n d h. if-OnOkWith _ _ _ _ (other_table db _ h refl refl (inr refl));
  delete_role = λ db r h. other_table db _ h refl refl (inl refl);
  grant_permission = λ db r p h. if-Unique _ db _ h (other_table db _ h refl refl (inl refl));
  revoke_permission = λ db r p h. other_table db _ h refl refl (inl refl);
  add_permission = λ db r a d h. if-OnOkWith _ _ _ _ (other_table db _ h refl refl (inr refl));
}

-- Whatever requests are handled: where no two accounts share an id, an email or a username, every
-- id is below the next one, and no two sessions share a `jti`, this is so afterwards.
pub run-Unique :
    (ext : External) (requests : List Request) (w : World)
    → Unique w.db
    → Unique (run ext requests w).db
run-Unique ext requests w h = run-Kept ext Unique Unique-Kept requests w h
