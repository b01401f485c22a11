-- ===== src/Theorems/History.antt =====
-- What a database may become: the audit log is only added to, accounts are never dropped, a
-- revoked session stays revoked and a spent token stays spent.
use video_site.Common.{
  ℕ, ◌≡◌, refl, ◌⊎◌, inr, Bool, true, Option, none, List, arith, ◌==◌, nat_eq, update_where, Grown,
  Grown-refl, Grown-append, Grown-update_where,
}
use video_site.Entities.Datetime.{Datetime}
use video_site.Entities.User.{User}
use video_site.Entities.Session.{AuthSession}
use video_site.Entities.SecurityToken.{SecurityToken}
use video_site.Entities.Audit.{AuditEvent}
use video_site.Database.{Db, UserRow}
use video_site.Database.Users
use video_site.Database.Users.{updated_row, rehashed_row}
use video_site.Database.Sessions.{revoked_session}
use video_site.Database.Tokens.{spent}
use video_site.Database.Roles
use video_site.Database.Permissions
use video_site.Database.Sessions
use video_site.Database.Tokens
use video_site.Database.AuditLog
use video_site.Service.{External, World}
use video_site.Requests.{Request, run}
use video_site.Theorems.Kept.{Kept, OnOk, OnOkWith}
use video_site.Theorems.Kept.Runs.{run-Kept}

-- A session changes by nothing but being revoked, once.
abbrev pub SessionHistory : AuthSession → AuthSession → Type 0
SessionHistory s t =
    (t ≡ record s { revoked_at = t.revoked_at })
    × ((s.revoked_at ≡ none) ⊎ (t.revoked_at ≡ s.revoked_at))

-- A token changes by nothing but being spent, once.
abbrev pub TokenHistory : SecurityToken → SecurityToken → Type 0
TokenHistory s t =
    (t ≡ record s { used_at = t.used_at }) × ((s.used_at ≡ none) ⊎ (t.used_at ≡ s.used_at))

-- An account keeps its id, the browser that it came from and the time of its creation.
abbrev pub UserHistory : UserRow → UserRow → Type 0
UserHistory r q = (q.id ≡ r.id) × (q.visitor_id ≡ r.visitor_id) × (q.created_at ≡ r.created_at)

abbrev pub EventHistory : AuditEvent → AuditEvent → Type 0
EventHistory e f = f ≡ e

pub record Evolves (before after : Db) : Type 0 where
  pub users : Grown UserHistory before.users after.users
  pub sessions : Grown SessionHistory before.sessions after.sessions
  pub tokens : Grown TokenHistory before.security_tokens after.security_tokens
  pub audit_log : Grown EventHistory before.audit_log after.audit_log

pub Evolves-refl : (db : Db) → Evolves db db
Evolves-refl db = record {
  users = Grown-refl UserHistory (λ r. (refl, refl, refl)) db.users;
  sessions = Grown-refl SessionHistory (λ s. (refl, inr refl)) db.sessions;
  tokens = Grown-refl TokenHistory (λ t. (refl, inr refl)) db.security_tokens;
  audit_log = Grown-refl EventHistory (λ e. refl) db.audit_log;
}

module _ (now : Datetime) where
  -- A revocation that reaches only sessions that are not revoked yet.
  revoke-Grown :
      (p : AuthSession → Bool)
      → ((s : AuthSession) → p s ≡ true → s.revoked_at ≡ none)
      → (xs ys : List AuthSession) → Grown SessionHistory xs ys
      → Grown SessionHistory xs (update_where p (revoked_session now) ys)
  revoke-Grown p fresh =
      Grown-update_where SessionHistory p (revoked_session now)
        (λ x y e r. ground (arith, fresh y e))

  -- A token is spent only if it is not spent yet.
  spend-Grown :
      (p : SecurityToken → Bool)
      → ((t : SecurityToken) → p t ≡ true → t.used_at ≡ none)
      → (xs ys : List SecurityToken) → Grown TokenHistory xs ys
      → Grown TokenHistory xs (update_where p (spent now) ys)
  spend-Grown p fresh =
      Grown-update_where TokenHistory p (spent now) (λ x y e r. ground (arith, fresh y e))

-- A rewrite of accounts that leaves those three columns alone.
rewrite-Grown :
    (user_id : ℕ) (f : UserRow → UserRow)
    → ((r : UserRow) → UserHistory r (f r))
    → (xs ys : List UserRow) → Grown UserHistory xs ys
    → Grown UserHistory xs (update_where (λ r. r.id == user_id) f ys)
rewrite-Grown user_id f same =
    Grown-update_where UserHistory (λ r. r.id == user_id) f (λ x y e r. ground (arith, same y))

module _ {before : Db} where
  with_users :
      (db : Db) (users : List UserRow)
      → Evolves before db
      → Grown UserHistory before.users users
      → Evolves before (record db { users = users })
  with_users db users h g = record {
    users = g;
    sessions = h.sessions;
    tokens = h.tokens;
    audit_log = h.audit_log;
  }

  with_sessions :
      (db : Db) (sessions : List AuthSession)
      → Evolves before db
      → Grown SessionHistory before.sessions sessions
      → Evolves before (record db { sessions = sessions })
  with_sessions db sessions h g = record {
    users = h.users;
    sessions = g;
    tokens = h.tokens;
    audit_log = h.audit_log;
  }

  with_tokens :
      (db : Db) (tokens : List SecurityToken)
      → Evolves before db
      → Grown TokenHistory before.security_tokens tokens
      → Evolves before (record db { security_tokens = tokens })
  with_tokens db tokens h g = record {
    users = h.users;
    sessions = h.sessions;
    tokens = g;
    audit_log = h.audit_log;
  }

  update-Evolves :
      (db : Db) (user : User) (restamp : Option Datetime → Option Datetime)
      → Evolves before db
      → OnOkWith (Evolves before) (Users.update db user restamp)
  unfolding Users.update
  update-Evolves db user restamp h = ground (
    arith,
    with_users db (update_where (λ r. r.id == user.id) (updated_row user restamp) db.users) h (
        rewrite-Grown user.id (updated_row user restamp) (λ r. (refl, refl, refl)) before.users
          db.users h.users),
  )

  update_password-Evolves :
      (db : Db) (user : User) (restamp : Option Datetime → Option Datetime)
      → Evolves before db
      → OnOk (Evolves before) (Users.update_password db user restamp)
  unfolding Users.update_password
  update_password-Evolves db user restamp h = ground (
    arith,
    with_users db (update_where (λ r. r.id == user.id) (rehashed_row user restamp) db.users) h (
        rewrite-Grown user.id (rehashed_row user restamp) (λ r. (refl, refl, refl)) before.users
          db.users h.users),
  )

module _ (before : Db) where
  pub Evolves-Kept : Kept (Evolves before)
  unfolding Users.add Users.assign_role Users.revoke_role Sessions.add Sessions.revoke
      Sessions.revoke_all_for_user Tokens.add Tokens.mark_used Tokens.invalidate_for_user
      AuditLog.add Roles.add Roles.delete Roles.grant_permission Roles.revoke_permission
      Permissions.add
  Evolves-Kept = record {
    add_user = λ db user stamp h. grind (arith, Grown-append);
    update = λ db user restamp h. update-Evolves db user restamp h;
    update_password = λ db user restamp h. update_password-Evolves db user restamp h;
    assign_role = λ db u r h. ground arith;
    revoke_role = λ db u r h. ground arith;
    add_session = λ db s h. grind (arith, Grown-append);
    revoke = λ db jti now h.
        with_sessions db _ h
          (revoke-Grown now _ (λ s e. ground arith) before.sessions db.sessions h.sessions);
    revoke_all = λ db u now x h.
        with_sessions db _ h
          (revoke-Grown now _ (λ s e. ground arith) before.sessions db.sessions h.sessions);
    add_token = λ db t h. grind (arith, Grown-append);
    mark_used = λ db t now h. with_tokens db _ h (
        spend-Grown now _ (λ t e. ground arith) before.security_tokens db.security_tokens h.tokens);
    invalidate = λ db u p now h. with_tokens db _ h (
        spend-Grown now _ (λ t e. ground arith) before.security_tokens db.security_tokens h.tokens);
    log = λ db e h. grind (arith, Grown-append);
    add_role = λ db n d h. ground arith;
    delete_role = λ db r h. ground arith;
    grant_permission = λ db r p h. ground arith;
    revoke_permission = λ db r p h. ground arith;
    add_permission = λ db r a d h. ground arith;
  }

-- Whatever requests are handled, in whatever order and however they end: every account, session,
-- token and audit event that was there is still there at its place. An account keeps its id, its
-- visitor id and the time of its creation, an audit event is the same, a session differs only by
-- having been revoked if it was not before, and a token only by having been spent if it was not
-- before.
pub run-Evolves :
    (ext : External) (requests : List Request) (w : World) → Evolves w.db (run ext requests w).db
run-Evolves ext requests w =
    run-Kept ext (Evolves w.db) (Evolves-Kept w.db) requests w (Evolves-refl w.db)
