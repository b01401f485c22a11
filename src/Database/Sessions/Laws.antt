-- ===== src/Database/Sessions/Laws.antt =====
-- Revoked sessions.
use video_site.Common.{
  ℕ, String, ◌≡◌, false, none, some, List, [], ◌∷◌, ◌==◌, nat_eq, text_eq, All, find, update_where,
  arith,
}
use video_site.Entities.Datetime.{Datetime}
use video_site.Entities.Session.{AuthSession, is_valid}
use video_site.Database.Tables.{Db}
use video_site.Database.Sessions.{revoke_all_for_user, revoked_session, is_target}

-- No session of the account is left that is not revoked.
abbrev pub SignedOut : ℕ → List AuthSession → Type 0
SignedOut user_id sessions = All (λ s. is_target user_id none s ≡ false) sessions

pub update_where-SignedOut :
    (user_id : ℕ) (moment : Datetime) (sessions : List AuthSession)
    → SignedOut user_id (update_where (is_target user_id none) (revoked_session moment) sessions)
update_where-SignedOut user_id moment [] = tt
update_where-SignedOut user_id moment (s ∷ rest) =
    (ground arith, update_where-SignedOut user_id moment rest)

pub revoke_all-SignedOut :
    (db : Db) (user_id : ℕ) (moment : Datetime)
    → SignedOut user_id (revoke_all_for_user db user_id moment none).1.sessions
unfolding revoke_all_for_user
revoke_all-SignedOut db user_id moment = update_where-SignedOut user_id moment db.sessions

-- A session that is found in such a table, and is the account's, is valid at no time.
pub SignedOut-is_valid :
    (user_id : ℕ) (sessions : List AuthSession) (jti : String) (s : AuthSession) (now : Datetime)
    → SignedOut user_id sessions
    → find (λ r. r.jti == jti) sessions ≡ some s
    → s.user_id ≡ user_id
    → is_valid s now ≡ false
unfolding is_valid
SignedOut-is_valid user_id [] jti s now out found own = cc
SignedOut-is_valid user_id (r ∷ rest) jti s now out found own =
    ground (arith, SignedOut-is_valid user_id rest jti s now out.1)
