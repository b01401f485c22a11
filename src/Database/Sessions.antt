-- ===== src/Database/Sessions.antt =====
-- repositories/session_repository.py and mappers/session_mapper.py.
pub mod Laws
use mathlib.Core.List.{reverse}
use video_site.Common.{
  ℕ, ◌+◌, String, Bool, true, not, Option, none, some, List, [], ◌∷◌, ◌++◌, ◌&&◌, ◌==◌, nat_eq,
  text_eq, any, find, keep, update_where, count_where, if◌then◌else◌,
}
use video_site.Entities.Datetime.{Datetime}
use video_site.Entities.Session.{AuthSession, is_revoked, is_valid}
use video_site.Errors.{Result, ok, err, integrity, too_long}
use video_site.Database.Tables.{Db, fits}

-- The columns of the device have a width.
unfoldable pub fits_columns : AuthSession → Bool
fits_columns s =
    fits 36 s.visitor_id && fits 400 s.user_agent && fits 45 s.ip_address && fits 100 s.device

-- `add`: the `jti` is unique.
unfoldable pub add : Db → AuthSession → Result Db
unfolding fits_columns
add db auth_session =
    if not (fits_columns auth_session)
    then err too_long
    else if any (λ s. s.jti == auth_session.jti) db.sessions
    then err integrity
    else ok (record db {
      sessions = db.sessions ++ record auth_session { id = db.next_id } ∷ [];
      next_id = db.next_id + 1;
    })

unfoldable pub get_by_id : Db → ℕ → Option AuthSession
get_by_id db session_id = find (λ s. s.id == session_id) db.sessions

unfoldable pub get_by_jti : Db → String → Option AuthSession
get_by_jti db jti = find (λ s. s.jti == jti) db.sessions

-- Newest first; the expiry is tested by the entity.
unfoldable pub list_active_for_user : Db → ℕ → Datetime → List AuthSession
list_active_for_user db user_id now =
    keep (λ s. is_valid s now)
      (reverse (keep (λ s. s.user_id == user_id && not (is_revoked s)) db.sessions))

-- SET revoked_at = moment.
abbrev pub revoked_session : Datetime → AuthSession → AuthSession
revoked_session moment s = record s { revoked_at = some moment }

unfoldable pub revoke : Db → String → Datetime → Db
revoke db jti moment = record db {
  sessions =
      update_where (λ s. s.jti == jti && not (is_revoked s)) (revoked_session moment) db.sessions;
}

-- `except_jti is not None` adds a clause to the statement.
abbrev pub is_spared : Option String → AuthSession → Bool
is_spared none s = Bool.false
is_spared (some jti) s = s.jti == jti

-- The rows that `revoke_all_for_user` reaches.
abbrev pub is_target : ℕ → Option String → AuthSession → Bool
is_target user_id except_jti s =
    s.user_id == user_id && not (is_revoked s) && not (is_spared except_jti s)

unfoldable pub revoke_all_for_user : Db → ℕ → Datetime → Option String → ℕ × Db
revoke_all_for_user db user_id moment except_jti = (
  count_where (is_target user_id except_jti) db.sessions,
  record db {
    sessions = update_where (is_target user_id except_jti) (revoked_session moment) db.sessions;
  },
)
