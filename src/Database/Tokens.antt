-- ===== src/Database/Tokens.antt =====
-- repositories/security_token_repository.py and mappers/security_token_mapper.py.
pub mod Laws
use video_site.Common.{
  ℕ, ◌+◌, String, Bool, not, Option, some, List, [], ◌∷◌, ◌++◌, ◌&&◌, ◌==◌, nat_eq, text_eq, any,
  find, update_where, if◌then◌else◌,
}
use video_site.Entities.Datetime.{Datetime}
use video_site.Entities.SecurityToken.{SecurityToken, TokenPurpose, purpose_eq, is_used}
use video_site.Errors.{Result, ok, err, integrity}
use video_site.Database.Tables.{Db}

-- `add`: the pair of hash and purpose is unique.
unfoldable pub add : Db → SecurityToken → Result Db
add db token =
    if any (λ t. t.token_hash == token.token_hash && t.purpose == token.purpose) db.security_tokens
    then err integrity
    else ok (record db {
      security_tokens = db.security_tokens ++ record token { id = db.next_id } ∷ [];
      next_id = db.next_id + 1;
    })

unfoldable pub get_by_hash : Db → String → TokenPurpose → Option SecurityToken
get_by_hash db token_hash purpose =
    find (λ t. t.token_hash == token_hash && t.purpose == purpose) db.security_tokens

-- SET used_at = moment.
abbrev pub spent : Datetime → SecurityToken → SecurityToken
spent moment t = record t { used_at = some moment }

unfoldable pub mark_used : Db → SecurityToken → Datetime → Db
mark_used db token moment = record db {
  security_tokens =
      update_where (λ t. t.id == token.id && not (is_used t)) (spent moment) db.security_tokens;
}

-- The rows that `invalidate_for_user` reaches.
abbrev pub is_outstanding : ℕ → TokenPurpose → SecurityToken → Bool
is_outstanding user_id purpose t = t.user_id == user_id && t.purpose == purpose && not (is_used t)

unfoldable pub invalidate_for_user : Db → ℕ → TokenPurpose → Datetime → Db
invalidate_for_user db user_id purpose moment = record db {
  security_tokens = update_where (is_outstanding user_id purpose) (spent moment) db.security_tokens;
}
