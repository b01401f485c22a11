-- ===== src/Database/Tokens/Laws.antt =====
-- Spent tokens.
use video_site.Common.{
  ℕ, String, ◌≡◌, false, some, List, [], ◌∷◌, ◌==◌, ◌&&◌, nat_eq, text_eq, All, find, update_where,
  arith,
}
use video_site.Entities.Datetime.{Datetime}
use video_site.Entities.SecurityToken.{SecurityToken, TokenPurpose, purpose_eq, is_usable}
use video_site.Database.Tables.{Db}
use video_site.Database.Tokens.{invalidate_for_user, spent, is_outstanding}

-- No token of the account for this purpose is left that could be spent.
abbrev pub NoneOutstanding : ℕ → TokenPurpose → List SecurityToken → Type 0
NoneOutstanding user_id purpose tokens = All (λ t. is_outstanding user_id purpose t ≡ false) tokens

update_where-NoneOutstanding :
    (user_id : ℕ) (purpose : TokenPurpose) (now : Datetime) (tokens : List SecurityToken)
    → NoneOutstanding user_id purpose
        (update_where (is_outstanding user_id purpose) (spent now) tokens)
update_where-NoneOutstanding user_id purpose now [] = tt
update_where-NoneOutstanding user_id purpose now (t ∷ rest) =
    (ground arith, update_where-NoneOutstanding user_id purpose now rest)

pub invalidate-NoneOutstanding :
    (db : Db) (user_id : ℕ) (purpose : TokenPurpose) (now : Datetime)
    → NoneOutstanding user_id purpose (invalidate_for_user db user_id purpose now).security_tokens
unfolding invalidate_for_user
invalidate-NoneOutstanding db user_id purpose now =
    update_where-NoneOutstanding user_id purpose now db.security_tokens

-- A token that is found in such a table, and is the account's, is usable at no time.
pub NoneOutstanding-is_usable :
    (user_id : ℕ) (purpose : TokenPurpose) (tokens : List SecurityToken) (hash : String)
    (t : SecurityToken) (now : Datetime)
    → NoneOutstanding user_id purpose tokens
    → find (λ r. r.token_hash == hash && r.purpose == purpose) tokens ≡ some t
    → t.user_id ≡ user_id
    → is_usable t now ≡ false
unfolding is_usable
NoneOutstanding-is_usable user_id purpose [] hash t now out found own = cc
NoneOutstanding-is_usable user_id purpose (r ∷ rest) hash t now out found own =
    ground (arith, NoneOutstanding-is_usable user_id purpose rest hash t now out.1)
