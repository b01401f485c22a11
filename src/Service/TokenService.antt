-- ===== src/Service/TokenService.antt =====
-- adapter/security/token_service.py and one_time_token_service.py.
use video_site.Common.{ℕ, ◌*◌, String}
use video_site.Errors.{Error, Result, ok, err, authentication}
use video_site.Entities.Datetime.{Datetime, utc, add_minutes, timestamp}
use video_site.Service.{
  External, Claim, Claims, Decoded, missing, malformed, claim, expired_signature, invalid, decoded,
  Action, ◌>>=◌, ask, lift, pure,
}

pub record TokenPayload : Type 0 where
  pub user_id : ℕ
  pub jti : String
  pub token_type : String
  pub expires_at : Datetime

pub record IssuedToken : Type 0 where
  pub token : String
  pub jti : String
  pub expires_at : Datetime

pub record GeneratedSecret : Type 0 where
  pub plain : String
  pub hashed : String

abbrev malformed_payload : Error
malformed_payload = authentication "Malformed token payload"

-- The read of one claim: a `KeyError` and a `ValueError` end the same way.
abbrev read : {A : Type 0} → Claim A → (A → Result TokenPayload) → Result TokenPayload
read missing k = err malformed_payload
read malformed k = err malformed_payload
read (claim a) k = k a

abbrev pub payload : Claims → Result TokenPayload
payload claims = read claims.sub λ user_id. read claims.jti λ jti.
    read claims.token_type λ token_type. read claims.exp λ exp. ok (record {
      user_id = user_id;
      jti = jti;
      token_type = token_type;
      expires_at = utc (exp * 1_000_000);
    })

-- `decode`, by how the library's call ends.
unfoldable pub read_decoded : Decoded → Result TokenPayload
read_decoded expired_signature = err (authentication "Token has expired")
read_decoded invalid = err (authentication "Invalid token")
read_decoded (decoded claims) = payload claims

module _ (ext : External) where
  unfoldable pub decode : String → Action TokenPayload
  decode token = do found ← ask (λ n. ext.jwt_decode n token); lift (read_decoded found)

  -- The claims of an issued token.
  abbrev pub claims_of : ℕ → String → String → Datetime → Claims
  claims_of user_id jti token_type expires_at = record {
    sub = claim user_id;
    jti = claim jti;
    token_type = claim token_type;
    exp = claim (timestamp expires_at);
  }

  unfoldable pub issue : ℕ → String → String → ℕ → Action IssuedToken
  issue user_id jti token_type minutes = do
    now ← ask (λ n. utc (ext.utc_now n))
    let expires_at = add_minutes now minutes
    pure (record {
      token = ext.jwt_encode (claims_of user_id jti token_type expires_at);
      jti = jti;
      expires_at = expires_at;
    })

  unfoldable pub issue_access : ℕ → String → Action IssuedToken
  unfolding issue
  issue_access user_id jti = issue user_id jti "access" ext.settings.access_expire_minutes

  unfoldable pub issue_refresh : ℕ → String → Action IssuedToken
  unfolding issue
  issue_refresh user_id jti = issue user_id jti "refresh" ext.settings.refresh_expire_minutes

  -- `Sha256OneTimeTokenService.generate`.
  unfoldable pub generate : Action GeneratedSecret
  generate = do
    plain ← ask ext.token_urlsafe
    pure (record { plain = plain; hashed = ext.sha256_hex plain })
