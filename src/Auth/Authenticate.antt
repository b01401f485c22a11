-- ===== src/Auth/Authenticate.antt =====
-- usecases/authenticate_usecase.py.
use video_site.Common.{ℕ, String, Bool, not, Option, none, some, ◌==◌, text_eq, if◌then◌else◌}
use video_site.Errors.{ok, authentication}
use video_site.Entities.User.{User}
use video_site.Database.Users
use video_site.Database.Sessions
use video_site.Service.{
  External, Action, ◌>>=◌, ◌>>◌, ask, pure, or_raise, raise_if, query, cached, cache_set,
  transaction,
}
use video_site.Service.TokenService.{TokenPayload, decode}
use video_site.Service.Steps.{utc_now, user_cache_key}
use video_site.Auth.Refresh.{active_only, valid_only}

-- `ICache.get`, where the cache may have let the entry go.
abbrev cache_read : Bool → String → Action (Option User)
cache_read holds key w = (ok (if holds then cached w.cache key else none), w)

-- A database hit is cached; a miss is not.
abbrev remember : Option User → String → Action (Option User)
remember none key = pure none
remember (some user) key = cache_set key user >> pure (some user)

module _ (ext : External) where
  unfoldable pub load_user : ℕ → Action (Option User)
  load_user user_id = do
    holds ← ask ext.cache_holds
    hit ← cache_read holds (user_cache_key user_id)
    elim hit [
      | some user ↦ pure (some user)
      | none ↦
          query (λ db. Users.get_by_id db user_id)
          >>= (λ user. remember user (user_cache_key user_id))
    ]

  unfoldable pub resolve : TokenPayload → Action User
  resolve payload = do
    found ← query (λ db. Sessions.get_by_jti db payload.jti)
    moment ← utc_now ext
    session ← or_raise (valid_only found moment) (authentication "Session is no longer valid")
    user ← load_user payload.user_id
    or_raise (active_only user) (authentication "User is inactive or missing")

  -- `AuthenticateUseCase.__call__`.
  unfoldable pub authenticate : String → Action User
  authenticate token = do
    payload ← decode ext token
    raise_if (not (payload.token_type == "access")) (authentication "An access token is required")
    transaction (resolve payload)
