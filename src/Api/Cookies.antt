-- ===== src/Api/Cookies.antt =====
-- infrastructure/api/cookies.py and visitor_middleware.py: the cookies that answers set and drop.
--
-- The calls on a response are `set_cookie` and `delete_cookie` of the web framework.
pub mod Laws
use video_site.Common.{
  ℕ, ◌*◌, ◌-◌, ◌/◌, String, Bool, true, false, not, Option, none, some, List, [], ◌∷◌, ◌++◌,
  truthy?, if◌then◌else◌,
}
use video_site.Entities.Datetime.{Datetime, utc, as_utc}
use video_site.Service.{External, AuthToken, Action, ◌>>=◌, ask, pure}
use video_site.Gateway.Headers.{get}
use video_site.Api.Config.{Config}
use video_site.Api.Csrf.{ApiRequest}

-- What makes a cookie the same to a browser.
pub record Scope : Type 0 where
  pub name : String
  pub path : String
  pub domain : Option String

pub record Flags : Type 0 where
  pub secure : Bool
  pub httponly : Bool
  pub samesite : String

-- A call of `response.set_cookie`: the value, `max_age` and the flags; or of `delete_cookie`.
pub data CookieCall : Type 0 where
  set_cookie : Scope → String → ℕ → Flags → CookieCall
  delete_cookie : Scope → Flags → CookieCall

-- `SessionCookies.read_access_token` and `read_refresh_token`.
unfoldable pub read_access_token : Config → ApiRequest → Option String
read_access_token config request = get request.cookies config.access_cookie_name

unfoldable pub read_refresh_token : Config → ApiRequest → Option String
read_refresh_token config request = get request.cookies config.refresh_cookie_name

-- `_max_age`, at the moment of the clock: whole seconds, never below none.
unfoldable pub max_age : Datetime → Datetime → ℕ
max_age expires_at now = ((as_utc expires_at).micros - now.micros) / 1_000_000

module _ (config : Config) where
  abbrev pub scope : String → String → Scope
  scope name path = record { name = name; path = path; domain = config.cookie_domain }

  abbrev pub flags : Bool → Flags
  flags httponly = record {
    secure = config.cookie_secure;
    httponly = httponly;
    samesite = config.cookie_samesite;
  }

  -- `_set`.
  unfoldable pub set : String → String → String → ℕ → Bool → CookieCall
  set name value path age httponly = set_cookie (scope name path) value age (flags httponly)

  -- The cookies that `clear_tokens` drops.
  abbrev pub token_scopes : List Scope
  token_scopes =
      scope config.access_cookie_name "/"
      ∷ scope config.refresh_cookie_name config.refresh_cookie_path
      ∷ scope config.csrf_cookie_name "/"
      ∷ []

  abbrev pub delete_all : List Scope → List CookieCall
  delete_all [] = []
  delete_all (s ∷ rest) = delete_cookie s (flags false) ∷ delete_all rest

  -- `clear_tokens`; `delete_cookie` is called without `httponly`.
  unfoldable pub clear_tokens : List CookieCall
  clear_tokens = delete_all token_scopes

  module _ (ext : External) where
    -- The last part of `set_tokens`, for the cookie that the frontend reads.
    unfoldable pub set_csrf : AuthToken → Action (Option String × List CookieCall)
    unfolding set max_age
    set_csrf tokens = if not config.csrf_protection then pure (none, []) else do
      csrf_token ← ask ext.token_urlsafe
      now ← ask (λ n. utc (ext.utc_now n))
      pure (
        some csrf_token,
        set config.csrf_cookie_name csrf_token "/" (max_age tokens.refresh_expires_at now) false
            ∷ [],
      )

    -- `set_tokens`: the new CSRF token, and the calls on the response.
    unfoldable pub set_tokens : AuthToken → Action (Option String × List CookieCall)
    unfolding set max_age set_csrf
    set_tokens tokens = do
      now ← ask (λ n. utc (ext.utc_now n))
      let access : CookieCall =
          set config.access_cookie_name tokens.access_token "/"
            (max_age tokens.access_expires_at now) true
      later ← ask (λ n. utc (ext.utc_now n))
      let refresh : CookieCall =
          set config.refresh_cookie_name tokens.refresh_token config.refresh_cookie_path
            (max_age tokens.refresh_expires_at later) true
      (csrf_token, rest) ← set_csrf tokens
      pure (csrf_token, access ∷ refresh ∷ rest)

  -- `not visitor_id` of the visitor cookie: the browser has none yet.
  unfoldable pub is_new : ApiRequest → Bool
  is_new request = not (truthy? (get request.cookies config.visitor_cookie_name))

  -- The id that `VisitorMiddleware.dispatch` puts into the request's state, where `minted` is
  -- `str(uuid.uuid4())`.
  unfoldable pub visitor_of : String → ApiRequest → Option String
  unfolding is_new
  visitor_of minted request =
      if is_new request then some minted else get request.cookies config.visitor_cookie_name

  -- The cookie that it sets on the response of a new browser.
  unfoldable pub visitor_cookies : String → ApiRequest → List CookieCall
  unfolding is_new
  visitor_cookies minted request =
      if is_new request
      then set_cookie (scope config.visitor_cookie_name "/") minted
          (config.visitor_cookie_max_age_days * 24 * 60 * 60) (flags true)
        ∷ []
      else []
