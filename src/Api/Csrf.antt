-- ===== src/Api/Csrf.antt =====
-- infrastructure/api/csrf_middleware.py.
use Prim.Native.String.{[] as empty, ◌∷◌ as cons}
use Prim.Native.Char.{code}
use video_site.Common.{
  String, Bool, true, false, not, Option, none, some, List, [], ◌∷◌, ◌&&◌, ◌==◌, text_eq, any,
  is_some, truthy, ltb,
}
use video_site.Api.Config.{Config}
use video_site.Gateway.Headers.{Headers, get}

-- What the middlewares and dependencies read of a request; header names arrive in lower case.
pub record ApiRequest : Type 0 where
  pub method : String
  pub headers : Headers
  pub cookies : Headers
  pub client_host : Option String
  -- `request.state.visitor_id`, and the token of the bearer scheme
  pub visitor_id : Option String
  pub bearer : Option String

abbrev safe_methods : List String
safe_methods = "GET" ∷ "HEAD" ∷ "OPTIONS" ∷ "TRACE" ∷ []

-- `_requires_check`.
unfoldable pub requires_check : Config → ApiRequest → Bool
requires_check config request =
    config.csrf_protection
    && config.cookie_auth_enabled
    && not (any (λ m. request.method == m) safe_methods)
    && any (λ name. is_some (get request.cookies name))
        (config.access_cookie_name ∷ config.refresh_cookie_name ∷ [])

-- `compare_digest` raises a `TypeError` on a text that is not ASCII.
abbrev is_ascii : String → Bool
is_ascii empty = true
is_ascii (cons c s) = ltb (code c) 128 && is_ascii s

-- `not cookie or not header`, else `secrets.compare_digest`; a request on which this raises does
-- not go on either (`check_raises`).
abbrev same_token : Option String → Option String → Bool
same_token none header = false
same_token (some cookie) none = false
same_token (some cookie) (some header) =
    truthy cookie && truthy header && is_ascii cookie && is_ascii header && cookie == header

-- `_token_matches`; `lower` is `str.lower`, by which `request.headers.get` reads a name.
unfoldable pub token_matches : (String → String) → Config → ApiRequest → Bool
token_matches lower config request =
    same_token (get request.cookies config.csrf_cookie_name)
      (get request.headers (lower config.csrf_header_name))

-- `dispatch`: whether the request goes on; else it is answered 403.
unfoldable pub goes_on : (String → String) → Config → ApiRequest → Bool
unfolding requires_check token_matches
goes_on lower config request =
    not (requires_check config request && not (token_matches lower config request))

-- Whether `compare_digest` raises on the cookie and the header.
abbrev compare_raises : Option String → Option String → Bool
compare_raises none header = false
compare_raises (some cookie) none = false
compare_raises (some cookie) (some header) =
    truthy cookie && truthy header && not (is_ascii cookie && is_ascii header)

unfoldable pub check_raises : (String → String) → Config → ApiRequest → Bool
check_raises lower config request =
    compare_raises (get request.cookies config.csrf_cookie_name)
      (get request.headers (lower config.csrf_header_name))
