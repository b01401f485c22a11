-- ===== src/Api/Dependencies.antt =====
-- infrastructure/api/dependencies.py: the credentials, the device and the permission of a request.
use video_site.Common.{
  String, not, Option, none, some, [], ◌∷◌, ◌&&◌, truthy, before_comma, strip, fstring,
  if◌then◌else◌,
}
use video_site.Errors.{Result, ok, err, authentication, authorization}
use video_site.Entities.User.{User, has_permission}
use video_site.Service.{External, DeviceInfo, Action, ◌>>=◌, ◌>>◌, lift, pure, raise_if}
use video_site.Service.TokenService.{decode}
use video_site.Auth.Authenticate.{authenticate}
use video_site.Gateway.Headers.{get}
use video_site.Api.Config.{Config}
use video_site.Api.Csrf.{ApiRequest}

-- `_client_ip`.
unfoldable pub caller_ip : ApiRequest → Config → Option String
caller_ip request config = elim (get request.headers "x-forwarded-for") [
  | some forwarded ↦
      if config.trust_proxy_headers && truthy forwarded
      then some (strip (before_comma forwarded))
      else request.client_host
  | none ↦ request.client_host
]

-- `get_device_info`; the device's name is left at its default.
unfoldable pub get_device_info : ApiRequest → Config → DeviceInfo
unfolding caller_ip
get_device_info request config = record {
  visitor_id = request.visitor_id;
  user_agent = get request.headers "user-agent";
  ip_address = caller_ip request config;
  device = none;
}

-- A text that is there and not empty, else the other.
abbrev token_or : Option String → Result String → Result String
token_or none other = other
token_or (some token) other = if truthy token then ok token else other

-- `get_access_token`: the cookie before the bearer header.
unfoldable pub get_access_token : ApiRequest → Config → Result String
get_access_token request config =
    let bearer : Result String =
      token_or request.bearer (err (authentication "Missing access token")) in
    if config.cookie_auth_enabled
    then token_or (get request.cookies config.access_cookie_name) bearer
    else bearer

module _ (ext : External) (config : Config) where
  -- `get_current_user`.
  unfoldable pub get_current_user : ApiRequest → Action User
  get_current_user request = do
    token ← lift (get_access_token request config)
    authenticate ext token

  -- `require_permission`.
  unfoldable pub require_permission : String → String → ApiRequest → Action User
  require_permission resource action request = do
    user ← get_current_user request
    raise_if (not (has_permission user resource action))
        (authorization (fstring ("Missing required permission: " ∷ resource ∷ ":" ∷ action ∷ [])))
    pure user

  -- `get_current_jti`.
  unfoldable pub get_current_jti : ApiRequest → Action String
  get_current_jti request = do
    token ← lift (get_access_token request config)
    payload ← decode ext token
    pure payload.jti
