-- ===== src/Gateway/Proxy.antt =====
-- gateway/proxy.py and gateway/gateway_router.py: the headers that are sent on, and the handler.
pub mod Laws
use Prim.Native.String.{[] as empty, ◌∷◌ as cons, ◌++◌ as join}
use Prim.Native.Char.{code}
use video_site.Common.{
  ℕ, String, Bool, true, false, not, Option, none, some, List, [], ◌∷◌, ◌&&◌, ◌||◌, ◌==◌, nat_eq,
  truthy, truthy?, is_none, if◌then◌else◌, before_comma, strip, fstring, keep,
}
use video_site.Gateway.Routes.{GatewayConfig, Route, match_route}
use video_site.Gateway.Headers.{Headers, is_named, set_header, update, get, collect, set_default}
use video_site.Gateway.Identity.{Identity, Answer, as_headers, strip_client_identity, resolve}

abbrev pub hop_by_hop : List String
hop_by_hop =
    "connection" ∷ "keep-alive" ∷ "proxy-authenticate" ∷ "proxy-authorization" ∷ "te" ∷ "trailer"
    ∷ "transfer-encoding" ∷ "upgrade" ∷ "content-length" ∷ "host" ∷ []

-- What the handler reads of a request.
pub record HttpRequest : Type 0 where
  pub headers : Headers
  pub cookies : Headers
  pub scheme : String
  pub client_host : Option String

-- How `client.send` ends.
pub data Sent : Type 0 where
  timed_out unreachable : Sent
  responded : ℕ → Headers → Sent

-- What the gateway relies on and does not implement: the answer of users-service, the answer of the
-- service that a request is forwarded to, and `uuid.uuid4().hex`.
pub record Network : Type 0 where
  pub users_service : Headers → Headers → Answer
  pub send : String → Headers → Sent
  pub uuid4_hex : String

-- What the client gets: a refusal of the gateway, or what the service answered.
pub data Reply : Type 0 where
  refused : ℕ → String → Reply
  streamed : ℕ → Headers → Reply

-- `_client_ip`.
unfoldable pub client_ip : HttpRequest → GatewayConfig → Option String
client_ip request config = elim (get request.headers "x-forwarded-for") [
  | some forwarded ↦
      if config.trust_proxy_headers && truthy forwarded
      then some (strip (before_comma forwarded))
      else request.client_host
  | none ↦ request.client_host
]

-- `headers.update(identity.as_headers())`, if there is one.
abbrev pub with_identity : Headers → Option Identity → Headers
with_identity headers none = headers
with_identity headers (some identity) = update headers (as_headers identity)

-- `if value: headers[name] = value`.
abbrev pub with_text : Headers → String → Option String → Headers
with_text headers name none = headers
with_text headers name (some value) =
    if truthy value then set_header headers name value else headers

-- `X-Forwarded-For`: the address is added to what the request has.
abbrev pub forwarded_for : Option String → String → String
forwarded_for none ip = ip
forwarded_for (some before) ip = if truthy before then fstring (before ∷ ", " ∷ ip ∷ []) else ip

abbrev pub with_client : Headers → Option String → Option String → Headers
with_client headers before none = headers
with_client headers before (some ip) =
    if truthy ip then set_header headers "X-Forwarded-For" (forwarded_for before ip) else headers

-- `request.headers.get(REQUEST_ID_HEADER) or uuid.uuid4().hex`.
abbrev pub request_id : Option String → String → String
request_id none fresh = fresh
request_id (some value) fresh = if truthy value then value else fresh

unfoldable pub build_forward_headers :
    String → HttpRequest → Option Identity → Option String → Option String → Headers
build_forward_headers fresh request identity ip visitor_id =
    let headers : Headers = collect (λ n. not (is_named hop_by_hop n)) [] request.headers in
    let stripped : Headers = strip_client_identity headers in
    let known : Headers = with_identity stripped identity in
    let visited : Headers = with_text known "X-Visitor-Id" visitor_id in
    let addressed : Headers = with_client visited (get request.headers "x-forwarded-for") ip in
    set_default (set_header addressed "X-Forwarded-Proto" request.scheme) "X-Request-Id"
      (request_id (get request.headers "x-request-id") fresh)

-- The headers of an answer that are handed on: a list, so that none of one name is lost.
unfoldable pub response_headers : Headers → Headers
response_headers raw = keep (λ h. not (is_named hop_by_hop h.0)) raw

-- `forward`, with the `ProxyError` that the handler answers.
unfoldable pub forward : (String → Headers → Sent) → String → Headers → Reply
forward send target headers = elim (send target headers) [
  | timed_out ↦ refused 504 "The upstream service timed out"
  | unreachable ↦ refused 502 "The upstream service is unreachable"
  | responded status raw ↦ streamed status (response_headers raw)
]

-- `s.rstrip("/")` and `s.lstrip("/")`.
unfoldable pub rstrip_slash : String → String
rstrip_slash empty = empty
rstrip_slash (cons c s) =
    let rest = rstrip_slash s in if not (truthy rest) && code c == b'/' then empty else cons c rest

unfoldable pub lstrip_slash : String → String
lstrip_slash empty = empty
lstrip_slash (cons c s) = if code c == b'/' then lstrip_slash s else cons c s

-- `if route.inject_identity or route.require_identity`.
unfoldable pub caller : Network → Route → HttpRequest → Option Identity
caller network route request =
    if route.inject_identity || route.require_identity
    then resolve network.users_service request.headers request.cookies
    else none

-- The rest of the handler, for a route whose service is there.
unfoldable pub pass_on :
    Network → GatewayConfig → Route → String → HttpRequest → String → Option Identity → Reply
pass_on network config route upstream request path identity =
    if route.require_identity && is_none identity
    then refused 401 "Authentication required"
    else forward network.send
        (fstring (rstrip_slash upstream ∷ config.api_prefix ∷ "/" ∷ path ∷ []))
        (build_forward_headers network.uuid4_hex request identity (client_ip request config)
          (get request.cookies config.visitor_cookie_name))

-- `proxy`.
unfoldable pub proxy : Network → GatewayConfig → List Route → HttpRequest → String → Reply
proxy network config routes request path = elim (match_route routes (join "/" path)) [
  | none ↦ refused 404 "Unknown route"
  | some route ↦ elim route.upstream [
    | none ↦ refused 503 (join (lstrip_slash route.prefix) " is not available")
    | some upstream ↦
        pass_on network config route upstream request path (caller network route request)
  ]
]
