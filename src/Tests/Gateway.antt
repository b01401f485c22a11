-- ===== src/Tests/Gateway.antt =====
-- Examples of the gateway.
use video_site.Common.{◌≡◌, refl, true, false, none, some, [], ◌∷◌, any, ltb, ◌&&◌}
use video_site.Gateway.Routes.{
  Route, GatewayConfig, table, sorted, match_route, owns, starts_with, insert, len,
}
use video_site.Gateway.Routes.Laws.{match-sorted}
use video_site.Gateway.Headers.Laws.{Every}
use video_site.Gateway.Identity.{Identity}
use video_site.Gateway.Proxy.{HttpRequest, build_forward_headers}
use video_site.Gateway.Proxy.Laws.{is_honest, own_headers, build_forward_headers-Every}

abbrev config : GatewayConfig
config = record {
  api_prefix = "/api/v1";
  users_service_url = "http://users";
  content_service_url = none;
  visitor_cookie_name = "visitor_id";
  trust_proxy_headers = false;
}

abbrev users_route : Route
users_route = record {
  prefix = "/users";
  upstream = some "http://users";
  inject_identity = false;
  require_identity = false;
}

routed : match_route (sorted (table config)) "/users/me" ≡ some users_route
unfolding match_route sorted insert owns starts_with
routed = refl

match-sorted_example :
    (owns users_route "/users/me" ≡ true)
    × (any (λ q. owns q "/users/me" && ltb (len "/users") (len q.prefix)) (table config) ≡ false)
match-sorted_example = match-sorted (table config) "/users/me" users_route routed

-- A client that tries to be somebody else.
abbrev request : HttpRequest
request = record {
  headers = ("X-User-ID", "1") ∷ ("x-user-superuser", "true") ∷ ("accept", "*/*") ∷ [];
  cookies = [];
  scheme = "https";
  client_host = some "10.0.0.1";
}

abbrev caller : Identity
caller = record {
  user_id = 7;
  username = "bob";
  permissions = [];
  is_superuser = false;
  email_verified = true;
  visitor_id = none;
}

build_forward_headers-Every_example :
    Every
      (is_honest (own_headers (some caller) (some "browser")))
      (build_forward_headers "id" request (some caller) (some "10.0.0.1") (some "browser"))
build_forward_headers-Every_example =
    build_forward_headers-Every "id" request (some caller) (some "10.0.0.1") (some "browser")
