-- ===== src/Gateway/Routes.antt =====
-- gateway/routes.py, and the settings of gateway/config.py that the gateway's logic reads.
pub mod Laws
use Prim.Native.String.{[] as empty, ◌∷◌ as cons, ◌++◌ as join}
use Prim.Native.Char.{code}
use video_site.Common.{
  ℕ, zero, suc, String, Bool, true, false, Option, none, some, List, [], ◌∷◌, ◌&&◌, ◌||◌, ◌==◌,
  nat_eq, text_eq, leb, if◌then◌else◌,
}

pub record GatewayConfig : Type 0 where
  pub api_prefix : String
  pub users_service_url : String
  pub content_service_url : Option String
  pub visitor_cookie_name : String
  pub trust_proxy_headers : Bool

pub record Route : Type 0 where
  pub prefix : String
  pub upstream : Option String
  pub inject_identity : Bool
  pub require_identity : Bool

-- `len` of a text.
abbrev pub len : String → ℕ
len empty = zero
len (cons _ s) = suc (len s)

-- `s.startswith(prefix)`.
unfoldable pub starts_with : String → String → Bool
starts_with s empty = true
starts_with empty (cons _ _) = false
starts_with (cons c s) (cons d prefix) = code c == code d && starts_with s prefix

-- One step of the stable sort, longest prefix first.
unfoldable pub insert : Route → List Route → List Route
insert route [] = route ∷ []
insert route (r ∷ rest) =
    let placed = insert route rest in
    if leb (len r.prefix) (len route.prefix) then route ∷ r ∷ rest else r ∷ placed

-- `sorted(routes, key=lambda route: len(route.prefix), reverse=True)`.
unfoldable pub sorted : List Route → List Route
sorted [] = []
sorted (route ∷ rest) = insert route (sorted rest)

-- The table, before it is sorted.
abbrev pub table : GatewayConfig → List Route
table config =
    record {
      prefix = "/auth";
      upstream = some config.users_service_url;
      inject_identity = false;
      require_identity = false;
    }
    ∷ record {
      prefix = "/users";
      upstream = some config.users_service_url;
      inject_identity = false;
      require_identity = false;
    }
    ∷ record {
      prefix = "/admin";
      upstream = some config.users_service_url;
      inject_identity = false;
      require_identity = false;
    }
    ∷ record {
      prefix = "/content";
      upstream = config.content_service_url;
      inject_identity = true;
      require_identity = false;
    }
    ∷ []

unfoldable pub build_routes : GatewayConfig → List Route
build_routes config = sorted (table config)

-- The test of `match`.
unfoldable pub owns : Route → String → Bool
owns route path = path == route.prefix || starts_with path (join route.prefix "/")

unfoldable pub match_route : List Route → String → Option Route
match_route [] path = none
match_route (route ∷ routes) path = if owns route path then some route else match_route routes path
