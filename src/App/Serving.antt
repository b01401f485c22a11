-- ===== src/App/Serving.antt =====
-- A request through the middlewares of `setup_middleware` to its route, and its answer.
use video_site.Common.{ℕ, suc, String, Option, none, some, List, [], ◌++◌, if◌then◌else◌}
use video_site.Errors
use video_site.Errors.{Error, Result, ok, err}
use video_site.Service.{External, World}
use video_site.Api.Config.{Config}
use video_site.Api.Csrf.{ApiRequest, goes_on, check_raises}
use video_site.Api.Cookies.{CookieCall, is_new, visitor_of, visitor_cookies}
use video_site.Api.ErrorHandlers.{status_of, headers_of}
use video_site.Api.Routers.{Body, Reply, unprocessable, reply}
use video_site.App.Endpoints.{Endpoint, call}

pub data Content : Type 0 where
  body : Body → Content
  refused_fields : Content
  detail : String → Content

pub record Response : Type 0 where
  pub status : ℕ
  pub content : Content
  pub headers : List (String × String)
  pub cookies : List CookieCall

-- An application of the web framework; none stands for an exception that leaves it.
abbrev pub Application : Type 0
Application = ApiRequest → World → Option Response × World

abbrev pub plain : ℕ → Content → Response
plain status content = record { status = status; content = content; headers = []; cookies = [] }

abbrev error_response : Error → Option ℕ → Option Response
error_response e none = none
error_response e (some status) = some (record {
  status = status;
  content = detail (Errors.detail e);
  headers = headers_of e;
  cookies = [];
})

-- What the routes and the handlers of exceptions make of a handler's end.
unfoldable pub answer : Result Reply → Option Response
answer (ok unprocessable) = some (plain 422 refused_fields)
answer (ok (reply status content cookies)) =
    some (record { status = status; content = body content; headers = []; cookies = cookies })
answer (err e) = error_response e (status_of e)

abbrev add_cookies : List CookieCall → Option Response → Option Response
add_cookies more none = none
add_cookies more (some response) = some (record response { cookies = response.cookies ++ more })

-- `CsrfMiddleware.dispatch`; `lower` is `str.lower`.
unfoldable pub csrf_middleware : (String → String) → Config → Application → Application
csrf_middleware lower config call_next request w =
    if goes_on lower config request
    then call_next request w
    else if check_raises lower config request
    then (none, w)
    else (some (plain 403 (detail "CSRF token missing or invalid")), w)

-- `VisitorMiddleware.dispatch`; `uuid4` is `str(uuid.uuid4())`.
unfoldable pub visitor_middleware : (ℕ → String) → Config → Application → Application
visitor_middleware uuid4 config call_next request w =
    let seen : ApiRequest = record request {
      visitor_id = visitor_of config (uuid4 w.calls) request;
    } in
    let start : World = if is_new config request then record w { calls = suc w.calls } else w in
    let (response, w') = call_next seen start in
    (add_cookies (visitor_cookies config (uuid4 w.calls) request) response, w')

module _ (ext : External) (config : Config) (select_1 : ℕ → Option String) where
  unfoldable pub routes : Endpoint → Application
  unfolding answer
  routes endpoint request w =
      let (result, w') = call ext config select_1 endpoint request w in (answer result, w')

  -- The application that `bootstrap` assembles, on a request that its paths bring to a route.
  unfoldable pub serve : (ℕ → String) → (String → String) → Endpoint → Application
  unfolding routes csrf_middleware visitor_middleware
  serve uuid4 lower endpoint =
      visitor_middleware uuid4 config (csrf_middleware lower config (routes endpoint))
