-- ===== src/App/Refusals.antt =====
-- What is refused before a use case runs changes nothing that is committed.
use video_site.Common.{
  ℕ, String, true, false, ◌≡◌, refl, ◌⊎◌, inl, inr, Bool-cases, ap, truthy, Option, none, some, [],
  ◌∷◌, ◌==◌, text_eq, any, is_some, fstring, arith,
}
use video_site.Errors.{Error, authorization, Result, ok, err, Result-cases}
use video_site.Entities.User.{User, has_permission}
use video_site.Service.{External, World, Action}
use video_site.Gateway.Headers.{get}
use video_site.Theorems.Atomic.Auth.{authenticate_db}
use video_site.Api.Config.{Config}
use video_site.Api.Csrf.{ApiRequest, requires_check, token_matches, goes_on, check_raises}
use video_site.Api.Cookies.{visitor_cookies}
use video_site.Api.Laws.{goes_on-cookie}
use video_site.Api.Dependencies.{get_current_user, require_permission}
use video_site.Api.Routers.{Reply}
use video_site.Api.Routers.Admin
use video_site.Api.Routers.Moderation
use video_site.App.Endpoints.{Endpoint, AdminRoute, ModerationRoute, call_admin, call_moderation}
use video_site.App.Serving.{
  Response, Application, routes, csrf_middleware, visitor_middleware, serve, plain, detail,
}

-- What a request must leave as it was when it is refused: all but the number of outside calls.
abbrev pub Untouched : World → World → Type 0
Untouched w w' =
    (w'.db ≡ w.db) × (w'.counters ≡ w.counters) × (w'.cache ≡ w.cache) × (w'.outbox ≡ w.outbox)

-- An end in an error that has committed nothing.
abbrev pub Refused : {A : Type 0} → World → Result A × World → Type 0
Refused w r = ((e : Error) × (r.0 ≡ err e)) × (r.1.db ≡ w.db)

-- The CSRF cookie and the CSRF header of a request are there and hold this text.
abbrev pub Repeats : (String → String) → Config → ApiRequest → String → Type 0
Repeats lower config request token =
    (get request.cookies config.csrf_cookie_name ≡ some token)
    × (get request.headers (lower config.csrf_header_name) ≡ some token)

module _ (ext : External) (config : Config) where
  not_going_on :
      (lower : String → String) (request : ApiRequest)
      → config.csrf_protection ≡ true
      → config.cookie_auth_enabled ≡ true
      → any (λ m. request.method == m) ("GET" ∷ "HEAD" ∷ "OPTIONS" ∷ "TRACE" ∷ []) ≡ false
      → is_some (get request.cookies config.access_cookie_name) ≡ true
      → ((token : String) → Repeats lower config request token → token ≡ "")
      → goes_on lower config request ≡ false
  not_going_on lower request on cookies unsafe there unrepeated =
      elim (Bool-cases (goes_on lower config request)) [
        | inl pass ↦
            let (token, cookie, header, some_token) =
              goes_on-cookie lower config request pass on cookies unsafe there in
            let empty : truthy token ≡ truthy "" = ap truthy (unrepeated token (cookie, header)) in
            absurd (grind (arith, some_token, empty))
        | inr off ↦ off
      ]

  csrf_refused :
      (lower : String → String) (app : Application) (uuid4 : ℕ → String) (request : ApiRequest)
      (w : World)
      → goes_on lower config request ≡ false
      → (((visitor_middleware uuid4 config (csrf_middleware lower config app) request w).0 ≡ none)
          ⊎ ((answered : Response) × ((visitor_middleware uuid4 config
                  (csrf_middleware lower config app)
                  request
                  w).0
                ≡ some answered)
              × (answered.status ≡ 403)))
        × Untouched w
            (visitor_middleware uuid4 config (csrf_middleware lower config app) request w).1
  unfolding csrf_middleware visitor_middleware goes_on requires_check token_matches check_raises
  csrf_refused lower app uuid4 request w off =
      elim (Bool-cases (check_raises lower config request)) [
        | inl raised ↦ (inl (grind arith), grind arith)
        | inr refused ↦ (
          inr (
            record (plain 403 (detail "CSRF token missing or invalid")) {
              cookies = visitor_cookies config (uuid4 w.calls) request;
            },
            grind arith,
            refl,
          ),
          grind arith,
        )
      ]

  -- Whatever route it is for, a request of an unsafe method that carries the cookie of the access
  -- token is not answered by the route unless its CSRF cookie and its CSRF header are there and hold
  -- the same text, which is not empty: where cookies carry the tokens and the check is on, it is
  -- refused with 403 or ends in an exception, and nothing is committed, counted, cached or mailed.
  pub serve_forged :
      (select_1 : ℕ → Option String) (uuid4 : ℕ → String) (lower : String → String)
      (endpoint : Endpoint) (request : ApiRequest) (w : World)
      → config.csrf_protection ≡ true
      → config.cookie_auth_enabled ≡ true
      → any (λ m. request.method == m) ("GET" ∷ "HEAD" ∷ "OPTIONS" ∷ "TRACE" ∷ []) ≡ false
      → is_some (get request.cookies config.access_cookie_name) ≡ true
      → ((token : String) → Repeats lower config request token → token ≡ "")
      → (((serve ext config select_1 uuid4 lower endpoint request w).0 ≡ none)
          ⊎ ((answered : Response) × ((serve ext config select_1 uuid4 lower endpoint request w).0
                ≡ some answered)
              × (answered.status ≡ 403)))
        × Untouched w (serve ext config select_1 uuid4 lower endpoint request w).1
  unfolding serve csrf_middleware visitor_middleware
  serve_forged select_1 uuid4 lower endpoint request w on cookies unsafe there unrepeated =
      csrf_refused lower (routes ext config select_1 endpoint) uuid4 request w
        (not_going_on lower request on cookies unsafe there unrepeated)

  abbrev pub Permitted : String → String → ApiRequest → World → Type 0
  Permitted resource action request w =
      (user : User) × ((get_current_user ext config request w).0 ≡ ok user)
      × (has_permission user resource action ≡ true)

  pub get_current_user_db :
      (request : ApiRequest) (w : World) → (get_current_user ext config request w).1.db ≡ w.db
  unfolding get_current_user
  get_current_user_db request w = grind (arith, authenticate_db ext)

  require_permission_cases :
      (resource action : String) (request : ApiRequest) (w : World)
      → Permitted resource action request w
        ⊎ Refused w (require_permission ext config resource action request w)
  unfolding require_permission
  require_permission_cases resource action request w =
      let same = get_current_user_db request w in
      elim (Result-cases (get_current_user ext config request w).0) [
        | inl (user, e) ↦ elim (Bool-cases (has_permission user resource action)) [
          | inl may ↦ inl (user, e, may)
          | inr may_not ↦ inr (
            (
              authorization
                  (fstring ("Missing required permission: " ∷ resource ∷ ":" ∷ action ∷ [])),
              grind arith,
            ),
            grind arith,
          )
        ]
        | inr (error, e) ↦ inr ((error, grind arith), grind arith)
      ]

  managed_cases :
      (request : ApiRequest) (handler : Action Reply) (w : World)
      → Permitted "users" "manage" request w
        ⊎ Refused w (Admin.managed ext config request handler w)
  unfolding Admin.managed
  managed_cases request handler w = elim (require_permission_cases "users" "manage" request w) [
    | inl may ↦ inl may
    | inr ((error, e), same) ↦ inr ((error, grind arith), grind arith)
  ]

  admin_guarded :
      (route : AdminRoute) (request : ApiRequest) (w : World)
      → Permitted "users" "manage" request w ⊎ Refused w (call_admin ext config route request w)
  unfolding call_admin Admin.list_permissions Admin.list_roles Admin.list_users
      Admin.create_permission Admin.create_role Admin.delete_role Admin.grant_permission_to_role
      Admin.revoke_permission_from_role Admin.assign_role_to_user Admin.revoke_role_from_user
  admin_guarded AdminRoute.list_permissions request w = managed_cases request _ w
  admin_guarded AdminRoute.list_roles request w = managed_cases request _ w
  admin_guarded AdminRoute.list_users request w = managed_cases request _ w
  admin_guarded (AdminRoute.create_permission body) request w = managed_cases request _ w
  admin_guarded (AdminRoute.create_role body) request w = managed_cases request _ w
  admin_guarded (AdminRoute.delete_role role_id) request w = managed_cases request _ w
  admin_guarded (AdminRoute.grant_permission_to_role role_id permission_id) request w =
      managed_cases request _ w
  admin_guarded (AdminRoute.revoke_permission_from_role role_id permission_id) request w =
      managed_cases request _ w
  admin_guarded (AdminRoute.assign_role_to_user user_id role_id) request w =
      managed_cases request _ w
  admin_guarded (AdminRoute.revoke_role_from_user user_id role_id) request w =
      managed_cases request _ w

  moderation_guarded :
      (route : ModerationRoute) (request : ApiRequest) (w : World)
      → Permitted "users" "ban" request w ⊎ Refused w (call_moderation ext config route request w)
  unfolding call_moderation Moderation.ban_user Moderation.unban_user
  moderation_guarded (ModerationRoute.ban_user user_id body) request w =
      elim (require_permission_cases "users" "ban" request w) [
        | inl may ↦ inl may
        | inr ((error, e), same) ↦ inr ((error, grind arith), grind arith)
      ]
  moderation_guarded (ModerationRoute.unban_user user_id) request w =
      elim (require_permission_cases "users" "ban" request w) [
        | inl may ↦ inl may
        | inr ((error, e), same) ↦ inr ((error, grind arith), grind arith)
      ]

  -- Every route of the admin router: the caller was authenticated and may manage users, or the
  -- request ends in an error and has committed nothing. Every route of the moderation router: the
  -- same, for who may ban users.
  pub call_guarded :
      (request : ApiRequest) (w : World)
      → ((route : AdminRoute)
          → Permitted "users" "manage" request w
            ⊎ Refused w (call_admin ext config route request w))
        × ((route : ModerationRoute)
            → Permitted "users" "ban" request w
              ⊎ Refused w (call_moderation ext config route request w))
  call_guarded request w =
      (λ route. admin_guarded route request w, λ route. moderation_guarded route request w)
