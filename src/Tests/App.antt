-- ===== src/Tests/App.antt =====
-- Examples of requests to the served application.
use video_site.Common.{
  ℕ, String, true, ◌≡◌, refl, ◌⊎◌, Option, none, some, [], ◌∷◌, nat_eq, text_eq, arith, str,
  is_some,
}
use video_site.Errors.{ok}
use video_site.Entities.Datetime.{utc}
use video_site.Entities.Session.{is_valid}
use video_site.Database.{fits}
use video_site.Theorems.Widths.{FitsAudit}
use video_site.Database.Sessions.{get_by_jti, revoked_session}
use video_site.Service.{World}
use video_site.Service.TokenService.{decode, read_decoded}
use video_site.Service.Steps.{user_cache_key}
use video_site.Auth.Refresh.{valid_only, active_only}
use video_site.Auth.Authenticate.{authenticate, resolve, load_user}
use video_site.Gateway.Headers.{get}
use video_site.Api.Csrf.{ApiRequest}
use video_site.Api.Dependencies.{
  get_access_token, get_current_user, get_current_jti, get_device_info,
}
use video_site.Api.Routers.Users.{revoke_my_sessions}
use video_site.App.Endpoints.{
  Endpoint, UserRoute, AdminRoute, ModerationRoute, call_admin, call_moderation,
}
use video_site.App.Serving.{Response, serve}
use video_site.App.Refusals.{Untouched, Repeats, Permitted, Refused, serve_forged, call_guarded}
use video_site.App.Devices.{revoke_my_sessions_effect}
use video_site.Tests.{sample, world, tables, session, user_of}
use video_site.Tests.Api.{config, request}

abbrev select_1 : ℕ → Option String
select_1 n = none

abbrev uuid4 : ℕ → String
uuid4 n = "visitor"

-- A page of another site makes the browser send its cookies, but cannot read the CSRF token.
abbrev forged : ApiRequest
forged = record request { headers = [] }

unrepeated : (token : String) → Repeats (λ s. s) config forged token → token ≡ ""
unfolding get
unrepeated token (cookie, header) = absurd (ground arith)

carries : is_some (get forged.cookies "access_token") ≡ true
unfolding get
carries = refl

serve_forged_example :
    (((serve sample config select_1 uuid4
          (λ s. s)
          (Endpoint.users UserRoute.delete_me)
          forged
          world).0
        ≡ none)
      ⊎ ((answered : Response) × ((serve sample config select_1 uuid4
              (λ s. s)
              (Endpoint.users UserRoute.delete_me)
              forged
              world).0
            ≡ some answered)
          × (answered.status ≡ 403)))
    × Untouched world
        (serve sample config select_1 uuid4
          (λ s. s)
          (Endpoint.users UserRoute.delete_me)
          forged
          world).1
serve_forged_example =
    serve_forged sample config select_1 uuid4 (λ s. s) (Endpoint.users UserRoute.delete_me) forged
      world refl refl refl carries unrepeated

call_guarded_example :
    ((route : AdminRoute)
      → Permitted sample config "users" "manage" request world
        ⊎ Refused world (call_admin sample config route request world))
    × ((route : ModerationRoute)
        → Permitted sample config "users" "ban" request world
          ⊎ Refused world (call_moderation sample config route request world))
call_guarded_example = call_guarded sample config request world

abbrev known : World
known = record world { calls = 3; cache = ("auth:user:1", user_of 1 "ann@x" "ann") ∷ [] }

abbrev decided : World
decided = record known { calls = 4 }

who :
    get_current_user sample config request (record known { calls = 0 })
    ≡ (ok (user_of 1 "ann@x" "ann"), known)
unfolding get_current_user get_access_token get authenticate resolve load_user decode read_decoded
    valid_only active_only is_valid get_by_jti user_cache_key str
who = refl

which : get_current_jti sample config request known ≡ (ok "jti-1", decided)
unfolding get_current_jti get_access_token get decode read_decoded
which = refl

found : get_by_jti tables "jti-2" ≡ some (session 4 1 "jti-2")
unfolding get_by_jti
found = refl

fitting : FitsAudit (get_device_info request config)
unfolding fits get_device_info get
fitting = (refl, refl)

revoke_my_sessions_effect_example :
    get_by_jti
      (revoke_my_sessions sample config true request (record known { calls = 0 })).1.db
      "jti-2"
    ≡ some (revoked_session (utc 1_000_004) (session 4 1 "jti-2"))
revoke_my_sessions_effect_example =
    revoke_my_sessions_effect sample config true request (record known { calls = 0 }) known decided
      (user_of 1 "ann@x" "ann") "jti-1" "jti-2" (session 4 1 "jti-2") who which found fitting
