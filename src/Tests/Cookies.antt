-- ===== src/Tests/Cookies.antt =====
-- Examples of the cookies of a session.
use video_site.Common.{true, false, ◌++◌, any, ◌≡◌, refl, some, List, [], ◌∷◌, text_eq, str}
use video_site.Errors.{ok}
use video_site.Entities.Datetime.{utc}
use video_site.Service.{AuthToken, AuthResult}
use video_site.Api.Cookies.{CookieCall, set, set_csrf, set_tokens, max_age, clear_tokens}
use video_site.Api.Cookies.Laws.{scopes_of, sets, clear_tokens-set_tokens}
use video_site.Api.Routers.{to_session_response}
use video_site.App.Answers.{FitsMode, to_session_response_mode}
use video_site.Tests.{sample, world, user_of}
use video_site.Tests.Api.{config}

abbrev tokens : AuthToken
tokens = record {
  access_token = "access-1";
  refresh_token = "refresh-1";
  token_type = "bearer";
  access_expires_at = utc 9_000_000;
  refresh_expires_at = utc 90_000_000;
}

abbrev given : List CookieCall
given =
    set config "access_token" "access-1" "/" 8 true
    ∷ set config "refresh_token" "refresh-1" "/api/v1/auth" 88 true
    ∷ set config "csrf_token" "secret-2" "/" 88 false
    ∷ []

gives : (set_tokens config sample tokens world).0 ≡ ok (some "secret-2", given)
unfolding set_tokens set_csrf set max_age str
gives = refl

clear_tokens-set_tokens_example :
    (scopes_of (clear_tokens config) ≡ scopes_of given ++ [])
    × (any sets (clear_tokens config) ≡ false)
clear_tokens-set_tokens_example =
    clear_tokens-set_tokens config sample tokens world (some "secret-2") given gives

abbrev result : AuthResult
result = record { tokens = tokens; user = user_of 1 "ann@x" "ann" }

to_session_response_mode_example :
    FitsMode true "csrf_token" result (to_session_response sample config result world).0
to_session_response_mode_example = to_session_response_mode sample config result world
