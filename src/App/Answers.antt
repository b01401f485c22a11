-- ===== src/App/Answers.antt =====
-- The answer of a login.
use video_site.Common.{
  suc, String, Bool, true, false, not, ◌≡◌, inl, inr, Bool-cases, Option, none, some, [], ◌==◌,
  text_eq, ◌&&◌, any, arith,
}
use video_site.Errors.{Result, ok}
use video_site.Service.{External, World, AuthResult}
use video_site.Api.Config.{Config}
use video_site.Api.Cookies.{CookieCall, set_cookie, delete_cookie, set, set_csrf, set_tokens}
use video_site.Api.Serializers.{to_token_response}
use video_site.Api.Routers.{Reply, reply, session, to_session_response}

-- A cookie that scripts can read, other than one of this name and value.
abbrev pub exposes : String → Option String → CookieCall → Bool
exposes name token (delete_cookie s flags) = false
exposes name none (set_cookie s value age flags) = not flags.httponly
exposes name (some token) (set_cookie s value age flags) =
    not flags.httponly && not (s.name == name && value == token)

-- What the answer of a session shows, by whether cookies carry the tokens.
abbrev pub FitsMode : Bool → String → AuthResult → Result Reply → Type 0
FitsMode true csrf_cookie result (ok (reply status (session shown) cookies)) =
    (status ≡ 200)
    × (shown.tokens ≡ none)
    × (any (exposes csrf_cookie shown.csrf_token) cookies ≡ false)
FitsMode false csrf_cookie result (ok (reply status (session shown) cookies)) =
    (status ≡ 200)
    × (shown.tokens ≡ some (to_token_response result.tokens))
    × (shown.csrf_token ≡ none)
    × (cookies ≡ [])
FitsMode _ _ _ _ = ⊥

module _ (ext : External) (config : Config) where
  -- The answer to a login or a refresh is a session of status 200. Where cookies carry the tokens,
  -- its body has no token, and no cookie that it sets can be read by a script but the CSRF token's,
  -- which holds the token of the body; elsewhere its body has both tokens and no CSRF token, and it
  -- sets no cookie.
  pub to_session_response_mode :
      (result : AuthResult) (w : World)
      → FitsMode config.cookie_auth_enabled config.csrf_cookie_name result
          (to_session_response ext config result w).0
  unfolding to_session_response set_tokens set_csrf set
  to_session_response_mode result w = elim (Bool-cases config.cookie_auth_enabled) [
    | inl on ↦ elim (Bool-cases config.csrf_protection) [
      | inl check ↦ grind (
        arith,
        text_eq.beq_iff config.csrf_cookie_name config.csrf_cookie_name,
        text_eq.beq_iff (ext.token_urlsafe (suc (suc w.calls)))
            (ext.token_urlsafe (suc (suc w.calls))),
      )
      | inr no_check ↦ grind arith
    ]
    | inr off ↦ grind arith
  ]
