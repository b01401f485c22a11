-- ===== src/Api/Cookies/Laws.antt =====
-- What a sign-out drops, against what a session sets.
use video_site.Common.{
  String, ◌≡◌, refl, Bool, true, false, Option, List, [], ◌∷◌, ◌++◌, any, arith, if◌then◌else◌,
  Bool-cases, inl, inr,
}
use video_site.Errors.{ok}
use video_site.Service.{External, AuthToken, World}
use video_site.Api.Config.{Config}
use video_site.Api.Cookies.{
  Scope, CookieCall, set_cookie, delete_cookie, set, set_csrf, set_tokens, clear_tokens,
}

-- The name, the path and the domain of each cookie of some calls.
abbrev pub scopes_of : List CookieCall → List Scope
scopes_of [] = []
scopes_of (set_cookie s value age flags ∷ calls) = s ∷ scopes_of calls
scopes_of (delete_cookie s flags ∷ calls) = s ∷ scopes_of calls

abbrev pub sets : CookieCall → Bool
sets (set_cookie s value age flags) = true
sets (delete_cookie s flags) = false

module _ (config : Config) (ext : External) where
  -- A sign-out drops, by name, path and domain, exactly the cookies that a session sets, in the
  -- same order, and the cookie of the CSRF token also where the check is off and none was set; it
  -- sets no cookie.
  pub clear_tokens-set_tokens :
      (tokens : AuthToken) (w : World) (csrf : Option String) (calls : List CookieCall)
      → (set_tokens config ext tokens w).0 ≡ ok (csrf, calls)
      → (scopes_of (clear_tokens config)
          ≡ scopes_of calls
            ++ (if config.csrf_protection
                then []
                else record {
                  name = config.csrf_cookie_name;
                  path = "/";
                  domain = config.cookie_domain;
                }
                  ∷ []))
        × (any sets (clear_tokens config) ≡ false)
  unfolding clear_tokens set_tokens set_csrf set
  clear_tokens-set_tokens tokens w csrf calls done = elim (Bool-cases config.csrf_protection) [
    | inl on ↦ (grind arith, refl)
    | inr off ↦ (grind arith, refl)
  ]
