-- ===== src/Gateway/Identity.antt =====
-- gateway/identity.py: who calls, and the headers that say so.
use Prim.Native.String.{◌++◌ as join}
use video_site.Common.{
  ℕ, String, Bool, false, not, Option, none, some, List, [], ◌∷◌, str, ◌==◌, nat_eq, if◌then◌else◌,
}
use video_site.Gateway.Headers.{Headers, is_named, collect}

abbrev pub identity_headers : List String
identity_headers =
    "x-user-id" ∷ "x-user-username" ∷ "x-user-permissions" ∷ "x-user-superuser"
    ∷ "x-user-email-verified" ∷ "x-visitor-id" ∷ []

pub record Identity : Type 0 where
  pub user_id : ℕ
  pub username : String
  pub permissions : List String
  pub is_superuser : Bool
  pub email_verified : Bool
  pub visitor_id : Option String

-- The members that the profile of users-service may have; `id` and `username` it always has.
pub record Profile : Type 0 where
  pub id : ℕ
  pub username : String
  pub permissions : Option (List String)
  pub is_superuser : Option Bool
  pub email_verified : Option Bool
  pub visitor_id : Option String

abbrev list_or_empty : Option (List String) → List String
list_or_empty none = []
list_or_empty (some xs) = xs

-- `bool(profile.get(key))`.
abbrev truth : Option Bool → Bool
truth none = false
truth (some b) = b

unfoldable pub from_profile : Profile → Identity
from_profile profile = record {
  user_id = profile.id;
  username = profile.username;
  permissions = list_or_empty profile.permissions;
  is_superuser = truth profile.is_superuser;
  email_verified = truth profile.email_verified;
  visitor_id = profile.visitor_id;
}

-- `",".join(parts)`.
unfoldable pub comma_joined : List String → String
comma_joined [] = ""
comma_joined (part ∷ []) = part
comma_joined (part ∷ next ∷ parts) = join part (join "," (comma_joined (next ∷ parts)))

abbrev flag : Bool → String
flag b = if b then "true" else "false"

unfoldable pub as_headers : Identity → Headers
as_headers identity =
    ("X-User-Id", str identity.user_id)
    ∷ ("X-User-Username", identity.username)
    ∷ ("X-User-Permissions", comma_joined identity.permissions)
    ∷ ("X-User-Superuser", flag identity.is_superuser)
    ∷ ("X-User-Email-Verified", flag identity.email_verified)
    ∷ []

unfoldable pub strip_client_identity : Headers → Headers
strip_client_identity headers = collect (λ n. not (is_named identity_headers n)) [] headers

-- How the call of users-service ends: `httpx.HTTPError`, or a status with a profile.
pub data Answer : Type 0 where
  http_error : Answer
  answered : ℕ → Profile → Answer

-- What is asked with: the credentials of the request, and nothing else of it.
unfoldable pub credentials : Headers → Headers
credentials headers = collect (λ n. is_named ("authorization" ∷ "cookie" ∷ []) n) [] headers

abbrev accepted : ℕ → Profile → Option Identity
accepted status profile = if status == 200 then some (from_profile profile) else none

-- `IdentityResolver.resolve`, on the answer to the call that it makes.
unfoldable pub resolve : (Headers → Headers → Answer) → Headers → Headers → Option Identity
unfolding credentials
resolve get headers cookies = elim (get (credentials headers) cookies) [
  | http_error ↦ none
  | answered status profile ↦ accepted status profile
]
