-- ===== src/Gateway/Headers.antt =====
-- Header names and dictionaries of headers, as gateway/identity.py and gateway/proxy.py use them.
pub mod Laws
use Prim.Native.String.{[] as empty, ◌∷◌ as cons}
use video_site.Common.{
  ℕ, String, Bool, true, false, not, Option, none, some, List, [], ◌∷◌, ◌&&◌, ◌==◌, nat_eq, text_eq,
  any, if◌then◌else◌, lower_codes,
}

-- A `dict[str, str]` in the order of its insertions, or the items of a request's headers.
abbrev pub Headers : Type 0
Headers = List (String × String)

abbrev pub same_codes : List ℕ → List ℕ → Bool
same_codes [] [] = true
same_codes [] (_ ∷ _) = false
same_codes (_ ∷ _) [] = false
same_codes (a ∷ xs) (b ∷ ys) = a == b && same_codes xs ys

-- `name.lower() in names`, where the names are in lower case.
unfoldable pub is_named : List String → String → Bool
is_named names name = any (λ n. same_codes (lower_codes name) (lower_codes n)) names

-- `headers[name] = value` on a dict.
unfoldable pub set_header : Headers → String → String → Headers
set_header [] name value = (name, value) ∷ []
set_header ((n, v) ∷ rest) name value =
    if n == name then (name, value) ∷ rest else (n, v) ∷ set_header rest name value

-- `headers.update(others)`.
unfoldable pub update : Headers → Headers → Headers
update headers [] = headers
update headers ((n, v) ∷ others) = update (set_header headers n v) others

-- `headers.get(name)`: on a dict the value of the key, on a request's headers the first of that
-- name, which the server has put in lower case.
unfoldable pub get : Headers → String → Option String
get [] name = none
get ((n, v) ∷ rest) name = if n == name then some v else get rest name

-- `{name: value for name, value in headers.items() if keeps(name)}`: of several headers of one name
-- the last value stays, at the first's place.
unfoldable pub collect : (String → Bool) → Headers → Headers → Headers
collect keeps dict [] = dict
collect keeps dict ((n, v) ∷ items) =
    collect keeps (if keeps n then set_header dict n v else dict) items

unfoldable pub set_default : Headers → String → String → Headers
set_default headers name value = elim (get headers name) [
  | some _ ↦ headers
  | none ↦ set_header headers name value
]
