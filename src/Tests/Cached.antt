-- ===== src/Tests/Cached.antt =====
-- Examples of the cached accounts and of the codes of permissions.
use Prim.Native.String.{[] as empty, ◌∷◌ as char_then}
use Prim.Native.Char.{Char, code as code_point}
use video_site.Common.{
  ℕ, zero, suc, String, Bool, true, false, ◌≡◌, refl, ap, Option, none, some, [], ◌∷◌, ◌==◌, nat_eq,
  text_eq, any, fstring, arith, sorted_set, insert, text_ltb, if◌then◌else◌,
}
use video_site.Common.Sorting.Laws.{is_ascending}
use video_site.Entities.Datetime.{Datetime, utc}
use video_site.Entities.User.{Permission, User, code, has_permission, permission_codes}
use video_site.Entities.Codes.{permission_codes_complete}
use video_site.UserCache.{Texts, to_dict, iso, dumps, loads}
use video_site.UserCache.Laws.{loads-dumps}
use video_site.Tests.{user_of}

-- A moment as a text: a letter for the time zone, and one for each microsecond.
abbrev strokes : ℕ → String
strokes zero = ""
strokes (suc n) = char_then "i" (strokes n)

abbrev count : String → ℕ
count empty = zero
count (char_then _ s) = suc (count s)

abbrev zone : Bool → Char
zone true = "Z"
zone false = "N"

zone_back : (aware : Bool) → (code_point (zone aware) == b'Z') ≡ aware
zone_back true = refl
zone_back false = refl

abbrev iso_text : Datetime → String
iso_text d = char_then (zone d.has_tz) (strokes d.micros)

abbrev of_iso_text : String → Option Datetime
of_iso_text empty = none
of_iso_text (char_then c s) = some (record { micros = count s; has_tz = code_point c == b'Z' })

count-strokes : (n : ℕ) → count (strokes n) ≡ n
count-strokes zero = refl
count-strokes (suc n) = ap suc (count-strokes n)

iso_back : (d : Datetime) → of_iso_text (iso_text d) ≡ some d
iso_back d = grind (arith, zone_back d.has_tz, count-strokes d.micros)

-- An account with a role, and texts in which `json` writes and reads just this account.
abbrev moderate : Permission
moderate = record { id = 1; resource = "content"; action = "moderate"; description = none }

abbrev ban : Permission
ban = record { id = 2; resource = "users"; action = "ban"; description = some "Ban" }

abbrev moderator : User
moderator = record (user_of 1 "ann@x" "ann") {
  email_verified_at = some (utc 3);
  roles =
      record { id = 5; name = "moderator"; description = none; permissions = ban ∷ moderate ∷ [] }
      ∷ record { id = 6; name = "extra"; description = none; permissions = ban ∷ [] }
      ∷ [];
}

abbrev writer : Texts
writer = record {
  json_dumps = λ dict. "dumped";
  json_loads = λ s. none;
  isoformat = iso_text;
  fromisoformat = of_iso_text;
}

abbrev texts : Texts
texts = record writer {
  json_loads = λ s. if s == "dumped" then some (to_dict writer moderator) else none;
}

reads_back :
    texts.json_loads (texts.json_dumps (to_dict texts moderator)) ≡ some (to_dict texts moderator)
unfolding to_dict iso
reads_back = refl

loads-dumps_example : loads texts (dumps texts moderator) ≡ some moderator
loads-dumps_example = loads-dumps texts iso_back moderator reads_back

permission_codes_runs : permission_codes moderator ≡ "content.moderate" ∷ "users.ban" ∷ []
unfolding permission_codes code sorted_set insert text_ltb
permission_codes_runs = refl

permission_codes_complete_example :
    (is_ascending (permission_codes moderator) ≡ true)
    × ((k : String)
        → any (λ t. t == k) (permission_codes moderator)
          ≡ any (λ role. any (λ perm. code perm == k) role.permissions) moderator.roles)
    × ((resource action : String)
        → false ≡ false
        → has_permission moderator resource action ≡ true
        → any (λ t. t == fstring (resource ∷ "." ∷ action ∷ [])) (permission_codes moderator)
          ≡ true)
permission_codes_complete_example = permission_codes_complete moderator
