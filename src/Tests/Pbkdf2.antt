-- ===== src/Tests/Pbkdf2.antt =====
-- An example of a stored password, with a derivation that can be seen through.
use Prim.Native.String.{[] as empty, ◌∷◌ as cons}
use Prim.Native.Char.{code}
use video_site.Common.{ℕ, ◌+◌, ◌%◌, String, some, [], ◌∷◌, ◌≡◌, refl, arith, str}
use video_site.Pbkdf2.{Bytes, hex, hex_char, hash, verify, same_bytes}
use video_site.Pbkdf2.Laws.{IsBytes, verify-hash}

-- The sum of the salt, the password and the number, as a byte.
abbrev total : Bytes → ℕ
total [] = 0
total (b ∷ bytes) = b + total bytes

abbrev codes : String → ℕ
codes empty = 0
codes (cons c s) = code c + codes s

abbrev derive : String → Bytes → ℕ → Bytes
derive p salt n = ((total salt + codes p + n) % 256) ∷ []

derives_bytes : (p : String) (salt : Bytes) (n : ℕ) → IsBytes (derive p salt n)
derives_bytes p salt n = (omega arith, tt)

stored : hash derive (7 ∷ 255 ∷ []) 1_000 "old" ≡ "pbkdf2_sha256$1000$07ff$2d"
unfolding hash hex hex_char str
stored = refl

verify-hash_example :
    verify derive "new" (hash derive (7 ∷ 255 ∷ []) 1_000 "old")
    ≡ some (same_bytes (derive "new" (7 ∷ 255 ∷ []) 1_000) (derive "old" (7 ∷ 255 ∷ []) 1_000))
verify-hash_example =
    verify-hash derive derives_bytes (7 ∷ 255 ∷ []) 999 "old" "new" (omega arith, (omega arith, tt))
