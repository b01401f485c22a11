-- ===== src/Pbkdf2.antt =====
-- adapter/security/password_hasher.py: the stored format of a password.
--
-- `hashlib.pbkdf2_hmac` is a parameter, which takes one iteration or more and raises a `ValueError`
-- on none; bytes are numbers below 256. Of the texts that `int`
-- and `bytes.fromhex` read, those without blanks, signs and underscores are modelled: `hash` writes
-- no others.
pub mod Laws
use Prim.Native.String.{[] as empty, ◌∷◌ as cons}
use Prim.Native.Char.{Char, code}
use video_site.Common.{
  ℕ, zero, suc, ◌+◌, ◌-◌, ◌*◌, ◌/◌, ◌%◌, String, Bool, true, false, not, Option, none, some, List,
  [], ◌∷◌, ◌&&◌, ◌==◌, nat_eq, text_eq, leb, fstring, str, truthy, if◌then◌else◌, value, all_digits,
}

abbrev pub Bytes : Type 0
Bytes = List ℕ

-- The hexadecimal digit of a number below 16.
unfoldable pub hex_char : ℕ → Char
hex_char zero = "0"
hex_char (suc zero) = "1"
hex_char (suc (suc zero)) = "2"
hex_char (suc (suc (suc zero))) = "3"
hex_char (suc (suc (suc (suc zero)))) = "4"
hex_char (suc (suc (suc (suc (suc zero))))) = "5"
hex_char (suc (suc (suc (suc (suc (suc zero)))))) = "6"
hex_char (suc (suc (suc (suc (suc (suc (suc zero))))))) = "7"
hex_char (suc (suc (suc (suc (suc (suc (suc (suc zero)))))))) = "8"
hex_char (suc (suc (suc (suc (suc (suc (suc (suc (suc zero))))))))) = "9"
hex_char (suc (suc (suc (suc (suc (suc (suc (suc (suc (suc zero)))))))))) = "a"
hex_char (suc (suc (suc (suc (suc (suc (suc (suc (suc (suc (suc zero))))))))))) = "b"
hex_char (suc (suc (suc (suc (suc (suc (suc (suc (suc (suc (suc (suc zero)))))))))))) = "c"
hex_char (suc (suc (suc (suc (suc (suc (suc (suc (suc (suc (suc (suc (suc zero))))))))))))) = "d"
hex_char (suc (suc (suc (suc (suc (suc (suc (suc (suc (suc (suc (suc (suc (suc zero)))))))))))))) =
    "e"
hex_char
      (suc (suc (suc (suc (suc (suc (suc (suc (suc (suc (suc (suc (suc (suc (suc _))))))))))))))) =
    "f"

-- `bytes.hex`.
unfoldable pub hex : Bytes → String
unfolding hex_char
hex [] = ""
hex (b ∷ bytes) = cons (hex_char (b / 16)) (cons (hex_char (b % 16)) (hex bytes))

abbrev pub digit_value : ℕ → Option ℕ
digit_value c =
    if leb b'0' c && leb c b'9'
    then some (c - b'0')
    else if leb b'a' c && leb c b'f'
    then some (c - b'a' + 10)
    else if leb b'A' c && leb c b'F'
    then some (c - b'A' + 10)
    else none

abbrev byte_then : Option ℕ → Option ℕ → Option Bytes → Option Bytes
byte_then (some high) (some low) (some bytes) = some ((high * 16 + low) ∷ bytes)
byte_then _ _ _ = none

-- `bytes.fromhex`; none stands for a `ValueError`.
unfoldable pub fromhex : String → Option Bytes
fromhex empty = some []
fromhex (cons c empty) = none
fromhex (cons c (cons d s)) = byte_then (digit_value (code c)) (digit_value (code d)) (fromhex s)

-- `int` of a text.
unfoldable pub int : String → Option ℕ
int s = if truthy s && all_digits s then some (value s 0) else none

abbrev push : Char → List String → List String
push c [] = cons c empty ∷ []
push c (s ∷ parts) = cons c s ∷ parts

-- `s.split("$")`.
unfoldable pub split : String → List String
split empty = empty ∷ []
split (cons c s) = let parts = split s in if code c == b'$' then empty ∷ parts else push c parts

-- `compare_digest` on bytes.
abbrev pub same_bytes : Bytes → Bytes → Bool
same_bytes [] [] = true
same_bytes (a ∷ xs) (b ∷ ys) = a == b && same_bytes xs ys
same_bytes _ _ = false

abbrev pub algorithm_name : String
algorithm_name = "pbkdf2_sha256"

-- `pbkdf2_hmac` on a password, a salt and a number of iterations.
module _ (derive : String → Bytes → ℕ → Bytes) where
  -- `hash`, with the salt of `os.urandom` and one iteration or more.
  unfoldable pub hash : Bytes → ℕ → String → String
  hash salt iterations plain_password = fstring (
      algorithm_name
      ∷ "$"
      ∷ str iterations
      ∷ "$"
      ∷ hex salt
      ∷ "$"
      ∷ hex (derive plain_password salt iterations)
      ∷ [])

  abbrev compared : String → Option Bytes → Option Bytes → Option ℕ → Option Bool
  compared plain_password (some salt) (some expected) (some (suc n)) =
      some (same_bytes (derive plain_password salt (suc n)) expected)
  compared plain_password _ _ _ = none

  abbrev pub checked : String → List String → Option Bool
  checked plain_password (algorithm ∷ iterations ∷ salt_hex ∷ digest_hex ∷ []) =
      if not (algorithm == algorithm_name)
      then some false
      else compared plain_password (fromhex salt_hex) (fromhex digest_hex) (int iterations)
  checked plain_password _ = some false

  -- `verify`; none stands for the `ValueError` of a text that was not written by `hash`.
  unfoldable pub verify : String → String → Option Bool
  verify plain_password password_hash = checked plain_password (split password_hash)
