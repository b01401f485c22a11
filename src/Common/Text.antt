-- ===== src/Common/Text.antt =====
-- Python's text operations that the program uses: `str` of a number, joining the parts of an
-- f-string, `strip`, truth of a text, and case folding of HTTP header names.
pub mod Decimal
use Prim.Native.Nat.{ℕ, zero, suc, ◌+◌, ◌/◌, ◌%◌}
use Prim.Native.Char.{code}
use Prim.Native.String.{String, [], ◌∷◌, ◌++◌}
use mathlib.Core.Bool.{Bool, true, false, not, ◌&&◌, ◌||◌}
use mathlib.Core.List.{List}
use mathlib.Core.Option.{Option, none, some}
use video_site.Common.Tests.{ltb, leb, ◌==◌, nat_eq, if◌then◌else◌}

-- The decimal digit of a number below ten.
digit : ℕ → String
digit zero = "0"
digit (suc zero) = "1"
digit (suc (suc zero)) = "2"
digit (suc (suc (suc zero))) = "3"
digit (suc (suc (suc (suc zero)))) = "4"
digit (suc (suc (suc (suc (suc zero))))) = "5"
digit (suc (suc (suc (suc (suc (suc zero)))))) = "6"
digit (suc (suc (suc (suc (suc (suc (suc zero))))))) = "7"
digit (suc (suc (suc (suc (suc (suc (suc (suc zero)))))))) = "8"
digit (suc (suc (suc (suc (suc (suc (suc (suc (suc _))))))))) = "9"

-- Each round drops a digit, so `suc n` rounds are enough for `n`.
str_from : ℕ → ℕ → String
str_from zero n = ""
str_from (suc fuel) n =
    let rest = str_from fuel (n / 10) in if ltb n 10 then digit n else rest ++ digit (n % 10)

-- `str(n)` of a non-negative int.
unfoldable pub str : ℕ → String
unfolding str_from digit
str n = str_from (suc n) n

-- The parts of an f-string, joined.
abbrev pub fstring : List String → String
fstring List.[] = ""
fstring (List.◌∷◌ s parts) = s ++ fstring parts

-- The truth of a text: it is not empty.
abbrev pub truthy : String → Bool
truthy [] = false
truthy (_ ∷ _) = true

-- The truth of an optional text: neither `None` nor empty.
abbrev pub truthy? : Option String → Bool
truthy? none = false
truthy? (some s) = truthy s

-- `a or b` on optional texts.
abbrev pub or_text : Option String → Option String → Option String
or_text a b = if truthy? a then a else b

-- The characters that `str.isspace` accepts.
is_space : ℕ → Bool
is_space c =
    (leb 9 c && leb c 13)
    || (leb 28 c && leb c 32)
    || c == 133
    || c == 160
    || c == 5760
    || (leb 8192 c && leb c 8202)
    || c == 8232
    || c == 8233
    || c == 8239
    || c == 8287
    || c == 12288

lstrip : String → String
lstrip [] = []
lstrip (c ∷ s) = if is_space (code c) then lstrip s else c ∷ s

rstrip : String → String
rstrip [] = []
rstrip (c ∷ s) =
    let rest = rstrip s in if not (truthy rest) && is_space (code c) then [] else c ∷ rest

-- `s.strip()`.
unfoldable pub strip : String → String
unfolding lstrip rstrip is_space
strip s = rstrip (lstrip s)

-- The text before the first comma: `s.split(",")[0]`.
unfoldable pub before_comma : String → String
before_comma [] = []
before_comma (c ∷ s) = if code c == b',' then [] else c ∷ before_comma s

-- Lower case of a Latin-1 character: header names reach the program decoded as Latin-1.
unfoldable pub lower_code : ℕ → ℕ
lower_code c =
    if (leb b'A' c && leb c b'Z') || (leb 192 c && leb c 222 && not (c == 215)) then c + 32 else c

-- `name.lower()` of a header name, as the code points of the result.
unfoldable pub lower_codes : String → List ℕ
unfolding lower_code
lower_codes [] = List.[]
lower_codes (c ∷ s) = List.◌∷◌ (lower_code (code c)) (lower_codes s)
