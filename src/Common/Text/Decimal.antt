-- ===== src/Common/Text/Decimal.antt =====
-- The digits of `str` read back: `str` gives different numbers different texts.
use Prim.Native.Nat.{ℕ, zero, suc, ◌+◌, ◌*◌, ◌-◌, ◌/◌, ◌%◌, ◌<◌}
use Prim.Native.Char.{code}
use Prim.Native.String.{String, [], ◌∷◌, ◌++◌}
use Prim.Native.String.append.{nil as nil_append, cons as cons_append}
use mathlib.Core.Path.{◌≡◌, refl, ap, sym, ◌∙◌}
use mathlib.Core.Bool.{Bool, true, ◌&&◌, ◌||◌}
use video_site.Common.Tests.{leb}
use native.Mathlib.Omega.{arith}
use video_site.Common.Text.{truthy, digit, str_from, str}

-- The number that digits denote, after those already read.
unfoldable pub value : String → ℕ → ℕ
value [] n = n
value (c ∷ s) n = value s (n * 10 + (code c - b'0'))

value-append : (s t : String) (n : ℕ) → value (s ++ t) n ≡ value t (value s n)
unfolding value
value-append [] t n = ap (λ u. value u n) (λ i. nil_append t i)
value-append (c ∷ s) t n =
    ap (λ u. value u n) (λ i. cons_append c s t i) ∙ value-append s t (n * 10 + (code c - b'0'))

value-digit : (d n : ℕ) → d < 10 → value (digit d) n ≡ n * 10 + d
unfolding value digit
value-digit zero n h = refl
value-digit (suc zero) n h = refl
value-digit (suc (suc zero)) n h = refl
value-digit (suc (suc (suc zero))) n h = refl
value-digit (suc (suc (suc (suc zero)))) n h = refl
value-digit (suc (suc (suc (suc (suc zero))))) n h = refl
value-digit (suc (suc (suc (suc (suc (suc zero)))))) n h = refl
value-digit (suc (suc (suc (suc (suc (suc (suc zero))))))) n h = refl
value-digit (suc (suc (suc (suc (suc (suc (suc (suc zero)))))))) n h = refl
value-digit (suc (suc (suc (suc (suc (suc (suc (suc (suc zero))))))))) n h = refl
value-digit (suc (suc (suc (suc (suc (suc (suc (suc (suc (suc _)))))))))) n h = absurd (omega arith)

-- The rounds are enough whenever there are more of them than the number.
value-str_from : (fuel n : ℕ) → n < fuel → value (str_from fuel n) 0 ≡ n
unfolding str_from
value-str_from zero n h = absurd (omega arith)
value-str_from (suc fuel) n h = grind (
  arith,
  value-digit n 0,
  value-digit (n % 10) (n / 10),
  value-append (str_from fuel (n / 10)) (digit (n % 10)) 0,
  value-str_from fuel (n / 10),
)

pub value-str : (n : ℕ) → value (str n) 0 ≡ n
unfolding str
value-str n = value-str_from (suc n) n (omega arith)

pub str-injective : (m n : ℕ) → str m ≡ str n → m ≡ n
str-injective m n same = grind (arith, value-str m, value-str n)

abbrev tail : String → String
tail [] = []
tail (_ ∷ s) = s

-- A common beginning may be taken away.
pub append_cancel : (p s t : String) → p ++ s ≡ p ++ t → s ≡ t
append_cancel [] s t same = sym (λ i. nil_append s i) ∙ same ∙ (λ i. nil_append t i)
append_cancel (c ∷ p) s t same =
    append_cancel p s t
      (ap tail (sym (λ i. cons_append c p s i) ∙ same ∙ (λ i. cons_append c p t i)))

-- What ends an f-string.
pub append_nil : (s : String) → s ++ [] ≡ s
append_nil [] = λ i. nil_append [] i
append_nil (c ∷ s) = (λ i. cons_append c s [] i) ∙ ap (λ u. c ∷ u) (append_nil s)

unfoldable pub all_digits : String → Bool
all_digits [] = true
all_digits (c ∷ s) = leb b'0' (code c) && leb (code c) b'9' && all_digits s

all_digits-append : (s t : String) → all_digits (s ++ t) ≡ (all_digits s && all_digits t)
unfolding all_digits
all_digits-append [] t = ap all_digits (λ i. nil_append t i)
all_digits-append (c ∷ s) t =
    ap all_digits (λ i. cons_append c s t i) ∙ grind (arith, all_digits-append s t)

all_digits-digit : (d : ℕ) → all_digits (digit d) ≡ true
unfolding all_digits digit
all_digits-digit zero = refl
all_digits-digit (suc zero) = refl
all_digits-digit (suc (suc zero)) = refl
all_digits-digit (suc (suc (suc zero))) = refl
all_digits-digit (suc (suc (suc (suc zero)))) = refl
all_digits-digit (suc (suc (suc (suc (suc zero))))) = refl
all_digits-digit (suc (suc (suc (suc (suc (suc zero)))))) = refl
all_digits-digit (suc (suc (suc (suc (suc (suc (suc zero))))))) = refl
all_digits-digit (suc (suc (suc (suc (suc (suc (suc (suc zero)))))))) = refl
all_digits-digit (suc (suc (suc (suc (suc (suc (suc (suc (suc _))))))))) = refl

all_digits-str_from : (fuel n : ℕ) → all_digits (str_from fuel n) ≡ true
unfolding str_from all_digits
all_digits-str_from zero n = refl
all_digits-str_from (suc fuel) n = grind (
  arith,
  all_digits-digit n,
  all_digits-digit (n % 10),
  all_digits-append (str_from fuel (n / 10)) (digit (n % 10)),
  all_digits-str_from fuel (n / 10),
)

pub all_digits-str : (n : ℕ) → all_digits (str n) ≡ true
unfolding str
all_digits-str n = all_digits-str_from (suc n) n

truthy-append : (s t : String) → truthy (s ++ t) ≡ (truthy s || truthy t)
truthy-append [] t = ap truthy (λ i. nil_append t i)
truthy-append (c ∷ s) t = ap truthy (λ i. cons_append c s t i)

truthy-digit : (d : ℕ) → truthy (digit d) ≡ true
unfolding digit
truthy-digit zero = refl
truthy-digit (suc zero) = refl
truthy-digit (suc (suc zero)) = refl
truthy-digit (suc (suc (suc zero))) = refl
truthy-digit (suc (suc (suc (suc zero)))) = refl
truthy-digit (suc (suc (suc (suc (suc zero))))) = refl
truthy-digit (suc (suc (suc (suc (suc (suc zero)))))) = refl
truthy-digit (suc (suc (suc (suc (suc (suc (suc zero))))))) = refl
truthy-digit (suc (suc (suc (suc (suc (suc (suc (suc zero)))))))) = refl
truthy-digit (suc (suc (suc (suc (suc (suc (suc (suc (suc _))))))))) = refl

pub truthy-str : (n : ℕ) → truthy (str n) ≡ true
unfolding str str_from
truthy-str n = grind (
  arith,
  truthy-digit n,
  truthy-digit (n % 10),
  truthy-append (str_from n (n / 10)) (digit (n % 10)),
)
