-- ===== src/Pbkdf2/Laws.antt =====
-- A password is verified against its stored hash, and against nothing else.
use Prim.Native.String.{[] as empty, ◌∷◌ as cons, ◌++◌ as join}
use Prim.Native.String.append.{nil as nil_append, cons as cons_append}
use Prim.Native.Char.{code}
use video_site.Common.{
  ℕ, zero, suc, ◌/◌, ◌%◌, ◌<◌, String, Bool, true, false, some, [], ◌∷◌, ◌≡◌, refl, ap, ◌∙◌, Option,
  Bool-cases, inl, inr, none, ◌&&◌, ◌||◌, ◌==◌, nat_eq, text_eq, All, arith, str, all_digits,
  value-str, all_digits-str, truthy-str, append_nil,
}
use video_site.Pbkdf2.{
  Bytes, hex_char, hex, digit_value, fromhex, int, split, same_bytes, algorithm_name, hash, checked,
  verify,
}

abbrev has_dollar : String → Bool
has_dollar empty = false
has_dollar (cons c s) = code c == b'$' || has_dollar s

split_whole : (s : String) → has_dollar s ≡ false → split s ≡ s ∷ []
unfolding split
split_whole empty none_of = refl
split_whole (cons c s) none_of = grind (arith, split_whole s)

split_part : (s t : String) → has_dollar s ≡ false → split (join s (join "$" t)) ≡ s ∷ split t
unfolding split
split_part empty t none_of = ap split (
    (λ i. nil_append (join "$" t) i)
    ∙ (λ i. cons_append "$" empty t i)
    ∙ ap (cons "$") (λ i. nil_append t i))
split_part (cons c s) t none_of =
    ap split (λ i. cons_append c s (join "$" t) i) ∙ grind (arith, split_part s t)

digit_no_dollar : (s : String) → all_digits s ≡ true → has_dollar s ≡ false
unfolding all_digits
digit_no_dollar empty digits = refl
digit_no_dollar (cons c s) digits = grind (arith, digit_no_dollar s)

-- Bytes are numbers below 256.
abbrev pub IsBytes : Bytes → Type 0
IsBytes bytes = All (λ b. b < 256) bytes

-- The digits are tested one after the other.
abbrev reads_back : Option ℕ → ℕ → Bool
reads_back none n = false
reads_back (some m) n = m == n

abbrev tested : ℕ → Bool
tested zero = true
tested (suc k) = reads_back (digit_value (code (hex_char k))) k && tested k

all_tested : tested 16 ≡ true
unfolding hex_char
all_tested = refl

tested_below :
    (k n : ℕ) → n < k → tested k ≡ true → reads_back (digit_value (code (hex_char n))) n ≡ true
tested_below zero n small holds = absurd (omega arith)
tested_below (suc k) n small holds = elim (Bool-cases (k == n)) [
  | inl same ↦ grind arith
  | inr other ↦ grind (arith, tested_below k n)
]

reads_back-some : (d : Option ℕ) (n : ℕ) → reads_back d n ≡ true → d ≡ some n
reads_back-some none n holds = absurd (grind arith)
reads_back-some (some m) n holds = grind arith

digit_value-hex_char : (n : ℕ) → n < 16 → digit_value (code (hex_char n)) ≡ some n
digit_value-hex_char n small =
    reads_back-some (digit_value (code (hex_char n))) n (tested_below 16 n small all_tested)

digit_value_no_dollar : (c n : ℕ) → digit_value c ≡ some n → (c == b'$') ≡ false
digit_value_no_dollar c n is = elim (Bool-cases (c == b'$')) [
  | inl dollar ↦ absurd (grind arith)
  | inr other ↦ other
]

hex_no_dollar : (bytes : Bytes) → IsBytes bytes → has_dollar (hex bytes) ≡ false
unfolding hex
hex_no_dollar [] small = refl
hex_no_dollar (b ∷ bytes) small = grind (
  arith,
  digit_value_no_dollar (code (hex_char (b / 16))) (b / 16)
      (digit_value-hex_char (b / 16) (omega (arith, small.0))),
  digit_value_no_dollar (code (hex_char (b % 16))) (b % 16)
      (digit_value-hex_char (b % 16) (omega arith)),
  hex_no_dollar bytes small.1,
)

fromhex-hex : (bytes : Bytes) → IsBytes bytes → fromhex (hex bytes) ≡ some bytes
unfolding fromhex hex
fromhex-hex [] small = refl
fromhex-hex (b ∷ bytes) small = grind (
  arith,
  digit_value-hex_char (b / 16) (omega (arith, small.0)),
  digit_value-hex_char (b % 16) (omega arith),
  fromhex-hex bytes small.1,
)

int-str : (n : ℕ) → int (str n) ≡ some n
unfolding int
int-str n = grind (arith, truthy-str n, all_digits-str n, value-str n)

module _ (derive : String → Bytes → ℕ → Bytes)
    (derives_bytes : (p : String) (salt : Bytes) (n : ℕ) → IsBytes (derive p salt n)) where
  split-hash :
      (salt : Bytes) (iterations : ℕ) (p : String)
      → IsBytes salt
      → split (hash derive salt iterations p)
        ≡ algorithm_name ∷ str iterations ∷ hex salt ∷ hex (derive p salt iterations) ∷ []
  unfolding hash
  split-hash salt iterations p salt_bytes =
      let digest = hex (derive p salt iterations) in
      split_part algorithm_name _ refl
      ∙ ap (λ parts. algorithm_name ∷ parts)
          (split_part (str iterations) _
            (digit_no_dollar (str iterations) (all_digits-str iterations)))
      ∙ ap (λ parts. algorithm_name ∷ str iterations ∷ parts)
          (split_part (hex salt) _ (hex_no_dollar salt salt_bytes))
      ∙ ap (λ parts. algorithm_name ∷ str iterations ∷ hex salt ∷ parts)
          (ap split (append_nil digest)
            ∙ split_whole digest
                (hex_no_dollar (derive p salt iterations) (derives_bytes p salt iterations)))

  -- Against the stored hash of a password, another is accepted exactly if both derive the same
  -- bytes under the stored salt and number of iterations, of which there is one or more; the test
  -- does not raise, where the salt is bytes and so is what the derivation gives.
  pub verify-hash :
      (salt : Bytes) (iterations : ℕ) (p q : String)
      → IsBytes salt
      → verify derive q (hash derive salt (suc iterations) p)
        ≡ some (same_bytes (derive q salt (suc iterations)) (derive p salt (suc iterations)))
  unfolding verify
  verify-hash salt iterations p q salt_bytes =
      ap (checked derive q) (split-hash salt (suc iterations) p salt_bytes)
      ∙ grind (
        arith,
        text_eq.beq_iff algorithm_name algorithm_name,
        fromhex-hex salt salt_bytes,
        fromhex-hex (derive p salt (suc iterations)) (derives_bytes p salt (suc iterations)),
        int-str (suc iterations),
      )
