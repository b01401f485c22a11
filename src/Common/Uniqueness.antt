-- ===== src/Common/Uniqueness.antt =====
-- Columns in which no two rows of a table agree, and the writes that keep them so.
use Prim.Native.Nat.{ℕ}
use Prim.Native.String.{String}
use mathlib.Core.Path.{◌≡◌, refl}
use mathlib.Core.Logic.{inl, inr}
use mathlib.Core.Bool.{Bool, false, not, ◌&&◌}
use mathlib.Core.List.{List, [], ◌∷◌, ◌++◌}
use native.Mathlib.Omega.{arith}
use video_site.Common.Lists.{any, update_where}
use video_site.Common.Tests.{Eq, ◌==◌, nat_eq, text_eq, Bool-cases}

module _ {A K : Type 0} ⦃e : Eq K⦄ where
  abbrev pub Distinct : (A → K) → List A → Type 0
  Distinct f [] = Unit
  Distinct f (x ∷ xs) = (any (λ y. f y == f x) xs ≡ false) × Distinct f xs

  any-append :
      (f : A → K) (k : K) (xs : List A) (x : A)
      → any (λ y. f y == k) xs ≡ false
      → (f x == k) ≡ false
      → any (λ y. f y == k) (xs ++ x ∷ []) ≡ false
  any-append f k [] x none_of ne = ground arith
  any-append f k (y ∷ xs) x none_of ne = ground (arith, any-append f k xs x)

  -- A row is added that agrees with none.
  pub Distinct-append :
      (f : A → K) (xs : List A) (x : A)
      → any (λ y. f y == f x) xs ≡ false
      → Distinct f xs
      → Distinct f (xs ++ x ∷ [])
  Distinct-append f [] x new d = (refl, tt)
  Distinct-append f (y ∷ xs) x new d = (
    any-append f (f y) xs x d.0 (ground (arith, e.beq_iff (f x) (f y), e.beq_iff (f y) (f x))),
    Distinct-append f xs x (ground arith) d.1,
  )

  any-update_same :
      (f : A → K) (k : K) (p : A → Bool) (g : A → A)
      → ((x : A) → f (g x) ≡ f x)
      → (xs : List A) → any (λ y. f y == k) (update_where p g xs) ≡ any (λ y. f y == k) xs
  any-update_same f k p g same [] = refl
  any-update_same f k p g same (x ∷ xs) = ground (arith, same x, any-update_same f k p g same xs)

  -- A rewrite that leaves the column alone.
  pub Distinct-update_same :
      (f : A → K) (p : A → Bool) (g : A → A)
      → ((x : A) → f (g x) ≡ f x)
      → (xs : List A) → Distinct f xs
      → Distinct f (update_where p g xs)
  Distinct-update_same f p g same [] d = tt
  Distinct-update_same f p g same (x ∷ xs) d = (
    elim (Bool-cases (p x)) [
      | inl hit ↦ ground (arith, same x, any-update_same f (f x) p g same xs)
      | inr miss ↦ ground (arith, any-update_same f (f x) p g same xs)
    ],
    Distinct-update_same f p g same xs d.1,
  )

  module _ (id : A → ℕ) (f : A → K) (n : ℕ) (k : K) (g : A → A) (sets : (x : A) → f (g x) ≡ k) where
    update_absent :
        (xs : List A) → any (λ y. id y == n) xs ≡ false → update_where (λ y. id y == n) g xs ≡ xs
    update_absent [] absent = refl
    update_absent (x ∷ xs) absent = ground (arith, update_absent xs)

    any_others :
        (xs : List A)
        → any (λ y. not (id y == n) && f y == k) xs ≡ false
        → any (λ y. id y == n) xs ≡ false
        → any (λ y. f y == k) xs ≡ false
    any_others [] free absent = refl
    any_others (x ∷ xs) free absent = ground (arith, any_others xs)

    any_rewritten :
        (c : K) (xs : List A)
        → any (λ y. f y == c) xs ≡ false
        → (k == c) ≡ false
        → any (λ y. f y == c) (update_where (λ y. id y == n) g xs) ≡ false
    any_rewritten c [] none_of ne = refl
    any_rewritten c (x ∷ xs) none_of ne = ground (arith, sets x, any_rewritten c xs)

-- The row of one id takes a value that no other row has.
pub Distinct-rewrite :
    {A : Type 0} (id : A → ℕ) (f : A → String) (n : ℕ) (k : String) (g : A → A)
    → ((x : A) → f (g x) ≡ k)
    → (xs : List A) → any (λ y. not (id y == n) && f y == k) xs ≡ false
    → Distinct id xs
    → Distinct f xs
    → Distinct f (update_where (λ y. id y == n) g xs)
Distinct-rewrite id f n k g sets [] free ids d = tt
Distinct-rewrite id f n k g sets (x ∷ xs) free ids d = elim (Bool-cases (id x == n)) [
  | inl here ↦
      let absent : any (λ y. id y == n) xs ≡ false = ground (arith, nat_eq.beq_iff (id x) n) in
      let kept = update_absent id f n k g sets xs absent in
      (ground (arith, sets x, kept, any_others id f n k g sets xs), ground (arith, kept))
  | inr other ↦ (
    ground (
      arith,
      text_eq.beq_iff k (f x),
      text_eq.beq_iff (f x) k,
      any_rewritten id f n k g sets (f x) xs,
    ),
    Distinct-rewrite id f n k g sets xs (ground arith) ids.1 d.1,
  )
]
