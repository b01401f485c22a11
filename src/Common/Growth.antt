-- ===== src/Common/Growth.antt =====
-- Tables that only grow, and whose rows change only in a given way: each row of the first stands
-- at the same place of the second, related to what it was.
use mathlib.Core.Path.{◌≡◌}
use mathlib.Core.Bool.{Bool, true, false}
use mathlib.Core.List.{List, [], ◌∷◌, ◌++◌}
use video_site.Common.Lists.{update_where}
use video_site.Common.Tests.{if◌then◌else◌}

module _ {ℓ} {A : Type ℓ} where
  abbrev pub Grown : (A → A → Type 0) → List A → List A → Type 0
  Grown R [] ys = Unit
  Grown R (x ∷ xs) [] = ⊥
  Grown R (x ∷ xs) (y ∷ ys) = R x y × Grown R xs ys

  pub Grown-refl : (R : A → A → Type 0) → ((x : A) → R x x) → (xs : List A) → Grown R xs xs
  Grown-refl R rx [] = tt
  Grown-refl R rx (x ∷ xs) = (rx x, Grown-refl R rx xs)

  pub Grown-append :
      (R : A → A → Type 0) (xs ys zs : List A) → Grown R xs ys → Grown R xs (ys ++ zs)
  Grown-append R [] ys zs g = tt
  Grown-append R (x ∷ xs) [] zs g = absurd g
  Grown-append R (x ∷ xs) (y ∷ ys) zs g = (g.0, Grown-append R xs ys zs g.1)

  if-related :
      (R : A → A → Type 0) (p : A → Bool) (f : A → A)
      → ((x y : A) → p y ≡ true → R x y → R x (f y))
      → (x y : A) (b : Bool) → p y ≡ b
      → R x y
      → R x (if b then f y else y)
  if-related R p f step x y true e r = step x y e r
  if-related R p f step x y false e r = r

  -- An update of the rows that pass relates each row to what it was, if it does so where it applies.
  pub Grown-update_where :
      (R : A → A → Type 0) (p : A → Bool) (f : A → A)
      → ((x y : A) → p y ≡ true → R x y → R x (f y))
      → (xs ys : List A) → Grown R xs ys
      → Grown R xs (update_where p f ys)
  Grown-update_where R p f step [] ys g = tt
  Grown-update_where R p f step (x ∷ xs) [] g = absurd g
  Grown-update_where R p f step (x ∷ xs) (y ∷ ys) g =
      (if-related R p f step x y (p y) (λ _. p y) g.0, Grown-update_where R p f step xs ys g.1)
