-- ===== src/Gateway/Routes/Laws.antt =====
-- The route that answers a path.
use video_site.Common.{
  ℕ, ◌≤◌, String, ◌≡◌, refl, inl, inr, Bool, true, false, none, some, List, [], ◌∷◌, ◌&&◌, ◌||◌,
  any, ltb, leb, arith, Bool-cases,
}
use video_site.Gateway.Routes.{Route, len, owns, insert, sorted, match_route}

any-insert :
    (p : Route → Bool) (r : Route) (xs : List Route) → any p (insert r xs) ≡ (p r || any p xs)
unfolding insert
any-insert p r [] = refl
any-insert p r (x ∷ xs) = ground (arith, any-insert p r xs)

any-sorted : (p : Route → Bool) (xs : List Route) → any p (sorted xs) ≡ any p xs
unfolding sorted
any-sorted p [] = refl
any-sorted p (x ∷ xs) = ground (arith, any-insert p x (sorted xs), any-sorted p xs)

-- The longest prefixes come first.
abbrev Descending : List Route → Type 0
Descending [] = Unit
Descending (r ∷ rs) = (any (λ s. ltb (len r.prefix) (len s.prefix)) rs ≡ false) × Descending rs

any-longer :
    (m n : ℕ) (xs : List Route)
    → m ≤ n
    → any (λ s. ltb m (len s.prefix)) xs ≡ false
    → any (λ s. ltb n (len s.prefix)) xs ≡ false
any-longer m n [] le h = refl
any-longer m n (x ∷ xs) le h = ground (arith, any-longer m n xs)

insert-Descending : (r : Route) (xs : List Route) → Descending xs → Descending (insert r xs)
unfolding insert
insert-Descending r [] h = (refl, tt)
insert-Descending r (x ∷ xs) h = elim (Bool-cases (leb (len x.prefix) (len r.prefix))) [
  | inl longer ↦ ground (arith, any-longer (len x.prefix) (len r.prefix) xs, h)
  | inr shorter ↦
      ground (
        arith,
        any-insert (λ s. ltb (len x.prefix) (len s.prefix)) r xs,
        insert-Descending r xs h.1,
      )
]

sorted-Descending : (xs : List Route) → Descending (sorted xs)
unfolding sorted
sorted-Descending [] = tt
sorted-Descending (x ∷ xs) = insert-Descending x (sorted xs) (sorted-Descending xs)

any_owned :
    (path : String) (n : ℕ) (xs : List Route)
    → any (λ s. ltb n (len s.prefix)) xs ≡ false
    → any (λ q. owns q path && ltb n (len q.prefix)) xs ≡ false
any_owned path n [] h = refl
any_owned path n (x ∷ xs) h = ground (arith, any_owned path n xs)

-- What `match_route` finds in such a table.
match-Descending :
    (path : String) (r : Route) (xs : List Route)
    → Descending xs
    → match_route xs path ≡ some r
    → (owns r path ≡ true)
      × (any (λ q. owns q path && ltb (len r.prefix) (len q.prefix)) xs ≡ false)
unfolding match_route
match-Descending path r [] h found = absurd (ground arith)
match-Descending path r (x ∷ xs) h found = elim (Bool-cases (owns x path)) [
  | inl hit ↦ ground (arith, any_owned path (len x.prefix) xs)
  | inr miss ↦ ground (arith, match-Descending path r xs h.1)
]

match_none :
    (path : String) (xs : List Route)
    → match_route xs path ≡ none
    → any (λ q. owns q path) xs ≡ false
unfolding match_route
match_none path [] h = refl
match_none path (x ∷ xs) h = ground (arith, match_none path xs)

-- The route of a path is one that owns it, and no route of the table with a longer prefix does, in
-- whatever order the table was written.
pub match-sorted :
    (routes : List Route) (path : String) (r : Route)
    → match_route (sorted routes) path ≡ some r
    → (owns r path ≡ true)
      × (any (λ q. owns q path && ltb (len r.prefix) (len q.prefix)) routes ≡ false)
match-sorted routes path r found =
    let (own, longest) = match-Descending path r (sorted routes) (sorted-Descending routes) found in
    ground (
      arith,
      own,
      longest,
      any-sorted (λ q. owns q path && ltb (len r.prefix) (len q.prefix)) routes,
    )
