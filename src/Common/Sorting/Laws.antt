-- ===== src/Common/Sorting/Laws.antt =====
-- `sorted_set` is strictly ascending and keeps exactly the texts that it was given.
use Prim.Native.String.{String, [], ◌∷◌}
use mathlib.Core.Path.{◌≡◌, refl}
use mathlib.Core.Bool.{Bool, true, false, ◌&&◌, ◌||◌}
use mathlib.Core.List.{List}
use text.Mathlib.TextEquality.{Char-path}
use native.Mathlib.Omega.{arith}
use video_site.Common.Tests.{◌==◌, text_eq}
use video_site.Common.Lists.{any}
use video_site.Common.Sorting.{text_ltb, insert, sorted_set}

-- Each text is before the next.
abbrev pub follows : String → List String → Bool
follows s List.[] = true
follows s (List.◌∷◌ t ts) = text_ltb s t

abbrev pub is_ascending : List String → Bool
is_ascending List.[] = true
is_ascending (List.◌∷◌ s ts) = let rest = is_ascending ts in follows s ts && rest

any-insert :
    (k s : String) (ts : List String)
    → any (λ t. t == k) (insert s ts) ≡ ((s == k) || any (λ t. t == k) ts)
unfolding insert
any-insert k s List.[] = refl
any-insert k s (List.◌∷◌ t ts) = ground (arith, text_eq.beq_iff s t, any-insert k s ts)

pub any-sorted_set :
    (k : String) (ts : List String) → any (λ t. t == k) (sorted_set ts) ≡ any (λ t. t == k) ts
unfolding sorted_set
any-sorted_set k List.[] = refl
any-sorted_set k (List.◌∷◌ t ts) =
    grind (arith, any-insert k t (sorted_set ts), any-sorted_set k ts)

-- Of two texts one is before the other, or they are the same.
text_ltb_total : (s t : String) → text_ltb s t ≡ false → text_ltb t s ≡ false → s ≡ t
unfolding text_ltb
text_ltb_total [] [] le ge = refl
text_ltb_total [] (d ∷ t) le ge = absurd (grind arith)
text_ltb_total (c ∷ s) [] le ge = absurd (grind arith)
text_ltb_total (c ∷ s) (d ∷ t) le ge = ground (arith, Char-path c d, text_ltb_total s t)

follows-insert :
    (a s : String) (ts : List String)
    → text_ltb a s ≡ true
    → follows a ts ≡ true
    → follows a (insert s ts) ≡ true
unfolding insert
follows-insert a s List.[] less before = less
follows-insert a s (List.◌∷◌ t ts) less before = ground arith

is_ascending-insert :
    (s : String) (ts : List String) → is_ascending ts ≡ true → is_ascending (insert s ts) ≡ true
unfolding insert
is_ascending-insert s List.[] sorted = refl
is_ascending-insert s (List.◌∷◌ t ts) sorted = ground (
  arith,
  text_eq.beq_iff s t,
  text_ltb_total s t,
  follows-insert t s ts,
  is_ascending-insert s ts,
)

pub is_ascending-sorted_set : (ts : List String) → is_ascending (sorted_set ts) ≡ true
unfolding sorted_set
is_ascending-sorted_set List.[] = refl
is_ascending-sorted_set (List.◌∷◌ t ts) =
    is_ascending-insert t (sorted_set ts) (is_ascending-sorted_set ts)
