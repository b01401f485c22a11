-- ===== src/Common/Sorting.antt =====
-- `sorted` of a set of texts: ascending by code points, each text once.
pub mod Laws
use Prim.Native.String.{String, [], ◌∷◌}
use Prim.Native.Char.{code}
use mathlib.Core.Bool.{Bool, true, false, ◌&&◌, ◌||◌}
use mathlib.Core.List.{List}
use video_site.Common.Tests.{ltb, ◌==◌, nat_eq, text_eq, if◌then◌else◌}

-- `a < b` on two texts.
unfoldable pub text_ltb : String → String → Bool
text_ltb s [] = false
text_ltb [] (d ∷ t) = true
text_ltb (c ∷ s) (d ∷ t) = ltb (code c) (code d) || (code c == code d && text_ltb s t)

-- A text takes its place, unless it is there.
unfoldable pub insert : String → List String → List String
unfolding text_ltb
insert s List.[] = List.◌∷◌ s List.[]
insert s (List.◌∷◌ t ts) =
    let rest = insert s ts in
    if s == t
    then List.◌∷◌ t ts
    else if text_ltb s t
    then List.◌∷◌ s (List.◌∷◌ t ts)
    else List.◌∷◌ t rest

-- `sorted(set(texts))`.
unfoldable pub sorted_set : List String → List String
unfolding insert
sorted_set List.[] = List.[]
sorted_set (List.◌∷◌ s rest) = insert s (sorted_set rest)
