-- ===== src/Text/Order.antt =====
-- Go's order on texts, and the insertion sort of `ServerNames` in internal/config/config.go.
pub mod Sorted
use Prim.Native.Char.{Char, code}
use Prim.Native.String
use mathlib.Core.List.{reverse}
use mrdns.Prelude.{String, Bool, true, false, List, [], ◌∷◌, ltb, if◌then◌else◌}

-- `<` on texts: UTF-8 keeps the order of the code points.
unfoldable pub less : String → String → Bool
less String.[] String.[] = false
less String.[] (String.◌∷◌ d t) = true
less (String.◌∷◌ c s) String.[] = false
less (String.◌∷◌ c s) (String.◌∷◌ d t) =
    let rest = less s t in
    if ltb (code c) (code d) then true else if ltb (code d) (code c) then false else rest

-- the inner loop: the sorted part before `names[i]`, its last name at the head
unfoldable pub insert_back : String → List String → List String
insert_back x [] = x ∷ []
insert_back x (y ∷ ys) = let rest = insert_back x ys in if less x y then y ∷ rest else x ∷ y ∷ ys

-- the outer loop
unfoldable pub insert_all : List String → List String → List String
unfolding insert_back
insert_all [] sorted = sorted
insert_all (x ∷ xs) sorted = insert_all xs (insert_back x sorted)

unfoldable pub insertion_sort : List String → List String
unfolding insert_all
insertion_sort names = reverse (insert_all names [])
