-- ===== src/Text/Paths.antt =====
-- `Base`, `Clean` and `Join` of Go's `path`, and `strings.ReplaceAll`, over code points.
use mathlib.Core.List.{reverse}
use Prim.Native.Nat.{pred}
use Prim.Native.String.{◌++◌, count}
use text.Mathlib.Text.{starts_with}
use mrdns.Prelude.{
  ℕ, zero, suc, String, Bool, not, ◌||◌, none, some, List, [], ◌∷◌, ◌==◌, if◌then◌else◌, select,
  head?,
}
use mrdns.Text.{split_on, join}

-- The components that `Clean` keeps, the last at the head; `rooted` drops a leading "..".
step : Bool → List String → String → List String
step rooted stack part =
    if part == "" || part == "."
    then stack
    else if part == ".."
    then elim stack [
      | [] ↦ if rooted then [] else ".." ∷ []
      | top ∷ rest ↦ if top == ".." then ".." ∷ top ∷ rest else rest
    ]
    else part ∷ stack

steps : Bool → List String → List String → List String
unfolding step
steps rooted stack [] = reverse stack
steps rooted stack (part ∷ parts) = steps rooted (step rooted stack part) parts

rooted_path : String → Bool
rooted_path p = starts_with p "/"

-- path.Clean
unfoldable pub clean : String → String
unfolding steps rooted_path
clean p =
    let out = join "/" (steps (rooted_path p) [] (split_on b'/' p)) in
    if rooted_path p then "/" ++ out else if out == "" then "." else out

-- path.Join
unfoldable pub join_paths : String → String → String
unfolding clean
join_paths a b = elim (select (λ s. not (s == "")) (a ∷ b ∷ [])) [
  | [] ↦ ""
  | s ∷ ss ↦ clean (join "/" (s ∷ ss))
]

-- path.Base: the last component that is not empty
unfoldable pub base : String → String
base p =
    if p == ""
    then "."
    else elim (head? (reverse (select (λ s. not (s == "")) (split_on b'/' p)))) [
      | none ↦ "/"
      | some s ↦ s
    ]

-- the scan of `ReplaceAll`: `skip` code points of a match are still to be passed over
replace_from : String → String → ℕ → String → String
replace_from old new skip String.[] = ""
replace_from old new (suc skip) (String.◌∷◌ c s) = replace_from old new skip s
replace_from old new zero (String.◌∷◌ c s) =
    let after = replace_from old new (pred (count old)) s in
    let next = replace_from old new zero s in
    if starts_with (String.◌∷◌ c s) old then new ++ after else String.◌∷◌ c next

-- strings.ReplaceAll, for an `old` that is not empty
unfoldable pub replace_all : String → String → String → String
unfolding replace_from
replace_all s old new = replace_from old new 0 s
