-- ===== src/Web/Diff.antt =====
-- internal/web/diff.go: the lines that a deploy adds and removes. A Go map that is only filled and
-- asked is the list of its keys.
pub mod Lines
use mrdns.Prelude.{String, Bool, not, ◌||◌, List, [], ◌∷◌, ◌==◌, if◌then◌else◌, any, select}
use mrdns.Text.{split_on, trim_space}

-- `set[l]`
abbrev pub holds : List String → String → Bool
holds set l = any (λ x. x == l) set

-- the loop of `orderedLines`, with the keys of `seen`
unfoldable pub distinct_lines : List String → List String → List String
distinct_lines seen [] = []
distinct_lines seen (raw ∷ raws) =
    let l = trim_space raw in
    let skipped = distinct_lines seen raws in
    let rest = distinct_lines (l ∷ seen) raws in
    if l == "" || holds seen l then skipped else l ∷ rest

unfoldable pub ordered_lines : String → List String
unfolding distinct_lines
ordered_lines text = distinct_lines [] (split_on b'\n' text)

-- The keys of `lineSet` are the ordered lines.
unfoldable pub compute_diff : String → String → List String × List String
compute_diff old_text new_text =
    let old_set = ordered_lines old_text in
    let new_set = ordered_lines new_text in
    (select (λ l. not (holds old_set l)) new_set, select (λ l. not (holds new_set l)) old_set)
