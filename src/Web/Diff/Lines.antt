-- ===== src/Web/Diff/Lines.antt =====
-- What the diff says of the lines of the two texts.
use mrdns.Prelude.{
  String, Bool, false, not, ◌||◌, ◌&&◌, List, [], ◌∷◌, ◌==◌, eq_iff, eq_refl, select, map, ◌≡◌,
  refl, arith, Bool-cases, inl, inr, ap,
}
use mrdns.Text.{split_on, trim_space}
use mrdns.Web.Diff.{holds, distinct_lines, ordered_lines, compute_diff}

abbrev pub Distinct : List String → Type 0
Distinct [] = Unit
Distinct (l ∷ ls) = (holds ls l ≡ false) × Distinct ls

-- The lines of a text, with what is between them trimmed away.
abbrev pub trimmed : String → List String
trimmed text = map trim_space (split_on b'\n' text)

holds-select :
    (p : String → Bool) (ls : List String) (l : String)
    → holds (select p ls) l ≡ (holds ls l && p l)
holds-select p [] l = refl
holds-select p (x ∷ ls) l = elim (Bool-cases (x == l)) [
  | inl e ↦ ground (arith, holds-select p ls l, ap p ((eq_iff x l).0 e))
  | inr e ↦ ground (arith, holds-select p ls l)
]

holds-distinct_lines :
    (seen raws : List String) (l : String)
    → holds (distinct_lines seen raws) l
      ≡ (holds (map trim_space raws) l && (not (l == "") && not (holds seen l)))
unfolding distinct_lines
holds-distinct_lines seen [] l = refl
holds-distinct_lines seen (raw ∷ raws) l = elim (Bool-cases (trim_space raw == l)) [
  | inl e ↦ ground (
    arith,
    holds-distinct_lines seen raws l,
    holds-distinct_lines (trim_space raw ∷ seen) raws l,
    ap (λ x. x == "") ((eq_iff (trim_space raw) l).0 e),
    ap (holds seen) ((eq_iff (trim_space raw) l).0 e),
  )
  | inr e ↦
      ground (
        arith,
        holds-distinct_lines seen raws l,
        holds-distinct_lines (trim_space raw ∷ seen) raws l,
      )
]

distinct_lines-Distinct : (seen raws : List String) → Distinct (distinct_lines seen raws)
unfolding distinct_lines
distinct_lines-Distinct seen [] = tt
distinct_lines-Distinct seen (raw ∷ raws) =
    let l = trim_space raw in
    elim (Bool-cases (l == "" || holds seen l)) [
      | inl e ↦ rw e (distinct_lines-Distinct seen raws)
      | inr e ↦ rw e (
        ground (arith, holds-distinct_lines (l ∷ seen) raws l, eq_refl l),
        distinct_lines-Distinct (l ∷ seen) raws,
      )
    ]

-- The ordered lines of a text are distinct, and they are exactly the lines that are not empty once
-- the space around them is trimmed.
pub ordered_lines_lem :
    (text : String)
    → Distinct (ordered_lines text)
      × ((l : String) → holds (ordered_lines text) l ≡ (holds (trimmed text) l && not (l == "")))
unfolding ordered_lines
ordered_lines_lem text = (
  distinct_lines-Distinct [] (split_on b'\n' text),
  λ l. ground (arith, holds-distinct_lines [] (split_on b'\n' text) l),
)

-- The lines of the new text are those of the old text without the removed ones, and the added
-- ones; an added line is not in the old text, a removed one is, and it is not in the new text.
pub compute_diff_lem :
    (old new l : String)
    → let (added, removed) = compute_diff old new in
      (holds (ordered_lines new) l
        ≡ ((holds (ordered_lines old) l && not (holds removed l)) || holds added l))
      × ((holds added l && holds (ordered_lines old) l) ≡ false)
      × ((holds removed l && not (holds (ordered_lines old) l)) ≡ false)
      × ((holds removed l && holds (ordered_lines new) l) ≡ false)
unfolding compute_diff
compute_diff_lem old new l =
    let a = holds-select (λ x. not (holds (ordered_lines old) x)) (ordered_lines new) l in
    let b = holds-select (λ x. not (holds (ordered_lines new) x)) (ordered_lines old) l in
    (ground (arith, a, b), ground (arith, a, b), ground (arith, a, b), ground (arith, a, b))
