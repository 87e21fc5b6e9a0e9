-- ===== src/Store/Targets.antt =====
-- The targets of a zone in the `targets` column: joined on the way in, split on the way out.
use Prim.Native.Char.{Char, code}
use Prim.Native.String.{◌++◌}
use text.Mathlib.TextLemmas.{nil-append, cons-append}
use mrdns.Prelude.{
  ℕ, String, false, List, [], ◌∷◌, All, ◌≡◌, ◌≢◌, refl, ap, ◌∙◌, arith, ◌==◌, eq_iff, Bool-cases,
  inl, inr,
}
use mrdns.Text.{split_on, join, trim_space, trim_left, trim_right, is_space}
use mrdns.Text.Trim.{Lacks}
use mrdns.Store.{join_targets, split_targets, non_empty}

split_on-Lacks : (sep : ℕ) (s : String) → Lacks sep s → split_on sep s ≡ s ∷ []
unfolding split_on
split_on-Lacks sep String.[] h = refl
split_on-Lacks sep (String.◌∷◌ c s) h = ground (arith, split_on-Lacks sep s h.1)

split_on-append :
    (sep : ℕ) (a b : String) (c : Char)
    → Lacks sep a
    → code c ≡ sep
    → split_on sep (a ++ (String.◌∷◌ c b)) ≡ a ∷ split_on sep b
unfolding split_on
split_on-append sep String.[] b c h e = rw nil-append (ground arith)
split_on-append sep (String.◌∷◌ x a) b c h e =
    rw cons-append (ground (arith, split_on-append sep a b c h.1 e))

-- A name that the column holds as one word: not empty, with no comma, and with no space around it.
abbrev pub IsTarget : String → Type 0
IsTarget t = Lacks b',' t × (trim_space t ≡ t) × (t ≢ "")

split_on-join :
    (t : String) (ts : List String)
    → All IsTarget (t ∷ ts)
    → split_on b',' (join "," (t ∷ ts)) ≡ t ∷ ts
unfolding join
split_on-join t [] (h, hs) = split_on-Lacks b',' t h.0
split_on-join t (u ∷ us) (h, hs) =
    ap (λ w. split_on b',' (t ++ w))
      (cons-append "," "" (join "," (u ∷ us))
        ∙ ap (λ w. String.◌∷◌ "," w) (nil-append (join "," (u ∷ us))))
    ∙ split_on-append b',' t (join "," (u ∷ us)) "," h.0 refl
    ∙ ap (λ ws. t ∷ ws) (split_on-join u us hs)

eq-empty : (t : String) → t ≢ "" → (t == "") ≡ false
eq-empty t ne = elim (Bool-cases (t == "")) [ inl e ↦ absurd (ne ((eq_iff t "").0 e)) | inr e ↦ e ]

non_empty-IsTarget : (ts : List String) → All IsTarget ts → non_empty ts ≡ ts
unfolding non_empty
non_empty-IsTarget [] h = refl
non_empty-IsTarget (t ∷ ts) ((l, tr, ne), hs) =
    rw (tr, non_empty-IsTarget ts hs, eq-empty t ne) refl

-- A list of targets that are not empty, hold no comma and have no space around them comes back
-- from the column as it was stored.
pub split_targets-join_targets :
    (ts : List String) → All IsTarget ts → split_targets (join_targets ts) ≡ ts
unfolding split_targets join_targets join split_on non_empty trim_space trim_left trim_right
    is_space
split_targets-join_targets [] h = refl
split_targets-join_targets (t ∷ ts) h =
    ap non_empty (split_on-join t ts h) ∙ non_empty-IsTarget (t ∷ ts) h
