-- ===== src/Text/Trim.antt =====
-- Laws of `cut`, of `trim_prefix` and of `trim_space`.
use Prim.Native.Char.{Char, code}
use Prim.Native.String.{◌++◌}
use text.Mathlib.TextLemmas.{nil-append, cons-append}
use mrdns.Prelude.{
  ℕ, String, none, some, ◌≡◌, ◌≢◌, refl, sym, ap, ◌∙◌, arith, eqb, Bool-cases, Option-cases, inl,
  inr,
}
use mrdns.Text.{cut, strip, trim_prefix}

-- A text that holds no occurrence of a code point.
abbrev pub Lacks : ℕ → String → Type 0
Lacks sep String.[] = Unit {0}
Lacks sep (String.◌∷◌ c s) = (code c ≢ sep) × Lacks sep s

pub cut-none : (sep : ℕ) (s : String) → Lacks sep s → cut sep s ≡ none
unfolding cut
cut-none sep String.[] h = refl
cut-none sep (String.◌∷◌ c s) h = ground (arith, cut-none sep s h.1)

pub cut-some :
    (sep : ℕ) (a b : String) (c : Char)
    → Lacks sep a
    → code c ≡ sep
    → cut sep (a ++ (String.◌∷◌ c b)) ≡ some (a, b)
unfolding cut
cut-some sep String.[] b c h e = rw nil-append (ground arith)
cut-some sep (String.◌∷◌ x a) b c h e = rw cons-append (ground (arith, cut-some sep a b c h.1 e))

strip-append : (p s : String) → strip p (p ++ s) ≡ some s
unfolding strip
strip-append String.[] s = rw nil-append
strip-append (String.◌∷◌ c p) s = rw cons-append (ground (arith, strip-append p s))

pub trim_prefix-append : (p s : String) → trim_prefix (p ++ s) p ≡ s
unfolding trim_prefix
trim_prefix-append p s = rw (strip-append p s, trim_prefix)

the : (A : Type 0) → A → A
the A x = x

-- One code point before a text.
pub char-append : (c : Char) (s : String) → String.◌∷◌ c "" ++ s ≡ String.◌∷◌ c s
char-append c s = cons-append c "" s ∙ ap (String.◌∷◌ c) (nil-append s)

-- What `cut` finds around the code point.
pub cut-parts :
    (sep : ℕ) (s a b : String)
    → cut sep s ≡ some (a, b)
    → (c : Char) × (code c ≡ sep) × (s ≡ a ++ (String.◌∷◌ c b))
unfolding cut
cut-parts sep String.[] a b h = cc
cut-parts sep (String.◌∷◌ c s) a b h = elim (Bool-cases (eqb (code c) sep)) [
  | inl e ↦
      let is_a = the (a ≡ "") (ground (arith, e)) in
      let is_b = the (b ≡ s) (ground (arith, e)) in
      (
        c,
        ground (arith, e),
        ap (String.◌∷◌ c) (sym is_b)
            ∙ sym (nil-append (String.◌∷◌ c b))
            ∙ ap (λ x. x ++ String.◌∷◌ c b) (sym is_a),
      )
  | inr e ↦ elim (Option-cases (cut sep s)) [
    | inl n ↦ absurd (ground (arith, e, n))
    | inr ((x, y), n) ↦
        let (k, is_sep, whole) = cut-parts sep s x y n in
        let is_a = the (String.◌∷◌ c x ≡ a) (ground (arith, e, n)) in
        let is_b = the (y ≡ b) (ground (arith, e, n)) in
        (
          k,
          is_sep,
          ap (String.◌∷◌ c) whole
              ∙ sym (cons-append c x (String.◌∷◌ k y))
              ∙ ap (λ z. z ++ String.◌∷◌ k y) is_a
              ∙ ap (λ z. a ++ String.◌∷◌ k z) is_b,
        )
  ]
]
