-- ===== src/Deploy/Quote/Shell.antt =====
-- A quoted text is one word for a POSIX shell, and that word is the text.
use Prim.Native.Char.{code}
use Prim.Native.String.{◌++◌}
use text.Mathlib.TextLemmas.{cons-append, nil-append, append_assoc}
use text.Mathlib.TextEquality.{Char-path}
use mathlib.Core.Option
use mrdns.Prelude.{
  ◌∙◌, String, Option, none, some, ◌≡◌, refl, ap, arith, sym, Bool-cases, inl, inr, eqb,
  if◌then◌else◌,
}
use mrdns.Deploy.Quote.{escape_quotes, shell_quote}

-- Where the shell stands in a word: outside quotes, between single quotes, or behind a backslash
-- outside quotes.
pub data Mode : Type 0 where
  plain quoted escaped : Mode

-- The word that a shell reads from a text in which nothing but single quotes and backslashes
-- stands outside quotes; `none` if anything else does, or a quote is left open.
unfoldable pub read_word : Mode → String → Option String
read_word plain String.[] = some ""
read_word quoted String.[] = none
read_word escaped String.[] = none
read_word plain (String.◌∷◌ c s) =
    let inside = read_word quoted s in
    let behind = read_word escaped s in
    if eqb (code c) 39 then inside else if eqb (code c) 92 then behind else none
read_word quoted (String.◌∷◌ c s) =
    let outside = read_word plain s in
    let more = Option.map (String.◌∷◌ c) (read_word quoted s) in
    if eqb (code c) 39 then outside else more
read_word escaped (String.◌∷◌ c s) = Option.map (String.◌∷◌ c) (read_word plain s)

-- The four characters that replace a quote, one by one.
escaped_quote :
    (t : String)
    → "'\\''" ++ t ≡ String.◌∷◌ "'" (String.◌∷◌ "\\" (String.◌∷◌ "'" (String.◌∷◌ "'" t)))
escaped_quote t = rw cons-append (rw cons-append (rw cons-append (rw cons-append (rw nil-append))))

read_quoted : (s : String) → read_word quoted (escape_quotes s ++ "'") ≡ some s
unfolding read_word escape_quotes
read_quoted String.[] = refl
read_quoted (String.◌∷◌ c s) = elim (Bool-cases (eqb (code c) 39)) [
  | inl e ↦
      let is_quote = Char-path c "'" (ground arith) in
      rw e (
        ap (read_word quoted)
          (append_assoc "'\\''" (escape_quotes s) "'" ∙ escaped_quote (escape_quotes s ++ "'"))
        ∙ ap (Option.map (String.◌∷◌ "'")) (read_quoted s)
        ∙ ap (λ x. some (String.◌∷◌ x s)) (sym is_quote))
  | inr e ↦ rw e (rw cons-append (rw (e, read_quoted s)))
]

-- Whatever a text holds, quotes, spaces and operators of the shell included, the shell reads its
-- quoted form as one word, and the word is the text.
pub read_word-shell_quote : (s : String) → read_word plain (shell_quote s) ≡ some s
unfolding read_word shell_quote
read_word-shell_quote s = rw cons-append (rw nil-append (read_quoted s))
