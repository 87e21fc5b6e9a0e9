-- ===== src/Text/Numbers.antt =====
-- `strconv.ParseUint` and `strconv.ParseInt` in base 10, as the program calls them.
pub mod RoundTrip
use Prim.Native.Char.{Char, code}
use Prim.Native.String
use mrdns.Prelude.{
  ℕ, ◌+◌, ◌-◌, ◌*◌, ◌^◌, String, Bool, ◌&&◌, Option, none, some, leb, ltb, eqb, if◌then◌else◌, ◌==◌,
}

abbrev pub is_digit : Char → Bool
is_digit c = leb 48 (code c) && leb (code c) 57

-- The number that digits give behind one that was read before them.
unfoldable pub digits_value : ℕ → String → Option ℕ
digits_value acc String.[] = some acc
digits_value acc (String.◌∷◌ c s) =
    let rest = digits_value (acc * 10 + (code c - 48)) s in if is_digit c then rest else none

unfoldable pub parse_digits : String → Option ℕ
unfolding digits_value
parse_digits s = if s == "" then none else digits_value 0 s

abbrev pub below : ℕ → Option ℕ → Option ℕ
below limit none = none
below limit (some n) = if ltb n limit then some n else none

-- `ParseUint(s, 10, 32)`; `none` is an error
unfoldable pub parse_uint : String → Option ℕ
unfolding parse_digits
parse_uint s = below (2 ^ 32) (parse_digits s)

abbrev pub clamped : Option ℕ → ℕ
clamped none = 0
clamped (some n) = if ltb n (2 ^ 63) then n else 2 ^ 63 - 1

-- `id, _ := ParseInt(s, 10, 64)`: what is returned beside the error too; 0 stands for every number
-- up to 0
unfoldable pub parse_id : String → ℕ
unfolding parse_digits
parse_id String.[] = 0
parse_id (String.◌∷◌ c s) =
    if eqb (code c) b'-'
    then 0
    else if eqb (code c) b'+'
    then clamped (parse_digits s)
    else clamped (parse_digits (String.◌∷◌ c s))
