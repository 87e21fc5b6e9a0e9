-- ===== src/Text/Numbers/RoundTrip.antt =====
-- Printing a uint32 and reading it back.
use Prim.Native.Char.{code}
use Prim.Native.String.{◌++◌}
use text.Mathlib.TextLemmas.{cons-append, nil-append, cons-ne-nil}
use mrdns.Prelude.{
  ℕ, zero, suc, ◌+◌, ◌-◌, ◌*◌, ◌/◌, ◌%◌, ◌^◌, ◌<◌, String, true, false, Option, none, some, ◌≡◌,
  refl, ap, ◌∙◌, arith, ltb, ◌==◌, eq_iff, Bool-cases, inl, inr,
}
use mrdns.Text.{decimal, decimal_from, digit}
use mrdns.Text.Numbers.{digits_value, parse_digits, parse_uint}

abbrev and_then : Option ℕ → (ℕ → Option ℕ) → Option ℕ
and_then none f = none
and_then (some n) f = f n

digits_value-append :
    (acc : ℕ) (s t : String)
    → digits_value acc (s ++ t) ≡ and_then (digits_value acc s) (λ n. digits_value n t)
unfolding digits_value
digits_value-append acc String.[] t = rw nil-append refl
digits_value-append acc (String.◌∷◌ c s) t =
    rw cons-append (ground (arith, digits_value-append (acc * 10 + (code c - 48)) s t))

digits_value-digit : (acc m : ℕ) → m < 10 → digits_value acc (digit m) ≡ some (acc * 10 + m)
unfolding digits_value digit
digits_value-digit acc zero h = refl
digits_value-digit acc (suc zero) h = refl
digits_value-digit acc (suc (suc zero)) h = refl
digits_value-digit acc (suc (suc (suc zero))) h = refl
digits_value-digit acc (suc (suc (suc (suc zero)))) h = refl
digits_value-digit acc (suc (suc (suc (suc (suc zero))))) h = refl
digits_value-digit acc (suc (suc (suc (suc (suc (suc zero)))))) h = refl
digits_value-digit acc (suc (suc (suc (suc (suc (suc (suc zero))))))) h = refl
digits_value-digit acc (suc (suc (suc (suc (suc (suc (suc (suc zero)))))))) h = refl
digits_value-digit acc (suc (suc (suc (suc (suc (suc (suc (suc (suc zero))))))))) h = refl
digits_value-digit acc (suc (suc (suc (suc (suc (suc (suc (suc (suc (suc m)))))))))) h =
    absurd (omega (arith, h))

one_digit : (n : ℕ) → n < 10 → ltb n 10 ≡ true
one_digit n h = ground arith

-- 10 ^ fuel, by recursion
abbrev power : ℕ → ℕ
power zero = 1
power (suc fuel) = 10 * power fuel

digits_value-decimal_from :
    (fuel n : ℕ) → n < power (suc fuel) → digits_value 0 (decimal_from (suc fuel) n) ≡ some n
unfolding decimal_from
digits_value-decimal_from zero n h =
    rw (one_digit n (omega (arith, h)))
      (digits_value-digit 0 n (omega (arith, h)) ∙ ap some (omega arith))
digits_value-decimal_from (suc fuel) n h = elim (Bool-cases (ltb n 10)) [
  | inl e ↦ rw e (digits_value-digit 0 n (ground (arith, e)) ∙ ap some (omega arith))
  | inr e ↦
      let ih = digits_value-decimal_from fuel (n / 10) (omega (arith, h)) in
      rw e (
        digits_value-append 0 (decimal_from (suc fuel) (n / 10)) (digit (n % 10))
        ∙ ap (λ o. and_then o (λ m. digits_value m (digit (n % 10)))) ih
        ∙ digits_value-digit (n / 10) (n % 10) (omega arith)
        ∙ ap some (omega arith))
]

-- A text that gives a number above 0 is not empty.
digits_value-nonempty : (s : String) (n : ℕ) → digits_value 0 s ≡ some (suc n) → (s == "") ≡ false
unfolding digits_value
digits_value-nonempty String.[] n h = ground (arith, h)
digits_value-nonempty (String.◌∷◌ c s) n h = elim (Bool-cases (String.◌∷◌ c s == "")) [
  | inl e ↦ absurd (cons-ne-nil c s ((eq_iff (String.◌∷◌ c s) "").0 e))
  | inr e ↦ e
]

pub decimal-nonempty : (n : ℕ) → n < 2 ^ 32 → (decimal n == "") ≡ false
unfolding decimal decimal_from digit
decimal-nonempty zero h = refl
decimal-nonempty (suc n) h =
    digits_value-nonempty (decimal_from 10 (suc n)) n
      (digits_value-decimal_from 9 (suc n) (omega (arith, h)))

pub decimal-digits : (n : ℕ) → n < 2 ^ 32 → digits_value 0 (decimal n) ≡ some n
unfolding decimal
decimal-digits n h = digits_value-decimal_from 9 n (omega (arith, h))

-- Every number of 32 bits is printed in full by the ten digits that are printed at most, and the
-- text is read back as that number.
pub parse_uint-decimal : (n : ℕ) → n < 2 ^ 32 → parse_uint (decimal n) ≡ some n
unfolding parse_uint parse_digits
parse_uint-decimal n h = rw (decimal-nonempty n h, decimal-digits n h) (ground (arith, h))
