-- ===== src/Web/Forms/RoundTrip.antt =====
-- The numbers of the forms of internal/web/zones.go, shown and posted back.
use Prim.Native.Char.{Char, code}
use mrdns.Prelude.{ℕ, ◌+◌, ◌-◌, ◌*◌, ◌^◌, ◌<◌, String, true, false, some, ◌≡◌, refl, ap, ◌∙◌, arith}
use mrdns.Text.{is_space, trim_left, trim_right, trim_space, decimal}
use mrdns.Text.Numbers.{is_digit, digits_value}
use mrdns.Text.Numbers.RoundTrip.{parse_uint-decimal, decimal-nonempty, decimal-digits}
use mrdns.Store.{StoredRecord}
use mrdns.Web.Session.{HttpRequest}
use mrdns.Web.Forms.{record_row, uint_or, form_uint}

digit_not_space : (c : Char) → is_digit c ≡ true → is_space c ≡ false
unfolding is_space
digit_not_space c h = ground (arith, h)

trim_left-digits : (s : String) (acc n : ℕ) → digits_value acc s ≡ some n → trim_left s ≡ s
unfolding trim_left digits_value
trim_left-digits String.[] acc n h = refl
trim_left-digits (String.◌∷◌ c s) acc n h = ground (arith, h, digit_not_space c)

trim_right-digits : (s : String) (acc n : ℕ) → digits_value acc s ≡ some n → trim_right s ≡ s
unfolding trim_right digits_value
trim_right-digits String.[] acc n h = refl
trim_right-digits (String.◌∷◌ c String.[]) acc n h = ground (arith, h, digit_not_space c)
trim_right-digits (String.◌∷◌ c (String.◌∷◌ d t)) acc n h =
    rw (trim_right-digits (String.◌∷◌ d t) (acc * 10 + (code c - 48)) n (ground (arith, h))) refl

trim_space-decimal : (n : ℕ) → n < 2 ^ 32 → trim_space (decimal n) ≡ decimal n
unfolding trim_space
trim_space-decimal n h =
    ap trim_right (trim_left-digits (decimal n) 0 n (decimal-digits n h))
    ∙ trim_right-digits (decimal n) 0 n (decimal-digits n h)

-- The TTL that the table of records shows of a record, a number of 32 bits, is what the form reads
-- when it is posted back, whatever the default.
pub form_uint-shown :
    (r : HttpRequest) (key : String) (def : ℕ) (rec : StoredRecord)
    → r.form key ≡ (record_row rec).ttl
    → rec.row.ttl < 2 ^ 32
    → form_uint r key def ≡ rec.row.ttl
unfolding uint_or
form_uint-shown r key def rec h b =
    rw
      (
        h,
        trim_space-decimal rec.row.ttl b,
        decimal-nonempty rec.row.ttl b,
        parse_uint-decimal rec.row.ttl b,
      )
      refl
