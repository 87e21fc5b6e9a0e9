-- ===== src/Prelude/Outcome.antt =====
-- What fallible Go code returns, `(value, error)` with exactly one of the two in use.
-- An error is a constructor for each message of the source; the message's text is not modelled.
use Prim.Native.String.{String}

pub data Error : Type 0 where
  -- store.ErrNotFound
  not_found : Error
  -- an error of the database driver, with its text
  driver : String → Error
  -- a constraint of the schema that a statement breaks
  unique_violated foreign_key_violated : Error
  -- "zone %q already exists"
  already_exists : String → Error
  -- "parse zone %q: %w" and "zone %q: no records"
  parse_error : String → String → Error
  no_records : String → Error
  -- "zone has no SOA record"
  no_soa : Error
  -- "invalid record: %w", "no record found", "expected exactly one record"
  invalid_record : String → Error
  no_record many_records : Error
  -- "the SOA record is managed automatically" or "via zone settings"
  soa_managed : Error

pub data Result {ℓ} (A : Type ℓ) : Type ℓ where
  ok : A → Result A
  err : Error → Result A

infixl 5 ◌>>=◌
abbrev pub ◌>>=◌ {ℓ κ} : {A : Type ℓ} {B : Type κ} → Result A → (A → Result B) → Result B
ok a >>= f = f a
err e >>= f = err e
