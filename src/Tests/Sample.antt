-- ===== src/Tests/Sample.antt =====
-- A small zone-file library that has the laws of Dns.antt, and a zone, for the tests.
use Prim.Native.String.{◌++◌}
use mrdns.Prelude.{
  ℕ, String, Option, none, some, List, [], ◌∷◌, ◌≡◌, ◌≢◌, refl, ◌==◌, eqb, eq_iff, false,
  Bool-cases, inl, inr, if◌then◌else◌, arith,
}
use mrdns.Dns.{Dns, Soa, IsLawful}

pub data Entry : Type 0 where
  start : Soa → Entry
  address : String → String → Entry

abbrev pub first_soa_of : ℕ → Soa
first_soa_of n = record {
  ns = "ns1.example.com.";
  mbox = "admin.example.com.";
  serial = n;
  refresh = 7200;
  retry = 3600;
  expire = 1209600;
  minttl = 3600;
  ttl = 300;
}

abbrev pub www : Entry
www = address "www.example.com." "192.0.2.1"

abbrev pub mail : Entry
mail = address "mail.example.com." "192.0.2.2"

abbrev pub soa_of : Entry → Option Soa
soa_of (start s) = some s
soa_of (address n a) = none

abbrev pub owner : Entry → String
owner (start s) = "example.com."
owner (address n a) = n

abbrev pub ttl_of : Entry → ℕ
ttl_of (start s) = s.ttl
ttl_of (address n a) = 3600

abbrev pub type_of : Entry → ℕ
type_of (start s) = 6
type_of (address n a) = 1

abbrev pub rdata_of : Entry → String
rdata_of (start s) = s.ns
rdata_of (address n a) = a

abbrev pub with_serial_of : ℕ → Entry → Entry
with_serial_of n (start s) = start (record s { serial = n })
with_serial_of n (address m a) = address m a

abbrev pub name_of_type : ℕ → String
name_of_type t = if eqb t 6 then "SOA" else if eqb t 1 then "A" else "OTHER"

-- The parser knows a zone file and a few lines.
abbrev pub parse_text : String → String → List Entry × Option String
parse_text text origin =
    if origin == "example.org."
    then (start (first_soa_of 3) ∷ www ∷ [], none)
    else if text == "a zone"
    then (start (first_soa_of 7) ∷ www ∷ [], none)
    else if text == "a later zone"
    then (start (first_soa_of 9) ∷ www ∷ mail ∷ [], none)
    else if text == "$ORIGIN example.com.\n$TTL 3600\nmail A 192.0.2.2\n"
    then (mail ∷ [], none)
    else if text == "$ORIGIN example.com.\n$TTL 3600\nmail A 192.0.2.2\n$INCLUDE x\n"
    then (mail ∷ [], some "$INCLUDE is not allowed")
    else if text == "$ORIGIN example.com.\n$TTL 3600\nmail 3600 IN A 192.0.2.2\n"
    then (mail ∷ [], none)
    else ([], some "not a master file")

abbrev pub sample : Dns
sample = record {
  Rr = Entry;
  name = owner;
  ttl = ttl_of;
  class = λ e. 1;
  rrtype = type_of;
  text = λ e. owner e ++ (" " ++ rdata_of e);
  header_text = λ e. owner e ++ " ";
  as_soa = soa_of;
  set_serial = with_serial_of;
  fqdn = λ s. if s == "example.com" then "example.com." else s;
  type_name = name_of_type;
  class_name = λ c. "IN";
  type_soa = 6;
  parse = parse_text;
}

soa_typed_sample : (e : Entry) {s : Soa} → soa_of e ≡ some s → type_of e ≡ 6
soa_typed_sample (start s) h = refl
soa_typed_sample (address n a) h = cc

typed_soa_sample : (e : Entry) → soa_of e ≡ none → type_of e ≢ 6
typed_soa_sample (start s) h = cc
typed_soa_sample (address n a) h = ground arith

pub differ : (s t : String) → (s == t) ≡ false → s ≢ t
differ s t h e = ground (arith, eq_iff s t)

named_soa_sample : (t : ℕ) → name_of_type t ≡ "SOA" → t ≡ 6
named_soa_sample t h = elim (Bool-cases (eqb t 6)) [
  | inl e ↦ ground arith
  | inr e ↦ elim (Bool-cases (eqb t 1)) [
    | inl k ↦ absurd (differ "A" "SOA" refl (rw (e, k) at h))
    | inr k ↦ absurd (differ "OTHER" "SOA" refl (rw (e, k) at h))
  ]
]

serial_set_sample :
    (n : ℕ) (e : Entry) (s : Soa)
    → soa_of e ≡ some s
    → soa_of (with_serial_of n e) ≡ some (record s { serial = n })
serial_set_sample n (start s) t h = ground arith
serial_set_sample n (address m a) t h = cc

pub sample-IsLawful : IsLawful sample
sample-IsLawful = record {
  soa_typed = soa_typed_sample;
  typed_soa = typed_soa_sample;
  soa_named = refl;
  named_soa = named_soa_sample;
  serial_set = serial_set_sample;
}
