-- ===== src/Dns.antt =====
-- What the program uses of github.com/miekg/dns, which is not part of the repository: resource
-- records, their accessors, the zone-file parser and the tables of names. It is a parameter of the
-- model; what the program relies on is stated in `IsLawful`.
use mrdns.Prelude.{ℕ, String, Option, none, some, List, ◌≡◌, ◌≢◌}

-- The fields of a `*dns.SOA`, its header's TTL included.
pub record Soa : Type 0 where
  pub ns : String
  pub mbox : String
  pub serial : ℕ
  pub refresh : ℕ
  pub retry : ℕ
  pub expire : ℕ
  pub minttl : ℕ
  pub ttl : ℕ

pub record Dns : Type 1 where
  -- dns.RR, and `rr.Header().Name`, `.Ttl`, `.Class`, `.Rrtype`
  pub Rr : Type 0
  pub name : Rr → String
  pub ttl : Rr → ℕ
  pub class : Rr → ℕ
  pub rrtype : Rr → ℕ
  -- `rr.String()` and `rr.Header().String()`
  pub text : Rr → String
  pub header_text : Rr → String
  -- `rr.(*dns.SOA)`, and the assignment to its field `Serial`
  pub as_soa : Rr → Option Soa
  pub set_serial : ℕ → Rr → Rr
  -- dns.Fqdn, dns.TypeToString, dns.ClassToString, dns.TypeSOA
  pub fqdn : String → String
  pub type_name : ℕ → String
  pub class_name : ℕ → String
  pub type_soa : ℕ
  -- `NewZoneParser` on a text and an origin, with $INCLUDE refused: the records that `Next`
  -- returns until it returns none, and what `Err` says after that
  pub parse : String → String → List Rr × Option String

-- The documented behaviour that the theorems rest on.
pub record IsLawful (d : Dns) : Type 0 where
  -- a value is a `*dns.SOA` exactly when its header's type is TypeSOA
  pub soa_typed : (r : d.Rr) {s : Soa} → d.as_soa r ≡ some s → d.rrtype r ≡ d.type_soa
  pub typed_soa : (r : d.Rr) → d.as_soa r ≡ none → d.rrtype r ≢ d.type_soa
  -- the table names TypeSOA, and no other type, "SOA"
  pub soa_named : d.type_name d.type_soa ≡ "SOA"
  pub named_soa : (t : ℕ) → d.type_name t ≡ "SOA" → t ≡ d.type_soa
  -- an assignment to the serial changes that field of an SOA record and not its type
  pub serial_set :
      (n : ℕ) (r : d.Rr) (s : Soa)
      → d.as_soa r ≡ some s
      → d.as_soa (d.set_serial n r) ≡ some (record s { serial = n })
