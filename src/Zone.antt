-- ===== src/Zone.antt =====
-- internal/zone/zone.go: parsed zones, their rendering and their SOA record.
pub mod Serial
pub mod Edit
pub mod Check
pub mod Build
use Prim.Native.String.{◌++◌}
use mrdns.Prelude.{
  ℕ, String, Option, none, some, List, [], ◌∷◌, map, length, Result, ok, err, parse_error,
  no_records, no_soa,
}
use mrdns.Text.{trim_prefix}
use mrdns.Dns.{Dns, Soa}

-- A presentation-friendly view of a resource record.
pub record Record : Type 0 where
  pub name : String
  pub ttl : ℕ
  pub class : String
  pub type : String
  pub rdata : String

module _ (d : Dns) where
  pub record Zone : Type 0 where
    pub origin : String
    pub records : List d.Rr

  -- the collected records and the parser's error decide the result
  parsed : String → List d.Rr × Option String → Result Zone
  parsed origin (records, some e) = err (parse_error origin e)
  parsed origin ([], none) = err (no_records origin)
  parsed origin (r ∷ rs, none) = ok (record { origin = origin; records = r ∷ rs })

  unfoldable pub parse : String → String → Result Zone
  unfolding parsed
  parse content origin = parsed (d.fqdn origin) (d.parse content (d.fqdn origin))

  render_records : List d.Rr → String
  render_records [] = ""
  render_records (r ∷ rs) = d.text r ++ ("\n" ++ render_records rs)

  unfoldable pub render : Zone → String
  unfolding render_records
  render z = "$ORIGIN " ++ (z.origin ++ ("\n" ++ render_records z.records))

  unfoldable pub rdata : d.Rr → String
  rdata r = trim_prefix (d.text r) (d.header_text r)

  unfoldable pub view : d.Rr → Record
  unfolding rdata
  view r = record {
    name = d.name r;
    ttl = d.ttl r;
    class = d.class_name (d.class r);
    type = d.type_name (d.rrtype r);
    rdata = rdata r;
  }

  unfoldable pub records : Zone → List Record
  unfolding view
  records z = map view z.records

  unfoldable pub len : Zone → ℕ
  len z = length z.records

  unfoldable pub first_soa : List d.Rr → Option Soa
  first_soa [] = none
  first_soa (r ∷ rs) = elim (d.as_soa r) [ none ↦ first_soa rs | some s ↦ some s ]

  or_no_soa : Option Soa → Result Soa
  or_no_soa none = err no_soa
  or_no_soa (some s) = ok s

  -- the method `soa`
  unfoldable pub soa : Zone → Result Soa
  unfolding first_soa or_no_soa
  soa z = or_no_soa (first_soa z.records)

  soa_serial : Result Soa → Result ℕ
  soa_serial (ok s) = ok s.serial
  soa_serial (err e) = err e

  unfoldable pub serial : Zone → Result ℕ
  unfolding soa soa_serial
  serial z = soa_serial (soa z)
