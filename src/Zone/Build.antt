-- ===== src/Zone/Build.antt =====
-- internal/zone/build.go: zone files from settings and rows, and rows from zone files.
pub mod Rows
pub mod Mailbox
use Prim.Native.String.{◌++◌}
use mrdns.Prelude.{
  ℕ, String, Bool, true, false, not, none, some, List, [], ◌∷◌, Result, ok, err, soa_managed, ◌==◌,
  eqb, if◌then◌else◌, select,
}
use mrdns.Text.{decimal, cut, trim_space}
use mrdns.Dns.{Dns, Soa}
use mrdns.Zone.{Record, Zone, parse, soa, records, rdata}
use mrdns.Zone.Edit.{new_rr_with_origin, is_soa}

-- The settings of a zone that its SOA record is made of.
pub record SoaData : Type 0 where
  pub primary_ns : String
  pub mbox : String
  pub refresh : ℕ
  pub retry : ℕ
  pub expire : ℕ
  pub minimum : ℕ
  pub ttl : ℕ
  pub serial : ℕ

-- A text of `Fprintf`, as its pieces in order.
abbrev pub concat : List String → String
concat [] = ""
concat (s ∷ ss) = s ++ concat ss

abbrev pub default_ttl : ℕ → ℕ → ℕ
default_ttl ttl def = if eqb ttl 0 then def else ttl

abbrev pub default_text : String → String → String
default_text s def = if s == "" then def else s

-- The line that a row is parsed from. `to_upper` is `strings.ToUpper`, whose tables of letters are
-- Unicode's.
abbrev pub normal_line : (String → String) → String → ℕ → String → String → String
normal_line to_upper name ttl rtype rd = concat (
    default_text name "@"
    ∷ " "
    ∷ decimal (default_ttl ttl 3600)
    ∷ " IN "
    ∷ to_upper (trim_space rtype)
    ∷ " "
    ∷ trim_space rd
    ∷ [])

module _ (d : Dns) where
  unfoldable pub dns_mbox : String → String
  dns_mbox s = elim (cut b'@' s) [
    | none ↦ d.fqdn s
    | some (user, host) ↦ d.fqdn (user ++ ("." ++ host))
  ]

  record_line : ℕ → Record → String
  record_line ttl r = concat (
      default_text r.name "@"
      ∷ " "
      ∷ decimal (default_ttl r.ttl ttl)
      ∷ " IN "
      ∷ r.type
      ∷ " "
      ∷ r.rdata
      ∷ "\n"
      ∷ [])

  record_lines : ℕ → List Record → String
  unfolding record_line
  record_lines ttl [] = ""
  record_lines ttl (r ∷ rs) = record_line ttl r ++ record_lines ttl rs

  unfoldable pub build_text : String → SoaData → List Record → String
  unfolding record_lines
  build_text origin s recs =
      let ttl = default_ttl s.ttl 3600 in
      concat (
        "$ORIGIN "
        ∷ d.fqdn origin
        ∷ "\n$TTL "
        ∷ decimal ttl
        ∷ "\n@ "
        ∷ decimal ttl
        ∷ " IN SOA "
        ∷ d.fqdn s.primary_ns
        ∷ " "
        ∷ dns_mbox s.mbox
        ∷ " ( "
        ∷ decimal s.serial
        ∷ " "
        ∷ decimal s.refresh
        ∷ " "
        ∷ decimal s.retry
        ∷ " "
        ∷ decimal s.expire
        ∷ " "
        ∷ decimal s.minimum
        ∷ " )\n"
        ∷ record_lines ttl recs
        ∷ [])

  unfoldable pub build : String → SoaData → List Record → Result (Zone d)
  build origin s recs = parse d (build_text origin s recs) origin

  soa_fields : Result Soa → Result SoaData
  soa_fields (err e) = err e
  soa_fields (ok s) = ok (record {
    primary_ns = s.ns;
    mbox = s.mbox;
    refresh = s.refresh;
    retry = s.retry;
    expire = s.expire;
    minimum = s.minttl;
    ttl = s.ttl;
    serial = s.serial;
  })

  -- the method `SOA`
  unfoldable pub soa_data : Zone d → Result SoaData
  unfolding soa_fields
  soa_data z = soa_fields (soa d z)

  unfoldable pub data_records : Zone d → List Record
  data_records z = select (λ r. not (r.type == "SOA")) (records d z)

  canonical : Result d.Rr → Result Record
  canonical (err e) = err e
  canonical (ok r) =
      if is_soa d r
      then err soa_managed
      else ok (record {
        name = d.name r;
        ttl = d.ttl r;
        class = "IN";
        type = d.type_name (d.rrtype r);
        rdata = rdata d r;
      })

  unfoldable pub normalize_record :
      (String → String) → String → String → ℕ → String → String → Result Record
  unfolding canonical
  normalize_record to_upper origin name ttl rtype rd =
      canonical (new_rr_with_origin d (normal_line to_upper name ttl rtype rd) origin)
