-- ===== src/Web/Forms.antt =====
-- The rows, choices and form values of internal/web/zones.go and internal/web/types.go.
pub mod RoundTrip
use mrdns.Prelude.{
  ℕ, String, Bool, true, false, Option, none, some, List, [], ◌∷◌, map, any, ◌==◌, eqb,
  if◌then◌else◌,
}
use mrdns.Text.{trim_space, decimal}
use mrdns.Text.Numbers.{parse_uint}
use mrdns.Zone
use mrdns.Store.{StoredZone, StoredRecord}
use mrdns.Config.{Config, server_names, server_named}
use mrdns.Web.Session.{HttpRequest}

-- `recordRow`
pub record RecordLine : Type 0 where
  pub id : ℕ
  pub name : String
  pub ttl : String
  pub type : String
  pub rdata : String
  pub editing : Bool

abbrev pub record_row : StoredRecord → RecordLine
record_row r = record {
  id = r.id;
  name = r.row.name;
  ttl = decimal r.row.ttl;
  type = r.row.type;
  rdata = r.row.rdata;
  editing = false;
}

unfoldable pub record_rows : List StoredRecord → List RecordLine
record_rows recs = map record_row recs

unfoldable pub mark_editing : List RecordLine → ℕ → List RecordLine
mark_editing [] id = []
mark_editing (r ∷ rs) id =
    let rest = mark_editing rs id in
    if eqb r.id id then record r { editing = true } ∷ rs else r ∷ rest

pub record ServerChoice : Type 0 where
  pub name : String
  pub checked : Bool

unfoldable pub server_choices : Config → List String → List ServerChoice
server_choices cfg selected =
    map (λ n. record { name = n; checked = any (λ s. s == n) selected }) (server_names cfg)

-- `formUint`, on the posted value
unfoldable pub uint_or : String → ℕ → ℕ
uint_or value def =
    let v = trim_space value in
    if v == "" then def else elim (parse_uint v) [ none ↦ def | some n ↦ n ]

abbrev pub form_uint : HttpRequest → String → ℕ → ℕ
form_uint r key def = uint_or (r.form key) def

-- `formTargets`
known_targets : Config → List String → List String
known_targets cfg [] = []
known_targets cfg (t ∷ ts) =
    let rest = known_targets cfg ts in
    elim (server_named t cfg.servers) [ none ↦ rest | some s ↦ t ∷ rest ]

unfoldable pub form_targets : Config → HttpRequest → List String
unfolding known_targets
form_targets cfg r = known_targets cfg r.targets

unfoldable pub zone_from_form : Config → HttpRequest → StoredZone
zone_from_form cfg r = record {
  name = trim_space (r.form "name");
  primary_ns = trim_space (r.form "primary_ns");
  mbox = trim_space (r.form "mbox");
  refresh = form_uint r "refresh" 7200;
  retry = form_uint r "retry" 3600;
  expire = form_uint r "expire" 1209600;
  minimum = form_uint r "minimum" 3600;
  ttl = form_uint r "ttl" 3600;
  serial = 0;
  targets = form_targets cfg r;
}

-- `recordTypes`
abbrev pub record_types : List String
record_types =
    "A" ∷ "AAAA" ∷ "CNAME" ∷ "MX" ∷ "NS" ∷ "TXT" ∷ "SRV" ∷ "PTR" ∷ "CAA" ∷ "SSHFP" ∷ "TLSA"
    ∷ "NAPTR" ∷ "DNAME" ∷ "SPF" ∷ []

pub record TypeOption : Type 0 where
  pub value : String
  pub selected : Bool

unfoldable pub options_of : String → List String → List TypeOption
options_of current [] = []
options_of current (t ∷ ts) = record { value = t; selected = t == current } ∷ options_of current ts

-- `typeOptions`; `to_upper` is `strings.ToUpper`.
unfoldable pub type_options : (String → String) → String → List TypeOption
unfolding options_of
type_options to_upper given =
    let current = to_upper (trim_space given) in
    let opts = options_of current record_types in
    let found = any (λ t. t == current) record_types in
    if current == ""
    then opts
    else if found
    then opts
    else record { value = current; selected = true } ∷ opts
