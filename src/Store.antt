-- ===== src/Store.antt =====
-- internal/store/store.go: zones and records in the database. The snapshots are in
-- Store/Snapshots, the imports and restores in Store/Import.
pub mod Open
pub mod Snapshots
pub mod Import
pub mod Rendered
pub mod Targets
pub mod Calls
pub mod Deleted
pub mod Reading
pub mod SoaFree
pub mod Laws
pub mod Outcomes
use mrdns.Prelude.{
  ℕ, zero, suc, String, Bool, true, false, not, Option, none, some, List, [], ◌∷◌, map, Result, ok,
  err, Error, not_found, ◌==◌, ltb, if◌then◌else◌, head?, length, select,
}
use mrdns.Text.{join, split_on, trim_space}
use mrdns.Zone
use mrdns.Zone.Build.{SoaData, default_ttl}
use mrdns.Db.{ZoneRow, RecordRow, Tables, Exec, exec, query, pure, raise, lift, ◌>>=◌, ◌>>◌}
use mrdns.Db.Sql.{
  update_zone, insert_zone, delete_zone_row, insert_record, update_record_row, delete_record_row,
  records_sorted, zones_sorted, zone_named, has_zone, touched,
}

-- `store.Zone`
pub record StoredZone : Type 0 where
  pub name : String
  pub primary_ns : String
  pub mbox : String
  pub refresh : ℕ
  pub retry : ℕ
  pub expire : ℕ
  pub minimum : ℕ
  pub ttl : ℕ
  pub serial : ℕ
  pub targets : List String

abbrev pub stored_soa_data : StoredZone → SoaData
stored_soa_data z = record {
  primary_ns = z.primary_ns;
  mbox = z.mbox;
  refresh = z.refresh;
  retry = z.retry;
  expire = z.expire;
  minimum = z.minimum;
  ttl = z.ttl;
  serial = z.serial;
}

-- `store.Record`: the id and the embedded `zone.Record`
pub record StoredRecord : Type 0 where
  pub id : ℕ
  pub row : Zone.Record

-- `keep` of `Store` as `Open` sets it; 0 stands for every number up to 0
abbrev pub snapshots_kept : ℕ → ℕ
snapshots_kept zero = 20
snapshots_kept (suc n) = suc n

unfoldable pub join_targets : List String → String
join_targets ts = join "," ts

unfoldable pub non_empty : List String → List String
non_empty [] = []
non_empty (p ∷ ps) =
    let rest = non_empty ps in let q = trim_space p in if q == "" then rest else q ∷ rest

unfoldable pub split_targets : String → List String
unfolding non_empty
split_targets s = non_empty (split_on b',' s)

unfoldable pub apply_defaults : StoredZone → StoredZone
apply_defaults z = record z {
  refresh = default_ttl z.refresh 7200;
  retry = default_ttl z.retry 3600;
  expire = default_ttl z.expire 1209600;
  minimum = default_ttl z.minimum 3600;
  ttl = default_ttl z.ttl 3600;
}

-- the values that `INSERT INTO zones` is given
unfoldable pub zone_row : StoredZone → String → ZoneRow
zone_row z created_at = record {
  name = z.name;
  primary_ns = z.primary_ns;
  mbox = z.mbox;
  refresh = z.refresh;
  retry = z.retry;
  expire = z.expire;
  minimum = z.minimum;
  ttl = z.ttl;
  serial = z.serial;
  targets = join_targets z.targets;
  created_at = created_at;
}

unfoldable pub scan_zone : ZoneRow → StoredZone
scan_zone r = record {
  name = r.name;
  primary_ns = r.primary_ns;
  mbox = r.mbox;
  refresh = r.refresh;
  retry = r.retry;
  expire = r.expire;
  minimum = r.minimum;
  ttl = r.ttl;
  serial = r.serial;
  targets = split_targets r.targets;
}

unfoldable pub scan_record : RecordRow → StoredRecord
scan_record r = record {
  id = r.id;
  row = record { name = r.name; ttl = r.ttl; class = "IN"; type = r.type; rdata = r.rdata };
}

unfoldable pub not_found_if_no_rows : ℕ → Exec (Unit {0})
not_found_if_no_rows zero = raise not_found
not_found_if_no_rows (suc n) = pure tt

unfoldable pub create_zone : StoredZone → String → Exec (Unit {0})
create_zone z now = exec (insert_zone (zone_row (apply_defaults z) now))

-- the first row of the result, or `sql.ErrNoRows`
unfoldable pub found_zone : Option ZoneRow → Result StoredZone
found_zone none = err not_found
found_zone (some r) = ok (scan_zone r)

unfoldable pub zone_in : String → Tables → Option ZoneRow
zone_in name t = head? (select (zone_named name) t.zones)

unfoldable pub get_zone : String → Exec StoredZone
unfolding found_zone
get_zone name = do r ← query (zone_in name); lift (found_zone r)

unfoldable pub zone_exists : String → Exec Bool
zone_exists name = do n ← query (λ t. touched (zone_named name) t.zones); pure (ltb 0 n)

unfoldable pub list_zones : Exec (List StoredZone)
list_zones = do rows ← query zones_sorted; pure (map scan_zone rows)

unfoldable pub update_zone_settings : StoredZone → Exec (Unit {0})
update_zone_settings z0 =
    let z = apply_defaults z0 in
    do
      n ← exec (
          update_zone z.name (λ r. record r {
            primary_ns = z.primary_ns;
            mbox = z.mbox;
            refresh = z.refresh;
            retry = z.retry;
            expire = z.expire;
            minimum = z.minimum;
            ttl = z.ttl;
            targets = join_targets z.targets;
          }))
      not_found_if_no_rows n

unfoldable pub set_serial : String → ℕ → Exec (Unit {0})
set_serial name serial = do
  n ← exec (update_zone name (λ r. record r { serial = serial }))
  not_found_if_no_rows n

unfoldable pub delete_zone : String → Exec (Unit {0})
delete_zone name = do n ← exec (delete_zone_row name); not_found_if_no_rows n

unfoldable pub stored_records : String → Tables → List StoredRecord
unfolding records_sorted scan_record
stored_records zone t = map scan_record (records_sorted zone t)

-- the method `Records`
unfoldable pub records : String → Exec (List StoredRecord)
records zone = query (stored_records zone)

unfoldable pub add_record : String → Zone.Record → Exec ℕ
add_record zone r = exec (insert_record zone r.name r.ttl r.type r.rdata)

unfoldable pub update_record : String → ℕ → Zone.Record → Exec (Unit {0})
update_record zone id r = do
  n ← exec (update_record_row id zone r.name r.ttl r.type r.rdata)
  not_found_if_no_rows n

unfoldable pub delete_record : String → ℕ → Exec (Unit {0})
delete_record zone id = do n ← exec (delete_record_row id zone); not_found_if_no_rows n
