-- ===== src/Tests/StoreRuns.antt =====
-- The theorems on the database at concrete tables.
use mathlib.Core.Option
use mathlib.Core.Option.{Option}
use mrdns.Prelude.{select, ℕ, String, none, some, List, [], ◌∷◌, ok, ◌≡◌, refl, arith, take}
use mrdns.Zone.{Zone, parse, soa, first_soa, records}
use mrdns.Zone.Serial.{Time}
use mrdns.Zone.Build.{SoaData, soa_data, data_records}
use mrdns.Db.{ZoneRow, SnapshotRow, Tables, Db, empty, exec, pure, raise, lift, ◌>>=◌, transaction}
use mrdns.Db.Sql.{
  delete_zone_row, zone_named, record_of, snapshot_of, insert_zone, update_zone, insert_record,
  delete_records_of, insert_snapshot, prune,
}
use mrdns.Db.Keeps.{IsAtomic}
use mrdns.Db.Invariant.{IsWellFormed}
use mrdns.Store.{
  delete_zone, StoredZone, zone_exists, zone_in, set_serial, not_found_if_no_rows, apply_defaults,
  zone_row, join_targets,
}
use mrdns.Store.Snapshots.{publish, history, scan_snapshot}
use mrdns.Store.Snapshots.History.{new_row}
use mrdns.Store.Snapshots.Publish.{with_serial, publish-history, publish_frame}
use mrdns.Store.Import.{
  import_zone, restore_snapshot, import_rows, restore_rows, insert_records, found_content,
  snapshot_at,
}
use mrdns.Store.Import.Atomic.{imports-IsAtomic}
use mrdns.Store.Import.Rollback.{IsRestored, restore_snapshot-IsRestored}
use mrdns.Store.Import.Imported.{IsImported, import_zone-IsImported}
use mrdns.Store.Calls.{
  Call, creates, publishes, restores, deletes_zone, after_all, after_all-IsWellFormed,
}
use mrdns.Store.Deleted.{delete_zone_cascades}
use mrdns.Tests.Sample.{start, first_soa_of, www, sample, differ}

abbrev pub row_of : String → ℕ → ZoneRow
row_of name serial = record {
  name = name;
  primary_ns = "ns1.example.com.";
  mbox = "admin.example.com.";
  refresh = 7200;
  retry = 3600;
  expire = 1209600;
  minimum = 3600;
  ttl = 300;
  serial = serial;
  targets = "ns1";
  created_at = "";
}

abbrev pub snapshot_row : ℕ → ℕ → String → SnapshotRow
snapshot_row id serial content = record {
  id = id;
  zone = "example.com.";
  serial = serial;
  content = content;
  created_at = "";
}

-- Two zones; the first was deployed with serials 7 and 8, and its serial is now 8.
abbrev pub two_zones : Tables
two_zones = record {
  zones = row_of "example.com." 8 ∷ row_of "example.org." 3 ∷ [];
  records =
      record {
        id = 1;
        zone = "example.com.";
        name = "www";
        ttl = 300;
        type = "A";
        rdata = "192.0.2.9";
      }
      ∷ [];
  snapshots = snapshot_row 1 7 "a zone" ∷ snapshot_row 2 8 "another zone" ∷ [];
  next_record = 2;
  next_snapshot = 3;
}

abbrev pub sound : Tables → Db
sound t = record { tables = t; faults = [] }

pub two_zones-IsWellFormed : IsWellFormed two_zones
two_zones-IsWellFormed = record {
  names = (refl, (refl, tt));
  records_owned = (refl, tt);
  snapshots_owned = (refl, (refl, tt));
  record_ids = (tt, tt);
  records_below = (omega arith, tt);
  snapshot_ids = ((omega arith, tt), (tt, tt));
  snapshots_below = (omega arith, (omega arith, tt));
}

publish_ok : (publish 2 "example.com." "a later zone" 9 "" (sound two_zones)).0 ≡ ok tt
unfolding publish set_serial exec ◌>>=◌ not_found_if_no_rows pure raise update_zone insert_snapshot
    prune
publish_ok = refl

publish-history_example :
    history "example.com." (publish 2 "example.com." "a later zone" 9 "" (sound two_zones)).1.tables
    ≡ take 2 (
        scan_snapshot (new_row "example.com." 9 "a later zone" "" two_zones)
        ∷ history "example.com." two_zones)
publish-history_example =
    publish-history 2 "example.com." "a later zone" 9 "" (sound two_zones) two_zones-IsWellFormed
      publish_ok

publish_frame_example :
    let t = (publish 2 "example.com." "a later zone" 9 "" (sound two_zones)).1.tables in
    (zone_in "example.com." t ≡ Option.map (with_serial 9) (zone_in "example.com." two_zones))
    × (zone_in "example.org." t ≡ zone_in "example.org." two_zones)
    × (history "example.org." t ≡ history "example.org." two_zones)
    × (t.records ≡ two_zones.records)
publish_frame_example =
    publish_frame 2 "example.com." "a later zone" 9 "" "example.org." (sound two_zones) publish_ok
      (differ "example.com." "example.org." refl)

imports-IsAtomic_example :
    IsAtomic (import_zone sample "example.net." "a zone" [] "")
    × IsAtomic (restore_snapshot sample "example.net." 1)
imports-IsAtomic_example = imports-IsAtomic sample "example.net." "a zone" [] "" 1

abbrev pub new_zone : StoredZone
new_zone = record {
  name = "example.com.";
  primary_ns = "ns1.example.com.";
  mbox = "admin.example.com.";
  refresh = 0;
  retry = 0;
  expire = 0;
  minimum = 0;
  ttl = 0;
  serial = 0;
  targets = "ns1" ∷ [];
}

abbrev calls : List Call
calls =
    creates new_zone ""
    ∷ publishes "example.com." "a zone" 7 ""
    ∷ restores "example.com." 1
    ∷ deletes_zone "example.com."
    ∷ []

abbrev faults_made : List (Option String)
faults_made = none ∷ none ∷ none ∷ some "database is locked" ∷ []

after_all-IsWellFormed_example :
    IsWellFormed
      (after_all sample 20 calls (record { tables = empty; faults = faults_made })).tables
after_all-IsWellFormed_example = after_all-IsWellFormed sample 20 calls faults_made

pub restored : (restore_snapshot sample "example.com." 1 (sound two_zones)).0 ≡ ok tt
unfolding restore_snapshot restore_rows insert_records found_content snapshot_at exec ◌>>=◌ pure
    raise lift transaction update_zone delete_records_of insert_record parse soa soa_data
    data_records records first_soa
restored = refl

restore_snapshot-IsRestored_example :
    IsRestored sample "example.com." 1 two_zones
      (restore_snapshot sample "example.com." 1 (sound two_zones)).1.tables
restore_snapshot-IsRestored_example =
    restore_snapshot-IsRestored sample "example.com." 1 (sound two_zones) restored

imported : (import_zone sample "example.net." "a zone" ("ns1" ∷ []) "" (sound two_zones)).0 ≡ ok 1
unfolding import_zone import_rows insert_records zone_exists apply_defaults zone_row join_targets
    exec ◌>>=◌ pure raise lift transaction insert_zone insert_record parse soa soa_data data_records
    records first_soa
imported = refl

import_zone-IsImported_example :
    IsImported sample "example.net." "a zone"
      ("ns1" ∷ [])
      ""
      1
      two_zones
      (import_zone sample "example.net." "a zone" ("ns1" ∷ []) "" (sound two_zones)).1.tables
import_zone-IsImported_example =
    import_zone-IsImported sample "example.net." "a zone" ("ns1" ∷ []) "" (sound two_zones) 1
      two_zones-IsWellFormed imported

abbrev pub past : Time
past = record { unix = 0; year = 0; month = 0; day = 0 }

abbrev pub first_zone : Zone sample
first_zone = record { origin = "example.com."; records = start (first_soa_of 7) ∷ www ∷ [] }

pub first_found : snapshot_at 1 "example.com." two_zones ≡ some (snapshot_row 1 7 "a zone")
unfolding snapshot_at
first_found = refl

pub first_parsed : parse sample "a zone" "example.com." ≡ ok first_zone
unfolding parse
first_parsed = refl

abbrev pub first_settings : SoaData
first_settings = record {
  primary_ns = "ns1.example.com.";
  mbox = "admin.example.com.";
  refresh = 7200;
  retry = 3600;
  expire = 1209600;
  minimum = 3600;
  ttl = 300;
  serial = 7;
}

pub first_managed : soa_data sample first_zone ≡ ok first_settings
unfolding soa_data soa first_soa
first_managed = refl

zone_deleted : (delete_zone "example.com." (sound two_zones)).0 ≡ ok tt
unfolding delete_zone delete_zone_row exec ◌>>=◌ not_found_if_no_rows pure raise
zone_deleted = refl

delete_zone_cascades_example :
    let t = (delete_zone "example.com." (sound two_zones)).1.tables in
    (select (zone_named "example.com.") t.zones ≡ [])
    × (select (record_of "example.com.") t.records ≡ [])
    × (select (snapshot_of "example.com.") t.snapshots ≡ [])
    × (select (zone_named "example.org.") t.zones
        ≡ select (zone_named "example.org.") two_zones.zones)
    × (select (record_of "example.org.") t.records
        ≡ select (record_of "example.org.") two_zones.records)
    × (select (snapshot_of "example.org.") t.snapshots
        ≡ select (snapshot_of "example.org.") two_zones.snapshots)
delete_zone_cascades_example =
    delete_zone_cascades "example.com." "example.org." (sound two_zones) zone_deleted
      (differ "example.com." "example.org." refl)
