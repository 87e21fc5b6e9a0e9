-- ===== src/Store/Reading.antt =====
-- The methods of internal/store/store.go that only read, and those that change rows which may not
-- be there: after an error of the latter the tables are as they were.
use mrdns.Prelude.{
  ℕ, String, Bool, Option, none, some, List, [], ◌∷◌, err, Error, not_found, ◌≡◌, ◌≢◌, refl, arith,
}
use mrdns.Dns.{Dns}
use mrdns.Zone
use mrdns.Db.{ZoneRow, Db, exec, pure, raise, ◌>>=◌}
use mrdns.Db.Sql.{
  update, touched, update_zone, update_record_row, delete_record_row, delete_zone_row, zone_named,
  record_at,
}
use mrdns.Db.Keeps.{IsReading, IsAtomic, atomic_rules}
use mrdns.Store.{
  StoredZone, get_zone, zone_exists, list_zones, records, update_record, update_zone_settings,
  delete_record, delete_zone, not_found_if_no_rows,
}
use mrdns.Store.Rendered.{build, dirty, against}
use mrdns.Store.Snapshots.{Snapshot, last_snapshot, list_snapshots}

pub get_zone-IsReading : (name : String) → IsReading (get_zone name)
unfolding get_zone
get_zone-IsReading name = search atomic_rules

pub zone_exists-IsReading : (name : String) → IsReading (zone_exists name)
unfolding zone_exists
zone_exists-IsReading name = search atomic_rules

pub list_zones-IsReading : IsReading list_zones
unfolding list_zones
list_zones-IsReading = search atomic_rules

pub records-IsReading : (name : String) → IsReading (records name)
unfolding records
records-IsReading name = search atomic_rules

pub last_snapshot-IsReading : (name : String) → IsReading (last_snapshot name)
unfolding last_snapshot
last_snapshot-IsReading name = search atomic_rules

pub list_snapshots-IsReading : (name : String) → IsReading (list_snapshots name)
unfolding list_snapshots
list_snapshots-IsReading name = search atomic_rules

module _ (d : Dns) where
  pub build-IsReading : (name : String) → IsReading (build d name)
  unfolding build
  build-IsReading name = search (atomic_rules, get_zone-IsReading, records-IsReading)

  against-IsReading : (name : String) (snap : Option Snapshot) → IsReading (against d name snap)
  unfolding against
  against-IsReading name none = record { same = λ db. refl }
  against-IsReading name (some snap) = record { same = λ db. (build-IsReading name).same db }

  pub dirty-IsReading : (name : String) → IsReading (dirty d name)
  unfolding dirty
  dirty-IsReading name = search (atomic_rules, last_snapshot-IsReading, against-IsReading)

pub ruleset store_reads = (
  get_zone-IsReading, zone_exists-IsReading, list_zones-IsReading, records-IsReading,
  last_snapshot-IsReading, list_snapshots-IsReading, build-IsReading, dirty-IsReading,
)

module _ {A : Type 0} where
  update-untouched :
      (p : A → Bool) (f : A → A) (xs : List A) → touched p xs ≡ 0 → update p f xs ≡ xs
  update-untouched p f [] h = refl
  update-untouched p f (x ∷ xs) h = ground (arith, update-untouched p f xs)

pub update_record-IsAtomic :
    (zone : String) (id : ℕ) (r : Zone.Record) → IsAtomic (update_record zone id r)
unfolding update_record exec ◌>>=◌ not_found_if_no_rows pure raise update_record_row
update_record-IsAtomic zone id r = record {
  undone = λ db e h. ground (
    arith,
    update-untouched (record_at id zone)
        (λ x. record x { name = r.name; ttl = r.ttl; type = r.type; rdata = r.rdata })
        db.tables.records,
  );
}

zone_updated-IsAtomic :
    (name : String) (f : ZoneRow → ZoneRow)
    → IsAtomic (exec (update_zone name f) >>= not_found_if_no_rows)
unfolding exec ◌>>=◌ not_found_if_no_rows pure raise update_zone
zone_updated-IsAtomic name f = record {
  undone = λ db e h. ground (arith, update-untouched (zone_named name) f db.tables.zones);
}

pub update_zone_settings-IsAtomic : (z : StoredZone) → IsAtomic (update_zone_settings z)
unfolding update_zone_settings
update_zone_settings-IsAtomic z = zone_updated-IsAtomic _ _

-- Errors other than `ErrNotFound` come from the driver.
pub delete_record-undone :
    (zone : String) (id : ℕ) (db : Db) (e : Error)
    → (delete_record zone id db).0 ≡ err e
    → e ≢ not_found
    → (delete_record zone id db).1.tables ≡ db.tables
unfolding delete_record exec ◌>>=◌ not_found_if_no_rows pure raise delete_record_row
delete_record-undone zone id db e h n = ground arith

pub delete_zone-undone :
    (name : String) (db : Db) (e : Error)
    → (delete_zone name db).0 ≡ err e
    → e ≢ not_found
    → (delete_zone name db).1.tables ≡ db.tables
unfolding delete_zone exec ◌>>=◌ not_found_if_no_rows pure raise delete_zone_row
delete_zone-undone name db e h n = ground arith
