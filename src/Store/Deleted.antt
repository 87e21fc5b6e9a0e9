-- ===== src/Store/Deleted.antt =====
-- `DeleteZone` of internal/store/store.go: what goes with a zone, and what stays.
use mrdns.Prelude.{String, not, List, [], ◌∷◌, ok, ◌≡◌, ◌≢◌, refl, arith, select, eq_iff, ◌==◌}
use mrdns.Db.{ZoneRow, RecordRow, SnapshotRow, Tables, Db, exec, pure, raise, ◌>>=◌}
use mrdns.Db.Sql.{delete_zone_row, zone_named, record_of, snapshot_of}
use mrdns.Store.{delete_zone, not_found_if_no_rows}

-- The tables without a zone and what references it.
abbrev pub without : String → Tables → Tables
without name t = record t {
  zones = select (λ z. not (zone_named name z)) t.zones;
  records = select (λ r. not (record_of name r)) t.records;
  snapshots = select (λ s. not (snapshot_of name s)) t.snapshots;
}

delete_zone-tables :
    (name : String) (db : Db)
    → (delete_zone name db).0 ≡ ok tt
    → (delete_zone name db).1.tables ≡ without name db.tables
unfolding delete_zone exec ◌>>=◌ not_found_if_no_rows pure raise delete_zone_row
delete_zone-tables name db h = ground arith

module _ {A : Type 0} (zone : A → String) where
  select_gone :
      (name : String) (rows : List A)
      → select (λ r. zone r == name) (select (λ r. not (zone r == name)) rows) ≡ []
  select_gone name [] = refl
  select_gone name (r ∷ rows) = ground (arith, select_gone name rows)

  select_kept :
      (name other : String) (rows : List A)
      → name ≢ other
      → select (λ r. zone r == other) (select (λ r. not (zone r == name)) rows)
        ≡ select (λ r. zone r == other) rows
  select_kept name other [] ne = refl
  select_kept name other (r ∷ rows) ne =
      ground (arith, select_kept name other rows ne, eq_iff (zone r) name, eq_iff (zone r) other)

-- When a zone is deleted without an error, no row of the three tables names it any more, and every
-- other zone has the row, the records and the snapshots that it had, in their order.
pub delete_zone_cascades :
    (name other : String) (db : Db)
    → (delete_zone name db).0 ≡ ok tt
    → name ≢ other
    → let t = (delete_zone name db).1.tables in
      (select (zone_named name) t.zones ≡ [])
      × (select (record_of name) t.records ≡ [])
      × (select (snapshot_of name) t.snapshots ≡ [])
      × (select (zone_named other) t.zones ≡ select (zone_named other) db.tables.zones)
      × (select (record_of other) t.records ≡ select (record_of other) db.tables.records)
      × (select (snapshot_of other) t.snapshots ≡ select (snapshot_of other) db.tables.snapshots)
delete_zone_cascades name other db h ne =
    let zone_of = λ (z : ZoneRow). z.name in
    let of_record = λ (r : RecordRow). r.zone in
    let of_snapshot = λ (s : SnapshotRow). s.zone in
    rw (delete_zone-tables name db h) (
      select_gone zone_of name db.tables.zones,
      select_gone of_record name db.tables.records,
      select_gone of_snapshot name db.tables.snapshots,
      select_kept zone_of name other db.tables.zones ne,
      select_kept of_record name other db.tables.records ne,
      select_kept of_snapshot name other db.tables.snapshots ne,
    )
