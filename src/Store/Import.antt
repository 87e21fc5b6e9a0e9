-- ===== src/Store/Import.antt =====
-- `ImportZone` and `RestoreSnapshot` of internal/store/store.go: parsed zone files become rows, in
-- one transaction.
pub mod Atomic
pub mod Rollback
pub mod Rows
pub mod Imported
use mrdns.Prelude.{
  ℕ, String, Bool, true, false, Option, none, some, List, [], ◌∷◌, ◌&&◌, Result, ok, err, not_found,
  already_exists, eqb, ◌==◌, if◌then◌else◌, length, head?, select,
}
use mrdns.Dns.{Dns}
use mrdns.Zone.{Record, parse}
use mrdns.Zone.Build.{SoaData, soa_data, data_records}
use mrdns.Db.{SnapshotRow, Tables, Exec, exec, query, pure, raise, lift, transaction, ◌>>=◌, ◌>>◌}
use mrdns.Db.Sql.{insert_zone, insert_record, update_zone, delete_records_of, snapshot_of}
use mrdns.Store.{StoredZone, apply_defaults, zone_row, zone_exists}

-- the loops `INSERT INTO records` of both methods
unfoldable pub insert_records : String → List Record → Exec (Unit {0})
insert_records zone [] = pure tt
insert_records zone (r ∷ rs) = do
  _ ← exec (insert_record zone r.name r.ttl r.type r.rdata)
  insert_records zone rs

abbrev pub imported_zone : String → SoaData → List String → StoredZone
imported_zone name s targets = record {
  name = name;
  primary_ns = s.primary_ns;
  mbox = s.mbox;
  refresh = s.refresh;
  retry = s.retry;
  expire = s.expire;
  minimum = s.minimum;
  ttl = s.ttl;
  serial = s.serial;
  targets = targets;
}

-- the transaction of `ImportZone`
unfoldable pub import_rows : StoredZone → List Record → String → Exec (Unit {0})
import_rows zr recs now =
    transaction do exec (insert_zone (zone_row zr now)); insert_records zr.name recs

-- the transaction of `RestoreSnapshot`
unfoldable pub restore_rows : String → SoaData → List Record → Exec (Unit {0})
restore_rows name s recs = transaction do
  _ ← exec (
      update_zone name (λ r. record r {
        primary_ns = s.primary_ns;
        mbox = s.mbox;
        refresh = s.refresh;
        retry = s.retry;
        expire = s.expire;
        minimum = s.minimum;
        ttl = s.ttl;
        serial = s.serial;
      }))
  _ ← exec (delete_records_of name)
  insert_records name recs

unfoldable pub found_content : Option SnapshotRow → Result String
found_content none = err not_found
found_content (some s) = ok s.content

-- `SELECT content FROM snapshots WHERE id=? AND zone=?`
unfoldable pub snapshot_at : ℕ → String → Tables → Option SnapshotRow
snapshot_at id name t = head? (select (λ s. eqb s.id id && s.zone == name) t.snapshots)

module _ (d : Dns) where
  -- the number of records
  unfoldable pub import_zone : String → String → List String → String → Exec ℕ
  import_zone name content targets now = do
    known ← zone_exists name
    if known then raise (already_exists name) else do
      z ← lift (parse d content name)
      s ← lift (soa_data d z)
      import_rows (apply_defaults (imported_zone name s targets)) (data_records d z) now
      pure (length (data_records d z))

  unfoldable pub restore_snapshot : String → ℕ → Exec (Unit {0})
  unfolding found_content
  restore_snapshot name id = do
    found ← query (snapshot_at id name)
    content ← lift (found_content found)
    z ← lift (parse d content name)
    s ← lift (soa_data d z)
    restore_rows name s (data_records d z)
