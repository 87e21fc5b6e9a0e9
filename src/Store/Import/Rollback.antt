-- ===== src/Store/Import/Rollback.antt =====
-- What `RestoreSnapshot` of internal/store/store.go leaves.
use mathlib.Core.Option
use mrdns.Prelude.{
  ℕ, ◌+◌, String, not, Option, none, some, List, [], ◌∷◌, ◌++◌, map, Result, ok, ◌≡◌, refl, sym, ap,
  ◌∙◌, arith, select, select-append, eq_refl, head?,
}
use mrdns.Dns.{Dns}
use mrdns.Zone.{Record, Zone, parse}
use mrdns.Zone.Build.{SoaData, soa_data, data_records}
use mrdns.Db.{RecordRow, SnapshotRow, Tables, Db, query}
use mrdns.Db.Sql.{record_of, zone_named}
use mrdns.Db.Runs.{bind-ok, query-ok, lift_bind-ok, transaction-ok}
use mrdns.Store.{scan_record, zone_in}
use mrdns.Store.Snapshots.Publish.{head-update}
use mrdns.Store.Import.{restore_rows, restore_snapshot, found_content, snapshot_at}
use mrdns.Store.Import.Rows.{
  numbered, with_records, with_records-fields, with_soa, cleared, restore_body, restore_body-tables,
}

-- A row as it is read back: its class is always IN.
abbrev pub row_in : Record → Record
row_in r = record r { class = "IN" }

abbrev pub rows_of : String → Tables → List Record
rows_of name t = map (λ r. (scan_record r).row) (select (record_of name) t.records)

pub rows_of-numbered :
    (name : String) (next : ℕ) (rs : List Record)
    → map (λ r. (scan_record r).row) (select (record_of name) (numbered name next rs))
      ≡ map row_in rs
unfolding numbered scan_record
rows_of-numbered name next [] = refl
rows_of-numbered name next (r ∷ rs) =
    ground (arith, eq_refl name, rows_of-numbered name (next + 1) rs)

select_dropped :
    (name : String) (rows : List RecordRow)
    → select (record_of name) (select (λ r. not (record_of name r)) rows) ≡ []
select_dropped name [] = refl
select_dropped name (r ∷ rows) = ground (arith, select_dropped name rows)

restore_rows-tables :
    (name : String) (s : SoaData) (recs : List Record) (db : Db)
    → (restore_rows name s recs db).0 ≡ ok tt
    → (restore_rows name s recs db).1.tables ≡ with_records name recs (cleared name s db.tables)
unfolding restore_rows restore_body
restore_rows-tables name s recs db h =
    let (db0, same, done, tables) = transaction-ok (restore_body name s recs) db tt h in
    tables
    ∙ restore_body-tables name s recs db0 done
    ∙ ap (λ t. with_records name recs (cleared name s t)) same

outcome : {x y : Result (Unit {0}) × Db} → x ≡ y → y.0 ≡ x.0
outcome e = ap (λ (p : Result (Unit {0}) × Db). p.0) (sym e)

module _ (d : Dns) where
  -- What a successful restore of a snapshot found, and the tables that it left.
  pub record IsRestored (name : String) (id : ℕ) (before after : Tables) : Type 0 where
    pub snapshot : SnapshotRow
    pub zone : Zone d
    pub settings : SoaData
    pub found : snapshot_at id name before ≡ some snapshot
    pub parsed : parse d snapshot.content name ≡ ok zone
    pub managed : soa_data d zone ≡ ok settings
    -- the zone's row has the settings and the serial of the snapshot's SOA record
    pub zone_row : zone_in name after ≡ Option.map (with_soa settings) (zone_in name before)
    -- the zone's records are the snapshot's other records, in their order
    pub rows : rows_of name after ≡ map row_in (data_records d zone)
    -- the history is not changed
    pub history : after.snapshots ≡ before.snapshots

  rows_restored :
      (name : String) (s : SoaData) (recs : List Record) (t : Tables)
      → rows_of name (with_records name recs (cleared name s t)) ≡ map row_in recs
  unfolding cleared
  rows_restored name s recs t =
      let (a, b, c) = with_records-fields name recs (cleared name s t) in
      let scan = map (λ (r : RecordRow). (scan_record r).row) in
      let kept = select (λ r. not (record_of name r)) t.records in
      ap (λ l. scan (select (record_of name) l)) a
      ∙ ap scan (select-append (record_of name) kept (numbered name t.next_record recs))
      ∙ ap (λ l. scan (l ++ select (record_of name) (numbered name t.next_record recs)))
          (select_dropped name t.records)
      ∙ rows_of-numbered name t.next_record recs

  zone_restored :
      (name : String) (s : SoaData) (recs : List Record) (t : Tables)
      → zone_in name (with_records name recs (cleared name s t))
        ≡ Option.map (with_soa s) (zone_in name t)
  unfolding cleared zone_in
  zone_restored name s recs t =
      let (a, b, c) = with_records-fields name recs (cleared name s t) in
      ap (λ zs. head? (select (zone_named name) zs)) b
      ∙ ground (arith, head-update name name (with_soa s) t.zones (λ z. refl), eq_refl name)

  content_found :
      (f : Option SnapshotRow) (content : String)
      → found_content f ≡ ok content
      → (snap : SnapshotRow) × (f ≡ some snap) × (snap.content ≡ content)
  unfolding found_content
  content_found none content h = cc
  content_found (some s) content h = (s, refl, ground arith)

  -- A restore that returns no error found the snapshot under its id and its zone's name, and its
  -- content parsed to a zone with an SOA record; it gives the zone that record's settings and
  -- serial, replaces its records by the others of the content, and leaves the history.
  pub restore_snapshot-IsRestored :
      (name : String) (id : ℕ) (db : Db)
      → (restore_snapshot d name id db).0 ≡ ok tt
      → IsRestored name id db.tables (restore_snapshot d name id db).1.tables
  unfolding restore_snapshot
  restore_snapshot-IsRestored name id db h =
      let (f, asked, r0) = bind-ok (query (snapshot_at id name)) _ db tt h in
      let (is_f, same) = query-ok (snapshot_at id name) db f asked in
      let (content, got, r1) = lift_bind-ok (found_content f) _ _ tt (outcome r0 ∙ h) in
      let (z, parsed, r2) =
        lift_bind-ok (parse d content name) _ _ tt (outcome r1 ∙ outcome r0 ∙ h) in
      let (s, managed, r3) =
        lift_bind-ok (soa_data d z) _ _ tt (outcome r2 ∙ outcome r1 ∙ outcome r0 ∙ h) in
      let (snap, is_snap, is_content) = content_found f content got in
      let rows = data_records d z in
      let tables =
        ap (λ (x : Result (Unit {0}) × Db). x.1.tables) (r0 ∙ r1 ∙ r2 ∙ r3)
        ∙ restore_rows-tables name s rows (query (snapshot_at id name) db).1
            (outcome r3 ∙ outcome r2 ∙ outcome r1 ∙ outcome r0 ∙ h)
        ∙ ap (λ t. with_records name rows (cleared name s t)) same in
      let fields = with_records-fields name rows (cleared name s db.tables) in
      record {
        snapshot = snap;
        zone = z;
        settings = s;
        found = is_f ∙ is_snap;
        parsed = ap (λ c. parse d c name) is_content ∙ parsed;
        managed = managed;
        zone_row = ap (zone_in name) tables ∙ zone_restored name s rows db.tables;
        rows = ap (rows_of name) tables ∙ rows_restored name s rows db.tables;
        history = ap (λ (t : Tables). t.snapshots) tables ∙ fields.2 ∙ (unfold cleared in refl);
      }
