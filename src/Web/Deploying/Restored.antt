-- ===== src/Web/Deploying/Restored.antt =====
-- The serial of a deploy right after a restore.
use mathlib.Core.Option
use mrdns.Prelude.{
  ℕ, String, Option, none, some, List, map, Result, ok, err, ◌≡◌, refl, ap, sym, ◌∙◌, arith, Error,
  ◌⊎◌, inl, inr, Bool-cases,
}
use mrdns.Dns.{Dns, Soa}
use mrdns.Zone.{Record, Zone, parse, soa, render}
use mrdns.Zone.Serial.{Time, bump_serial, next_serial}
use mrdns.Zone.Build.{SoaData, soa_data, build as build_zone}
use mrdns.Db.{Db, ZoneRow, SnapshotRow, Tables, query, lift}
use mrdns.Db.Runs.{bind-ok, query-ok}
use mrdns.Store.{
  StoredZone, get_zone, records, zone_in, scan_zone, stored_soa_data, stored_records, found_zone,
}
use mrdns.Store.Reading.{get_zone-IsReading}
use mrdns.Store.Rendered.{build}
use mrdns.Store.Import.{restore_snapshot, snapshot_at}
use mrdns.Store.Import.Rows.{with_soa}
use mrdns.Store.Import.Rollback.{restore_snapshot-IsRestored}
use mrdns.Deploy.{DeployResult, all_moved}
use mrdns.Deploy.Remote.{Remote, DeployError}
use mrdns.Deploy.Pipeline.Outcome.{deploy_fields}
use mrdns.Web.Deploying.{deployed, handle_deploy, settled, marked, request_for}
use mrdns.Store.Snapshots.{publish}
use mrdns.Web.Deploying.Published.{same_result}
use mrdns.Web.Deploying.Parts.{handle_deploy-Parts, page_of}

abbrev pub rows_in : String → Tables → List Record
rows_in name t = map (λ r. r.row) (stored_records name t)

result_cases : {A : Type 0} (r : Result A) → ((a : A) × (r ≡ ok a)) ⊎ ((e : Error) × (r ≡ err e))
result_cases (ok a) = inl (a, refl)
result_cases (err e) = inr (e, refl)

found_ok :
    (o : Option ZoneRow) (z : StoredZone)
    → found_zone o ≡ ok z
    → (row : ZoneRow) × (o ≡ some row) × (z ≡ scan_zone row)
unfolding found_zone
found_ok none z h = cc h
found_ok (some row) z h = (row, refl, cc h)

with_soa_serial :
    (s : SoaData) (o : Option ZoneRow) (row : ZoneRow)
    → Option.map (with_soa s) o ≡ some row
    → row.serial ≡ s.serial
with_soa_serial s none row h = absurd (ground (arith, h))
with_soa_serial s (some r) row h =
    let same : row ≡ with_soa s r = cc h in ap (λ (x : ZoneRow). x.serial) same

module _ (d : Dns) where
  -- The documented behaviour of the parser that the theorem rests on, at the settings and the records
  -- that the tables have of a zone: the SOA record that it reads has the serial that was written.
  pub record KeepsSerial (name : String) (t : Tables) : Type 0 where
    pub keeps :
        (row : ZoneRow) (b : Zone d) (s : Soa)
        → zone_in name t ≡ some row
        → build_zone d row.name (stored_soa_data (scan_zone row)) (rows_in name t) ≡ ok b
        → soa d b ≡ ok s
        → s.serial ≡ row.serial

  bumped_from :
      (z : Zone d) (policy : String) (now : Time) (old new : ℕ)
      → (bump_serial d z policy now).0 ≡ ok (old, new)
      → (s : Soa) × (soa d z ≡ ok s) × (old ≡ s.serial) × (new ≡ next_serial policy s.serial now)
  unfolding bump_serial
  bumped_from z policy now old new h = elim (result_cases (soa d z)) [
    | inl (s, e) ↦ (s, e, ground (arith, e, h), ground (arith, e, h))
    | inr (x, e) ↦ absurd (ground (arith, e, h))
  ]

  found_row :
      (name : String) (db : Db) (z : StoredZone)
      → (get_zone name db).0 ≡ ok z
      → (row : ZoneRow) × (zone_in name db.tables ≡ some row) × (z ≡ scan_zone row)
  unfolding get_zone lift
  found_row name db z h =
      let (o, asked, r0) = bind-ok (query (zone_in name)) _ db z h in
      let (is_o, same) = query-ok (zone_in name) db o asked in
      let said = ap (λ (p : Result StoredZone × Db). p.0) (sym r0) ∙ h in
      let (row, is_row, scanned) = found_ok o z said in (row, is_o ∙ is_row, scanned)

  built_from :
      (name : String) (db : Db) (b : Zone d)
      → (build d name db).0 ≡ ok b
      → (row : ZoneRow) × (zone_in name db.tables ≡ some row)
        × (build_zone d row.name (stored_soa_data (scan_zone row)) (rows_in name db.tables) ≡ ok b)
  unfolding build records lift scan_zone
  built_from name db b h =
      let (z, found, r0) = bind-ok (get_zone name) _ db b h in
      let (recs, listed, r1) =
        bind-ok (records name) _ (get_zone name db).1 b
          (ap (λ (p : Result (Zone d) × Db). p.0) (sym r0) ∙ h) in
      let (is_recs, unread) = query-ok (stored_records name) (get_zone name db).1 recs listed in
      let same = (get_zone-IsReading name).same db in
      let (row, in_table, scanned) = found_row name db z found in
      let said =
        ap (λ (p : Result (Zone d) × Db). p.0) (sym r1)
        ∙ ap (λ (p : Result (Zone d) × Db). p.0) (sym r0)
        ∙ h in
      (
        row,
        in_table,
        ap (λ (x : StoredZone). build_zone d x.name (stored_soa_data x) (rows_in name db.tables))
              (sym scanned)
            ∙ ap (λ t. build_zone d z.name (stored_soa_data z) (rows_in name t)) (sym same)
            ∙ ap (λ l. build_zone d z.name (stored_soa_data z) (map (λ r. r.row) l)) is_recs
            ∙ said,
      )

module _ (d : Dns) (rem : Remote) (policy : String) (keep : ℕ) (now : Time) (stamp : String) where
  marked_serials :
      (res0 res : DeployResult) (r : Result (Unit {0}))
      → deployed (marked res0 r) ≡ deployed res
      → (res.old_serial ≡ res0.old_serial) × (res.new_serial ≡ res0.new_serial)
  unfolding marked
  marked_serials res0 res (ok u) h =
      let same = same_result _ res h in
      (
        ap (λ (x : DeployResult). x.old_serial) (sym same),
        ap (λ (x : DeployResult). x.new_serial) (sym same),
      )
  marked_serials res0 res (err e) h =
      let same = same_result _ res h in
      (
        ap (λ (x : DeployResult). x.old_serial) (sym same),
        ap (λ (x : DeployResult). x.new_serial) (sym same),
      )

  settled_serials :
      (name content : String) (new : ℕ) (r : DeployResult × Option DeployError) (db : Db)
      (res : DeployResult)
      → (settled d rem policy keep now stamp name content new r db).0 ≡ deployed res
      → (res.old_serial ≡ r.0.old_serial) × (res.new_serial ≡ r.0.new_serial)
  unfolding settled
  settled_serials name content new (res0, some e) db res h = cc
  settled_serials name content new (res0, none) db res h =
      let (r, db') = publish keep name content new stamp db in
      elim (Bool-cases (all_moved res0)) [
        | inl e ↦ marked_serials res0 res r (rw e at h)
        | inr e ↦
            let same = same_result res0 res (rw e at h) in
            (
              ap (λ (x : DeployResult). x.old_serial) (sym same),
              ap (λ (x : DeployResult). x.new_serial) (sym same),
            )
      ]

  -- The serials of a result, and the zone's row that they come from.
  deployed_serials :
      (name : String) (db : Db) (res : DeployResult)
      → KeepsSerial d name db.tables
      → (handle_deploy d rem policy keep now stamp name db).0 ≡ deployed res
      → (row : ZoneRow) × (zone_in name db.tables ≡ some row)
        × (res.old_serial ≡ row.serial)
        × (res.new_serial ≡ next_serial policy row.serial now)
  deployed_serials name db res law h =
      let parts = handle_deploy-Parts d rem policy keep now stamp name db res h in
      let content = render d (bump_serial d parts.built policy now).1 in
      let sent = request_for d rem policy keep now stamp name parts.zone content in
      let fields = deploy_fields d rem (sent parts.old parts.new) in
      let serials =
        settled_serials name content parts.new _ _ res
          (page_of d rem policy keep now stamp parts.rest h) in
      let (s, managed, old, new) =
        bumped_from d parts.built policy now parts.old parts.new parts.bumps in
      let same = (get_zone-IsReading name).same db in
      let (row, in_table, made) = built_from d name (get_zone name db).1 parts.built parts.made in
      let in_db = ap (zone_in name) (sym same) ∙ in_table in
      let kept =
        law.keeps row parts.built s in_db
          (ap (λ t. build_zone d row.name (stored_soa_data (scan_zone row)) (rows_in name t))
              (sym same)
            ∙ made)
          managed in
      (
        row,
        in_db,
        serials.0 ∙ fields.2 ∙ old ∙ kept,
        serials.1 ∙ fields.1 ∙ new ∙ ap (λ n. next_serial policy n now) kept,
      )

  -- A deploy right after a successful restore of a snapshot goes from the serial of the snapshot's
  -- SOA record to the one that the policy gives after it, whatever serial the zone had before the
  -- restore and whichever its history has, if the parser reads the serial of the zone's settings.
  pub handle_deploy-restore_snapshot :
      (name : String) (id : ℕ) (db : Db) (snap : SnapshotRow) (z : Zone d) (s : SoaData)
      (res : DeployResult)
      → (restore_snapshot d name id db).0 ≡ ok tt
      → snapshot_at id name db.tables ≡ some snap
      → parse d snap.content name ≡ ok z
      → soa_data d z ≡ ok s
      → KeepsSerial d name (restore_snapshot d name id db).1.tables
      → (handle_deploy d rem policy keep now stamp name (restore_snapshot d name id db).1).0
        ≡ deployed res
      → (res.old_serial ≡ s.serial) × (res.new_serial ≡ next_serial policy s.serial now)
  handle_deploy-restore_snapshot name id db snap z s res done found parsed managed law h =
      let r = restore_snapshot-IsRestored d name id db done in
      let (row, in_table, old, new) =
        deployed_serials name (restore_snapshot d name id db).1 res law h in
      let same_row : r.snapshot ≡ snap = cc (r.found, found) in
      let same_zone : r.zone ≡ z =
        cc (r.parsed, parsed, ap (λ (x : SnapshotRow). parse d x.content name) same_row) in
      let same_settings : r.settings ≡ s = cc (r.managed, managed, ap (soa_data d) same_zone) in
      let given =
        with_soa_serial r.settings (zone_in name db.tables) row (sym r.zone_row ∙ in_table)
        ∙ ap (λ (x : SoaData). x.serial) same_settings in
      (old ∙ given, new ∙ ap (λ n. next_serial policy n now) given)
