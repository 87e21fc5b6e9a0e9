-- ===== src/Store/Import/Imported.antt =====
-- What a successful `ImportZone` of internal/store/store.go leaves.
use mathlib.Core.Path.{subst}
use mrdns.Prelude.{
  ℕ, String, Bool, true, false, some, List, [], ◌∷◌, ◌++◌, map, Result, ok, ◌≡◌, refl, sym, ap, ◌∙◌,
  arith, select, select-append, length, eq_iff, eq_refl, ◌==◌, if◌then◌else◌, head?, already_exists,
  All,
}
use mrdns.Dns.{Dns}
use mrdns.Zone.{Record, Zone, parse}
use mrdns.Zone.Build.{SoaData, soa_data, data_records}
use mrdns.Db.{RecordRow, ZoneRow, Tables, Db, Exec, exec, pure, raise, lift, ◌>>=◌, ◌>>◌}
use mrdns.Db.Sql.{record_of, zone_named, insert_zone, has_zone}
use mrdns.Db.Invariant.{IsWellFormed}
use mrdns.Db.Runs.{bind-ok, exec-ok, lift_bind-ok, transaction-ok, pure-ok, pure-tables}
use mrdns.Store.Reading.{zone_exists-IsReading}
use mrdns.Store.{StoredZone, scan_record, zone_in, zone_exists, zone_row, apply_defaults}
use mrdns.Store.Import.{import_zone, import_rows, insert_records, imported_zone}
use mrdns.Store.Import.Rows.{numbered, with_records, with_records-fields, insert_records-tables}
use mrdns.Store.Import.Rollback.{row_in, rows_of, rows_of-numbered}

-- The tables with one more zone.
abbrev with_zone : ZoneRow → Tables → Tables
with_zone z t = record t { zones = t.zones ++ z ∷ [] }

import_body : StoredZone → List Record → String → Exec (Unit {0})
import_body zr recs now = do exec (insert_zone (zone_row zr now)); insert_records zr.name recs

inserted_zone :
    (z : ZoneRow) (t t' : Tables)
    → insert_zone z t ≡ ok (tt, t')
    → (t' ≡ with_zone z t) × (has_zone z.name t.zones ≡ false)
unfolding insert_zone
inserted_zone z t t' h = ground arith

import_rows-tables :
    (zr : StoredZone) (recs : List Record) (now : String) (db : Db)
    → (import_rows zr recs now db).0 ≡ ok tt
    → ((import_rows zr recs now db).1.tables
        ≡ with_records zr.name recs (with_zone (zone_row zr now) db.tables))
      × (has_zone (zone_row zr now).name db.tables.zones ≡ false)
unfolding import_rows import_body
import_rows-tables zr recs now db h =
    let (db0, same, done, tables) = transaction-ok (import_body zr recs now) db tt h in
    let st = insert_zone (zone_row zr now) in
    let (u, inserted, rest) = bind-ok (exec st) (λ _. insert_records zr.name recs) db0 tt done in
    let (is_t, fresh) = inserted_zone (zone_row zr now) db0.tables _ (exec-ok st db0 u inserted) in
    (
      tables
          ∙ ap (λ (x : Result (Unit {0}) × Db). x.1.tables) rest
          ∙ insert_records-tables zr.name recs (exec st db0).1
              (ap (λ (x : Result (Unit {0}) × Db). x.0) (sym rest) ∙ done)
          ∙ ap (with_records zr.name recs) (is_t ∙ ap (with_zone (zone_row zr now)) same),
      ap (λ (t : Tables). has_zone (zone_row zr now).name t.zones) (sym same) ∙ fresh,
    )

head-fresh :
    (name : String) (zs : List ZoneRow) (z : ZoneRow)
    → has_zone name zs ≡ false
    → (z.name == name) ≡ true
    → head? (select (zone_named name) (zs ++ z ∷ [])) ≡ some z
head-fresh name [] z h e = rw e
head-fresh name (x ∷ zs) z h e = ground (arith, head-fresh name zs z)

no_orphans :
    (name : String) (zs : List ZoneRow) (rows : List RecordRow)
    → has_zone name zs ≡ false
    → All (λ r. has_zone r.zone zs ≡ true) rows
    → select (record_of name) rows ≡ []
no_orphans name zs [] h o = refl
no_orphans name zs (r ∷ rows) h (k, o) =
    ground (arith, no_orphans name zs rows h o, eq_iff r.zone name, foreign)
  where
    foreign : r.zone ≡ name → ⊥
    foreign e = cc (h, k, ap (λ n. has_zone n zs) e)

outcome : {x y : Result ℕ × Db} → x ≡ y → y.0 ≡ x.0
outcome e = ap (λ (p : Result ℕ × Db). p.0) (sym e)

rows_inserted :
    (name : String) (recs : List Record) (t u : Tables)
    → select (record_of name) t.records ≡ []
    → u.records ≡ t.records ++ numbered name t.next_record recs
    → rows_of name u ≡ map row_in recs
rows_inserted name recs t u none_before e =
    let scan = map (λ (r : RecordRow). (scan_record r).row) in
    let added = numbered name t.next_record recs in
    ap (λ l. scan (select (record_of name) l)) e
    ∙ ap scan (select-append (record_of name) t.records added)
    ∙ ap (λ l. scan (l ++ select (record_of name) added)) none_before
    ∙ rows_of-numbered name t.next_record recs

module _ (d : Dns) where
  -- What a successful import read from the content, and the tables that it left.
  pub record IsImported (name content : String) (targets : List String) (now : String) (n : ℕ)
      (before after : Tables) : Type 0 where
    pub zone : Zone d
    pub settings : SoaData
    pub parsed : parse d content name ≡ ok zone
    pub managed : soa_data d zone ≡ ok settings
    -- the zone was not there, and has the settings of the SOA record, zeros made defaults
    pub is_new : has_zone name before.zones ≡ false
    pub row :
        zone_in name after
        ≡ some (zone_row (apply_defaults (imported_zone name settings targets)) now)
    -- its records are the other records of the content, in their order, and `n` counts them
    pub rows : rows_of name after ≡ map row_in (data_records d zone)
    pub count : n ≡ length (data_records d zone)
    pub history : after.snapshots ≡ before.snapshots

  -- `ImportZone` after its test for the name.
  insert_parsed : String → String → List String → String → Exec ℕ
  insert_parsed name content targets now = do
    z ← lift (parse d content name)
    s ← lift (soa_data d z)
    import_rows (apply_defaults (imported_zone name s targets)) (data_records d z) now
    pure (length (data_records d z))

  insert_parsed-IsImported :
      (name content : String) (targets : List String) (now : String) (db : Db) (n : ℕ)
      → IsWellFormed db.tables
      → (insert_parsed name content targets now db).0 ≡ ok n
      → IsImported name content targets now n db.tables
          (insert_parsed name content targets now db).1.tables
  unfolding insert_parsed apply_defaults zone_row zone_in
  insert_parsed-IsImported name content targets now db n wf h =
      let (z, parsed, r0) = lift_bind-ok (parse d content name) _ db n h in
      let (s, managed, r1) = lift_bind-ok (soa_data d z) _ db n (outcome r0 ∙ h) in
      let zr = apply_defaults (imported_zone name s targets) in
      let recs = data_records d z in
      let run = import_rows zr recs now in
      let (u, done, r2) = bind-ok run _ db n (outcome r1 ∙ outcome r0 ∙ h) in
      let (left, fresh) = import_rows-tables zr recs now db done in
      let (a, b, c) = with_records-fields zr.name recs (with_zone (zone_row zr now) db.tables) in
      let tables =
        ap (λ (x : Result ℕ × Db). x.1.tables) (r0 ∙ r1 ∙ r2)
        ∙ pure-tables (length recs) (run db).1
        ∙ left in
      let counted = pure-ok (length recs) n (run db).1 (outcome r2 ∙ outcome r1 ∙ outcome r0 ∙ h) in
      record {
        zone = z;
        settings = s;
        parsed = parsed;
        managed = managed;
        is_new = fresh;
        row =
            ap (zone_in name) tables
            ∙ ap (λ zs. head? (select (zone_named name) zs)) b
            ∙ head-fresh name db.tables.zones _ fresh (eq_refl name);
        rows =
            ap (rows_of name) tables
            ∙ rows_inserted name recs db.tables
                (with_records zr.name recs (with_zone (zone_row zr now) db.tables))
                (no_orphans name _ _ fresh wf.records_owned) a;
        count = sym counted;
        history = ap (λ (t : Tables). t.snapshots) tables ∙ c;
      }

  import_zone-known :
      (known : Bool) (name content : String) (targets : List String) (now : String) (db : Db)
      (n : ℕ)
      → ((if known then raise (already_exists name) else insert_parsed name content targets now)
          db).0
        ≡ ok n
      → known ≡ false
  unfolding raise
  import_zone-known true name content targets now db n h = cc
  import_zone-known false name content targets now db n h = refl

  -- On tables that are well formed, an import that returns no error found no zone of that name, parsed the content to a zone with
  -- an SOA record, and left exactly that zone: the settings, serial and targets in its row, the
  -- other records in its record rows, and it returned their number.
  pub import_zone-IsImported :
      (name content : String) (targets : List String) (now : String) (db : Db) (n : ℕ)
      → IsWellFormed db.tables
      → (import_zone d name content targets now db).0 ≡ ok n
      → IsImported name content targets now n db.tables
          (import_zone d name content targets now db).1.tables
  unfolding import_zone insert_parsed
  import_zone-IsImported name content targets now db n wf h =
      let rest = λ (known : Bool).
        if known then raise (already_exists name) else insert_parsed name content targets now in
      let (known, asked, r) = bind-ok (zone_exists name) rest db n h in
      let db1 = (zone_exists name db).1 in
      let same = (zone_exists-IsReading name).same db in
      let new = import_zone-known known name content targets now db1 n (outcome r ∙ h) in
      let whole = r ∙ ap (λ k. rest k db1) new in
      let wf1 = subst IsWellFormed (sym same) wf in
      let part = insert_parsed-IsImported name content targets now db1 n wf1 (outcome whole ∙ h) in
      subst
        (λ t.
          IsImported name content targets now n t
            (import_zone d name content targets now db).1.tables)
        same
        (subst (λ (x : Result ℕ × Db). IsImported name content targets now n db1.tables x.1.tables)
          (sym whole) part)
