-- ===== src/Store/Outcomes.antt =====
-- What the methods of internal/store/store.go that write answer when the driver fails no statement.
use mrdns.Prelude.{
  ℕ, String, true, false, List, [], ◌∷◌, length, Result, ok, err, not_found, already_exists,
  unique_violated, foreign_key_violated, ◌≡◌, refl, ap, ◌∙◌, arith, eq_refl, ltb, if◌then◌else◌,
  Bool-cases, inl, inr,
}
use mrdns.Dns.{Dns}
use mrdns.Zone.{Record, Zone, parse}
use mrdns.Zone.Build.{SoaData, soa_data, data_records}
use mrdns.Db.{ZoneRow, Tables, Db, Exec, exec, pure, raise, lift, ◌>>=◌, transaction}
use mrdns.Db.Sql.{
  insert_zone, update_zone, delete_zone_row, insert_record, has_zone, zone_named, touched,
}
use mrdns.Db.Invariant.{has_zone-append}
use mrdns.Store.{
  StoredZone, create_zone, update_zone_settings, delete_zone, add_record, not_found_if_no_rows,
  apply_defaults, zone_row, zone_exists,
}
use mrdns.Store.Snapshots.{publish}
use mrdns.Store.Snapshots.Publish.{publish_outcome, touched_zero}
use mrdns.Store.Import.{import_zone, import_rows, insert_records, imported_zone}

-- A database whose driver fails nothing.
abbrev pub sound : Tables → Db
sound t = record { tables = t; faults = [] }

-- A run that ends well there.
abbrev EndsWell : {A : Type 0} → Result A × Db → A → Type 0
EndsWell r a = (t : Tables) × (r ≡ (ok a, sound t))

record_inserted :
    (zone : String) (r : Record) (t : Tables)
    → has_zone zone t.zones ≡ true
    → (u : Tables) × (exec (insert_record zone r.name r.ttl r.type r.rdata) (sound t)
        ≡ (ok t.next_record, sound u))
      × (u.zones ≡ t.zones)
unfolding exec insert_record
record_inserted zone r t h = (
  (exec (insert_record zone r.name r.ttl r.type r.rdata) (sound t)).1.tables,
  rw h refl,
  rw h refl,
)

insert_records-EndsWell :
    (zone : String) (rs : List Record) (t : Tables)
    → has_zone zone t.zones ≡ true
    → EndsWell (insert_records zone rs (sound t)) tt
unfolding insert_records pure ◌>>=◌
insert_records-EndsWell zone [] t h = (t, refl)
insert_records-EndsWell zone (r ∷ rs) t h =
    let (u, e, k) = record_inserted zone r t h in
    let (v, f) = insert_records-EndsWell zone rs u (ap (has_zone zone) k ∙ h) in (v, rw e f)

transaction-EndsWell :
    {A : Type 0} (body : Exec A) (a : A) (t : Tables)
    → EndsWell (body (sound t)) a
    → EndsWell (transaction body (sound t)) a
unfolding transaction ◌>>=◌ exec pure
transaction-EndsWell body a t (u, e) = (u, rw e refl)

zone_inserted :
    (z : ZoneRow) (t : Tables)
    → has_zone z.name t.zones ≡ false
    → (u : Tables) × (exec (insert_zone z) (sound t) ≡ (ok tt, sound u))
      × (has_zone z.name u.zones ≡ true)
unfolding exec insert_zone
zone_inserted z t h = (
  (exec (insert_zone z) (sound t)).1.tables,
  rw h refl,
  rw h ground (arith, has_zone-append z.name t.zones (z ∷ []), eq_refl z.name),
)

import_rows-EndsWell :
    (z : StoredZone) (rs : List Record) (now : String) (t : Tables)
    → has_zone z.name t.zones ≡ false
    → EndsWell (import_rows z rs now (sound t)) tt
unfolding import_rows zone_row ◌>>=◌
import_rows-EndsWell z rs now t h = transaction-EndsWell _ tt t (
    let (u, e, k) = zone_inserted (zone_row z now) t h in
    let (v, f) = insert_records-EndsWell z.name rs u k in (v, rw e f))

known :
    (name : String) (t : Tables) → ltb 0 (touched (zone_named name) t.zones) ≡ has_zone name t.zones
known name t = ground (arith, touched_zero name t.zones)

create_zone_outcome :
    (z : StoredZone) (now : String) (t : Tables)
    → (create_zone z now (sound t)).0
      ≡ (if has_zone z.name t.zones then err unique_violated else ok tt)
unfolding create_zone exec insert_zone zone_row apply_defaults
create_zone_outcome z now t = ground arith

update_zone_settings_outcome :
    (z : StoredZone) (t : Tables)
    → (update_zone_settings z (sound t)).0
      ≡ (if has_zone z.name t.zones then ok tt else err not_found)
unfolding update_zone_settings exec ◌>>=◌ not_found_if_no_rows pure raise update_zone apply_defaults
update_zone_settings_outcome z t = ground (arith, touched_zero z.name t.zones)

delete_zone_outcome :
    (name : String) (t : Tables)
    → (delete_zone name (sound t)).0 ≡ (if has_zone name t.zones then ok tt else err not_found)
unfolding delete_zone exec ◌>>=◌ not_found_if_no_rows pure raise delete_zone_row
delete_zone_outcome name t = ground (arith, touched_zero name t.zones)

add_record_outcome :
    (zone : String) (r : Record) (t : Tables)
    → (add_record zone r (sound t)).0
      ≡ (if has_zone zone t.zones then ok t.next_record else err foreign_key_violated)
unfolding add_record exec insert_record
add_record_outcome zone r t = ground arith

module _ (d : Dns) where
  -- How many records a zone file has beside its SOA record, or the error of reading it.
  with_soa : Zone d → Result SoaData → Result ℕ
  with_soa z (err e) = err e
  with_soa z (ok s) = ok (length (data_records d z))

  with_zone : Result (Zone d) → Result ℕ
  with_zone (err e) = err e
  with_zone (ok z) = with_soa z (soa_data d z)

  unfoldable pub records_in : String → String → Result ℕ
  unfolding with_zone with_soa
  records_in name content = with_zone (parse d content name)

  module _ (name : String) (targets : List String) (now : String) (t : Tables)
      (fresh : has_zone name t.zones ≡ false) where
    soa_read :
        (z : Zone d) (r : Result SoaData)
        → ((lift r >>= λ s.
              import_rows (apply_defaults (imported_zone name s targets)) (data_records d z) now
              >>= λ u. pure (length (data_records d z)))
            (sound t)).0
          ≡ with_soa z r
    unfolding lift ◌>>=◌ pure with_soa
    soa_read z (err e) = refl
    soa_read z (ok s) =
        let zr = apply_defaults (imported_zone name s targets) in
        let (u, e) =
          import_rows-EndsWell zr (data_records d z) now t (unfold apply_defaults in fresh) in
        rw e refl

    zone_read :
        (r : Result (Zone d))
        → ((lift r >>= λ z. lift (soa_data d z) >>= λ s.
              import_rows (apply_defaults (imported_zone name s targets)) (data_records d z) now
              >>= λ u. pure (length (data_records d z)))
            (sound t)).0
          ≡ with_zone r
    unfolding lift ◌>>=◌ pure with_zone
    zone_read (err e) = refl
    zone_read (ok z) = soa_read z (soa_data d z)

  import_zone_outcome :
      (name content : String) (targets : List String) (now : String) (t : Tables)
      → (import_zone d name content targets now (sound t)).0
        ≡ (if has_zone name t.zones then err (already_exists name) else records_in name content)
  unfolding import_zone records_in zone_exists exec ◌>>=◌ pure raise
  import_zone_outcome name content targets now t = elim (Bool-cases (has_zone name t.zones)) [
    | inl e ↦ rw (known name t ∙ e, e) refl
    | inr e ↦ rw (known name t ∙ e, e) (zone_read name targets now t e (parse d content name))
  ]

-- When the driver fails no statement, a write succeeds exactly when what it writes to is there: a
-- zone is created or imported when no zone has its name, and the import then gives what its content
-- gives, the number of the other records or the error of the parser or of a missing SOA record; and
-- settings are saved, a zone is deleted, a record is added and a deploy is published when the zone
-- exists, and answered with ErrNotFound, or for the record with the broken foreign key, otherwise.
pub writes_outcome :
    (d : Dns) (t : Tables) (z : StoredZone) (r : Record) (name content now : String)
    (targets : List String) (keep serial : ℕ)
    → let there = has_zone name t.zones in
      ((create_zone (record z { name = name }) now (sound t)).0
        ≡ (if there then err unique_violated else ok tt))
      × ((import_zone d name content targets now (sound t)).0
          ≡ (if there then err (already_exists name) else records_in d name content))
      × ((update_zone_settings (record z { name = name }) (sound t)).0
          ≡ (if there then ok tt else err not_found))
      × ((delete_zone name (sound t)).0 ≡ (if there then ok tt else err not_found))
      × ((add_record name r (sound t)).0
          ≡ (if there then ok t.next_record else err foreign_key_violated))
      × ((publish keep name content serial now (sound t)).0
          ≡ (if there then ok tt else err not_found))
writes_outcome d t z r name content now targets keep serial = (
  create_zone_outcome (record z { name = name }) now t,
  import_zone_outcome d name content targets now t,
  update_zone_settings_outcome (record z { name = name }) t,
  delete_zone_outcome name t,
  add_record_outcome name r t,
  publish_outcome keep name content serial now t,
)
