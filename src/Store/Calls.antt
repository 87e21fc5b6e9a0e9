-- ===== src/Store/Calls.antt =====
-- Sequences of calls of the methods of internal/store/store.go that write, from an empty database,
-- with any faults of the driver: the invariant of the tables holds throughout.
use mrdns.Prelude.{ℕ, zero, suc, String, List, [], ◌∷◌, Option, refl}
use mrdns.Dns.{Dns}
use mrdns.Zone.{Record}
use mrdns.Zone.Build.{SoaData}
use mrdns.Db.{Db, empty}
use mrdns.Db.Keeps.{Keeps, Keeps-exec, Keeps-bind, Keeps-transaction, keeps_rules}
use mrdns.Db.Invariant.{IsWellFormed}
use mrdns.Db.WellFormed.{
  Holds-insert_zone, Holds-update_zone, Holds-delete_zone_row, Holds-insert_record,
  Holds-insert_snapshot, Holds-update_record_row, Holds-delete_record_row, Holds-delete_records_of,
  Holds-prune,
}
use mrdns.Store.{
  StoredZone, create_zone, update_zone_settings, set_serial, delete_zone, add_record, update_record,
  delete_record, not_found_if_no_rows, zone_exists,
}
use mrdns.Store.Snapshots.{publish}
use mrdns.Store.Import.{import_zone, restore_snapshot, import_rows, restore_rows, insert_records}

ruleset statements = (
  keeps_rules, Keeps-exec, Holds-insert_zone, Holds-delete_zone_row, Holds-insert_record,
  Holds-insert_snapshot, Holds-update_record_row, Holds-delete_record_row, Holds-delete_records_of,
  Holds-prune,
)

-- A call of a method that writes, with its arguments.
pub data Call : Type 0 where
  creates : StoredZone → String → Call
  updates_settings : StoredZone → Call
  sets_serial : String → ℕ → Call
  deletes_zone : String → Call
  imports : String → String → List String → String → Call
  adds : String → Record → Call
  updates : String → ℕ → Record → Call
  deletes : String → ℕ → Call
  publishes : String → String → ℕ → String → Call
  restores : String → ℕ → Call

module _ (d : Dns) (keep : ℕ) where
  -- The database after a call, whether it returns an error or not.
  pub after : Call → Db → Db
  after (creates z now) db = (create_zone z now db).1
  after (updates_settings z) db = (update_zone_settings z db).1
  after (sets_serial name n) db = (set_serial name n db).1
  after (deletes_zone name) db = (delete_zone name db).1
  after (imports name content targets now) db = (import_zone d name content targets now db).1
  after (adds zone r) db = (add_record zone r db).1
  after (updates zone id r) db = (update_record zone id r db).1
  after (deletes zone id) db = (delete_record zone id db).1
  after (publishes name content serial now) db = (publish keep name content serial now db).1
  after (restores name id) db = (restore_snapshot d name id db).1

  pub after_all : List Call → Db → Db
  after_all [] db = db
  after_all (c ∷ cs) db = after_all cs (after c db)

not_found_if_no_rows-Keeps : (n : ℕ) → Keeps IsWellFormed (not_found_if_no_rows n)
unfolding not_found_if_no_rows
not_found_if_no_rows-Keeps zero = search keeps_rules
not_found_if_no_rows-Keeps (suc n) = search keeps_rules

set_serial-Keeps : (name : String) (n : ℕ) → Keeps IsWellFormed (set_serial name n)
unfolding set_serial
set_serial-Keeps name n = search (
  statements,
  not_found_if_no_rows-Keeps,
  Holds-update_zone name (λ r. record r { serial = n }) (λ z. refl),
)

pub create_zone-Keeps : (z : StoredZone) (now : String) → Keeps IsWellFormed (create_zone z now)
unfolding create_zone
create_zone-Keeps z now = search statements

pub update_zone_settings-Keeps : (z : StoredZone) → Keeps IsWellFormed (update_zone_settings z)
unfolding update_zone_settings
update_zone_settings-Keeps z =
    Keeps-bind _ _ (Keeps-exec _ (Holds-update_zone _ _ (λ z. refl))) not_found_if_no_rows-Keeps

pub delete_zone-Keeps : (name : String) → Keeps IsWellFormed (delete_zone name)
unfolding delete_zone
delete_zone-Keeps name = search (statements, not_found_if_no_rows-Keeps)

insert_records-Keeps :
    (zone : String) (rs : List Record) → Keeps IsWellFormed (insert_records zone rs)
unfolding insert_records
insert_records-Keeps zone [] = search keeps_rules
insert_records-Keeps zone (r ∷ rs) =
    Keeps-bind _ _ (Keeps-exec _ (Holds-insert_record zone r.name r.ttl r.type r.rdata))
      (λ _. insert_records-Keeps zone rs)

import_rows-Keeps :
    (z : StoredZone) (rs : List Record) (now : String) → Keeps IsWellFormed (import_rows z rs now)
unfolding import_rows
import_rows-Keeps z rs now = search (statements, insert_records-Keeps)

zone_exists-Keeps : (name : String) → Keeps IsWellFormed (zone_exists name)
unfolding zone_exists
zone_exists-Keeps name = search keeps_rules

pub add_record-Keeps : (zone : String) (r : Record) → Keeps IsWellFormed (add_record zone r)
unfolding add_record
add_record-Keeps zone r = search statements

pub update_record-Keeps :
    (zone : String) (id : ℕ) (r : Record) → Keeps IsWellFormed (update_record zone id r)
unfolding update_record
update_record-Keeps zone id r = search (statements, not_found_if_no_rows-Keeps)

pub delete_record-Keeps : (zone : String) (id : ℕ) → Keeps IsWellFormed (delete_record zone id)
unfolding delete_record
delete_record-Keeps zone id = search (statements, not_found_if_no_rows-Keeps)

pub publish-Keeps :
    (keep : ℕ) (name content : String) (serial : ℕ) (now : String)
    → Keeps IsWellFormed (publish keep name content serial now)
unfolding publish
publish-Keeps keep name content serial now = search (statements, set_serial-Keeps)

restore_rows-Keeps :
    (name : String) (s : SoaData) (rs : List Record) → Keeps IsWellFormed (restore_rows name s rs)
unfolding restore_rows
restore_rows-Keeps name s rs = Keeps-transaction _ (
    Keeps-bind _ _ (Keeps-exec _ (Holds-update_zone _ _ (λ z. refl)))
      (λ _. search (statements, insert_records-Keeps)))

module _ (d : Dns) where
  pub import_zone-Keeps :
      (name content : String) (targets : List String) (now : String)
      → Keeps IsWellFormed (import_zone d name content targets now)
  unfolding import_zone
  import_zone-Keeps name content targets now =
      search (keeps_rules, zone_exists-Keeps, import_rows-Keeps) depth 9

  pub restore_snapshot-Keeps :
      (name : String) (id : ℕ) → Keeps IsWellFormed (restore_snapshot d name id)
  unfolding restore_snapshot
  restore_snapshot-Keeps name id = search (keeps_rules, restore_rows-Keeps) depth 9

module _ (d : Dns) (keep : ℕ) where
  after-IsWellFormed :
      (c : Call) (db : Db) → IsWellFormed db.tables → IsWellFormed (after d keep c db).tables
  unfolding after
  after-IsWellFormed (creates z now) db h = (create_zone-Keeps z now).at db h
  after-IsWellFormed (updates_settings z) db h = (update_zone_settings-Keeps z).at db h
  after-IsWellFormed (sets_serial name n) db h = (set_serial-Keeps name n).at db h
  after-IsWellFormed (deletes_zone name) db h = (delete_zone-Keeps name).at db h
  after-IsWellFormed (imports name content targets now) db h =
      (import_zone-Keeps d name content targets now).at db h
  after-IsWellFormed (adds zone r) db h = (add_record-Keeps zone r).at db h
  after-IsWellFormed (updates zone id r) db h = (update_record-Keeps zone id r).at db h
  after-IsWellFormed (deletes zone id) db h = (delete_record-Keeps zone id).at db h
  after-IsWellFormed (publishes name content serial now) db h =
      (publish-Keeps keep name content serial now).at db h
  after-IsWellFormed (restores name id) db h = (restore_snapshot-Keeps d name id).at db h

  after_all-keeps :
      (cs : List Call) (db : Db)
      → IsWellFormed db.tables
      → IsWellFormed (after_all d keep cs db).tables
  unfolding after_all
  after_all-keeps [] db h = h
  after_all-keeps (c ∷ cs) db h = after_all-keeps cs (after d keep c db) (after-IsWellFormed c db h)

  -- Whatever calls are made on an empty database, and whatever statements the driver fails, zone
  -- names stay distinct, every record and every snapshot belongs to a zone that exists, and the
  -- ids of either ascend and lie below the next one to be given.
  pub after_all-IsWellFormed :
      (cs : List Call) (faults : List (Option String))
      → IsWellFormed (after_all d keep cs (record { tables = empty; faults = faults })).tables
  after_all-IsWellFormed cs faults =
      after_all-keeps cs (record { tables = empty; faults = faults })
        (record {
          names = tt;
          records_owned = tt;
          snapshots_owned = tt;
          record_ids = tt;
          records_below = tt;
          snapshot_ids = tt;
          snapshots_below = tt;
        })
