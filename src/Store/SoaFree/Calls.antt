-- ===== src/Store/SoaFree/Calls.antt =====
-- The methods of internal/store/store.go that write keep the table of records free of SOA records,
-- those that take a record if it is no SOA record.
use mrdns.Prelude.{ℕ, String, false, not, List, [], ◌∷◌, ◌≡◌, arith, ◌==◌, All, select, zero, suc}
use mrdns.Dns.{Dns}
use mrdns.Zone.{Record}
use mrdns.Zone.Build.{data_records}
use mrdns.Db.Keeps.{Keeps, Keeps-exec, Keeps-bind, keeps_rules}
use mrdns.Store.{
  StoredZone, create_zone, update_zone_settings, set_serial, delete_zone, add_record, update_record,
  delete_record, not_found_if_no_rows, zone_exists,
}
use mrdns.Store.Snapshots.{publish}
use mrdns.Store.Import.{insert_records, import_rows, restore_rows, import_zone, restore_snapshot}
use mrdns.Store.SoaFree.{
  IsSoaFree, Holds-insert_zone, Holds-update_zone, Holds-insert_snapshot, Holds-prune,
  Holds-delete_zone_row, Holds-delete_records_of, Holds-delete_record_row, Holds-insert_record,
  Holds-update_record_row,
}

ruleset statements = (
  keeps_rules, Keeps-exec, Holds-insert_zone, Holds-update_zone, Holds-insert_snapshot, Holds-prune,
  Holds-delete_zone_row, Holds-delete_records_of, Holds-delete_record_row,
)

not_found_if_no_rows-Keeps : (n : ℕ) → Keeps IsSoaFree (not_found_if_no_rows n)
unfolding not_found_if_no_rows
not_found_if_no_rows-Keeps zero = search keeps_rules
not_found_if_no_rows-Keeps (suc n) = search keeps_rules

pub create_zone-Keeps : (z : StoredZone) (now : String) → Keeps IsSoaFree (create_zone z now)
unfolding create_zone
create_zone-Keeps z now = search statements

pub update_zone_settings-Keeps : (z : StoredZone) → Keeps IsSoaFree (update_zone_settings z)
unfolding update_zone_settings
update_zone_settings-Keeps z = search (statements, not_found_if_no_rows-Keeps)

set_serial-Keeps : (name : String) (n : ℕ) → Keeps IsSoaFree (set_serial name n)
unfolding set_serial
set_serial-Keeps name n = search (statements, not_found_if_no_rows-Keeps)

pub delete_zone-Keeps : (name : String) → Keeps IsSoaFree (delete_zone name)
unfolding delete_zone
delete_zone-Keeps name = search (statements, not_found_if_no_rows-Keeps)

pub delete_record-Keeps : (zone : String) (id : ℕ) → Keeps IsSoaFree (delete_record zone id)
unfolding delete_record
delete_record-Keeps zone id = search (statements, not_found_if_no_rows-Keeps)

pub publish-Keeps :
    (keep : ℕ) (name content : String) (serial : ℕ) (now : String)
    → Keeps IsSoaFree (publish keep name content serial now)
unfolding publish
publish-Keeps keep name content serial now = search (statements, set_serial-Keeps)

zone_exists-Keeps : (name : String) → Keeps IsSoaFree (zone_exists name)
unfolding zone_exists
zone_exists-Keeps name = search keeps_rules

pub add_record-Keeps :
    (zone : String) (r : Record) → (r.type == "SOA") ≡ false → Keeps IsSoaFree (add_record zone r)
unfolding add_record
add_record-Keeps zone r h = Keeps-exec _ (Holds-insert_record zone r.name r.ttl r.type r.rdata h)

pub update_record-Keeps :
    (zone : String) (id : ℕ) (r : Record)
    → (r.type == "SOA") ≡ false
    → Keeps IsSoaFree (update_record zone id r)
unfolding update_record
update_record-Keeps zone id r h =
    Keeps-bind _ _ (Keeps-exec _ (Holds-update_record_row zone r.name r.ttl r.type r.rdata h id))
      not_found_if_no_rows-Keeps

insert_records-Keeps :
    (zone : String) (rs : List Record)
    → All (λ (r : Record). (r.type == "SOA") ≡ false) rs
    → Keeps IsSoaFree (insert_records zone rs)
unfolding insert_records
insert_records-Keeps zone [] h = search keeps_rules
insert_records-Keeps zone (r ∷ rs) (h, hs) =
    Keeps-bind _ _ (Keeps-exec _ (Holds-insert_record zone r.name r.ttl r.type r.rdata h))
      (λ _. insert_records-Keeps zone rs hs)

select-plain :
    (rs : List Record)
    → All (λ (r : Record). (r.type == "SOA") ≡ false) (select (λ r. not (r.type == "SOA")) rs)
select-plain [] = tt
select-plain (r ∷ rs) = ground (arith, select-plain rs)

module _ (d : Dns) where
  pub import_zone-Keeps :
      (name content : String) (targets : List String) (now : String)
      → Keeps IsSoaFree (import_zone d name content targets now)
  unfolding import_zone import_rows data_records
  import_zone-Keeps name content targets now =
      search (statements, zone_exists-Keeps, insert_records-Keeps, select-plain) depth 12

  pub restore_snapshot-Keeps :
      (name : String) (id : ℕ) → Keeps IsSoaFree (restore_snapshot d name id)
  unfolding restore_snapshot restore_rows data_records
  restore_snapshot-Keeps name id = search (statements, insert_records-Keeps, select-plain) depth 12
