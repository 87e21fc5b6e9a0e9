-- ===== src/Store/Laws.antt =====
-- The laws that an invariant of the tables takes from the methods of internal/store/store.go, and
-- two invariants that have them.
use mrdns.Prelude.{ℕ, String, false, List, ◌≡◌, ◌==◌}
use mrdns.Dns.{Dns}
use mrdns.Zone.{Record}
use mrdns.Db.{Tables}
use mrdns.Db.Keeps.{Keeps}
use mrdns.Store.{
  StoredZone, create_zone, update_zone_settings, delete_zone, add_record, update_record,
  delete_record,
}
use mrdns.Store.Snapshots.{publish}
use mrdns.Store.Import.{import_zone, restore_snapshot}
use mrdns.Db.Invariant.{IsWellFormed}
use mrdns.Store.Calls
use mrdns.Store.SoaFree.{IsSoaFree}
use mrdns.Store.SoaFree.Calls as Plain

-- The methods that write; a record that is stored is no SOA record.
pub record StoreLaws (d : Dns) (P : Tables → Type 0) : Type 0 where
  pub creates : (z : StoredZone) (now : String) → Keeps P (create_zone z now)
  pub imports :
      (name content : String) (targets : List String) (now : String)
      → Keeps P (import_zone d name content targets now)
  pub settles : (z : StoredZone) → Keeps P (update_zone_settings z)
  pub drops : (name : String) → Keeps P (delete_zone name)
  pub adds : (zone : String) (r : Record) → (r.type == "SOA") ≡ false → Keeps P (add_record zone r)
  pub updates :
      (zone : String) (id : ℕ) (r : Record)
      → (r.type == "SOA") ≡ false
      → Keeps P (update_record zone id r)
  pub deletes : (zone : String) (id : ℕ) → Keeps P (delete_record zone id)
  pub publishes :
      (keep : ℕ) (name content : String) (serial : ℕ) (now : String)
      → Keeps P (publish keep name content serial now)
  pub restores : (name : String) (id : ℕ) → Keeps P (restore_snapshot d name id)

pub IsWellFormed-StoreLaws : (d : Dns) → StoreLaws d IsWellFormed
IsWellFormed-StoreLaws d = record {
  creates = Calls.create_zone-Keeps;
  imports = Calls.import_zone-Keeps d;
  settles = Calls.update_zone_settings-Keeps;
  drops = Calls.delete_zone-Keeps;
  adds = λ zone r h. Calls.add_record-Keeps zone r;
  updates = λ zone id r h. Calls.update_record-Keeps zone id r;
  deletes = Calls.delete_record-Keeps;
  publishes = Calls.publish-Keeps;
  restores = Calls.restore_snapshot-Keeps d;
}

pub IsSoaFree-StoreLaws : (d : Dns) → StoreLaws d IsSoaFree
IsSoaFree-StoreLaws d = record {
  creates = Plain.create_zone-Keeps;
  imports = Plain.import_zone-Keeps d;
  settles = Plain.update_zone_settings-Keeps;
  drops = Plain.delete_zone-Keeps;
  adds = Plain.add_record-Keeps;
  updates = Plain.update_record-Keeps;
  deletes = Plain.delete_record-Keeps;
  publishes = Plain.publish-Keeps;
  restores = Plain.restore_snapshot-Keeps d;
}
