-- ===== src/Store/Import/Atomic.antt =====
-- An import or a restore that fails leaves every table as it was.
use mrdns.Prelude.{ℕ, String, List, length}
use mrdns.Dns.{Dns}
use mrdns.Zone.{Record}
use mrdns.Zone.Build.{data_records}
use mrdns.Db.Keeps.{
  IsAtomic, IsAtomic-bind, IsAtomic-reading, IsAtomic-if, IsAtomic-returns, IsReading-lift,
  IsReading-raise, atomic_rules,
}
use mrdns.Store.{StoredZone, zone_exists}
use mrdns.Store.Reading.{zone_exists-IsReading}
use mrdns.Store.Import.{import_zone, restore_snapshot, import_rows, restore_rows}

import_rows-IsAtomic :
    (zr : StoredZone) (recs : List Record) (now : String) → IsAtomic (import_rows zr recs now)
unfolding import_rows
import_rows-IsAtomic zr recs now = search atomic_rules

module _ (d : Dns) where
  pub import_zone-IsAtomic :
      (name content : String) (targets : List String) (now : String)
      → IsAtomic (import_zone d name content targets now)
  unfolding import_zone zone_exists
  import_zone-IsAtomic name content targets now =
      IsAtomic-bind (zone_exists name) _ (zone_exists-IsReading name) λ known.
        IsAtomic-if known _ _ (IsAtomic-reading _ (IsReading-raise _)) (
          IsAtomic-bind _ _ (IsReading-lift _) λ z.
            IsAtomic-bind _ _ (IsReading-lift _) λ s.
              IsAtomic-returns _ (λ _. length (data_records d z)) (import_rows-IsAtomic _ _ now))

  pub restore_snapshot-IsAtomic : (name : String) (id : ℕ) → IsAtomic (restore_snapshot d name id)
  unfolding restore_snapshot restore_rows
  restore_snapshot-IsAtomic name id = search (atomic_rules, IsAtomic-bind) depth 8

  -- Whatever statements the driver fails, an import or a restore that returns an error, from a
  -- check, the parser, a constraint or the driver, leaves every table as it was before the call.
  pub imports-IsAtomic :
      (name content : String) (targets : List String) (now : String) (id : ℕ)
      → IsAtomic (import_zone d name content targets now) × IsAtomic (restore_snapshot d name id)
  imports-IsAtomic name content targets now id =
      (import_zone-IsAtomic name content targets now, restore_snapshot-IsAtomic name id)
