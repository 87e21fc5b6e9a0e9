-- ===== src/Store/Rendered.antt =====
-- `Build` and `Dirty` of internal/store/store.go: the zone as it would be deployed now, and
-- whether that differs from the last deploy.
pub mod Clean
use mrdns.Prelude.{String, Bool, true, not, Option, none, some, map, Result, ok, err, ◌==◌}
use mrdns.Dns.{Dns}
use mrdns.Zone.{Zone, render}
use mrdns.Zone.Build.{build as build_zone}
use mrdns.Db.{Exec, lift, ◌>>=◌}
use mrdns.Store.{stored_soa_data, get_zone, records}
use mrdns.Store.Snapshots.{Snapshot, last_snapshot}

module _ (d : Dns) where
  unfoldable pub build : String → Exec (Zone d)
  build name = do
    z ← get_zone name
    recs ← records name
    lift (build_zone d z.name (stored_soa_data z) (map (λ r. r.row) recs))

  -- an error of `Build` counts as a change
  differs : Result (Zone d) → Snapshot → Bool
  differs (err e) snap = true
  differs (ok z) snap = not (render d z == snap.content)

  unfoldable pub against : String → Option Snapshot → Exec Bool
  unfolding differs
  against name none db = (ok true, db)
  against name (some snap) db = let (r, db') = build name db in (ok (differs r snap), db')

  unfoldable pub dirty : String → Exec Bool
  dirty name = do snap ← last_snapshot name; against name snap
