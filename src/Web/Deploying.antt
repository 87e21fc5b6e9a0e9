-- ===== src/Web/Deploying.antt =====
-- `handleDeploy` of internal/web/zones.go: the store, the serial, the pipeline and the publish put
-- together. Its page, the counters and the audit event are in Web/Handlers/Zones.antt.
pub mod Parts
pub mod Promoted
pub mod Published
pub mod Restored
pub mod Clean
use mrdns.Prelude.{
  ℕ, String, Bool, true, false, Option, none, some, Result, ok, err, Error, if◌then◌else◌,
}
use mrdns.Dns.{Dns}
use mrdns.Zone.{Zone, render}
use mrdns.Zone.Serial.{Time, bump_serial}
use mrdns.Db.{Db, Exec}
use mrdns.Store.{StoredZone, get_zone}
use mrdns.Store.Rendered.{build}
use mrdns.Store.Snapshots.{publish}
use mrdns.Deploy.{DeployResult, all_moved}
use mrdns.Deploy.Remote.{Remote, Request, DeployError}
use mrdns.Deploy.Pipeline.{deploy}

-- The answer: what `zoneOK` says of an error, the page of an error, or the page of a result.
pub data Page : Type 0 where
  no_zone : Error → Page
  no_deploy : Error → Page
  stopped : DeployResult → DeployError → Page
  deployed : DeployResult → Page

unfoldable pub marked : DeployResult → Result (Unit {0}) → DeployResult
marked res (ok u) = record res { promoted = true }
marked res (err e) = res

module _ (d : Dns) (rem : Remote) (policy : String) (keep : ℕ) (now : Time) (stamp : String) where
  abbrev pub request_for : String → StoredZone → String → ℕ → ℕ → Request
  request_for name z content old new = record {
    zone = name;
    content = content;
    old_serial = old;
    new_serial = new;
    targets = z.targets;
  }

  unfoldable pub settled : String → String → ℕ → DeployResult × Option DeployError → Db → Page × Db
  unfolding marked
  settled name content new (res, some e) db = (stopped res e, db)
  settled name content new (res, none) db =
      let (r, db') = publish keep name content new stamp db in
      if all_moved res then (deployed (marked res r), db') else (deployed res, db)

  unfoldable pub bumped : String → StoredZone → Result (ℕ × ℕ) × Zone d → Db → Page × Db
  unfolding settled
  bumped name z (err e, built) db = (no_deploy e, db)
  bumped name z (ok (old, new), built) db =
      let content = render d built in
      settled name content new (deploy d rem (request_for name z content old new)) db

  unfoldable pub rendered : String → StoredZone → Result (Zone d) × Db → Page × Db
  unfolding bumped
  rendered name z (err e, db) = (no_deploy e, db)
  rendered name z (ok built, db) = bumped name z (bump_serial d built policy now) db

  unfoldable pub looked_up : String → Result StoredZone × Db → Page × Db
  unfolding rendered
  looked_up name (err e, db) = (no_zone e, db)
  looked_up name (ok z, db) = rendered name z (build d name db)

  unfoldable pub handle_deploy : String → Db → Page × Db
  unfolding looked_up
  handle_deploy name db = looked_up name (get_zone name db)
