-- ===== src/Web/Deploying/Promoted.antt =====
-- What a deploy through `handleDeploy` leaves in the database.
use mrdns.Prelude.{
  ℕ, String, Bool, false, Option, none, some, Result, ok, err, ◌≡◌, refl, ◌∙◌, inl, inr, arith,
  Bool-cases,
}
use mrdns.Dns.{Dns}
use mrdns.Zone.{Zone}
use mrdns.Zone.Serial.{Time}
use mrdns.Db.{Db}
use mrdns.Store.{StoredZone, get_zone}
use mrdns.Store.Reading.{get_zone-IsReading, build-IsReading}
use mrdns.Store.Rendered.{build}
use mrdns.Store.Snapshots.{publish}
use mrdns.Deploy.{DeployResult, all_moved}
use mrdns.Deploy.Remote.{Remote, DeployError}
use mrdns.Web.Deploying.{
  Page, deployed, stopped, no_zone, no_deploy, handle_deploy, looked_up, rendered, bumped, settled,
  marked,
}

-- Whether a deploy moved its content into place on every target.
abbrev pub reaches_all : Page → Bool
reaches_all (deployed res) = all_moved res
reaches_all (stopped res e) = false
reaches_all (no_zone e) = false
reaches_all (no_deploy e) = false

module _ (d : Dns) (rem : Remote) (policy : String) (keep : ℕ) (now : Time) (stamp : String) where
  marked-moved :
      (res : DeployResult) (r : Result (Unit {0})) → all_moved (marked res r) ≡ all_moved res
  unfolding marked all_moved
  marked-moved res (ok u) = refl
  marked-moved res (err e) = refl

  settled-unmoved :
      (name content : String) (new : ℕ) (r : DeployResult × Option DeployError) (db : Db)
      → reaches_all (settled d rem policy keep now stamp name content new r db).0 ≡ false
      → (settled d rem policy keep now stamp name content new r db).1.tables ≡ db.tables
  unfolding settled
  settled-unmoved name content new (res, some e) db h = refl
  settled-unmoved name content new (res, none) db h = elim (Bool-cases (all_moved res)) [
    | inl e ↦
        absurd (ground (arith, e, marked-moved res (publish keep name content new stamp db).0))
    | inr e ↦ rw e refl
  ]

  bumped-unmoved :
      (name : String) (z : StoredZone) (b : Result (ℕ × ℕ) × Zone d) (db : Db)
      → reaches_all (bumped d rem policy keep now stamp name z b db).0 ≡ false
      → (bumped d rem policy keep now stamp name z b db).1.tables ≡ db.tables
  unfolding bumped
  bumped-unmoved name z (err e, built) db h = refl
  bumped-unmoved name z (ok (old, new), built) db h = settled-unmoved name _ new _ db h

  rendered-unmoved :
      (name : String) (z : StoredZone) (b : Result (Zone d) × Db)
      → reaches_all (rendered d rem policy keep now stamp name z b).0 ≡ false
      → (rendered d rem policy keep now stamp name z b).1.tables ≡ b.1.tables
  unfolding rendered
  rendered-unmoved name z (err e, db) h = refl
  rendered-unmoved name z (ok built, db) h = bumped-unmoved name z _ db h

  looked_up-unmoved :
      (name : String) (r : Result StoredZone × Db)
      → reaches_all (looked_up d rem policy keep now stamp name r).0 ≡ false
      → (looked_up d rem policy keep now stamp name r).1.tables ≡ r.1.tables
  unfolding looked_up
  looked_up-unmoved name (err e, db) h = refl
  looked_up-unmoved name (ok z, db) h =
      rendered-unmoved name z (build d name db) h ∙ (build-IsReading d name).same db

  -- A deploy that does not move its content into place on every target leaves every table as it
  -- was, the serial of the zone included, also when it moved the content on some of them.
  pub handle_deploy_unmoved :
      (name : String) (db : Db)
      → reaches_all (handle_deploy d rem policy keep now stamp name db).0 ≡ false
      → (handle_deploy d rem policy keep now stamp name db).1.tables ≡ db.tables
  unfolding handle_deploy
  handle_deploy_unmoved name db h =
      looked_up-unmoved name (get_zone name db) h ∙ (get_zone-IsReading name).same db
