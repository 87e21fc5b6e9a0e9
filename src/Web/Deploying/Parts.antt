-- ===== src/Web/Deploying/Parts.antt =====
-- The steps that `handleDeploy` has taken when it shows the result of a deploy.
use mrdns.Prelude.{ℕ, String, Result, ok, err, ◌≡◌, refl, sym, ap, ◌∙◌}
use mrdns.Dns.{Dns}
use mrdns.Zone.{Zone, render}
use mrdns.Zone.Serial.{Time, bump_serial}
use mrdns.Db.{Db}
use mrdns.Store.{StoredZone, get_zone}
use mrdns.Store.Rendered.{build}
use mrdns.Deploy.{DeployResult}
use mrdns.Deploy.Remote.{Remote}
use mrdns.Deploy.Pipeline.{deploy}
use mrdns.Web.Deploying.{
  Page, request_for, deployed, handle_deploy, looked_up, rendered, bumped, settled,
}

module _ (d : Dns) (rem : Remote) (policy : String) (keep : ℕ) (now : Time) (stamp : String) where
  -- What the steps before the deploy gave, and that the rest of the handler ran on it.
  pub record Parts (name : String) (db : Db) : Type 0 where
    pub zone : StoredZone
    pub built : Zone d
    pub old : ℕ
    pub new : ℕ
    pub found : (get_zone name db).0 ≡ ok zone
    pub made : (build d name (get_zone name db).1).0 ≡ ok built
    pub bumps : (bump_serial d built policy now).0 ≡ ok (old, new)
    pub rest :
        let content = render d (bump_serial d built policy now).1 in
        handle_deploy d rem policy keep now stamp name db
        ≡ settled d rem policy keep now stamp name content new
            (deploy d rem (request_for d rem policy keep now stamp name zone content old new))
            (build d name (get_zone name db).1).1

  bumped_parts :
      (name : String) (z : StoredZone) (b : Result (ℕ × ℕ) × Zone d) (db : Db) (res : DeployResult)
      → (bumped d rem policy keep now stamp name z b db).0 ≡ deployed res
      → (old : ℕ) × (new : ℕ) × (b.0 ≡ ok (old, new))
        × (bumped d rem policy keep now stamp name z b db
            ≡ settled d rem policy keep now stamp name
                (render d b.1)
                new
                (deploy d rem
                  (request_for d rem policy keep now stamp name z (render d b.1) old new))
                db)
  unfolding bumped
  bumped_parts name z (err e, after) db res h = cc
  bumped_parts name z (ok (old, new), after) db res h = (old, new, refl, refl)

  rendered_parts :
      (name : String) (z : StoredZone) (b : Result (Zone d) × Db) (res : DeployResult)
      → (rendered d rem policy keep now stamp name z b).0 ≡ deployed res
      → (built : Zone d) × (b.0 ≡ ok built)
        × (rendered d rem policy keep now stamp name z b
            ≡ bumped d rem policy keep now stamp name z (bump_serial d built policy now) b.1)
  unfolding rendered
  rendered_parts name z (err e, db) res h = cc
  rendered_parts name z (ok built, db) res h = (built, refl, refl)

  looked_up_parts :
      (name : String) (r : Result StoredZone × Db) (res : DeployResult)
      → (looked_up d rem policy keep now stamp name r).0 ≡ deployed res
      → (z : StoredZone) × (r.0 ≡ ok z)
        × (looked_up d rem policy keep now stamp name r
            ≡ rendered d rem policy keep now stamp name z (build d name r.1))
  unfolding looked_up
  looked_up_parts name (err e, db) res h = cc
  looked_up_parts name (ok z, db) res h = (z, refl, refl)

  pub page_of : {x y : Page × Db} {p : Page} → x ≡ y → x.0 ≡ p → y.0 ≡ p
  page_of e h = ap (λ (q : Page × Db). q.0) (sym e) ∙ h

  pub handle_deploy-Parts :
      (name : String) (db : Db) (res : DeployResult)
      → (handle_deploy d rem policy keep now stamp name db).0 ≡ deployed res
      → Parts name db
  unfolding handle_deploy
  handle_deploy-Parts name db res h =
      let (z, found, r1) = looked_up_parts name (get_zone name db) res h in
      let (built, made, r2) = rendered_parts name z _ res (page_of r1 h) in
      let (old, new, bumps, r3) =
        bumped_parts name z (bump_serial d built policy now) _ res (page_of r2 (page_of r1 h)) in
      record {
        zone = z;
        built = built;
        old = old;
        new = new;
        found = found;
        made = made;
        bumps = bumps;
        rest = r1 ∙ r2 ∙ r3;
      }
