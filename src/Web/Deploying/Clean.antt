-- ===== src/Web/Deploying/Clean.antt =====
-- A zone has no changes right after its deploy is promoted.
use mathlib.Core.Path.{subst}
use mrdns.Prelude.{
  ℕ, ◌<◌, String, true, false, Option, none, some, Result, ok, err, ◌≡◌, refl, ap, sym, ◌∙◌,
  Bool-cases, inl, inr,
}
use mrdns.Dns.{Dns}
use mrdns.Zone.{Zone, render}
use mrdns.Zone.Serial.{Time, bump_serial}
use mrdns.Db.{Db, Tables}
use mrdns.Db.Invariant.{IsWellFormed}
use mrdns.Store.{StoredZone, get_zone}
use mrdns.Store.Rendered.{build, dirty}
use mrdns.Store.Rendered.Clean.{
  quiet_db, ReadsSerial, clean_after_publish, get_zone_still, build_still,
}
use mrdns.Store.Snapshots.{publish}
use mrdns.Deploy.{DeployResult, all_moved}
use mrdns.Deploy.Remote.{Remote, DeployError}
use mrdns.Deploy.Pipeline.Outcome.{deploy_fields}
use mrdns.Web.Deploying.{request_for, deployed, handle_deploy, looked_up, rendered, bumped, settled}
use mrdns.Web.Deploying.Published.{marked_sound, same_result}

module _ (d : Dns) (rem : Remote) (policy : String) (keep : ℕ) (now : Time) (stamp : String) where
  settled-clean :
      (name content : String) (new : ℕ) (r : DeployResult × Option DeployError) (db : Db)
      (res : DeployResult)
      → r.0.promoted ≡ false
      → r.0.new_serial ≡ new
      → (res.new_serial ≡ new
          → (publish keep name content new stamp db).0 ≡ ok tt
          → (dirty d name (publish keep name content new stamp db).1).0 ≡ ok false)
      → (settled d rem policy keep now stamp name content new r db).0 ≡ deployed res
      → res.promoted ≡ true
      → (dirty d name (settled d rem policy keep now stamp name content new r db).1).0 ≡ ok false
  unfolding settled
  settled-clean name content new (res0, some e) db res f n clean h p = cc
  settled-clean name content new (res0, none) db res f n clean h p =
      elim (Bool-cases (all_moved res0)) [
        | inl e ↦
            let (done, moved, serial) =
              marked_sound d rem policy keep now stamp res0 res
                (publish keep name content new stamp db).0 f (rw e at h) p in
            rw e (clean (serial ∙ n) done)
        | inr e ↦
            absurd
              (cc (f, p, ap (λ (x : DeployResult). x.promoted) (same_result res0 res (rw e at h))))
      ]

  bumped-clean :
      (name : String) (z : StoredZone) (built : Zone d) (b : Result (ℕ × ℕ) × Zone d) (t : Tables)
      (res : DeployResult)
      → 0 < keep
      → IsWellFormed t
      → ReadsSerial d name t res.new_serial
      → (build d name (quiet_db t)).0 ≡ ok built
      → bump_serial d built policy now ≡ b
      → (bumped d rem policy keep now stamp name z b (quiet_db t)).0 ≡ deployed res
      → res.promoted ≡ true
      → (dirty d name (bumped d rem policy keep now stamp name z b (quiet_db t)).1).0 ≡ ok false
  unfolding bumped
  bumped-clean name z built (err e, after) t res k wf law made bump h p = cc
  bumped-clean name z built (ok (old, new), after) t res k wf law made bump h p =
      let fields =
        deploy_fields d rem
          (request_for d rem policy keep now stamp name z (render d after) old new) in
      settled-clean name (render d after) new _ (quiet_db t) res fields.0 fields.1
        (λ n.
          clean_after_publish d keep name policy now stamp t built after old new k wf
            (subst (λ x. ReadsSerial d name t x) n law) made bump)
        h p

  rendered-clean :
      (name : String) (z : StoredZone) (b : Result (Zone d)) (t : Tables) (res : DeployResult)
      → 0 < keep
      → IsWellFormed t
      → ReadsSerial d name t res.new_serial
      → (build d name (quiet_db t)).0 ≡ b
      → (rendered d rem policy keep now stamp name z (b, quiet_db t)).0 ≡ deployed res
      → res.promoted ≡ true
      → (dirty d name (rendered d rem policy keep now stamp name z (b, quiet_db t)).1).0 ≡ ok false
  unfolding rendered
  rendered-clean name z (err e) t res k wf law made h p = cc
  rendered-clean name z (ok built) t res k wf law made h p =
      bumped-clean name z built _ t res k wf law made refl h p

  looked_up-clean :
      (name : String) (r : Result StoredZone) (t : Tables) (res : DeployResult)
      → 0 < keep
      → IsWellFormed t
      → ReadsSerial d name t res.new_serial
      → (looked_up d rem policy keep now stamp name (r, quiet_db t)).0 ≡ deployed res
      → res.promoted ≡ true
      → (dirty d name (looked_up d rem policy keep now stamp name (r, quiet_db t)).1).0 ≡ ok false
  unfolding looked_up
  looked_up-clean name (err e) t res k wf law h p = cc
  looked_up-clean name (ok z) t res k wf law h p =
      subst
        (λ x.
          (rendered d rem policy keep now stamp name z ((build d name (quiet_db t)).0, x)).0
            ≡ deployed res
          → (dirty d name
              (rendered d rem policy keep now stamp name z ((build d name (quiet_db t)).0, x)).1).0
            ≡ ok false)
        (sym (build_still d name t)) (λ g. rendered-clean name z _ t res k wf law refl g p) h

  -- When the driver fails no statement: a zone whose deploy is reported as promoted, on tables that
  -- are well formed, is one without changes since its last deploy, if at least one snapshot is kept
  -- and the parser reads the new serial in the settings of the zone as the serial of its SOA record.
  pub handle_deploy-clean :
      (name : String) (t : Tables) (res : DeployResult)
      → 0 < keep
      → IsWellFormed t
      → ReadsSerial d name t res.new_serial
      → (handle_deploy d rem policy keep now stamp name (quiet_db t)).0 ≡ deployed res
      → res.promoted ≡ true
      → (dirty d name (handle_deploy d rem policy keep now stamp name (quiet_db t)).1).0 ≡ ok false
  unfolding handle_deploy
  handle_deploy-clean name t res k wf law h p =
      subst
        (λ x.
          (looked_up d rem policy keep now stamp name ((get_zone name (quiet_db t)).0, x)).0
            ≡ deployed res
          → (dirty d name
              (looked_up d rem policy keep now stamp name ((get_zone name (quiet_db t)).0, x)).1).0
            ≡ ok false)
        (sym (get_zone_still d name t)) (λ g. looked_up-clean name _ t res k wf law g p) h
