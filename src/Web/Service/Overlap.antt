-- ===== src/Web/Service/Overlap.antt =====
-- Deploys that overlap: internal/web/zones.go holds no lock from the reading of a zone to the publish,
-- so that other requests may change the zone in between.
use mathlib.Core.Path.{subst}
use mrdns.Prelude.{ℕ, String, true, none, Option, ok, [], ◌∷◌, take, ◌≡◌, refl, sym, ap, ◌∙◌}
use mrdns.Dns.{Dns}
use mrdns.Zone.{Zone, render}
use mrdns.Zone.Serial.{bump_serial}
use mrdns.Config.{Config}
use mrdns.Db.Invariant.{IsWellFormed}
use mrdns.Store.{StoredZone, get_zone, snapshots_kept}
use mrdns.Store.Rendered.{build}
use mrdns.Store.Snapshots.{publish, history, scan_snapshot}
use mrdns.Store.Snapshots.History.{new_row}
use mrdns.Store.Snapshots.Publish.{publish-history}
use mrdns.Deploy.{DeployResult, all_moved}
use mrdns.Deploy.Remote.{Request, DeployError}
use mrdns.Deploy.Pipeline.{deploy}
use mrdns.Web.Session.{Codec, HttpRequest}
use mrdns.Web.World.{World, run, ask, note, count, ◌>>=◌, on_result}
use mrdns.Web.Deploying.{no_zone, no_deploy}
use mrdns.Web.Moment.{Moment, configured}
use mrdns.Web.Handlers.Zones.{report, deployed_with, deploy_built, serve_deploy}
use mrdns.Web.Service.{Pending}
use mrdns.Web.Service.Turns.{turn, turns, drain}

module _ (d : Dns) (c : Codec) (cfg : Config) (m : Moment) (r : HttpRequest) (name : String) where
  -- what is left of a deploy when it has read the zone, with the state `w`
  abbrev pub read_at : World → Pending
  read_at w = (turns (0 ∷ 0 ∷ []) w (serve_deploy d c cfg m r name ∷ [])).1

  read_at-built :
      (w : World) (z : StoredZone) (built : Zone d)
      → (get_zone name w.db).0 ≡ ok z
      → (build d name (get_zone name w.db).1).0 ≡ ok built
      → read_at w
        ≡ deploy_built d c cfg m r name z (bump_serial d built cfg.serial_policy m.date) ∷ []
  unfolding turns turn serve_deploy ask on_result ◌>>=◌
  read_at-built w z built h k =
      subst
        (λ o.
          (turn 0 (record w { db = (get_zone name w.db).1 })
            (on_result o (λ e. report d c cfg m r name (no_zone e))
                (λ x. do
                  b ← ask (build d name)
                  on_result b (λ e. report d c cfg m r name (no_deploy e))
                      λ y.
                        deploy_built d c cfg m r name x (bump_serial d y cfg.serial_policy m.date))
              ∷ [])).1
          ≡ deploy_built d c cfg m r name z (bump_serial d built cfg.serial_policy m.date) ∷ [])
        (sym h)
        (subst
          (λ o.
            on_result o (λ e. report d c cfg m r name (no_deploy e))
                (λ y. deploy_built d c cfg m r name z (bump_serial d y cfg.serial_policy m.date))
              ∷ []
            ≡ deploy_built d c cfg m r name z (bump_serial d built cfg.serial_policy m.date) ∷ [])
          (sym k) refl)

  -- The last acts of a deploy that moved its content into place on every target.
  settles :
      (content : String) (new : ℕ) (res : DeployResult) (o : DeployResult × Option DeployError)
      (v : World)
      → o ≡ (res, none)
      → all_moved res ≡ true
      → (run (deployed_with d c cfg m r name content new o) v).1.db
        ≡ (publish (snapshots_kept cfg.backup_keep) name content new m.stamp v.db).1
  unfolding deployed_with run count note ask ◌>>=◌ report
  settles content new res o v e h =
      subst
        (λ x.
          (run (deployed_with d c cfg m r name content new x) v).1.db
          ≡ (publish (snapshots_kept cfg.backup_keep) name content new m.stamp v.db).1)
        (sym e) (rw h refl)

  abbrev pub sent : StoredZone → Zone d → ℕ → ℕ → Request
  sent z bumped old new = record {
    zone = name;
    content = render d bumped;
    old_serial = old;
    new_serial = new;
    targets = z.targets;
  }

  -- A deploy that is published puts the content and the serial into the history that it took from
  -- the zone when it read it, whatever other requests have done between the reading and the publish:
  -- they may have changed the records of the zone, and another deploy may have been published under
  -- the same serial, which is then in the history twice.
  pub overlapping_deploys :
      (w v : World) (z : StoredZone) (built bumped : Zone d) (old new : ℕ) (res : DeployResult)
      → (get_zone name w.db).0 ≡ ok z
      → (build d name (get_zone name w.db).1).0 ≡ ok built
      → bump_serial d built cfg.serial_policy m.date ≡ (ok (old, new), bumped)
      → deploy d (configured cfg m) (sent z bumped old new) ≡ (res, none)
      → all_moved res ≡ true
      → IsWellFormed v.db.tables
      → (publish (snapshots_kept cfg.backup_keep) name (render d bumped) new m.stamp v.db).0 ≡ ok tt
      → history name (drain (read_at w) v).db.tables
        ≡ take (snapshots_kept cfg.backup_keep) (
            scan_snapshot (new_row name new (render d bumped) m.stamp v.db.tables)
            ∷ history name v.db.tables)
  unfolding drain deploy_built
  overlapping_deploys w v z built bumped old new res h k b e moved wf done =
      let rest = read_at-built w z built h k ∙ ap (λ x. deploy_built d c cfg m r name z x ∷ []) b in
      ap (λ p. history name (drain p v).db.tables) rest
      ∙ ap (λ x. history name x.tables) (settles (render d bumped) new res _ v e moved)
      ∙ publish-history (snapshots_kept cfg.backup_keep) name (render d bumped) new m.stamp v.db wf
          done
