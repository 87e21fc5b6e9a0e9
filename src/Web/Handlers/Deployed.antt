-- ===== src/Web/Handlers/Deployed.antt =====
-- The acts of a deploy that no other request comes between, against the deploy of
-- Web/Deploying.antt.
use mathlib.Core.Path.{subst}
use mrdns.Prelude.{
  ℕ, String, true, Option, none, some, Result, ok, err, ◌≡◌, refl, sym, ap, ◌∙◌, arith, inl, inr,
  Bool-cases,
}
use mrdns.Db.Invariant.{IsWellFormed}
use mrdns.Audit.{event, log}
use mrdns.Web.Deploying.Published.{IsStored, handle_deploy-IsStored}
use mrdns.Dns.{Dns}
use mrdns.Zone.{Zone}
use mrdns.Zone.Serial.{bump_serial}
use mrdns.Config.{Config}
use mrdns.Db.{Db}
use mrdns.Store.{StoredZone, get_zone, snapshots_kept}
use mrdns.Store.Rendered.{build}
use mrdns.Deploy.{DeployResult, all_moved}
use mrdns.Deploy.Remote.{DeployError}
use mrdns.Web.Session.{Codec, HttpRequest}
use mrdns.Web.World.{World, Serve, run, ask, note, count, ◌>>=◌, on_result}
use mrdns.Web.Deploying.{
  Page, no_zone, no_deploy, stopped, deployed, handle_deploy, looked_up, rendered, bumped, settled,
}
use mrdns.Web.Response.{Response, page, deploy_page}
use mrdns.Web.Moment.{Moment, configured, is_not_found, client_ip}
use mrdns.Web.Handlers.Zones.{
  status_text, server_summaries, report, deployed_with, deploy_built, serve_deploy,
}

module _ (d : Dns) (c : Codec) (cfg : Config) (m : Moment) (r : HttpRequest) (name : String) where
  -- `s` leaves the database and the trail and shows the page of `o`.
  record Shows (s : Serve Response) (w : World) (o : Page × Db) : Type 0 where
    database : (run s w).1.db ≡ o.1
    answer : (v : World) → (run s w).0 ≡ (run (report d c cfg m r name o.0) v).0
    logged : (run s w).1.trail ≡ (run (report d c cfg m r name o.0) w).1.trail

  -- What a report adds to the trail.
  report_trail :
      (p : Page) (v w : World)
      → v.trail ≡ w.trail
      → (run (report d c cfg m r name p) v).1.trail ≡ (run (report d c cfg m r name p) w).1.trail
  unfolding report run note ◌>>=◌
  report_trail (no_zone e) v w h = h
  report_trail (no_deploy e) v w h = h
  report_trail (stopped res e) v w h = ap (log m.stamp _) h
  report_trail (deployed res) v w h = ap (log m.stamp _) h

  -- The page of a result is only shown for that result.
  report_shown :
      (p : Page) (v : World) (title token : String) (res : DeployResult)
      → (run (report d c cfg m r name p) v).0.body
        ≡ page title token (deploy_page name (deployed res))
      → p ≡ deployed res
  unfolding report run note ◌>>=◌
  report_shown (no_zone e) v title token res h = elim (Bool-cases (is_not_found e)) [
    | inl x ↦ absurd (ground (arith, x, h))
    | inr x ↦ absurd (ground (arith, x, h))
  ]
  report_shown (no_deploy e) v title token res h = cc h
  report_shown (stopped res0 e) v title token res h = cc h
  report_shown (deployed res0) v title token res h = cc h

  report-Shows : (p : Page) (w : World) → Shows (report d c cfg m r name p) w (p, w.db)
  unfolding report run note ◌>>=◌
  report-Shows (no_zone e) w = record { database = refl; answer = λ v. refl; logged = refl }
  report-Shows (no_deploy e) w = record { database = refl; answer = λ v. refl; logged = refl }
  report-Shows (stopped res e) w = record { database = refl; answer = λ v. refl; logged = refl }
  report-Shows (deployed res) w = record { database = refl; answer = λ v. refl; logged = refl }

  deployed_with-Shows :
      (content : String) (new : ℕ) (o : DeployResult × Option DeployError) (w : World)
      → Shows (deployed_with d c cfg m r name content new o) w (
          settled d
            (configured cfg m)
            cfg.serial_policy
            (snapshots_kept cfg.backup_keep)
            m.date
            m.stamp
            name
            content
            new
            o
            w.db)
  unfolding deployed_with settled run ◌>>=◌ count ask report note
  deployed_with-Shows content new (res, some e) w = report-Shows (stopped res e) w
  deployed_with-Shows content new (res, none) w = elim (Bool-cases (all_moved res)) [
    | inl e ↦ rw e (record { database = refl; answer = λ v. refl; logged = refl })
    | inr e ↦ rw e (record { database = refl; answer = λ v. refl; logged = refl })
  ]

  deploy_built-Shows :
      (z : StoredZone) (o : Result (ℕ × ℕ) × Zone d) (w : World)
      → Shows (deploy_built d c cfg m r name z o) w (
          bumped d
            (configured cfg m)
            cfg.serial_policy
            (snapshots_kept cfg.backup_keep)
            m.date
            m.stamp
            name
            z
            o
            w.db)
  unfolding deploy_built bumped
  deploy_built-Shows z (err e, built) w = report-Shows (no_deploy e) w
  deploy_built-Shows z (ok (old, new), built) w = deployed_with-Shows _ new _ w

  build_then-Shows :
      (z : StoredZone) (o : Result (Zone d)) (w : World)
      → Shows
          (on_result o
            (λ e. report d c cfg m r name (no_deploy e))
            λ b. deploy_built d c cfg m r name z (bump_serial d b cfg.serial_policy m.date))
          w
          (rendered d
            (configured cfg m)
            cfg.serial_policy
            (snapshots_kept cfg.backup_keep)
            m.date
            m.stamp
            name
            z
            (o, w.db))
  unfolding on_result rendered
  build_then-Shows z (err e) w = report-Shows (no_deploy e) w
  build_then-Shows z (ok b) w = deploy_built-Shows z (bump_serial d b cfg.serial_policy m.date) w

  found_then-Shows :
      (o : Result StoredZone) (w : World)
      → Shows
          (on_result o
            (λ e. report d c cfg m r name (no_zone e))
            λ z. do
              built ← ask (build d name)
              on_result built
                  (λ e. report d c cfg m r name (no_deploy e))
                  λ b. deploy_built d c cfg m r name z (bump_serial d b cfg.serial_policy m.date))
          w
          (looked_up d
            (configured cfg m)
            cfg.serial_policy
            (snapshots_kept cfg.backup_keep)
            m.date
            m.stamp
            name
            (o, w.db))
  unfolding on_result looked_up run ask ◌>>=◌
  found_then-Shows (err e) w = report-Shows (no_zone e) w
  found_then-Shows (ok z) w =
      let s = build_then-Shows z (build d name w.db).0 (record w { db = (build d name w.db).1 }) in
      record {
        database = s.database;
        answer = s.answer;
        logged = s.logged ∙ report_trail _ _ w refl;
      }

  alone-Shows :
      (w : World)
      → Shows (serve_deploy d c cfg m r name) w (
          handle_deploy d
            (configured cfg m)
            cfg.serial_policy
            (snapshots_kept cfg.backup_keep)
            m.date
            m.stamp
            name
            w.db)
  unfolding serve_deploy handle_deploy run ask ◌>>=◌
  alone-Shows w =
      let s = found_then-Shows (get_zone name w.db).0 (record w { db = (get_zone name w.db).1 }) in
      record {
        database = s.database;
        answer = s.answer;
        logged = s.logged ∙ report_trail _ _ w refl;
      }

  -- A request to deploy whose acts no act of another request comes between, on tables that are well
  -- formed, shows the result of a deploy as promoted only if the pipeline was given the text of the
  -- zone as `Build` makes it, under the serial of `BumpSerial`, and moved it into place on every
  -- target, and the newest snapshot of the zone is that text under that serial. The one event that it
  -- then adds to the audit trail has the status, the serials and the servers of that result.
  pub serve_deploy-IsStored :
      (w : World) (title token : String) (res : DeployResult)
      → IsWellFormed w.db.tables
      → (run (serve_deploy d c cfg m r name) w).0.body
        ≡ page title token (deploy_page name (deployed res))
      → res.promoted ≡ true
      → IsStored d
          (configured cfg m)
          cfg.serial_policy
          (snapshots_kept cfg.backup_keep)
          m.date
          m.stamp
          name
          res
          w.db
          (run (serve_deploy d c cfg m r name) w).1.db.tables
        × ((run (serve_deploy d c cfg m r name) w).1.trail
            ≡ log m.stamp
                (record (event "deploy" (client_ip r) name) {
                  status = status_text res.status;
                  old_serial = res.old_serial;
                  new_serial = res.new_serial;
                  servers = server_summaries res.servers;
                })
                w.trail)
  unfolding report run note ◌>>=◌
  serve_deploy-IsStored w title token res wf h p =
      let s = alone-Shows w in
      let is_deployed =
        report_shown _ w title token res (ap (λ (a : Response). a.body) (sym (s.answer w)) ∙ h) in
      (
        subst
            (λ (x : Db).
              IsStored d (configured cfg m) cfg.serial_policy (snapshots_kept cfg.backup_keep)
                m.date m.stamp name res w.db x.tables)
            (sym s.database)
            (handle_deploy-IsStored d (configured cfg m) cfg.serial_policy
              (snapshots_kept cfg.backup_keep) m.date m.stamp name w.db res wf is_deployed p),
        s.logged ∙ ap (λ x. (run (report d c cfg m r name x) w).1.trail) is_deployed,
      )
