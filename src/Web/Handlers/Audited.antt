-- ===== src/Web/Handlers/Audited.antt =====
-- The handlers of Handlers/Records.antt and Handlers/Zones.antt report what they change.
use mrdns.Prelude.{
  ℕ, Option, none, some, Result, ok, String, Error, not_found, err, ◌≡◌, ◌≢◌, arith, inl, inr,
  Bool-cases, if◌then◌else◌,
}
use mrdns.Dns.{Dns}
use mrdns.Zone.{Zone}
use mrdns.Config.{Config}
use mrdns.Db.{Db, Exec}
use mrdns.Db.Keeps.{IsAtomic, IsAtomic-exec}
use mrdns.Store.{StoredZone, add_record, create_zone, delete_record, delete_zone}
use mrdns.Store.Reading.{
  store_reads, update_record-IsAtomic, update_zone_settings-IsAtomic, delete_record-undone,
  delete_zone-undone,
}
use mrdns.Store.Import.Atomic.{import_zone-IsAtomic, restore_snapshot-IsAtomic}
use mrdns.Deploy.{DeployResult}
use mrdns.Deploy.Remote.{DeployError}
use mrdns.Web.Deploying.{Page, no_zone, no_deploy, stopped, deployed}
use mrdns.Web.Session.{Codec, HttpRequest}
use mrdns.Web.World.{Serve}
use mrdns.Web.World.Rules.{
  IsQuiet, IsQuiet-count, IsAccounted-ask_then, Grows, IsAccounted, Excused, IsAccounted-ask,
  IsAccounted-after, IsAccounted-on_result, IsAccounted-quiet, IsAccounted-if, Grows-bind,
  Grows-note, quiet_rules,
}
use mrdns.Web.Moment.{Moment, is_not_found}
use mrdns.Web.Response.{Response}
use mrdns.Web.Handlers.Quiet.{render_records-IsQuiet}
use mrdns.Web.Handlers.Records.{
  recorded, handle_add_record, handle_update_record, handle_delete_record,
}
use mrdns.Web.Handlers.Zones.{
  create_checked, handle_create_zone, handle_import, handle_update_settings, zone_gone,
  handle_delete_zone, report, deployed_with, deploy_built, serve_deploy, handle_rollback,
}

ruleset accounted_rules = (
  IsAccounted-ask, IsAccounted-after, IsAccounted-on_result, IsAccounted-quiet, IsAccounted-if,
  quiet_rules, store_reads,
)

module _ {A : Type 0} where
  Excused-atomic :
      (m : Exec A) (e : Error) (s : Serve Response) → IsAtomic m → IsQuiet s → Excused m e s
  Excused-atomic m e s p q = inl (λ db h. p.undone db e h, q)

  -- An error of a row that is not there is reported, and no other has changed anything.
  Excused-missing :
      (m : Exec A) (e : Error) (s t : Serve Response)
      → ((db : Db) (e : Error) → (m db).0 ≡ err e → e ≢ not_found → (m db).1.tables ≡ db.tables)
      → Grows s
      → IsQuiet t
      → Excused m e (if is_not_found e then s else t)
  Excused-missing m e s t p q u = elim (Bool-cases (is_not_found e)) [
    | inl h ↦ rw h (inr q)
    | inr h ↦ rw h (inl (λ db k. p db e k (λ x. absurd (ground (arith, h, x))), u))
  ]

module _ (d : Dns) (c : Codec) (cfg : Config) (m : Moment) where
  recorded-Grows :
      (r : HttpRequest) (action name : String) → Grows (recorded d c cfg m r action name)
  unfolding recorded
  recorded-Grows r action name =
      Grows-bind _ _ (Grows-note _ _) (λ u. render_records-IsQuiet d c cfg m r name _ _)

  pub handle_add_record-IsAccounted :
      (r : HttpRequest) (name : String) → IsAccounted (handle_add_record d c cfg m r name)
  unfolding handle_add_record add_record
  handle_add_record-IsAccounted r name =
      IsAccounted-on_result _ _ _
        (λ e. IsAccounted-quiet _ (render_records-IsQuiet d c cfg m r name _ _))
        λ rec.
          IsAccounted-ask _ _ _ (λ e. Excused-atomic _ e _ (IsAtomic-exec _) (search quiet_rules))
            (λ id. recorded-Grows r _ name)

  pub handle_update_record-IsAccounted :
      (r : HttpRequest) (name : String) → IsAccounted (handle_update_record d c cfg m r name)
  unfolding handle_update_record
  handle_update_record-IsAccounted r name =
      IsAccounted-on_result _ _ _
        (λ e. IsAccounted-quiet _ (render_records-IsQuiet d c cfg m r name _ _))
        λ rec.
          IsAccounted-ask _ _ _
            (λ e. Excused-atomic _ e _ (update_record-IsAtomic name _ rec) (search quiet_rules))
            (λ u. recorded-Grows r _ name)

  pub handle_delete_record-IsAccounted :
      (r : HttpRequest) (name : String) → IsAccounted (handle_delete_record d c cfg m r name)
  unfolding handle_delete_record
  handle_delete_record-IsAccounted r name =
      IsAccounted-ask _ _ _
        (λ e.
          Excused-missing (delete_record name _) e _ _ (delete_record-undone name _)
            (recorded-Grows r _ name) (search quiet_rules))
        (λ u. recorded-Grows r _ name)

  create_checked-IsAccounted :
      (r : HttpRequest) (z : StoredZone) → IsAccounted (create_checked d c cfg m r z)
  unfolding create_checked create_zone
  create_checked-IsAccounted r z =
      IsAccounted-on_result _ _ _ (λ e. IsAccounted-quiet _ (search quiet_rules))
        λ built.
          IsAccounted-ask _ _ _ (λ e. Excused-atomic _ e _ (IsAtomic-exec _) (search quiet_rules))
            (λ u. search (Grows-bind, Grows-note, quiet_rules))

  pub handle_create_zone-IsAccounted :
      (r : HttpRequest) → IsAccounted (handle_create_zone d c cfg m r)
  unfolding handle_create_zone
  handle_create_zone-IsAccounted r = search (accounted_rules, create_checked-IsAccounted) depth 9

  pub handle_import-IsAccounted : (r : HttpRequest) → IsAccounted (handle_import d c cfg m r)
  unfolding handle_import
  handle_import-IsAccounted r =
      search (accounted_rules, Excused-atomic, import_zone-IsAtomic, Grows-bind, Grows-note) depth 9

  pub handle_update_settings-IsAccounted :
      (r : HttpRequest) (name : String) → IsAccounted (handle_update_settings d c cfg m r name)
  unfolding handle_update_settings
  handle_update_settings-IsAccounted r name =
      search
        (accounted_rules, Excused-atomic, update_zone_settings-IsAtomic, Grows-bind, Grows-note)
        depth 9

  zone_gone-Grows : (r : HttpRequest) (name : String) → Grows (zone_gone d c cfg m r name)
  unfolding zone_gone
  zone_gone-Grows r name = search (Grows-bind, Grows-note, quiet_rules)

  pub handle_delete_zone-IsAccounted :
      (r : HttpRequest) (name : String) → IsAccounted (handle_delete_zone d c cfg m r name)
  unfolding handle_delete_zone
  handle_delete_zone-IsAccounted r name =
      IsAccounted-ask _ _ _
        (λ e.
          Excused-missing (delete_zone name) e _ _ (delete_zone-undone name)
            (zone_gone-Grows r name) (search quiet_rules))
        (λ u. zone_gone-Grows r name)

  pub handle_rollback-IsAccounted :
      (r : HttpRequest) (name : String) → IsAccounted (handle_rollback d c cfg m r name)
  unfolding handle_rollback
  handle_rollback-IsAccounted r name =
      IsAccounted-ask _ _ _
        (λ e. Excused-atomic _ e _ (restore_snapshot-IsAtomic d name _) (search quiet_rules))
        (λ u. search (Grows-bind, Grows-note, quiet_rules))

  pub report-IsQuiet :
      (r : HttpRequest) (name : String) (p : Page) → IsQuiet (report d c cfg m r name p)
  unfolding report
  report-IsQuiet r name (no_zone e) = search quiet_rules
  report-IsQuiet r name (no_deploy e) = search quiet_rules
  report-IsQuiet r name (stopped res e) = search quiet_rules
  report-IsQuiet r name (deployed res) = search quiet_rules depth 9

  deployed-Grows :
      (r : HttpRequest) (name : String) (res : DeployResult)
      → Grows (report d c cfg m r name (deployed res))
  unfolding report
  deployed-Grows r name res = search (Grows-bind, Grows-note, quiet_rules)

  deployed_with-IsAccounted :
      (r : HttpRequest) (name content : String) (new : ℕ) (o : DeployResult × Option DeployError)
      → IsAccounted (deployed_with d c cfg m r name content new o)
  unfolding deployed_with
  deployed_with-IsAccounted r name content new (res, some e) =
      IsAccounted-quiet _ (report-IsQuiet r name (stopped res e))
  deployed_with-IsAccounted r name content new (res, none) =
      IsAccounted-after _ _ (IsQuiet-count _) λ u.
        IsAccounted-if _ _ _ (IsAccounted-ask_then _ _ (λ p. deployed-Grows r name _))
          (IsAccounted-quiet _ (report-IsQuiet r name (deployed res)))

  deploy_built-IsAccounted :
      (r : HttpRequest) (name : String) (z : StoredZone) (b : Result (ℕ × ℕ) × Zone d)
      → IsAccounted (deploy_built d c cfg m r name z b)
  unfolding deploy_built
  deploy_built-IsAccounted r name z (err e, built) =
      IsAccounted-quiet _ (report-IsQuiet r name (no_deploy e))
  deploy_built-IsAccounted r name z (ok (old, new), built) =
      deployed_with-IsAccounted r name _ new _

  pub serve_deploy-IsAccounted :
      (r : HttpRequest) (name : String) → IsAccounted (serve_deploy d c cfg m r name)
  unfolding serve_deploy
  serve_deploy-IsAccounted r name = search (accounted_rules, deploy_built-IsAccounted) depth 12
