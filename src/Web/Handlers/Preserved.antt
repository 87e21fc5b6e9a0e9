-- ===== src/Web/Handlers/Preserved.antt =====
-- The handlers of Handlers/Records.antt and Handlers/Zones.antt keep what the store keeps.
use mrdns.Prelude.{ℕ, Option, none, some, Result, err, String, false, ok, ◌≡◌, ◌==◌}
use mrdns.Dns.{Dns, IsLawful}
use mrdns.Config.{Config}
use mrdns.Zone.{Zone, Record}
use mrdns.Zone.Build.Rows.{normalize_record_sound}
use mrdns.Db.{Tables}
use mrdns.Store.{StoredZone}
use mrdns.Store.Reading.{store_reads}
use mrdns.Web.World.Rules.{IsQuiet, quiet_rules}
use mrdns.Store.Laws.{StoreLaws}
use mrdns.Web.World.Preserves.{
  Preserves, Preserves-quiet, Preserves-ask, Preserves-if, Preserves-bind, Preserves-on_result,
}
use mrdns.Deploy.{DeployResult}
use mrdns.Deploy.Remote.{DeployError}
use mrdns.Web.Deploying.{no_deploy, stopped}
use mrdns.Web.Session.{Codec, HttpRequest}
use mrdns.Web.Moment.{Moment}
use mrdns.Web.Handlers.Quiet.{render_records-IsQuiet}
use mrdns.Web.Handlers.Records.{
  recorded, posted_record, handle_add_record, handle_update_record, handle_delete_record,
}
use mrdns.Web.Handlers.Zones.{
  create_checked, handle_create_zone, handle_import, handle_update_settings, zone_gone,
  handle_delete_zone, deployed_with, deploy_built, serve_deploy, handle_rollback,
}
use mrdns.Web.Handlers.Audited.{report-IsQuiet}

ruleset kept = (
  Preserves-quiet, Preserves-ask, Preserves-if, Preserves-bind, Preserves-on_result, quiet_rules,
  store_reads,
)

module _ (d : Dns) (lawful : IsLawful d) (P : Tables → Type 0) (laws : StoreLaws d P) where
  module _ (c : Codec) (cfg : Config) (m : Moment) where
    recorded-IsQuiet :
        (r : HttpRequest) (action name : String) → IsQuiet (recorded d c cfg m r action name)
    unfolding recorded
    recorded-IsQuiet r action name = search (quiet_rules, render_records-IsQuiet)

    posted_plain :
        (r : HttpRequest) (name : String) (rec : Record)
        → posted_record d c cfg m r name ≡ ok rec
        → (rec.type == "SOA") ≡ false
    posted_plain r name rec h =
        let (rr, e, p, v, t) = normalize_record_sound d lawful m.upper name _ _ _ _ rec h in t

    pub handle_add_record-Preserves :
        (r : HttpRequest) (name : String) → Preserves P (handle_add_record d c cfg m r name)
    unfolding handle_add_record
    handle_add_record-Preserves r name =
        Preserves-on_result P _ _ _
          (λ e. Preserves-quiet P _ (render_records-IsQuiet d c cfg m r name _ _))
          λ rec h.
            Preserves-bind P _ _
              (Preserves-ask P _ (laws.adds name rec (posted_plain r name rec h)))
              λ a. Preserves-quiet P _ (search (quiet_rules, recorded-IsQuiet))

    pub handle_update_record-Preserves :
        (r : HttpRequest) (name : String) → Preserves P (handle_update_record d c cfg m r name)
    unfolding handle_update_record
    handle_update_record-Preserves r name =
        Preserves-on_result P _ _ _
          (λ e. Preserves-quiet P _ (render_records-IsQuiet d c cfg m r name _ _))
          λ rec h.
            Preserves-bind P _ _
              (Preserves-ask P _ (laws.updates name _ rec (posted_plain r name rec h)))
              λ a. Preserves-quiet P _ (search (quiet_rules, recorded-IsQuiet))

    pub handle_delete_record-Preserves :
        (r : HttpRequest) (name : String) → Preserves P (handle_delete_record d c cfg m r name)
    unfolding handle_delete_record
    handle_delete_record-Preserves r name =
        Preserves-bind P _ _ (Preserves-ask P _ (laws.deletes name _))
          λ a. Preserves-quiet P _ (search (quiet_rules, recorded-IsQuiet))

    create_checked-Preserves :
        (r : HttpRequest) (z : StoredZone) → Preserves P (create_checked d c cfg m r z)
    unfolding create_checked
    create_checked-Preserves r z =
        Preserves-on_result P _ _ _ (λ e. Preserves-quiet P _ (search quiet_rules))
          λ built h.
            Preserves-bind P _ _ (Preserves-ask P _ (laws.creates z m.stamp))
              λ a. Preserves-quiet P _ (search quiet_rules)

    pub handle_create_zone-Preserves :
        (r : HttpRequest) → Preserves P (handle_create_zone d c cfg m r)
    unfolding handle_create_zone
    handle_create_zone-Preserves r = search (kept, create_checked-Preserves) depth 9

    pub handle_import-Preserves : (r : HttpRequest) → Preserves P (handle_import d c cfg m r)
    unfolding handle_import
    handle_import-Preserves r = search (kept, laws.imports) depth 9

    pub handle_update_settings-Preserves :
        (r : HttpRequest) (name : String) → Preserves P (handle_update_settings d c cfg m r name)
    unfolding handle_update_settings
    handle_update_settings-Preserves r name = search (kept, laws.settles) depth 9

    pub handle_delete_zone-Preserves :
        (r : HttpRequest) (name : String) → Preserves P (handle_delete_zone d c cfg m r name)
    unfolding handle_delete_zone zone_gone
    handle_delete_zone-Preserves r name =
        Preserves-bind P _ _ (Preserves-ask P _ (laws.drops name))
          λ a. Preserves-quiet P _ (search quiet_rules depth 9)

    pub handle_rollback-Preserves :
        (r : HttpRequest) (name : String) → Preserves P (handle_rollback d c cfg m r name)
    unfolding handle_rollback
    handle_rollback-Preserves r name =
        Preserves-bind P _ _ (Preserves-ask P _ (laws.restores name _))
          λ a. Preserves-quiet P _ (search quiet_rules)

    deployed_with-Preserves :
        (r : HttpRequest) (name content : String) (new : ℕ) (o : DeployResult × Option DeployError)
        → Preserves P (deployed_with d c cfg m r name content new o)
    unfolding deployed_with
    deployed_with-Preserves r name content new (res, some e) =
        Preserves-quiet P _ (report-IsQuiet d c cfg m r name (stopped res e))
    deployed_with-Preserves r name content new (res, none) =
        search (kept, report-IsQuiet, laws.publishes) depth 9

    deploy_built-Preserves :
        (r : HttpRequest) (name : String) (z : StoredZone) (b : Result (ℕ × ℕ) × Zone d)
        → Preserves P (deploy_built d c cfg m r name z b)
    unfolding deploy_built
    deploy_built-Preserves r name z (err e, built) =
        Preserves-quiet P _ (report-IsQuiet d c cfg m r name (no_deploy e))
    deploy_built-Preserves r name z (ok (old, new), built) = deployed_with-Preserves r name _ new _

    pub serve_deploy-Preserves :
        (r : HttpRequest) (name : String) → Preserves P (serve_deploy d c cfg m r name)
    unfolding serve_deploy
    serve_deploy-Preserves r name = search (kept, deploy_built-Preserves) depth 12
