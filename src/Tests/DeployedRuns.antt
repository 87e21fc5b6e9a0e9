-- ===== src/Tests/DeployedRuns.antt =====
-- The theorem on a deploy by the handler alone, at a zone that is rolled out on its one server.
use mrdns.Prelude.{[], ◌≡◌, refl}
use mrdns.Text.{trim_space, split_on, decimal, cut}
use mrdns.Zone.{parse, first_soa, soa}
use mrdns.Zone.Build.{build_text, dns_mbox}
use mrdns.Zone.Build
use mrdns.Zone.Serial.{bump_serial, next_serial, assign_serial, date_serial}
use mrdns.Db.{exec, pure, raise, lift, ◌>>=◌}
use mrdns.Db.Sql.{update_zone, insert_snapshot, prune, records_sorted}
use mrdns.Store.{
  get_zone, zone_in, scan_zone, split_targets, non_empty, stored_records, records, set_serial,
  not_found_if_no_rows,
}
use mrdns.Store.Rendered.{build}
use mrdns.Store.Snapshots.{publish}
use mrdns.Config.{server_named}
use mrdns.Audit.{event, log}
use mrdns.Deploy.{all_moved}
use mrdns.Deploy.Pipeline.{deploy, staged, committed, finished, stage, commit, verify_slot}
use mrdns.Web.Deploying.{deployed, marked}
use mrdns.Web.Deploying.Published.{IsStored}
use mrdns.Web.Session.{current_session, parse_session}
use mrdns.Web.World
use mrdns.Web.World.{run, ask, note, count, on_result}
use mrdns.Web.Response.{page, deploy_page}
use mrdns.Web.Moment.{configured}
use mrdns.Web.Handlers.Zones.{serve_deploy, deploy_built, deployed_with, report, server_summaries}
use mrdns.Web.Handlers.Deployed.{serve_deploy-IsStored}
use mrdns.Tests.Sample.{sample}
use mrdns.Tests.StoreRuns.{two_zones, two_zones-IsWellFormed, sound, past}
use mrdns.Tests.WebRuns.{codec, post}
use mrdns.Tests.ConfigRuns.{complete}
use mrdns.Tests.HandlerRuns.{promoted}
use mrdns.Tests.ServerRuns.{moment, world}

shows :
    (run (serve_deploy sample codec complete moment post "example.org.") world).0.body
    ≡ page "Deploy example.org." "t" (deploy_page "example.org." (deployed promoted))
unfolding serve_deploy deploy_built deployed_with report run ask note count on_result
    mrdns.Web.World.◌>>=◌ marked get_zone zone_in scan_zone split_targets non_empty split_on
    trim_space build Build.build build_text parse first_soa soa bump_serial next_serial
    assign_serial stored_records records records_sorted exec pure raise lift ◌>>=◌ deploy staged
    committed finished stage commit verify_slot all_moved publish set_serial not_found_if_no_rows
    update_zone insert_snapshot prune decimal dns_mbox cut current_session parse_session
    server_named date_serial
shows = refl

serve_deploy-IsStored_example :
    IsStored sample
      (configured complete moment)
      "date"
      20
      past
      moment.stamp
      "example.org."
      promoted
      (sound two_zones)
      (run (serve_deploy sample codec complete moment post "example.org.") world).1.db.tables
    × ((run (serve_deploy sample codec complete moment post "example.org.") world).1.trail
        ≡ log moment.stamp
            (record (event "deploy" "192.0.2.1" "example.org.") {
              status = "success";
              old_serial = 3;
              new_serial = 4;
              servers = server_summaries promoted.servers;
            })
            [])
serve_deploy-IsStored_example =
    serve_deploy-IsStored sample codec complete moment post "example.org." world
      "Deploy example.org." "t" promoted two_zones-IsWellFormed shows refl
