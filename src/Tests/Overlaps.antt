-- ===== src/Tests/Overlaps.antt =====
-- Two deploys of one zone whose acts overlap.
use mrdns.Prelude.{ok, take, true, false, ℕ, none, arith, [], ◌∷◌, ◌≡◌, refl, map}
use mrdns.Text.{trim_space, split_on}
use mrdns.Config.{server_named}
use mrdns.Zone.{parse, first_soa, soa}
use mrdns.Zone.Build.{build_text, dns_mbox}
use mrdns.Zone.Build
use mrdns.Zone.Serial.{bump_serial, next_serial, assign_serial, date_serial}
use mrdns.Db.{exec, pure, raise, lift, ◌>>=◌}
use mrdns.Db.Sql.{update_zone, insert_snapshot, prune, records_sorted}
use mrdns.Web.Moment.{configured}
use mrdns.Web.Service.Overlap.{sent, read_at, overlapping_deploys}
use mrdns.Db.{Tables}
use mrdns.Db.Invariant.{IsWellFormed}
use mrdns.Zone.{Zone, render}
use mrdns.Store.Snapshots.{scan_snapshot}
use mrdns.Store.Snapshots.History.{new_row}
use mrdns.Tests.Sample.{start, first_soa_of, www}
use mrdns.Tests.StoreRuns.{row_of, snapshot_row, two_zones, sound, past}
use mrdns.Store.{
  StoredZone, get_zone, zone_in, scan_zone, split_targets, non_empty, stored_records, records,
  set_serial, not_found_if_no_rows,
}
use mrdns.Store.Rendered.{build}
use mrdns.Store.Snapshots.{publish, history}
use mrdns.Deploy.{DeployResult, success, all_moved}
use mrdns.Deploy.Pipeline.{deploy, staged, committed, finished, stage, commit, verify_slot}
use mrdns.Web.World
use mrdns.Web.World.{World, Serve, act, ask, note, count, on_result, run}
use mrdns.Web.Deploying.{marked}
use mrdns.Web.Response.{Response}
use mrdns.Web.Service.Turns.{turn, turns, drain}
use mrdns.Web.Handlers.Zones.{serve_deploy, deploy_built, deployed_with, report}
use mrdns.Tests.Sample.{sample}
use mrdns.Tests.WebRuns.{codec, post}
use mrdns.Tests.ConfigRuns.{complete}
use mrdns.Tests.ServerRuns.{moment, world}

abbrev one_deploy : Serve Response
one_deploy = serve_deploy sample codec complete moment post "example.org."

-- The first has read the zone when the second is served.
abbrev overlapped : World
overlapped =
    let (w, pending) = turns (0 ∷ 0 ∷ []) world (one_deploy ∷ one_deploy ∷ []) in drain pending w

published_serials : map (λ s. s.serial) (history "example.org." overlapped.db.tables) ≡ 4 ∷ 4 ∷ []
unfolding turns turn drain run serve_deploy deploy_built deployed_with report World.◌>>=◌ ask note
    count on_result marked get_zone zone_in scan_zone history split_targets non_empty split_on
    trim_space build Build.build build_text parse first_soa soa bump_serial next_serial
    assign_serial stored_records records records_sorted exec pure raise lift ◌>>=◌ deploy staged
    committed finished stage commit verify_slot all_moved publish set_serial not_found_if_no_rows
    update_zone insert_snapshot prune server_named date_serial
published_serials = refl

-- The state after another deploy of the zone has been published under serial 4.
abbrev republished : Tables
republished = record two_zones {
  zones = row_of "example.com." 8 ∷ row_of "example.org." 4 ∷ [];
  snapshots =
      snapshot_row 1 7 "a zone"
      ∷ snapshot_row 2 8 "another zone"
      ∷ record { id = 3; zone = "example.org."; serial = 4; content = "a zone"; created_at = "" }
      ∷ [];
  next_snapshot = 4;
}

abbrev meanwhile : World
meanwhile = record world { db = sound republished }

republished-IsWellFormed : IsWellFormed republished
republished-IsWellFormed = record {
  names = (refl, (refl, tt));
  records_owned = (refl, tt);
  snapshots_owned = (refl, (refl, (refl, tt)));
  record_ids = (tt, tt);
  records_below = (omega arith, tt);
  snapshot_ids = ((omega arith, (omega arith, tt)), ((omega arith, tt), (tt, tt)));
  snapshots_below = (omega arith, (omega arith, (omega arith, tt)));
}

abbrev the_zone : StoredZone
the_zone = record {
  name = "example.org.";
  primary_ns = "ns1.example.com.";
  mbox = "admin.example.com.";
  refresh = 7200;
  retry = 3600;
  expire = 1209600;
  minimum = 3600;
  ttl = 300;
  serial = 3;
  targets = "ns1" ∷ [];
}

abbrev with_soa : ℕ → Zone sample
with_soa n = record { origin = "example.org."; records = start (first_soa_of n) ∷ www ∷ [] }

abbrev rolled_out : DeployResult
rolled_out = record {
  zone = "example.org.";
  old_serial = 3;
  new_serial = 4;
  status = success;
  promoted = false;
  servers =
      record {
        name = "ns1";
        staged = true;
        checked = true;
        moved = true;
        reloaded = true;
        verified = false;
        output = "ok";
        err_text = "";
      }
      ∷ [];
}

reads_zone : (get_zone "example.org." world.db).0 ≡ ok the_zone
unfolding get_zone zone_in scan_zone split_targets non_empty split_on trim_space exec pure raise
    lift ◌>>=◌
reads_zone = refl

builds_zone : (build sample "example.org." (get_zone "example.org." world.db).1).0 ≡ ok (with_soa 3)
unfolding get_zone zone_in scan_zone split_targets non_empty split_on trim_space exec pure raise
    lift ◌>>=◌ build Build.build build_text parse first_soa soa stored_records records
    records_sorted
builds_zone = refl

bumps_zone : bump_serial sample (with_soa 3) "date" past ≡ (ok (3, 4), with_soa 4)
unfolding bump_serial next_serial assign_serial date_serial soa first_soa
bumps_zone = refl

rolls_out :
    deploy sample
      (configured complete moment)
      (sent sample codec complete moment post "example.org." the_zone (with_soa 4) 3 4)
    ≡ (rolled_out, none)
unfolding deploy staged committed finished stage commit verify_slot server_named trim_space
rolls_out = refl

publishes :
    (publish 20 "example.org." (render sample (with_soa 4)) 4 moment.stamp (sound republished)).0
    ≡ ok tt
unfolding publish set_serial exec ◌>>=◌ not_found_if_no_rows pure raise update_zone insert_snapshot
    prune
publishes = refl

overlapping_deploys_example :
    history "example.org."
      (drain (read_at sample codec complete moment post "example.org." world) meanwhile).db.tables
    ≡ take 20 (
        scan_snapshot
          (new_row "example.org." 4 (render sample (with_soa 4)) moment.stamp republished)
        ∷ history "example.org." republished)
unfolding all_moved
overlapping_deploys_example =
    overlapping_deploys sample codec complete moment post "example.org." world meanwhile the_zone
      (with_soa 3) (with_soa 4) 3 4 rolled_out reads_zone builds_zone bumps_zone rolls_out refl
      republished-IsWellFormed publishes
