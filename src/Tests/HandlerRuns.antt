-- ===== src/Tests/HandlerRuns.antt =====
-- The deploy handler at concrete tables and servers.
use mrdns.Prelude.{ℕ, String, true, false, none, some, [], ◌∷◌, ◌≡◌, refl}
use mrdns.Text.{trim_space, split_on}
use mrdns.Zone.{parse, first_soa, soa}
use mrdns.Zone.Build.{build_text, dns_mbox}
use mrdns.Zone.Build
use mrdns.Zone.Serial.{bump_serial, next_serial, assign_serial}
use mrdns.Db.{exec, pure, raise, lift, ◌>>=◌}
use mrdns.Db.Sql.{update_zone, insert_snapshot, prune, records_sorted}
use mrdns.Store.{
  get_zone, zone_in, scan_zone, split_targets, non_empty, stored_records, records, set_serial,
  not_found_if_no_rows,
}
use mrdns.Store.Rendered.{build}
use mrdns.Store.Snapshots.{publish}
use mrdns.Deploy.{DeployResult, success, all_moved}
use mrdns.Deploy.Remote.{Remote, Reply, Purpose, moving}
use mrdns.Deploy.Pipeline.{deploy, staged, committed, finished, stage, commit, verify_slot}
use mrdns.Web.Deploying.{deployed, handle_deploy, looked_up, rendered, bumped, settled, marked}
use mrdns.Web.Deploying.Promoted.{reaches_all, handle_deploy_unmoved}
use mrdns.Web.Deploying.Published.{IsStored, handle_deploy-IsStored}
use mrdns.Tests.Sample.{sample}
use mrdns.Tests.StoreRuns.{two_zones, two_zones-IsWellFormed, sound, past}
use mrdns.Tests.DeployRuns.{servers}

abbrev no_move : ℕ → Purpose → String → Reply
no_move i moving cmd = record { output = ""; failure = some "exit status 1" }
no_move i _ cmd = record { output = ""; failure = none }

abbrev read_only : Remote
read_only = record servers { run = no_move }

not_moved :
    reaches_all
      (handle_deploy sample read_only "increment" 20 past "" "example.org." (sound two_zones)).0
    ≡ false
unfolding handle_deploy looked_up rendered bumped settled marked get_zone zone_in scan_zone
    split_targets non_empty split_on trim_space build Build.build build_text parse first_soa soa
    bump_serial next_serial assign_serial stored_records records records_sorted exec pure raise lift
    ◌>>=◌ deploy staged committed finished stage commit verify_slot all_moved
not_moved = refl

handle_deploy_unmoved_example :
    (handle_deploy sample read_only "increment" 20 past "" "example.org."
      (sound two_zones)).1.tables
    ≡ two_zones
handle_deploy_unmoved_example =
    handle_deploy_unmoved sample read_only "increment" 20 past "" "example.org." (sound two_zones)
      not_moved

abbrev pub promoted : DeployResult
promoted = record {
  zone = "example.org.";
  old_serial = 3;
  new_serial = 4;
  status = success;
  promoted = true;
  servers =
      record {
        name = "ns1";
        staged = true;
        checked = true;
        moved = true;
        reloaded = true;
        verified = false;
        output = "ok";
        err_text = "";
      }
      ∷ [];
}

all_well :
    (handle_deploy sample servers "increment" 20 past "" "example.org." (sound two_zones)).0
    ≡ deployed promoted
unfolding handle_deploy looked_up rendered bumped settled marked get_zone zone_in scan_zone
    split_targets non_empty split_on trim_space build Build.build build_text parse first_soa soa
    bump_serial next_serial assign_serial stored_records records records_sorted exec pure raise lift
    ◌>>=◌ deploy staged committed finished stage commit verify_slot all_moved publish set_serial
    not_found_if_no_rows update_zone insert_snapshot prune
all_well = refl

handle_deploy-IsStored_example :
    IsStored sample servers "increment" 20 past "" "example.org." promoted
      (sound two_zones)
      (handle_deploy sample servers "increment" 20 past "" "example.org."
        (sound two_zones)).1.tables
handle_deploy-IsStored_example =
    handle_deploy-IsStored sample servers "increment" 20 past "" "example.org." (sound two_zones)
      promoted two_zones-IsWellFormed all_well refl
