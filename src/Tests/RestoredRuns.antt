-- ===== src/Tests/RestoredRuns.antt =====
-- The theorem on a deploy right after a restore: the serial of the newest snapshot is taken again.
use mathlib.Core.Path.{subst}
use mrdns.Prelude.{
  String, none, some, ok, [], ◌∷◌, ◌≡◌, ◌==◌, refl, sym, ap, ◌∙◌, Result, true, if◌then◌else◌,
}
use mrdns.Dns.{Dns, Soa}
use mrdns.Zone.{Zone, Record, parse, soa, first_soa}
use mrdns.Zone.Serial.{bump_serial, next_serial, assign_serial}
use mrdns.Zone.Build
use mrdns.Zone.Build.{build_text, dns_mbox, soa_data, data_records}
use mrdns.Db.{Tables, ZoneRow, exec, pure, raise, lift, transaction, ◌>>=◌}
use mrdns.Text.{trim_space, split_on, decimal, cut, trim_prefix}
use mrdns.Db.Sql.{
  update_zone, insert_snapshot, prune, records_sorted, delete_records_of, insert_record,
}
use mrdns.Store.{
  stored_soa_data, scan_zone, zone_in, stored_records, get_zone, split_targets, non_empty, records,
  set_serial, not_found_if_no_rows,
}
use mrdns.Store.Import.{restore_snapshot, restore_rows, insert_records, found_content, snapshot_at}
use mrdns.Store.Snapshots.{publish}
use mrdns.Store.Rendered.{build}
use mrdns.Deploy.{DeployResult, all_moved}
use mrdns.Deploy.Pipeline.{deploy, staged, committed, finished, stage, commit, verify_slot}
use mrdns.Web.Deploying.{handle_deploy, deployed, looked_up, rendered, bumped, settled, marked}
use mrdns.Web.Deploying.Restored.{KeepsSerial, rows_in, handle_deploy-restore_snapshot}
use mrdns.Tests.Sample.{sample, start, first_soa_of, www}
use mrdns.Tests.StoreRuns.{two_zones, sound, past, row_of, snapshot_row, first_settings}
use mrdns.Tests.HandlerRuns.{promoted}
use mrdns.Tests.DeployRuns.{servers}

-- The text that `Build` makes of the zone as the first snapshot restores it.
abbrev text_of_seven : String
text_of_seven = build_text sample "example.com." first_settings (
    record { name = "www.example.com."; ttl = 3600; class = "IN"; type = "A"; rdata = "192.0.2.1" }
    ∷ [])

abbrev reader : Dns
reader = record sample {
  parse = λ text origin.
      if text == text_of_seven
      then (start (first_soa_of 7) ∷ www ∷ [], none)
      else sample.parse text origin;
}

abbrev zone_of_seven : Zone reader
zone_of_seven = record { origin = "example.com."; records = start (first_soa_of 7) ∷ www ∷ [] }

abbrev after : Tables
after = record two_zones {
  zones = row_of "example.com." 7 ∷ row_of "example.org." 3 ∷ [];
  records =
      record {
        id = 2;
        zone = "example.com.";
        name = "www.example.com.";
        ttl = 3600;
        type = "A";
        rdata = "192.0.2.1";
      }
      ∷ [];
  next_record = 3;
}

restores : restore_snapshot reader "example.com." 1 (sound two_zones) ≡ (ok tt, sound after)
unfolding restore_snapshot restore_rows insert_records found_content snapshot_at exec ◌>>=◌ pure
    raise lift transaction update_zone delete_records_of insert_record parse soa soa_data
    data_records records first_soa build_text decimal dns_mbox cut package.mrdns.Zone.records
    trim_prefix
restores = refl

finds : snapshot_at 1 "example.com." two_zones ≡ some (snapshot_row 1 7 "a zone")
unfolding snapshot_at
finds = refl

parses : parse reader "a zone" "example.com." ≡ ok zone_of_seven
unfolding parse build_text decimal dns_mbox cut
parses = refl

manages : soa_data reader zone_of_seven ≡ ok first_settings
unfolding soa_data soa first_soa
manages = refl

row_seven :
    (row : ZoneRow) → zone_in "example.com." after ≡ some row → row ≡ row_of "example.com." 7
unfolding zone_in
row_seven row h = cc h

rebuilds :
    Build.build reader "example.com." first_settings (rows_in "example.com." after)
    ≡ ok zone_of_seven
unfolding parse Build.build build_text stored_records records_sorted scan_zone split_targets
    non_empty dns_mbox decimal cut trim_prefix
rebuilds = refl

the_zone :
    (row : ZoneRow) (b : Zone reader)
    → row ≡ row_of "example.com." 7
    → Build.build reader row.name (stored_soa_data (scan_zone row)) (rows_in "example.com." after)
      ≡ ok b
    → zone_of_seven ≡ b
unfolding scan_zone
the_zone row b same k =
    let seven : Result (Zone reader) = ok zone_of_seven in
    let both : seven ≡ ok b =
      sym rebuilds
      ∙ subst
          (λ (x : ZoneRow).
            Build.build reader x.name (stored_soa_data (scan_zone x)) (rows_in "example.com." after)
            ≡ ok b)
          same k in
    cc both

managed_by : (s : Soa) → soa reader zone_of_seven ≡ ok s → s.serial ≡ 7
unfolding soa first_soa
managed_by s h = let same : first_soa_of 7 ≡ s = cc h in sym (ap (λ (x : Soa). x.serial) same)

keeps_seven : KeepsSerial reader "example.com." after
keeps_seven = record {
  keeps = λ row b s h k e.
      let same = row_seven row h in
      managed_by s (ap (soa reader) (the_zone row b same k) ∙ e)
      ∙ sym (ap (λ (x : ZoneRow). x.serial) same);
}

abbrev deployed_again : DeployResult
deployed_again = record promoted {
  zone = "example.com.";
  old_serial = 7;
  new_serial = 8;
  servers =
      record {
        name = "ns1";
        staged = true;
        checked = true;
        moved = true;
        reloaded = true;
        verified = true;
        output = "ok";
        err_text = "";
      }
      ∷ [];
}

deploys :
    (handle_deploy reader servers "increment" 20 past "" "example.com." (sound after)).0
    ≡ deployed deployed_again
unfolding handle_deploy looked_up rendered bumped settled marked get_zone zone_in scan_zone
    split_targets non_empty split_on trim_space build Build.build build_text parse first_soa soa
    bump_serial next_serial assign_serial stored_records records records_sorted exec pure raise lift
    ◌>>=◌ deploy staged committed finished stage commit verify_slot all_moved publish set_serial
    not_found_if_no_rows update_zone insert_snapshot prune decimal dns_mbox cut
deploys = refl

-- The history has a snapshot with the serial 8, of another content.
handle_deploy-restore_snapshot_example :
    (deployed_again.old_serial ≡ 7) × (deployed_again.new_serial ≡ next_serial "increment" 7 past)
handle_deploy-restore_snapshot_example =
    handle_deploy-restore_snapshot reader servers "increment" 20 past "" "example.com." 1
      (sound two_zones) (snapshot_row 1 7 "a zone") zone_of_seven first_settings deployed_again
      (ap (λ r. r.0) restores) finds parses manages
      (subst (λ r. KeepsSerial reader "example.com." r.1.tables) (sym restores) keeps_seven)
      (ap (λ r. (handle_deploy reader servers "increment" 20 past "" "example.com." r.1).0) restores
        ∙ deploys)
