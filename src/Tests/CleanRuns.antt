-- ===== src/Tests/CleanRuns.antt =====
-- The theorem on zones without changes, with a parser that reads the serial of one zone.
use mrdns.Prelude.{
  false, ok, none, [], ◌∷◌, ◌≡◌, ◌==◌, refl, sym, ap, ◌∙◌, arith, if◌then◌else◌, String, some,
  Result, ℕ,
}
use mathlib.Core.Path.{subst}
use mrdns.Dns.{Dns}
use mrdns.Zone.{Zone, parse, first_soa, soa}
use mrdns.Zone.Serial.{assign_serial, bump_serial, next_serial}
use mrdns.Zone.Build
use mrdns.Zone.Build.{build_text, dns_mbox}
use mrdns.Db.{ZoneRow, exec, pure, raise, lift, ◌>>=◌}
use mrdns.Text.{trim_space, split_on, decimal, cut}
use mrdns.Db.Sql.{update_zone, insert_snapshot, prune, records_sorted}
use mrdns.Store.{
  stored_soa_data, scan_zone, zone_in, stored_records, get_zone, split_targets, non_empty, records,
  set_serial, not_found_if_no_rows,
}
use mrdns.Store.Snapshots.{publish}
use mrdns.Deploy.{all_moved}
use mrdns.Deploy.Pipeline.{deploy, staged, committed, finished, stage, commit, verify_slot}
use mrdns.Store.Rendered.{build, dirty}
use mrdns.Store.Rendered.Clean.{ReadsSerial, quiet_db, rows_of}
use mrdns.Web.Deploying.{handle_deploy, deployed, looked_up, rendered, bumped, settled, marked}
use mrdns.Web.Deploying.Clean.{handle_deploy-clean}
use mrdns.Tests.Sample.{sample, start, first_soa_of, www}
use mrdns.Tests.StoreRuns.{two_zones, two_zones-IsWellFormed, row_of, past}
use mrdns.Tests.HandlerRuns.{promoted}
use mrdns.Tests.DeployRuns.{servers}

-- The text that `Build` makes of the zone with serial 4.
abbrev text_of_four : String
text_of_four =
    build_text sample "example.org."
      (record (stored_soa_data (scan_zone (row_of "example.org." 3))) { serial = 4 }) []

abbrev reader : Dns
reader = record sample {
  parse = λ text origin.
      if text == text_of_four
      then (start (first_soa_of 4) ∷ www ∷ [], none)
      else sample.parse text origin;
}

the_row :
    (row : ZoneRow) → zone_in "example.org." two_zones ≡ some row → row ≡ row_of "example.org." 3
unfolding zone_in
the_row row h = cc

abbrev with_soa : ℕ → Zone reader
with_soa n = record { origin = "example.org."; records = start (first_soa_of n) ∷ www ∷ [] }

-- What `Build` gives for the zone with each of the two serials.
reads_three :
    Build.build reader "example.org."
      (stored_soa_data (scan_zone (row_of "example.org." 3)))
      (rows_of "example.org." two_zones)
    ≡ ok (with_soa 3)
unfolding Build.build build_text parse stored_records records_sorted scan_zone split_targets
    non_empty dns_mbox decimal cut
reads_three = refl

rebuilds_four :
    Build.build reader "example.org."
      (record (stored_soa_data (scan_zone (row_of "example.org." 3))) { serial = 4 })
      (rows_of "example.org." two_zones)
    ≡ ok (record (with_soa 3) { records = assign_serial reader 4 (with_soa 3).records })
unfolding Build.build build_text parse stored_records records_sorted scan_zone split_targets
    non_empty dns_mbox assign_serial decimal cut
rebuilds_four = refl

-- A zone that `Build` gives for the row is the one with serial 3.
the_zone :
    (row : ZoneRow) (b : Zone reader)
    → row ≡ row_of "example.org." 3
    → Build.build reader row.name
        (stored_soa_data (scan_zone row))
        (rows_of "example.org." two_zones)
      ≡ ok b
    → with_soa 3 ≡ b
the_zone row b same k =
    let three : Result (Zone reader) = ok (with_soa 3) in
    let both : three ≡ ok b =
      sym reads_three
      ∙ subst
          (λ (x : ZoneRow).
            Build.build reader x.name (stored_soa_data (scan_zone x))
              (rows_of "example.org." two_zones)
            ≡ ok b)
          same k in
    cc both

reads_four : ReadsSerial reader "example.org." two_zones 4
reads_four = record {
  reads = λ row b h k.
      let same = the_row row h in
      subst
        (λ (x : ZoneRow).
          Build.build reader x.name (record (stored_soa_data (scan_zone x)) { serial = 4 })
            (rows_of "example.org." two_zones)
          ≡ ok (record b { records = assign_serial reader 4 b.records }))
        (sym same)
        (rebuilds_four
          ∙ ap {A = Zone reader} (λ z. ok (record z { records = assign_serial reader 4 z.records }))
              (the_zone row b same k));
}

deploys :
    (handle_deploy reader servers "increment" 20 past "" "example.org." (quiet_db two_zones)).0
    ≡ deployed promoted
unfolding handle_deploy looked_up rendered bumped settled marked get_zone zone_in scan_zone
    split_targets non_empty split_on trim_space build Build.build build_text parse first_soa soa
    bump_serial next_serial assign_serial stored_records records records_sorted exec pure raise lift
    ◌>>=◌ deploy staged committed finished stage commit verify_slot all_moved publish set_serial
    not_found_if_no_rows update_zone insert_snapshot prune decimal dns_mbox cut
deploys = refl

handle_deploy-clean_example :
    (dirty reader "example.org."
      (handle_deploy reader servers "increment" 20 past "" "example.org." (quiet_db two_zones)).1).0
    ≡ ok false
handle_deploy-clean_example =
    handle_deploy-clean reader servers "increment" 20 past "" "example.org." two_zones promoted
      (omega arith) two_zones-IsWellFormed reads_four deploys refl
