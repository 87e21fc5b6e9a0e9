-- ===== src/Tests/OutcomeRuns.antt =====
-- The answers of the store at concrete tables.
use mrdns.Prelude.{[], ok, err, not_found, foreign_key_violated, ◌≡◌}
use mrdns.Zone.{Record}
use mrdns.Store.{create_zone, update_zone_settings, delete_zone, add_record}
use mrdns.Store.Import.{import_zone}
use mrdns.Store.Snapshots.{publish}
use mrdns.Store.Outcomes.{sound, records_in, writes_outcome}
use mrdns.Tests.Sample.{sample}
use mrdns.Tests.StoreRuns.{two_zones, new_zone}

abbrev row : Record
row = record { name = "www.example.net."; ttl = 300; class = "IN"; type = "A"; rdata = "192.0.2.1" }

-- The tables have no zone of this name.
writes_outcome_example :
    ((create_zone (record new_zone { name = "example.net." }) "" (sound two_zones)).0 ≡ ok tt)
    × ((import_zone sample "example.net." "a zone" [] "" (sound two_zones)).0
        ≡ records_in sample "example.net." "a zone")
    × ((update_zone_settings (record new_zone { name = "example.net." }) (sound two_zones)).0
        ≡ err not_found)
    × ((delete_zone "example.net." (sound two_zones)).0 ≡ err not_found)
    × ((add_record "example.net." row (sound two_zones)).0 ≡ err foreign_key_violated)
    × ((publish 2 "example.net." "a zone" 9 "" (sound two_zones)).0 ≡ err not_found)
writes_outcome_example =
    writes_outcome sample two_zones new_zone row "example.net." "a zone" "" [] 2 9
