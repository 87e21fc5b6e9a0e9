-- ===== src/Tests/ZoneRuns.antt =====
-- The theorems on zones, serials and rows at concrete inputs.
use mrdns.Prelude.{
  ◌+◌, ◌-◌, ◌^◌, ◌<◌, String, true, false, none, [], ◌∷◌, ok, ◌≡◌, refl, arith, ◌↔◌, ◌==◌,
  if◌then◌else◌,
}
use mrdns.Text.{decimal, trim_space, trim_prefix}
use mrdns.Zone.{Record, Zone, soa, first_soa, view, rdata}
use mrdns.Zone.Serial.{Time, u32, next_serial, bump_serial}
use mrdns.Zone.Serial.Order.{next_serial_lem, clock_serial, SerialLt}
use mrdns.Zone.Edit.{add, remove, remove_first, record_matches, hit, new_rr_with_origin, line_text}
use mrdns.Zone.Edit.Change.{new_rr_with_origin-ok_iff}
use mrdns.Zone.Build.{data_records, normalize_record, normal_line}
use mrdns.Zone.Build.Rows.{bump_serial_effect, normalize_record_sound}
use mrdns.Tests.Sample.{Entry, start, first_soa_of, www, mail, sample, sample-IsLawful}

abbrev noon : Time
noon = record { unix = 1_717_243_200; year = 2024; month = 6; day = 1 }

abbrev new_year : Time
new_year = record { unix = 1_735_689_600; year = 2025; month = 1; day = 1 }

abbrev two_records : Zone sample
two_records = record { origin = "example.com."; records = start (first_soa_of 7) ∷ www ∷ [] }

abbrev three_records : Zone sample
three_records = record {
  origin = "example.com.";
  records = start (first_soa_of 7) ∷ www ∷ mail ∷ [];
}

next_serial_lem_example :
    (next_serial "date" 4_294_967_295 noon < u32)
    × (4_294_967_295 < u32 - 1 → 4_294_967_295 < next_serial "date" 4_294_967_295 noon)
    × (4_294_967_295 ≡ u32 - 1 → next_serial "date" 4_294_967_295 noon ≡ 0)
    × (clock_serial "date" noon < 4_294_967_295 + 2 ^ 31
        → SerialLt 4_294_967_295 (next_serial "date" 4_294_967_295 noon))
next_serial_lem_example = next_serial_lem "date" 4_294_967_295 noon (omega arith)

-- A line is added, and the first record is then taken out.
mail_added : add sample two_records "mail A 192.0.2.2" ≡ ok three_records
unfolding add new_rr_with_origin
mail_added = refl

www_removed : (remove sample three_records "www.example.com." "A" "192.0.2.1").1 ≡ true
unfolding remove remove_first hit record_matches rdata trim_prefix
www_removed = refl

-- A line with an $INCLUDE behind the record: the record is accepted, and the error is not read.
abbrev include_line : String
include_line = "mail A 192.0.2.2\n$INCLUDE x"

new_rr_with_origin-ok_iff_example :
    (new_rr_with_origin sample include_line "example.com." ≡ ok mail)
    ↔ ((sample.parse (line_text sample include_line "example.com.") "example.com.").0 ≡ mail ∷ [])
new_rr_with_origin-ok_iff_example =
    new_rr_with_origin-ok_iff sample include_line "example.com." mail

include_accepted : new_rr_with_origin sample include_line "example.com." ≡ ok mail
include_accepted = (new_rr_with_origin-ok_iff sample include_line "example.com." mail).1 refl

soa_found : soa sample two_records ≡ ok (first_soa_of 7)
unfolding soa first_soa
soa_found = refl

bump_serial_effect_example :
    ((bump_serial sample two_records "increment" noon).0 ≡ ok (7, next_serial "increment" 7 noon))
    × (soa sample (bump_serial sample two_records "increment" noon).1
        ≡ ok (record (first_soa_of 7) { serial = next_serial "increment" 7 noon }))
    × (data_records sample (bump_serial sample two_records "increment" noon).1
        ≡ data_records sample two_records)
bump_serial_effect_example =
    bump_serial_effect sample sample-IsLawful two_records "increment" noon (first_soa_of 7)
      soa_found

-- What `strings.ToUpper` gives on the type of the test.
abbrev upper : String → String
upper s = if s == "a" then "A" else s

abbrev mail_row : Record
mail_row = record {
  name = "mail.example.com.";
  ttl = 3600;
  class = "IN";
  type = "A";
  rdata = "192.0.2.2";
}

mail_accepted : normalize_record sample upper "example.com" "mail" 0 " a " "192.0.2.2" ≡ ok mail_row
unfolding normalize_record new_rr_with_origin trim_space rdata trim_prefix decimal
mail_accepted = refl

normalize_record_sound_example :
    (e : Entry) × (new_rr_with_origin sample
        (normal_line upper "mail" 0 " a " "192.0.2.2")
        "example.com"
      ≡ ok e)
    × (sample.as_soa e ≡ none)
    × (mail_row ≡ record (view sample e) { class = "IN" })
    × ((mail_row.type == "SOA") ≡ false)
normalize_record_sound_example =
    normalize_record_sound sample sample-IsLawful upper "example.com" "mail" 0 " a " "192.0.2.2"
      mail_row mail_accepted
