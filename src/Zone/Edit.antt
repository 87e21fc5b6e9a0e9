-- ===== src/Zone/Edit.antt =====
-- internal/zone/edit.go: adding, removing and replacing the records of a zone.
pub mod Soa
pub mod Change
use Prim.Native.String.{◌++◌}
use mrdns.Prelude.{
  String, Bool, true, false, ◌&&◌, Option, none, some, List, [], ◌∷◌, Result, ok, err,
  invalid_record, no_record, many_records, soa_managed, ◌==◌, eqb, if◌then◌else◌,
}
use mrdns.Prelude
use mrdns.Dns.{Dns}
use mrdns.Zone.{Zone, rdata}

module _ (d : Dns) where
  -- The first `Next` gives the record; `Err` is read before the second `Next` and not after it.
  one_record : List d.Rr × Option String → Result d.Rr
  one_record ([], some e) = err (invalid_record e)
  one_record ([], none) = err no_record
  one_record (r ∷ [], _) = ok r
  one_record (r ∷ _ ∷ _, _) = err many_records

  -- The text that is parsed for a line.
  abbrev pub line_text : String → String → String
  line_text line origin = "$ORIGIN " ++ (d.fqdn origin ++ ("\n$TTL 3600\n" ++ (line ++ "\n")))

  -- `newRRWithOrigin`
  unfoldable pub new_rr_with_origin : String → String → Result d.Rr
  unfolding one_record
  new_rr_with_origin line origin = one_record (d.parse (line_text line origin) (d.fqdn origin))

  abbrev pub is_soa : d.Rr → Bool
  is_soa r = eqb (d.rrtype r) d.type_soa

  -- The parsed record, unless its type is SOA.
  editable : Result d.Rr → Result d.Rr
  editable (err e) = err e
  editable (ok r) = if is_soa r then err soa_managed else ok r

  append : Zone d → Result d.Rr → Result (Zone d)
  append z (err e) = err e
  append z (ok r) = ok (record z { records = Prelude.◌++◌ z.records (r ∷ []) })

  unfoldable pub add : Zone d → String → Result (Zone d)
  unfolding append editable
  add z line = append z (editable (new_rr_with_origin line z.origin))

  unfoldable pub record_matches : d.Rr → String → String → String → Bool
  record_matches r name rtype rd =
      (d.name r == name) && ((d.type_name (d.rrtype r) == rtype) && (rdata d r == rd))

  -- The test of both loops: not the SOA record, and a match.
  unfoldable pub hit : String → String → String → d.Rr → Bool
  unfolding record_matches
  hit name rtype rd r = if is_soa r then false else record_matches r name rtype rd

  -- The records without the first that passes the test, if one does.
  unfoldable pub remove_first : (d.Rr → Bool) → List d.Rr → Option (List d.Rr)
  remove_first p [] = none
  remove_first p (r ∷ rs) =
      let rest = remove_first p rs in
      if p r then some rs else elim rest [ none ↦ none | some l ↦ some (r ∷ l) ]

  kept : Zone d → Option (List d.Rr) → Zone d × Bool
  kept z none = (z, false)
  kept z (some l) = (record z { records = l }, true)

  unfoldable pub remove : Zone d → String → String → String → Zone d × Bool
  unfolding kept
  remove z name rtype rd = kept z (remove_first (hit name rtype rd) z.records)

  unfoldable pub replace_first : (d.Rr → Bool) → d.Rr → List d.Rr → Option (List d.Rr)
  replace_first p new [] = none
  replace_first p new (r ∷ rs) =
      let rest = replace_first p new rs in
      if p r then some (new ∷ rs) else elim rest [ none ↦ none | some l ↦ some (r ∷ l) ]

  replaced : Zone d → (d.Rr → Bool) → Result d.Rr → Zone d × Result Bool
  unfolding kept
  replaced z p (err e) = (z, err e)
  replaced z p (ok new) = let (z', done) = kept z (replace_first p new z.records) in (z', ok done)

  unfoldable pub replace : Zone d → String → String → String → String → Zone d × Result Bool
  unfolding replaced editable
  replace z name rtype rd new_line =
      replaced z (hit name rtype rd) (editable (new_rr_with_origin new_line z.origin))
