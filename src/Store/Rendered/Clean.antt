-- ===== src/Store/Rendered/Clean.antt =====
-- When `Dirty` of internal/store/store.go reports no change: right after a publish of what `Build`
-- and `BumpSerial` gave.
use mathlib.Core.Option
use mrdns.Prelude.{
  ℕ, ◌<◌, zero, suc, String, false, not, some, List, [], map, head?, ok, ◌≡◌, sym, ap, ◌∙◌, arith,
  ◌==◌, Option-cases, inl, inr, eq_refl,
}
use mrdns.Dns.{Dns}
use mrdns.Zone.{Record, Zone, render}
use mrdns.Zone.Serial.{Time, bump_serial, assign_serial}
use mrdns.Zone.Build.{build as build_zone}
use mrdns.Db.{Db, Tables, ZoneRow, exec, pure, raise, lift, ◌>>=◌}
use mrdns.Db.Invariant.{IsWellFormed}
use mrdns.Store.{
  stored_soa_data, zone_in, scan_zone, get_zone, stored_records, records, set_serial,
  not_found_if_no_rows,
}
use mrdns.Store.Rendered.{build, dirty, against, differs}
use mrdns.Store.Snapshots.{Snapshot, publish, history, last_snapshot, scan_snapshot}
use mrdns.Store.Snapshots.History.{new_row}
use mrdns.Store.Snapshots.Publish.{published, publish-history, with_serial, zone_in-published}
use mrdns.Db.Sql.{update_zone, insert_snapshot, prune, records_sorted}

abbrev pub rows_of : String → Tables → List Record
rows_of name t = map (λ r. r.row) (stored_records name t)

abbrev pub quiet_db : Tables → Db
quiet_db t = record { tables = t; faults = [] }

module _ (d : Dns) where
  pub get_zone_still : (name : String) (t : Tables) → (get_zone name (quiet_db t)).1 ≡ quiet_db t
  unfolding get_zone exec lift ◌>>=◌
  get_zone_still name t = ground arith

  pub build_still : (name : String) (t : Tables) → (build d name (quiet_db t)).1 ≡ quiet_db t
  unfolding build get_zone records exec lift ◌>>=◌
  build_still name t = ground arith

  dirty-eq :
      (name : String) (t : Tables) (snap : Snapshot) (row : ZoneRow) (b : Zone d)
      → head? (history name t) ≡ some snap
      → zone_in name t ≡ some row
      → build_zone d row.name (stored_soa_data (scan_zone row)) (rows_of name t) ≡ ok b
      → (dirty d name (quiet_db t)).0 ≡ ok (not (render d b == snap.content))
  unfolding dirty against differs build get_zone scan_zone records last_snapshot exec pure raise
      lift ◌>>=◌
  dirty-eq name t snap row b h k e = ground arith

  -- The documented behaviour of the parser that the theorem rests on, at the settings and the records
  -- that the tables have of a zone: another serial in its settings gives the same zone but for the
  -- serial of its SOA record.
  pub record ReadsSerial (name : String) (t : Tables) (n : ℕ) : Type 0 where
    pub reads :
        (row : ZoneRow) (b : Zone d)
        → zone_in name t ≡ some row
        → build_zone d row.name (stored_soa_data (scan_zone row)) (rows_of name t) ≡ ok b
        → build_zone d row.name
            (record (stored_soa_data (scan_zone row)) { serial = n })
            (rows_of name t)
          ≡ ok (record b { records = assign_serial d n b.records })

  bumped_zone :
      (z b : Zone d) (policy : String) (now : Time) (old new : ℕ)
      → bump_serial d z policy now ≡ (ok (old, new), b)
      → b ≡ record z { records = assign_serial d new z.records }
  unfolding bump_serial
  bumped_zone z b policy now old new h = ground arith

  built_from :
      (name : String) (t : Tables) (b : Zone d)
      → (build d name (quiet_db t)).0 ≡ ok b
      → (row : ZoneRow) × (zone_in name t ≡ some row)
        × (build_zone d row.name (stored_soa_data (scan_zone row)) (rows_of name t) ≡ ok b)
  unfolding build get_zone scan_zone records exec pure raise lift ◌>>=◌
  built_from name t b h = elim (Option-cases (zone_in name t)) [
    | inl e ↦ absurd (ground (arith, h, e))
    | inr (row, e) ↦ (row, e, ground (arith, h, e))
  ]

  publish_quiet :
      (keep : ℕ) (name content : String) (serial : ℕ) (now : String) (t : Tables)
      → (publish keep name content serial now (quiet_db t)).0 ≡ ok tt
      → (publish keep name content serial now (quiet_db t)).1
        ≡ quiet_db (published keep name content serial now t)
  unfolding publish set_serial exec ◌>>=◌ not_found_if_no_rows pure raise update_zone
      insert_snapshot prune
  publish_quiet keep name content serial now t h = ground arith

  -- When the driver fails no statement: a zone that is published as it was built, under the new
  -- serial of `BumpSerial`, has no changes since, if the parser reads another serial as one. At least
  -- one snapshot is kept, and the tables are well formed.
  pub clean_after_publish :
      (keep : ℕ) (name policy : String) (now : Time) (stamp : String) (t : Tables) (z b : Zone d)
      (old new : ℕ)
      → 0 < keep
      → IsWellFormed t
      → ReadsSerial name t new
      → (build d name (quiet_db t)).0 ≡ ok z
      → bump_serial d z policy now ≡ (ok (old, new), b)
      → (publish keep name (render d b) new stamp (quiet_db t)).0 ≡ ok tt
      → (dirty d name (publish keep name (render d b) new stamp (quiet_db t)).1).0 ≡ ok false
  unfolding scan_snapshot scan_zone stored_records records_sorted
  clean_after_publish zero name policy now stamp t z b old new h wf law built bumped done =
      absurd (omega (arith, h))
  clean_after_publish (suc k) name policy now stamp t z b old new h wf law built bumped done =
      let content = render d b in
      let u = published (suc k) name content new stamp t in
      let (row, found, made) = built_from name t z built in
      let left = publish_quiet (suc k) name content new stamp t done in
      let newest =
        ap (λ x. head? (history name x.tables)) (sym left)
        ∙ ap head? (publish-history (suc k) name content new stamp (quiet_db t) wf done) in
      let zone_row =
        zone_in-published (suc k) name content new stamp t
        ∙ ap (λ x. Option.map (with_serial new) x) found in
      let rebuilt =
        law.reads row z found made ∙ ap ok (sym (bumped_zone z b policy now old new bumped)) in
      ap (λ x. (dirty d name x).0) left
      ∙ dirty-eq name u (scan_snapshot (new_row name new content stamp t)) (with_serial new row) b
          newest zone_row rebuilt
      ∙ ap (λ x. ok (not x)) (eq_refl content)
