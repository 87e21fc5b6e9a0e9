-- ===== src/Store/Snapshots/Publish.antt =====
-- What `Publish` of internal/store/store.go does to the tables when it returns no error.
use mathlib.Core.Option
use mathlib.Core.List.{append-nil}
use mrdns.Prelude.{
  not_found, ℕ, zero, suc, ◌+◌, String, Bool, not, ◌&&◌, List, [], ◌∷◌, ◌++◌, map, ok, err, ◌≡◌,
  ◌≢◌, refl, ap, ◌∙◌, arith, head?, take, select, select-append, eqb, leb, eq_iff, eq_refl, ◌==◌,
  if◌then◌else◌,
}
use mrdns.Db.{SnapshotRow, ZoneRow, Tables, Db, exec, pure, raise, ◌>>=◌}
use mrdns.Db.Sql.{
  snapshots_desc, snapshot_of, insert_snapshot, prune, has_zone, zone_named, update_zone, touched,
  update, sort_by,
}
use mrdns.Db.Ids.{KeysAscend-append}
use mrdns.Db.Invariant.{IsWellFormed, has_zone-update}
use mrdns.Store.{set_serial, not_found_if_no_rows, zone_in}
use mrdns.Store.Snapshots.{publish, history, scan_snapshot}
use mrdns.Store.Snapshots.History.{pruned, new_row, snapshots_desc-pruned, snapshots_desc-append}

-- The row of a zone with a new serial.
abbrev pub with_serial : ℕ → ZoneRow → ZoneRow
with_serial n r = record r { serial = n }

-- The tables that a publish without errors leaves.
abbrev pub published : ℕ → String → String → ℕ → String → Tables → Tables
published keep name content serial now t = pruned name keep (record t {
  zones = update (zone_named name) (with_serial serial) t.zones;
  snapshots = t.snapshots ++ new_row name serial content now t ∷ [];
  next_snapshot = t.next_snapshot + 1;
})

publish_tables :
    (keep : ℕ) (name content : String) (serial : ℕ) (now : String) (db : Db)
    → (publish keep name content serial now db).0 ≡ ok tt
    → (publish keep name content serial now db).1.tables
      ≡ published keep name content serial now db.tables
unfolding publish set_serial exec ◌>>=◌ not_found_if_no_rows pure raise update_zone insert_snapshot
    prune
publish_tables keep name content serial now db h = ground arith

map-take {ℓ κ} :
    {A : Type ℓ} {B : Type κ} (f : A → B) (n : ℕ) (l : List A) → map f (take n l) ≡ take n (map f l)
map-take f zero l = refl
map-take f (suc n) [] = refl
map-take f (suc n) (x ∷ l) = ap (λ m. f x ∷ m) (map-take f n l)

history-published :
    (keep : ℕ) (name content : String) (serial : ℕ) (now : String) (t : Tables)
    → IsWellFormed t
    → snapshots_desc name (published keep name content serial now t)
      ≡ take keep (new_row name serial content now t ∷ snapshots_desc name t)
history-published keep name content serial now t wf =
    let u = record t {
      zones = update (zone_named name) (with_serial serial) t.zones;
      snapshots = t.snapshots ++ new_row name serial content now t ∷ [];
      next_snapshot = t.next_snapshot + 1;
    } in
    let up =
      KeysAscend-append (λ s. s.id) t.snapshots (new_row name serial content now t) wf.snapshot_ids
        wf.snapshots_below in
    snapshots_desc-pruned name keep u up
    ∙ ap (take keep) (
        snapshots_desc-append name t u (new_row name serial content now t) wf.snapshot_ids up refl
          refl)

-- On tables that are well formed, a publish that returns no error puts the deployed content and serial first in the zone's
-- history, as a snapshot with a fresh id, and keeps of the older ones the newest, `keep` in all.
pub publish-history :
    (keep : ℕ) (name content : String) (serial : ℕ) (now : String) (db : Db)
    → IsWellFormed db.tables
    → (publish keep name content serial now db).0 ≡ ok tt
    → history name (publish keep name content serial now db).1.tables
      ≡ take keep
          (scan_snapshot (new_row name serial content now db.tables) ∷ history name db.tables)
unfolding history
publish-history keep name content serial now db wf h =
    ap (λ t. map scan_snapshot (snapshots_desc name t))
      (publish_tables keep name content serial now db h)
    ∙ ap (map scan_snapshot) (history-published keep name content serial now db.tables wf)
    ∙ map-take scan_snapshot keep _

pub head-update :
    (name other : String) (f : ZoneRow → ZoneRow) (zs : List ZoneRow)
    → ((z : ZoneRow) → (f z).name ≡ z.name)
    → head? (select (zone_named other) (update (zone_named name) f zs)) ≡ (
        if name == other
        then Option.map f (head? (select (zone_named other) zs))
        else head? (select (zone_named other) zs))
head-update name other f [] k = ground arith
head-update name other f (z ∷ zs) k = ground (
  arith,
  head-update name other f zs k,
  k z,
  eq_iff z.name name,
  eq_iff z.name other,
  eq_iff name other,
)

select_other :
    (name other : String) (q : SnapshotRow → Bool) (rows : List SnapshotRow)
    → name ≢ other
    → select (snapshot_of other) (select (λ s. not (snapshot_of name s && not (q s))) rows)
      ≡ select (snapshot_of other) rows
select_other name other q [] ne = refl
select_other name other q (s ∷ rows) ne =
    ground (arith, select_other name other q rows ne, eq_iff s.zone name, eq_iff s.zone other)

snapshots_desc-other :
    (keep : ℕ) (name content : String) (serial : ℕ) (now other : String) (t : Tables)
    → name ≢ other
    → snapshots_desc other (published keep name content serial now t) ≡ snapshots_desc other t
unfolding snapshots_desc
snapshots_desc-other keep name content serial now other t ne =
    let row = new_row name serial content now t in
    ap (sort_by (λ a b. leb b.id a.id)) (
      select_other name other _ (t.snapshots ++ row ∷ []) ne
      ∙ select-append (snapshot_of other) t.snapshots (row ∷ [])
      ∙ ap (λ (l : List SnapshotRow). select (snapshot_of other) t.snapshots ++ l)
          (ground (arith, eq_iff name other))
      ∙ append-nil (select (snapshot_of other) t.snapshots))

pub zone_in-published :
    (keep : ℕ) (name content : String) (serial : ℕ) (now : String) (t : Tables)
    → zone_in name (published keep name content serial now t)
      ≡ Option.map (with_serial serial) (zone_in name t)
unfolding zone_in
zone_in-published keep name content serial now t =
    ground (arith, head-update name name (with_serial serial) t.zones (λ z. refl), eq_refl name)

-- A publish that returns no error sets the serial of its zone and changes nothing else of any
-- zone, no record, and nothing of the history of any other zone.
pub publish_frame :
    (keep : ℕ) (name content : String) (serial : ℕ) (now other : String) (db : Db)
    → (publish keep name content serial now db).0 ≡ ok tt
    → name ≢ other
    → let t = (publish keep name content serial now db).1.tables in
      (zone_in name t ≡ Option.map (with_serial serial) (zone_in name db.tables))
      × (zone_in other t ≡ zone_in other db.tables)
      × (history other t ≡ history other db.tables)
      × (t.records ≡ db.tables.records)
unfolding zone_in history
publish_frame keep name content serial now other db h ne =
    rw (publish_tables keep name content serial now db h) (
      zone_in-published keep name content serial now db.tables,
      ground (
        arith,
        head-update name other (with_serial serial) db.tables.zones (λ z. refl),
        eq_iff name other,
      ),
      ap (map scan_snapshot) (snapshots_desc-other keep name content serial now other db.tables ne),
      refl,
    )

pub touched_zero :
    (name : String) (zs : List ZoneRow)
    → eqb (touched (zone_named name) zs) 0 ≡ not (has_zone name zs)
touched_zero name [] = refl
touched_zero name (z ∷ zs) = ground (arith, touched_zero name zs)

-- When the driver fails no statement, a publish succeeds exactly when the zone exists, and is
-- answered with ErrNotFound otherwise.
pub publish_outcome :
    (keep : ℕ) (name content : String) (serial : ℕ) (now : String) (t : Tables)
    → (publish keep name content serial now (record { tables = t; faults = [] })).0
      ≡ (if has_zone name t.zones then ok tt else err not_found)
unfolding publish set_serial exec ◌>>=◌ not_found_if_no_rows pure raise update_zone insert_snapshot
    prune
publish_outcome keep name content serial now t = ground (
  arith,
  touched_zero name t.zones,
  has_zone-update name name (with_serial serial) t.zones (λ z. refl),
)
