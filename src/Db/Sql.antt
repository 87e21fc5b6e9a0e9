-- ===== src/Db/Sql.antt =====
-- The SQL statements of internal/store/store.go on the tables, with the constraints of the schema:
-- zone names are a primary key, records and snapshots reference a zone, and deleting a zone
-- deletes what references it.
use Prim.Native.String.{compare}
use text.Mathlib.Text.{is_lt, is_le}
use mrdns.Prelude.{
  ℕ, ◌+◌, String, Bool, not, ◌&&◌, ◌||◌, List, [], ◌∷◌, ◌++◌, ok, err, unique_violated,
  foreign_key_violated, ◌==◌, eqb, leb, if◌then◌else◌, length, take, select, any,
}
use mrdns.Db.{ZoneRow, RecordRow, SnapshotRow, Tables, Statement}

-- `UPDATE … SET … WHERE p`: the rows after it, and how many it touched.
module _ {ℓ} {A : Type ℓ} where
  abbrev pub update : (A → Bool) → (A → A) → List A → List A
  update p f [] = []
  update p f (x ∷ xs) = (if p x then f x else x) ∷ update p f xs

  abbrev pub touched : (A → Bool) → List A → ℕ
  touched p xs = length (select p xs)

  -- `ORDER BY`, by insertion
  unfoldable pub insert_by : (A → A → Bool) → A → List A → List A
  insert_by before x [] = x ∷ []
  insert_by before x (y ∷ ys) =
      let rest = insert_by before x ys in if before x y then x ∷ y ∷ ys else y ∷ rest

  unfoldable pub sort_by : (A → A → Bool) → List A → List A
  unfolding insert_by
  sort_by before [] = []
  sort_by before (x ∷ xs) = insert_by before x (sort_by before xs)

abbrev pub zone_named : String → ZoneRow → Bool
zone_named name z = z.name == name

abbrev pub has_zone : String → List ZoneRow → Bool
has_zone name zones = any (zone_named name) zones

abbrev pub record_of : String → RecordRow → Bool
record_of name r = r.zone == name

abbrev pub snapshot_of : String → SnapshotRow → Bool
snapshot_of name s = s.zone == name

unfoldable pub insert_zone : ZoneRow → Statement (Unit {0})
insert_zone z t =
    if has_zone z.name t.zones
    then err unique_violated
    else ok (tt, record t { zones = t.zones ++ z ∷ [] })

-- Every `UPDATE zones … WHERE name=?` of the program; none sets the name.
unfoldable pub update_zone : String → (ZoneRow → ZoneRow) → Statement ℕ
update_zone name f t =
    ok (touched (zone_named name) t.zones, record t { zones = update (zone_named name) f t.zones })

unfoldable pub delete_zone_row : String → Statement ℕ
delete_zone_row name t = ok (
  touched (zone_named name) t.zones,
  record t {
    zones = select (λ z. not (zone_named name z)) t.zones;
    records = select (λ r. not (record_of name r)) t.records;
    snapshots = select (λ s. not (snapshot_of name s)) t.snapshots;
  },
)

-- The id of the new row is the result.
unfoldable pub insert_record : String → String → ℕ → String → String → Statement ℕ
insert_record zone name ttl type rdata t =
    if has_zone zone t.zones
    then ok (
      t.next_record,
      record t {
        records =
            t.records
            ++ record {
              id = t.next_record;
              zone = zone;
              name = name;
              ttl = ttl;
              type = type;
              rdata = rdata;
            }
              ∷ [];
        next_record = t.next_record + 1;
      },
    )
    else err foreign_key_violated

-- `WHERE id=? AND zone=?`
abbrev pub record_at : ℕ → String → RecordRow → Bool
record_at id zone r = eqb r.id id && r.zone == zone

unfoldable pub update_record_row : ℕ → String → String → ℕ → String → String → Statement ℕ
update_record_row id zone name ttl type rdata t = ok (
  touched (record_at id zone) t.records,
  record t {
    records =
        update (record_at id zone)
          (λ r. record r { name = name; ttl = ttl; type = type; rdata = rdata }) t.records;
  },
)

unfoldable pub delete_record_row : ℕ → String → Statement ℕ
delete_record_row id zone t = ok (
  touched (record_at id zone) t.records,
  record t { records = select (λ r. not (record_at id zone r)) t.records },
)

unfoldable pub delete_records_of : String → Statement ℕ
delete_records_of zone t = ok (
  touched (record_of zone) t.records,
  record t { records = select (λ r. not (record_of zone r)) t.records },
)

unfoldable pub insert_snapshot : String → ℕ → String → String → Statement ℕ
insert_snapshot zone serial content created_at t =
    if has_zone zone t.zones
    then ok (
      t.next_snapshot,
      record t {
        snapshots =
            t.snapshots
            ++ record {
              id = t.next_snapshot;
              zone = zone;
              serial = serial;
              content = content;
              created_at = created_at;
            }
              ∷ [];
        next_snapshot = t.next_snapshot + 1;
      },
    )
    else err foreign_key_violated

-- `SELECT … FROM snapshots WHERE zone=? ORDER BY id DESC`
unfoldable pub snapshots_desc : String → Tables → List SnapshotRow
unfolding sort_by
snapshots_desc zone t = sort_by (λ a b. leb b.id a.id) (select (snapshot_of zone) t.snapshots)

abbrev pub id_in : ℕ → List SnapshotRow → Bool
id_in id l = any (λ s. eqb s.id id) l

-- `DELETE … WHERE zone=? AND id NOT IN (SELECT id … ORDER BY id DESC LIMIT ?)`
unfoldable pub prune : String → ℕ → Statement (Unit {0})
prune zone keep t =
    let newest = take keep (snapshots_desc zone t) in
    ok (
      tt,
      record t {
        snapshots = select (λ s. not (snapshot_of zone s && not (id_in s.id newest))) t.snapshots;
      },
    )

-- `SELECT … FROM records WHERE zone=? ORDER BY name,type,id`, texts by their bytes
abbrev pub record_before : RecordRow → RecordRow → Bool
record_before a b =
    is_lt (compare a.name b.name)
    || (a.name == b.name && (is_lt (compare a.type b.type) || (a.type == b.type && leb a.id b.id)))

unfoldable pub records_sorted : String → Tables → List RecordRow
unfolding sort_by
records_sorted zone t = sort_by record_before (select (record_of zone) t.records)

-- `SELECT … FROM zones ORDER BY name`
unfoldable pub zones_sorted : Tables → List ZoneRow
unfolding sort_by
zones_sorted t = sort_by (λ a b. is_le (compare a.name b.name)) t.zones
