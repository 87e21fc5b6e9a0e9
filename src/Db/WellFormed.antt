-- ===== src/Db/WellFormed.antt =====
-- Every statement of Db/Sql.antt keeps the invariant of the tables.
use mathlib.Core.Path.{subst}
use mrdns.Prelude.{
  ◌<◌, Error, ℕ, ◌+◌, String, Bool, true, ok, err, ◌≡◌, refl, arith, All-append, if◌then◌else◌,
  Bool-cases, inl, inr, select,
}
use mrdns.Db.{ZoneRow, RecordRow, SnapshotRow, Tables}
use mrdns.Db.Sql.{
  update, has_zone, insert_zone, update_zone, delete_zone_row, insert_record, update_record_row,
  delete_record_row, delete_records_of, insert_snapshot, prune,
}
use mrdns.Db.Keeps.{Holds}
use mrdns.Db.Ids.{KeysBelow-suc, KeysAscend-select, KeysAscend-append, All-select}
use mrdns.Db.Invariant.{
  IsWellFormed, DistinctNames-append, Owned-append, DistinctNames-update, Owned-update,
  DistinctNames-select, Owned-select, All-update, KeysAscend-update,
}

ok_tables : {A : Type 0} (x : A × Tables) (a : A) (t' : Tables) → ok x ≡ ok (a, t') → x.1 ≡ t'
ok_tables x a t' e = cc

-- A statement that can only succeed.
Holds-total :
    {A : Type 0} (P : Tables → Type 0) (f : Tables → A × Tables)
    → ((t : Tables) → P t → P (f t).1)
    → Holds P (λ t. ok (f t))
Holds-total P f k = record { on = λ t t' a h e. subst P (ok_tables (f t) a t' e) (k t h) }

-- A statement that a constraint guards.
Holds-guarded :
    {A : Type 0} (P : Tables → Type 0) (test : Tables → Bool) (e : Error) (f : Tables → A × Tables)
    → ((t : Tables) → test t ≡ true → P t → P (f t).1)
    → Holds P (λ t. if test t then ok (f t) else err e)
Holds-guarded P test x f k = record {
  on = λ t t' a h e. elim (Bool-cases (test t)) [
    | inl p ↦ subst P (ok_tables (f t) a t' (rw p at e)) (k t p h)
    | inr p ↦ absurd (ground arith)
  ];
}

pub Holds-insert_zone : (z : ZoneRow) → Holds IsWellFormed (insert_zone z)
unfolding insert_zone
Holds-insert_zone z = record {
  on = λ t t' a h e. elim (Bool-cases (has_zone z.name t.zones)) [
    | inl p ↦ absurd (ground arith)
    | inr p ↦ subst IsWellFormed (ok_tables _ a t' (rw p at e)) (record {
      names = DistinctNames-append t.zones z h.names p;
      records_owned = Owned-append (λ r. r.zone) t.zones z t.records h.records_owned;
      snapshots_owned = Owned-append (λ s. s.zone) t.zones z t.snapshots h.snapshots_owned;
      record_ids = h.record_ids;
      records_below = h.records_below;
      snapshot_ids = h.snapshot_ids;
      snapshots_below = h.snapshots_below;
    })
  ];
}

pub Holds-update_zone :
    (name : String) (f : ZoneRow → ZoneRow)
    → ((z : ZoneRow) → (f z).name ≡ z.name)
    → Holds IsWellFormed (update_zone name f)
unfolding update_zone
Holds-update_zone name f k = Holds-total IsWellFormed _ λ t h. record {
  names = DistinctNames-update name f t.zones k h.names;
  records_owned = Owned-update (λ r. r.zone) name f t.zones t.records k h.records_owned;
  snapshots_owned = Owned-update (λ s. s.zone) name f t.zones t.snapshots k h.snapshots_owned;
  record_ids = h.record_ids;
  records_below = h.records_below;
  snapshot_ids = h.snapshot_ids;
  snapshots_below = h.snapshots_below;
}

pub Holds-delete_zone_row : (name : String) → Holds IsWellFormed (delete_zone_row name)
unfolding delete_zone_row
Holds-delete_zone_row name = Holds-total IsWellFormed _ λ t h. record {
  names = DistinctNames-select name t.zones h.names;
  records_owned = Owned-select (λ r. r.zone) name t.zones t.records h.records_owned;
  snapshots_owned = Owned-select (λ s. s.zone) name t.zones t.snapshots h.snapshots_owned;
  record_ids = KeysAscend-select (λ r. r.id) _ t.records h.record_ids;
  records_below = All-select (λ r. r.id < t.next_record) _ t.records h.records_below;
  snapshot_ids = KeysAscend-select (λ s. s.id) _ t.snapshots h.snapshot_ids;
  snapshots_below = All-select (λ s. s.id < t.next_snapshot) _ t.snapshots h.snapshots_below;
}

pub Holds-insert_record :
    (zone name : String) (ttl : ℕ) (type rdata : String)
    → Holds IsWellFormed (insert_record zone name ttl type rdata)
unfolding insert_record
Holds-insert_record zone name ttl type rdata =
    Holds-guarded IsWellFormed (λ t. has_zone zone t.zones) _ _
      λ t p h. record {
        names = h.names;
        records_owned =
            All-append (λ r. has_zone r.zone t.zones ≡ true) t.records _ h.records_owned (p, tt);
        snapshots_owned = h.snapshots_owned;
        record_ids = KeysAscend-append (λ r. r.id) t.records _ h.record_ids h.records_below;
        records_below =
            All-append (λ r. r.id < t.next_record + 1) t.records _
              (KeysBelow-suc (λ r. r.id) t.next_record t.records h.records_below) (omega arith, tt);
        snapshot_ids = h.snapshot_ids;
        snapshots_below = h.snapshots_below;
      }

pub Holds-insert_snapshot :
    (zone : String) (serial : ℕ) (content created_at : String)
    → Holds IsWellFormed (insert_snapshot zone serial content created_at)
unfolding insert_snapshot
Holds-insert_snapshot zone serial content created_at =
    Holds-guarded IsWellFormed (λ t. has_zone zone t.zones) _ _
      λ t p h. record {
        names = h.names;
        records_owned = h.records_owned;
        snapshots_owned =
            All-append (λ s. has_zone s.zone t.zones ≡ true) t.snapshots _ h.snapshots_owned
              (p, tt);
        record_ids = h.record_ids;
        records_below = h.records_below;
        snapshot_ids = KeysAscend-append (λ s. s.id) t.snapshots _ h.snapshot_ids h.snapshots_below;
        snapshots_below =
            All-append (λ s. s.id < t.next_snapshot + 1) t.snapshots _
              (KeysBelow-suc (λ s. s.id) t.next_snapshot t.snapshots h.snapshots_below)
              (omega arith, tt);
      }

-- A change of the records alone.
module _ (t : Tables) (h : IsWellFormed t) where
  records_selected :
      (p : RecordRow → Bool) → IsWellFormed (record t { records = select p t.records })
  records_selected p = record {
    names = h.names;
    records_owned = All-select (λ r. has_zone r.zone t.zones ≡ true) p t.records h.records_owned;
    snapshots_owned = h.snapshots_owned;
    record_ids = KeysAscend-select (λ r. r.id) p t.records h.record_ids;
    records_below = All-select (λ r. r.id < t.next_record) p t.records h.records_below;
    snapshot_ids = h.snapshot_ids;
    snapshots_below = h.snapshots_below;
  }

  snapshots_selected :
      (p : SnapshotRow → Bool) → IsWellFormed (record t { snapshots = select p t.snapshots })
  snapshots_selected p = record {
    names = h.names;
    records_owned = h.records_owned;
    snapshots_owned =
        All-select (λ s. has_zone s.zone t.zones ≡ true) p t.snapshots h.snapshots_owned;
    record_ids = h.record_ids;
    records_below = h.records_below;
    snapshot_ids = KeysAscend-select (λ s. s.id) p t.snapshots h.snapshot_ids;
    snapshots_below = All-select (λ s. s.id < t.next_snapshot) p t.snapshots h.snapshots_below;
  }

  records_updated :
      (p : RecordRow → Bool) (f : RecordRow → RecordRow)
      → ((r : RecordRow) → (f r).zone ≡ r.zone)
      → ((r : RecordRow) → (f r).id ≡ r.id)
      → IsWellFormed (record t { records = update p f t.records })
  records_updated p f k i = record {
    names = h.names;
    records_owned =
        All-update (λ r. has_zone r.zone t.zones ≡ true) p f t.records (λ r q. rw (k r) q)
          h.records_owned;
    snapshots_owned = h.snapshots_owned;
    record_ids = KeysAscend-update (λ r. r.id) p f t.records i h.record_ids;
    records_below =
        All-update (λ r. r.id < t.next_record) p f t.records (λ r q. rw (i r) q) h.records_below;
    snapshot_ids = h.snapshot_ids;
    snapshots_below = h.snapshots_below;
  }

pub Holds-update_record_row :
    (id : ℕ) (zone name : String) (ttl : ℕ) (type rdata : String)
    → Holds IsWellFormed (update_record_row id zone name ttl type rdata)
unfolding update_record_row
Holds-update_record_row id zone name ttl type rdata =
    Holds-total IsWellFormed _ λ t h. records_updated t h _ _ (λ r. refl) (λ r. refl)

pub Holds-delete_record_row :
    (id : ℕ) (zone : String) → Holds IsWellFormed (delete_record_row id zone)
unfolding delete_record_row
Holds-delete_record_row id zone = Holds-total IsWellFormed _ λ t h. records_selected t h _

pub Holds-delete_records_of : (zone : String) → Holds IsWellFormed (delete_records_of zone)
unfolding delete_records_of
Holds-delete_records_of zone = Holds-total IsWellFormed _ λ t h. records_selected t h _

pub Holds-prune : (zone : String) (keep : ℕ) → Holds IsWellFormed (prune zone keep)
unfolding prune
Holds-prune zone keep = Holds-total IsWellFormed _ λ t h. snapshots_selected t h _
