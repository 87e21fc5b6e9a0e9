-- ===== src/Store/SoaFree.antt =====
-- The rows of the table of records are what a user edits: an SOA record is never among them. It is
-- made from the columns of the zone.
pub mod Calls
use mathlib.Core.Path.{subst}
use mrdns.Prelude.{
  ℕ, String, Bool, true, false, not, List, [], ◌∷◌, Result, ok, err, ◌≡◌, refl, sym, arith, ◌++◌,
  ◌==◌, All, All-append, select, zero, suc, if◌then◌else◌,
}
use mrdns.Dns.{Dns, IsLawful}
use mrdns.Zone.{Record, records}
use mrdns.Zone.Build.{SoaData, data_records, normalize_record}
use mrdns.Zone.Build.Rows.{normalize_record_sound}
use mrdns.Db.{ZoneRow, RecordRow, Tables, Statement, exec}
use mrdns.Db.Ids.{All-select}
use mrdns.Db.Keeps.{
  Keeps, Holds, Keeps-exec, Keeps-bind, Keeps-transaction, Keeps-lift, Keeps-query, keeps_rules,
}
use mrdns.Db.Sql.{
  update, insert_zone, update_zone, delete_zone_row, insert_record, update_record_row,
  delete_record_row, delete_records_of, insert_snapshot, prune, record_of, record_at,
}
use mrdns.Store.{
  StoredZone, create_zone, update_zone_settings, set_serial, delete_zone, add_record, update_record,
  delete_record, not_found_if_no_rows, zone_exists,
}
use mrdns.Store.Snapshots.{publish}
use mrdns.Store.Import.{insert_records, import_rows, restore_rows, import_zone, restore_snapshot}

abbrev pub NoSoa : List RecordRow → Type 0
NoSoa rows = All (λ r. (r.type == "SOA") ≡ false) rows

pub record IsSoaFree (t : Tables) : Type 0 where
  pub rows : NoSoa t.records

from_rows : (rows : List RecordRow) (t : Tables) → NoSoa rows → t.records ≡ rows → IsSoaFree t
from_rows rows t h e = record { rows = subst NoSoa (sym e) h }

module _ {A : Type 0} where
  -- A statement that leaves the records, or takes some away.
  Holds-same :
      (st : Statement A)
      → ((t t' : Tables) (a : A) → st t ≡ ok (a, t') → t'.records ≡ t.records)
      → Holds IsSoaFree st
  Holds-same st k = record { on = λ t t' a h e. from_rows t.records t' h.rows (k t t' a e) }

  Holds-fewer :
      (st : Statement A) (p : RecordRow → Bool)
      → ((t t' : Tables) (a : A) → st t ≡ ok (a, t') → t'.records ≡ select p t.records)
      → Holds IsSoaFree st
  Holds-fewer st p k = record {
    on = λ t t' a h e.
        from_rows (select p t.records) t' (All-select _ p t.records h.rows) (k t t' a e);
  }

pub Holds-insert_zone : (z : ZoneRow) → Holds IsSoaFree (insert_zone z)
unfolding insert_zone
Holds-insert_zone z = Holds-same _ λ t t' a e. ground (arith, e)

pub Holds-update_zone :
    (name : String) (f : ZoneRow → ZoneRow) → Holds IsSoaFree (update_zone name f)
unfolding update_zone
Holds-update_zone name f = Holds-same _ λ t t' a e. ground (arith, e)

pub Holds-insert_snapshot :
    (zone : String) (serial : ℕ) (content now : String)
    → Holds IsSoaFree (insert_snapshot zone serial content now)
unfolding insert_snapshot
Holds-insert_snapshot zone serial content now = Holds-same _ λ t t' a e. ground (arith, e)

pub Holds-prune : (name : String) (keep : ℕ) → Holds IsSoaFree (prune name keep)
unfolding prune
Holds-prune name keep = Holds-same _ λ t t' a e. ground (arith, e)

pub Holds-delete_zone_row : (name : String) → Holds IsSoaFree (delete_zone_row name)
unfolding delete_zone_row
Holds-delete_zone_row name =
    Holds-fewer _ (λ r. not (record_of name r)) λ t t' a e. ground (arith, e)

pub Holds-delete_records_of : (name : String) → Holds IsSoaFree (delete_records_of name)
unfolding delete_records_of
Holds-delete_records_of name =
    Holds-fewer _ (λ r. not (record_of name r)) λ t t' a e. ground (arith, e)

pub Holds-delete_record_row : (id : ℕ) (zone : String) → Holds IsSoaFree (delete_record_row id zone)
unfolding delete_record_row
Holds-delete_record_row id zone =
    Holds-fewer _ (λ r. not (record_at id zone r)) λ t t' a e. ground (arith, e)

NoSoa-update :
    (p : RecordRow → Bool) (f : RecordRow → RecordRow) (rows : List RecordRow)
    → ((r : RecordRow) → ((f r).type == "SOA") ≡ false)
    → NoSoa rows
    → NoSoa (update p f rows)
NoSoa-update p f [] k h = tt
NoSoa-update p f (r ∷ rows) k (h, hs) = (ground (arith, k r), NoSoa-update p f rows k hs)

module _ (zone name : String) (ttl : ℕ) (type rdata : String)
    (plain : (type == "SOA") ≡ false) where
  pub Holds-insert_record : Holds IsSoaFree (insert_record zone name ttl type rdata)
  unfolding insert_record
  Holds-insert_record = record {
    on = λ t t' a h e.
        let row : RecordRow = record {
          id = t.next_record;
          zone = zone;
          name = name;
          ttl = ttl;
          type = type;
          rdata = rdata;
        } in
        from_rows (t.records ++ row ∷ []) t'
          (All-append (λ r. (r.type == "SOA") ≡ false) t.records (row ∷ []) h.rows (plain, tt))
          (ground (arith, e));
  }

  pub Holds-update_record_row :
      (id : ℕ) → Holds IsSoaFree (update_record_row id zone name ttl type rdata)
  unfolding update_record_row
  Holds-update_record_row id = record {
    on = λ t t' a h e.
        let f : RecordRow → RecordRow =
          λ r. record r { name = name; ttl = ttl; type = type; rdata = rdata } in
        from_rows (update (record_at id zone) f t.records) t'
          (NoSoa-update (record_at id zone) f t.records (λ r. plain) h.rows) (ground (arith, e));
  }
