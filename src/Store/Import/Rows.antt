-- ===== src/Store/Import/Rows.antt =====
-- The rows that a successful import or restore leaves.
use mrdns.Prelude.{
  ℕ, ◌+◌, String, not, List, [], ◌∷◌, ◌++◌, Result, ok, ◌≡◌, refl, sym, ap, ◌∙◌, arith, select,
}
use mathlib.Core.List.{append-nil, append_assoc}
use mrdns.Zone.{Record}
use mrdns.Zone.Build.{SoaData}
use mrdns.Db.{RecordRow, ZoneRow, Tables, Db, Exec, exec, pure, ◌>>=◌}
use mrdns.Db.Sql.{insert_record, update_zone, delete_records_of, record_of, zone_named, update}
use mrdns.Db.Runs.{bind-ok, exec-ok}
use mrdns.Store.Import.{insert_records}

-- The rows that the loop of inserts makes, with their ids.
unfoldable pub numbered : String → ℕ → List Record → List RecordRow
numbered zone next [] = []
numbered zone next (r ∷ rs) =
    record { id = next; zone = zone; name = r.name; ttl = r.ttl; type = r.type; rdata = r.rdata }
    ∷ numbered zone (next + 1) rs

-- The tables after one insert, and after the loop.
abbrev pub with_record : String → Record → Tables → Tables
with_record zone r t = record t {
  records =
      t.records
      ++ record {
        id = t.next_record;
        zone = zone;
        name = r.name;
        ttl = r.ttl;
        type = r.type;
        rdata = r.rdata;
      }
        ∷ [];
  next_record = t.next_record + 1;
}

unfoldable pub with_records : String → List Record → Tables → Tables
with_records zone [] t = t
with_records zone (r ∷ rs) t = with_records zone rs (with_record zone r t)

pub with_records-fields :
    (zone : String) (rs : List Record) (t : Tables)
    → ((with_records zone rs t).records ≡ t.records ++ numbered zone t.next_record rs)
      × ((with_records zone rs t).zones ≡ t.zones)
      × ((with_records zone rs t).snapshots ≡ t.snapshots)
unfolding with_records numbered
with_records-fields zone [] t = (sym (append-nil t.records), refl, refl)
with_records-fields zone (r ∷ rs) t =
    let (a, b, c) = with_records-fields zone rs (with_record zone r t) in
    (a ∙ append_assoc t.records _ _, b, c)

inserted-record :
    (zone : String) (r : Record) (t t' : Tables) (id : ℕ)
    → insert_record zone r.name r.ttl r.type r.rdata t ≡ ok (id, t')
    → t' ≡ with_record zone r t
unfolding insert_record
inserted-record zone r t t' id h = ground arith

pure-same : (db : Db) → (pure tt db).1 ≡ db
unfolding pure
pure-same db = refl

pub insert_records-tables :
    (zone : String) (rs : List Record) (db : Db)
    → (insert_records zone rs db).0 ≡ ok tt
    → (insert_records zone rs db).1.tables ≡ with_records zone rs db.tables
unfolding insert_records with_records
insert_records-tables zone [] db h = ap (λ (x : Db). x.tables) (pure-same db)
insert_records-tables zone (r ∷ rs) db h =
    let st = insert_record zone r.name r.ttl r.type r.rdata in
    let (id, done, rest) = bind-ok (exec st) (λ _. insert_records zone rs) db tt h in
    ap (λ (x : Result (Unit {0}) × Db). x.1.tables) rest
    ∙ insert_records-tables zone rs (exec st db).1
        (ap (λ (x : Result (Unit {0}) × Db). x.0) (sym rest) ∙ h)
    ∙ ap (with_records zone rs)
        (inserted-record zone r db.tables (exec st db).1.tables id (exec-ok st db id done))

-- The `UPDATE zones` of a restore.
abbrev pub with_soa : SoaData → ZoneRow → ZoneRow
with_soa s r = record r {
  primary_ns = s.primary_ns;
  mbox = s.mbox;
  refresh = s.refresh;
  retry = s.retry;
  expire = s.expire;
  minimum = s.minimum;
  ttl = s.ttl;
  serial = s.serial;
}

unfoldable pub cleared : String → SoaData → Tables → Tables
cleared name s t = record t {
  zones = update (zone_named name) (with_soa s) t.zones;
  records = select (λ r. not (record_of name r)) t.records;
}

unfoldable pub restore_body : String → SoaData → List Record → Exec (Unit {0})
restore_body name s recs = do
  _ ← exec (update_zone name (with_soa s))
  _ ← exec (delete_records_of name)
  insert_records name recs

pub restore_body-tables :
    (name : String) (s : SoaData) (recs : List Record) (db : Db)
    → (restore_body name s recs db).0 ≡ ok tt
    → (restore_body name s recs db).1.tables ≡ with_records name recs (cleared name s db.tables)
unfolding restore_body cleared
restore_body-tables name s recs db h =
    let st = update_zone name (with_soa s) in
    let (n, done, rest) =
      bind-ok (exec st) (λ _. exec (delete_records_of name) >>= λ _. insert_records name recs) db tt
        h in
    let db1 = (exec st db).1 in
    let h1 = ap (λ (x : Result (Unit {0}) × Db). x.0) (sym rest) ∙ h in
    let (m, done1, rest1) =
      bind-ok (exec (delete_records_of name)) (λ _. insert_records name recs) db1 tt h1 in
    let db2 = (exec (delete_records_of name) db1).1 in
    let h2 = ap (λ (x : Result (Unit {0}) × Db). x.0) (sym rest1) ∙ h1 in
    ap (λ (x : Result (Unit {0}) × Db). x.1.tables) (rest ∙ rest1)
    ∙ insert_records-tables name recs db2 h2
    ∙ ap (with_records name recs)
        (cleared_tables (exec-ok st db n done) (exec-ok (delete_records_of name) db1 m done1))
  where
    cleared_tables :
        {n m : ℕ} {t u : Tables}
        → update_zone name (with_soa s) db.tables ≡ ok (n, t)
        → delete_records_of name t ≡ ok (m, u)
        → u ≡ cleared name s db.tables
    cleared_tables e f = unfold update_zone delete_records_of in ground arith
