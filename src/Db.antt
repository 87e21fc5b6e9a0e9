-- ===== src/Db.antt =====
-- The SQLite database behind internal/store/store.go: its three tables, statements that may fail,
-- and transactions. The driver is not part of the repository: which statements it fails, and with
-- which text, is the list `faults`, an argument of every run. A statement that fails changes
-- nothing, and a transaction that fails, at its commit too, leaves the tables as they were before
-- it, which is SQLite's documented behaviour.
pub mod Sql
pub mod Keeps
pub mod Runs
pub mod Ids
pub mod Invariant
pub mod WellFormed
use mrdns.Prelude.{ℕ, String, Option, none, some, List, [], ◌∷◌, Error, driver, Result, ok, err}

-- A row of each table of `migrate`.
pub record ZoneRow : Type 0 where
  pub name : String
  pub primary_ns : String
  pub mbox : String
  pub refresh : ℕ
  pub retry : ℕ
  pub expire : ℕ
  pub minimum : ℕ
  pub ttl : ℕ
  pub serial : ℕ
  pub targets : String
  pub created_at : String

pub record RecordRow : Type 0 where
  pub id : ℕ
  pub zone : String
  pub name : String
  pub ttl : ℕ
  pub type : String
  pub rdata : String

pub record SnapshotRow : Type 0 where
  pub id : ℕ
  pub zone : String
  pub serial : ℕ
  pub content : String
  pub created_at : String

-- Rows stand in the order of their row ids. AUTOINCREMENT gives each new row an id that no row
-- of the table has had, the next one.
pub record Tables : Type 0 where
  pub zones : List ZoneRow
  pub records : List RecordRow
  pub snapshots : List SnapshotRow
  pub next_record : ℕ
  pub next_snapshot : ℕ

abbrev pub empty : Tables
empty = record { zones = []; records = []; snapshots = []; next_record = 1; next_snapshot = 1 }

-- `none` lets the next statement run, `some e` fails it with the text `e`; at the end of the list
-- no statement fails any more.
pub record Db : Type 0 where
  pub tables : Tables
  pub faults : List (Option String)

abbrev pub Statement : Type 0 → Type 0
Statement A = Tables → Result (A × Tables)

abbrev pub Exec : Type 0 → Type 0
Exec A = Db → Result A × Db

module _ {A : Type 0} where
  pub settle : Result (A × Tables) → Tables → List (Option String) → Result A × Db
  settle (ok (a, t)) old fs = (ok a, record { tables = t; faults = fs })
  settle (err e) old fs = (err e, record { tables = old; faults = fs })

  pub attempt : Statement A → Tables → List (Option String) → Result A × Db
  attempt st t [] = settle (st t) t []
  attempt st t (none ∷ fs) = settle (st t) t fs
  attempt st t (some e ∷ fs) = (err (driver e), record { tables = t; faults = fs })

  -- `db.Exec`, `db.Query` or `db.QueryRow` with one statement
  unfoldable pub exec : Statement A → Exec A
  unfolding settle attempt
  exec st db = attempt st db.tables db.faults

  unfoldable pub pure : A → Exec A
  pure a db = (ok a, db)

  unfoldable pub raise : Error → Exec A
  raise e db = (err e, db)

  unfoldable pub lift : Result A → Exec A
  lift r db = (r, db)

module _ {A B : Type 0} where
  abbrev pub continue : Result A → (A → Exec B) → Exec B
  continue (ok a) f db = f a db
  continue (err e) f db = (err e, db)

  infixl 5 ◌>>=◌ ◌>>◌
  unfoldable pub ◌>>=◌ : Exec A → (A → Exec B) → Exec B
  unfolding pure raise lift
  ◌>>=◌ m f db = let (r, db') = m db in continue r f db'

  abbrev pub ◌>>◌ : Exec A → Exec B → Exec B
  m >> n = m >>= λ _. n

-- A query that only the faults can fail.
abbrev pub query : {A : Type 0} → (Tables → A) → Exec A
query f = exec (λ t. ok (f t, t))

-- `BEGIN` and `COMMIT` as statements.
abbrev pub mark : Exec (Unit {0})
mark = query (λ t. tt)

module _ {A : Type 0} where
  pub roll_back : Tables → Result A × Db → Result A × Db
  roll_back before (ok a, db) = (ok a, db)
  roll_back before (err e, db) = (err e, record db { tables = before })

  -- `Begin`, the body, `Commit`, and the deferred `Rollback`
  unfoldable pub transaction : Exec A → Exec A
  unfolding roll_back
  transaction body db = roll_back db.tables ((mark >>= λ _. body >>= λ a. mark >>= λ _. pure a) db)
