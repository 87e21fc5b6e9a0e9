-- ===== src/Store/Snapshots.antt =====
-- The snapshots of internal/store/store.go: publishing, and reading the history.
pub mod History
pub mod Publish
use Prim.Native.String.{len}
use mrdns.Prelude.{ℕ, String, Option, none, some, List, [], ◌∷◌, map, head?}
use mrdns.Db.{SnapshotRow, Tables, Exec, exec, query, pure, ◌>>=◌, ◌>>◌}
use mrdns.Db.Sql.{insert_snapshot, prune, snapshots_desc}
use mrdns.Store.{set_serial}

-- `store.Snapshot`; `time.Parse` of the stamp is left out.
pub record Snapshot : Type 0 where
  pub id : ℕ
  pub serial : ℕ
  pub content : String
  pub size : ℕ
  pub created_at : String

unfoldable pub scan_snapshot : SnapshotRow → Snapshot
scan_snapshot r = record {
  id = r.id;
  serial = r.serial;
  content = r.content;
  size = len r.content;
  created_at = r.created_at;
}

-- `keep` is the store's field, `now` the time of the call as text.
unfoldable pub publish : ℕ → String → String → ℕ → String → Exec (Unit {0})
publish keep name content serial now = do
  set_serial name serial
  _ ← exec (insert_snapshot name serial content now)
  exec (prune name keep)

unfoldable pub history : String → Tables → List Snapshot
unfolding snapshots_desc scan_snapshot
history name t = map scan_snapshot (snapshots_desc name t)

-- `LastSnapshot`; `none` is its `ok == false`
unfoldable pub last_snapshot : String → Exec (Option Snapshot)
last_snapshot name = query (λ t. head? (history name t))

unfoldable pub list_snapshots : String → Exec (List Snapshot)
list_snapshots name = query (history name)
