-- ===== src/Store/Open.antt =====
-- `Open` of internal/store/store.go. The driver is not part of the repository: the errors of its calls
-- are the record `Opening`. The pragmas and the schema are those of Db.antt.
use mrdns.Prelude.{String, Option, none, some, [], ◌∷◌}
use mrdns.Resources.{opened, closed, Outcome}

-- the errors of `sql.Open`, of `Ping` and of the statement of `migrate`
pub record Opening : Type 0 where
  pub driver : Option String
  pub ping : Option String
  pub migration : Option String

pub data OpenError : Type 0 where
  no_driver cannot_open cannot_migrate : String → OpenError

-- `db` names the handle of the database.
module _ {R S : Type 0} (db : R) where
  unfoldable pub open_store : Opening → Outcome R S OpenError
  open_store o = elim o.driver [
    | some e ↦ ([], some (no_driver e))
    | none ↦ elim o.ping [
      | some e ↦ (opened db ∷ closed db ∷ [], some (cannot_open e))
      | none ↦ elim o.migration [
        | some e ↦ (opened db ∷ closed db ∷ [], some (cannot_migrate e))
        | none ↦ (opened db ∷ [], none)
      ]
    ]
  ]
