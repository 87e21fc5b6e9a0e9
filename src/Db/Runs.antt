-- ===== src/Db/Runs.antt =====
-- Taking a run of Db.antt apart: what holds of the parts of a run that succeeded, and that a run
-- without faults gives what its statements give.
use mrdns.Prelude.{Result, ok, err, ◌≡◌, refl, sym, ap, ◌∙◌, arith}
use mrdns.Db.{
  Tables, Db, Statement, Exec, exec, attempt, settle, query, lift, pure, continue, ◌>>=◌, mark,
  transaction, roll_back,
}

module _ {A : Type 0} where
  pub exec-ok :
      (st : Statement A) (db : Db) (a : A)
      → (exec st db).0 ≡ ok a
      → st db.tables ≡ ok (a, (exec st db).1.tables)
  unfolding exec attempt settle
  exec-ok st db a h = ground arith

  pub pure-tables : (a : A) (db : Db) → (pure a db).1.tables ≡ db.tables
  unfolding pure
  pure-tables a db = refl

  pub pure-ok : (a b : A) (db : Db) → (pure a db).0 ≡ ok b → a ≡ b
  unfolding pure
  pure-ok a b db h = cc

module _ {A B : Type 0} where
  continue-ok :
      (r : Result A) (f : A → Exec B) (db : Db) (b : B)
      → (continue r f db).0 ≡ ok b
      → (a : A) × (r ≡ ok a) × (continue r f db ≡ f a db)
  continue-ok (ok a) f db b h = (a, refl, refl)
  continue-ok (err e) f db b h = cc

  -- The first part of a successful run succeeded, and the rest ran from where it ended.
  pub bind-ok :
      (m : Exec A) (f : A → Exec B) (db : Db) (b : B)
      → ((m >>= f) db).0 ≡ ok b
      → (a : A) × ((m db).0 ≡ ok a) × ((m >>= f) db ≡ f a (m db).1)
  unfolding ◌>>=◌
  bind-ok m f db b h = continue-ok (m db).0 f (m db).1 b h

-- A query gives what it asks for, and leaves the tables.
pub query-ok :
    {A : Type 0} (f : Tables → A) (db : Db) (a : A)
    → (query f db).0 ≡ ok a
    → (f db.tables ≡ a) × ((query f db).1.tables ≡ db.tables)
unfolding exec attempt settle
query-ok f db a h = ground arith

pub lift_bind-ok :
    {A B : Type 0} (r : Result A) (f : A → Exec B) (db : Db) (b : B)
    → ((lift r >>= f) db).0 ≡ ok b
    → (a : A) × (r ≡ ok a) × ((lift r >>= f) db ≡ f a db)
unfolding ◌>>=◌ lift
lift_bind-ok (ok a) f db b h = (a, refl, refl)
lift_bind-ok (err e) f db b h = cc

mark-same : (db : Db) → (mark db).1.tables ≡ db.tables
unfolding exec attempt settle
mark-same db = ground arith

module _ {A : Type 0} where
  roll_back-ok :
      (before : Tables) (r : Result A × Db) (a : A)
      → (roll_back before r).0 ≡ ok a
      → (r.0 ≡ ok a) × (roll_back before r ≡ r)
  unfolding roll_back
  roll_back-ok before (ok b, db) a h = (h, refl)
  roll_back-ok before (err e, db) a h = cc

  -- A transaction that succeeded is its body, run on the same tables.
  pub transaction-ok :
      (m : Exec A) (db : Db) (a : A)
      → (transaction m db).0 ≡ ok a
      → (db0 : Db) × (db0.tables ≡ db.tables)
        × ((m db0).0 ≡ ok a)
        × ((transaction m db).1.tables ≡ (m db0).1.tables)
  unfolding transaction
  transaction-ok m db a h =
      let (h0, same) = roll_back-ok db.tables _ a h in
      let (u, begun, whole) = bind-ok mark (λ _. m >>= λ b. mark >>= λ _. pure b) db a h0 in
      let db0 = (mark db).1 in
      let (b, done, rest) =
        bind-ok m (λ b. mark >>= λ _. pure b) db0 a
          (ap (λ (x : Result A × Db). x.0) (sym whole) ∙ h0) in
      let db1 = (m db0).1 in
      let h1 : ((mark >>= λ _. pure b) db1).0 ≡ ok a =
        ap (λ (x : Result A × Db). x.0) (sym rest)
        ∙ ap (λ (x : Result A × Db). x.0) (sym whole)
        ∙ h0 in
      let (v, ended, last) = bind-ok mark (λ _. pure b) db1 a h1 in
      (
        db0,
        mark-same db,
        done ∙ ap ok (pure-ok b a (mark db1).1 (ap (λ (x : Result A × Db). x.0) (sym last) ∙ h1)),
        ap (λ (x : Result A × Db). x.1.tables) (same ∙ whole ∙ rest ∙ last)
            ∙ pure-tables b (mark db1).1
            ∙ mark-same db1,
      )
