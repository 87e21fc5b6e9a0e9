-- ===== src/Db/Keeps.antt =====
-- Two properties of runs against the database of Db.antt, with a rule for each way to build a run:
-- an invariant of the tables is kept whatever the faults, and a run that fails changes no table.
use mathlib.Core.Path.{subst}
use mrdns.Prelude.{
  ◌∙◌, Bool, true, false, if◌then◌else◌, List, [], ◌∷◌, Option, none, some, Result, ok, err, Error,
  ◌≡◌, refl, ap, arith, String,
}
use mrdns.Db.{
  Tables, Db, Statement, Exec, exec, attempt, settle, query, pure, raise, lift, continue, ◌>>=◌,
  transaction, roll_back,
}

pub record Keeps {A : Type 0} (P : Tables → Type 0) (m : Exec A) : Type 0 where
  pub at : (db : Db) → P db.tables → P (m db).1.tables

-- A statement that is run keeps `P`.
pub record Holds {A : Type 0} (P : Tables → Type 0) (st : Statement A) : Type 0 where
  pub on : (t t' : Tables) (a : A) → P t → st t ≡ ok (a, t') → P t'

module _ {A : Type 0} {P : Tables → Type 0} where
  settle-keeps :
      (r : Result (A × Tables)) (t : Tables) (fs : List (Option String))
      → P t
      → ((t' : Tables) (a : A) → r ≡ ok (a, t') → P t')
      → P (settle r t fs).1.tables
  unfolding settle
  settle-keeps (ok (a, t')) t fs h k = k t' a refl
  settle-keeps (err e) t fs h k = h

  attempt-keeps :
      (st : Statement A) (t : Tables) (fs : List (Option String))
      → Holds P st
      → P t
      → P (attempt st t fs).1.tables
  unfolding attempt
  attempt-keeps st t [] k h = settle-keeps (st t) t [] h (λ t' a e. k.on t t' a h e)
  attempt-keeps st t (none ∷ fs) k h = settle-keeps (st t) t fs h (λ t' a e. k.on t t' a h e)
  attempt-keeps st t (some e ∷ fs) k h = h

  pub Keeps-exec : (st : Statement A) → Holds P st → Keeps P (exec st)
  unfolding exec
  Keeps-exec st k = record { at = λ db h. attempt-keeps st db.tables db.faults k h }

  pub Keeps-query : (f : Tables → A) → Keeps P (query f)
  Keeps-query f = Keeps-exec _ (record { on = λ t t' a h e. subst P (cc e) h })

  pub Keeps-pure : (a : A) → Keeps P (pure a)
  unfolding pure
  Keeps-pure a = record { at = λ db h. h }

  pub Keeps-raise : (e : Error) → Keeps P (raise {A = A} e)
  unfolding raise
  Keeps-raise e = record { at = λ db h. h }

  pub Keeps-lift : (r : Result A) → Keeps P (lift r)
  unfolding lift
  Keeps-lift r = record { at = λ db h. h }

module _ {A B : Type 0} {P : Tables → Type 0} where
  continue-keeps :
      (r : Result A) (f : A → Exec B) (db : Db)
      → ((a : A) → Keeps P (f a))
      → P db.tables
      → P (continue r f db).1.tables
  continue-keeps (ok a) f db k h = (k a).at db h
  continue-keeps (err e) f db k h = h

  pub Keeps-bind :
      (m : Exec A) (f : A → Exec B) → Keeps P m → ((a : A) → Keeps P (f a)) → Keeps P (m >>= f)
  unfolding ◌>>=◌
  Keeps-bind m f km kf = record { at = λ db h. continue-keeps (m db).0 f (m db).1 kf (km.at db h) }

module _ {A : Type 0} (P : Tables → Type 0) where
  roll_back-keeps :
      (before : Tables) (r : Result A × Db)
      → P before
      → P r.1.tables
      → P (roll_back before r).1.tables
  unfolding roll_back
  roll_back-keeps before (ok a, db) h k = k
  roll_back-keeps before (err e, db) h k = h

module _ {A : Type 0} {P : Tables → Type 0} where
  pub Keeps-transaction : (m : Exec A) → Keeps P m → Keeps P (transaction m)
  unfolding transaction
  Keeps-transaction m k = record {
    at = λ db h. roll_back-keeps P db.tables _ h (
        (Keeps-bind _ _ (Keeps-query _)
            (λ _. Keeps-bind m _ k (λ a. Keeps-bind _ _ (Keeps-query _) (λ _. Keeps-pure a)))).at
          db h);
  }

-- A run that fails leaves the tables as they were.
pub record IsAtomic {A : Type 0} (m : Exec A) : Type 0 where
  pub undone : (db : Db) (e : Error) → (m db).0 ≡ err e → (m db).1.tables ≡ db.tables

module _ {A : Type 0} where
  pub IsAtomic-exec : (st : Statement A) → IsAtomic (exec st)
  unfolding exec settle attempt
  IsAtomic-exec st = record { undone = λ db e h. ground arith }

  roll_back-undone :
      (before : Tables) (r : Result A × Db) (e : Error)
      → (roll_back before r).0 ≡ err e
      → (roll_back before r).1.tables ≡ before
  unfolding roll_back
  roll_back-undone before (ok a, db) e h = cc
  roll_back-undone before (err x, db) e h = refl

  pub IsAtomic-transaction : (m : Exec A) → IsAtomic (transaction m)
  unfolding transaction
  IsAtomic-transaction m = record { undone = λ db e h. roll_back-undone db.tables _ e h }

-- A run that changes no table at all.
pub record IsReading {A : Type 0} (m : Exec A) : Type 0 where
  pub same : (db : Db) → (m db).1.tables ≡ db.tables

module _ {A : Type 0} where
  pub IsReading-query : (f : Tables → A) → IsReading (query f)
  unfolding exec settle attempt
  IsReading-query f = record { same = λ db. ground arith }

  pub IsReading-pure : (a : A) → IsReading (pure a)
  unfolding pure
  IsReading-pure a = record { same = λ db. refl }

  pub IsReading-lift : (r : Result A) → IsReading (lift r)
  unfolding lift
  IsReading-lift r = record { same = λ db. refl }

  pub IsReading-raise : (e : Error) → IsReading (raise {A = A} e)
  unfolding raise
  IsReading-raise e = record { same = λ db. refl }

module _ {A B : Type 0} where
  continue-undone :
      (r : Result A) (f : A → Exec B) (db : Db) (e : Error)
      → ((a : A) → IsAtomic (f a))
      → (continue r f db).0 ≡ err e
      → (continue r f db).1.tables ≡ db.tables
  continue-undone (ok a) f db e k h = (k a).undone db e h
  continue-undone (err x) f db e k h = refl

  continue-same :
      (r : Result A) (f : A → Exec B) (db : Db)
      → ((a : A) → IsReading (f a))
      → (continue r f db).1.tables ≡ db.tables
  continue-same (ok a) f db k = (k a).same db
  continue-same (err x) f db k = refl

  -- What only reads may stand before an atomic run.
  pub IsAtomic-bind :
      (m : Exec A) (f : A → Exec B) → IsReading m → ((a : A) → IsAtomic (f a)) → IsAtomic (m >>= f)
  unfolding ◌>>=◌
  IsAtomic-bind m f r k = record {
    undone = λ db e h. continue-undone (m db).0 f (m db).1 e k h ∙ r.same db;
  }

  pub IsReading-bind :
      (m : Exec A) (f : A → Exec B)
      → IsReading m
      → ((a : A) → IsReading (f a))
      → IsReading (m >>= f)
  unfolding ◌>>=◌
  IsReading-bind m f r k = record { same = λ db. continue-same (m db).0 f (m db).1 k ∙ r.same db }

  -- After an atomic run a value may be returned.
  continue-pure :
      (r : Result A) (g : A → B) (db : Db) (e : Error)
      → (continue r (λ a. pure (g a)) db).0 ≡ err e
      → (r ≡ err e) × ((continue r (λ a. pure (g a)) db).1 ≡ db)
  unfolding pure
  continue-pure (ok a) g db e h = cc
  continue-pure (err x) g db e h = (ground arith, refl)

  pub IsAtomic-returns : (m : Exec A) (g : A → B) → IsAtomic m → IsAtomic (m >>= λ a. pure (g a))
  unfolding ◌>>=◌
  IsAtomic-returns m g k = record {
    undone = λ db e h.
        let (p, q) = continue-pure (m db).0 g (m db).1 e h in
        ap (λ (x : Db). x.tables) q ∙ k.undone db e p;
  }

module _ {A : Type 0} where
  pub IsAtomic-reading : (m : Exec A) → IsReading m → IsAtomic m
  IsAtomic-reading m r = record { undone = λ db e h. r.same db }

  pub IsAtomic-if :
      (b : Bool) (m n : Exec A) → IsAtomic m → IsAtomic n → IsAtomic (if b then m else n)
  IsAtomic-if true m n p q = p
  IsAtomic-if false m n p q = q

  pub Keeps-if :
      {P : Tables → Type 0} (b : Bool) (m n : Exec A)
      → Keeps P m
      → Keeps P n
      → Keeps P (if b then m else n)
  Keeps-if true m n p q = p
  Keeps-if false m n p q = q

pub ruleset keeps_rules =
    (Keeps-query, Keeps-pure, Keeps-raise, Keeps-lift, Keeps-bind, Keeps-transaction, Keeps-if)

pub ruleset atomic_rules = (
  IsReading-query, IsReading-pure, IsReading-lift, IsReading-raise, IsReading-bind, IsAtomic-exec,
  IsAtomic-transaction, IsAtomic-returns, IsAtomic-if,
)
