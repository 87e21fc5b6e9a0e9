-- ===== src/Web/World/Preserves.antt =====
-- Handlers each act of which keeps an invariant of the tables, whatever state it finds, with a rule
-- for each way to build a handler.
use mathlib.Core.Path.{subst}
use mrdns.Prelude.{Bool, true, false, Result, ok, err, Error, ◌≡◌, refl, sym, if◌then◌else◌}
use mrdns.Db.{Tables, Exec}
use mrdns.Db.Keeps.{Keeps}
use mrdns.Web.World.{World, Serve, done, act, ask, ◌>>=◌, on_result}
use mrdns.Web.World.Rules.{IsQuiet}

module _ (P : Tables → Type 0) where
  unfoldable pub Preserves : {A : Type 0} → Serve A → Type 0
  Preserves (done a) = Unit
  Preserves (act change rest) =
      (w : World) → (P w.db.tables → P (change w).db.tables) × Preserves (rest w)

  module _ {A : Type 0} where
    pub Preserves-quiet : (s : Serve A) → IsQuiet s → Preserves s
    unfolding Preserves IsQuiet
    Preserves-quiet (done a) q = tt
    Preserves-quiet (act change rest) q =
        λ w. (subst P (sym (q w).0.tables_same), Preserves-quiet (rest w) (q w).1)

    pub Preserves-ask : (m : Exec A) → Keeps P m → Preserves (ask m)
    unfolding ask Preserves
    Preserves-ask m k w = (k.at w.db, tt)

    pub Preserves-if :
        (b : Bool) (s t : Serve A) → Preserves s → Preserves t → Preserves (if b then s else t)
    Preserves-if true s t p q = p
    Preserves-if false s t p q = q

  module _ {A B : Type 0} where
    pub Preserves-bind :
        (s : Serve A) (f : A → Serve B)
        → Preserves s
        → ((a : A) → Preserves (f a))
        → Preserves (s >>= f)
    unfolding ◌>>=◌ Preserves
    Preserves-bind (done a) f p q = q a
    Preserves-bind (act change rest) f p q = λ w. ((p w).0, Preserves-bind (rest w) f (p w).1 q)

    pub Preserves-on_result :
        (r : Result A) (f : Error → Serve B) (g : A → Serve B)
        → ((e : Error) → Preserves (f e))
        → ((a : A) → r ≡ ok a → Preserves (g a))
        → Preserves (on_result r f g)
    unfolding on_result
    Preserves-on_result (err e) f g p q = p e
    Preserves-on_result (ok a) f g p q = q a refl
