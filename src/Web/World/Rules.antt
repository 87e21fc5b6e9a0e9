-- ===== src/Web/World/Rules.antt =====
-- What the acts of a handler may do to the state of World.antt, whatever other requests do between
-- them, with a rule for each way to build a handler: it is quiet when no act changes a table or takes
-- an event off the audit trail, it grows when some act adds an event, and it is accounted for when
-- an act that changes a table is followed by one that adds an event.
use mrdns.Prelude.{
  suc, ◌≤◌, ◌<◌, String, Bool, true, false, Option, none, some, [], ◌∷◌, length, Result, ok, err,
  Error, ◌≡◌, refl, ap, ◌⊎◌, inl, inr, arith, if◌then◌else◌,
}
use mrdns.Db.{Db, Exec}
use mrdns.Db.Keeps.{IsReading}
use mrdns.Audit.{Event, Trail, log}
use mrdns.Metrics.{Metrics}
use mrdns.Web.World.{World, Serve, done, act, ask, note, count, ◌>>=◌, on_result, on_option}

pub record Quiet (w w' : World) : Type 0 where
  pub tables_same : w'.db.tables ≡ w.db.tables
  pub trail_kept : length w.trail ≤ length w'.trail

abbrev pub Grown : World → World → Type 0
Grown w w' = length w.trail < length w'.trail

abbrev pub Kept : World → World → Type 0
Kept w w' = length w.trail ≤ length w'.trail

module _ {A : Type 0} where
  -- In each act, `w` is the state that it finds.
  unfoldable pub IsQuiet : Serve A → Type 0
  IsQuiet (done a) = Unit
  IsQuiet (act change rest) = (w : World) → Quiet w (change w) × IsQuiet (rest w)

  unfoldable pub Grows : Serve A → Type 0
  Grows (done a) = ⊥
  Grows (act change rest) =
      (w : World) → Quiet w (change w) × ((Grown w (change w) × IsQuiet (rest w)) ⊎ Grows (rest w))

  unfoldable pub IsAccounted : Serve A → Type 0
  IsAccounted (done a) = Unit
  IsAccounted (act change rest) =
      (w : World)
      → (Quiet w (change w) × IsAccounted (rest w)) ⊎ (Kept w (change w) × Grows (rest w))

pub Quiet-refl : (w : World) → Quiet w w
Quiet-refl w = record { tables_same = refl; trail_kept = omega arith }

length-log : (stamp : String) (e : Event) (t : Trail) → length (log stamp e t) ≡ suc (length t)
unfolding log
length-log stamp e [] = refl
length-log stamp e (x ∷ t) = ap suc (length-log stamp e t)

module _ {A : Type 0} where
  pub IsQuiet-done : (a : A) → IsQuiet (done a)
  unfolding IsQuiet
  IsQuiet-done a = tt

  pub IsQuiet-ask : (m : Exec A) → IsReading m → IsQuiet (ask m)
  unfolding ask IsQuiet
  IsQuiet-ask m r w = (record { tables_same = r.same w.db; trail_kept = omega arith }, tt)

  pub IsQuiet-if : (b : Bool) (m n : Serve A) → IsQuiet m → IsQuiet n → IsQuiet (if b then m else n)
  IsQuiet-if true m n p q = p
  IsQuiet-if false m n p q = q

pub Grows-note : (stamp : String) (e : Event) → Grows (note stamp e)
unfolding note Grows IsQuiet
Grows-note stamp e w = (
  record { tables_same = refl; trail_kept = omega (arith, length-log stamp e w.trail) },
  inl (omega (arith, length-log stamp e w.trail), tt),
)

pub IsQuiet-Grows : {A : Type 0} (m : Serve A) → Grows m → IsQuiet m
unfolding Grows IsQuiet
IsQuiet-Grows (done a) p = absurd p
IsQuiet-Grows (act change rest) p =
    λ w. ((p w).0, elim (p w).1 [ inl (g, s) ↦ s | inr g ↦ IsQuiet-Grows (rest w) g ])

pub IsQuiet-note : (stamp : String) (e : Event) → IsQuiet (note stamp e)
IsQuiet-note stamp e = IsQuiet-Grows (note stamp e) (Grows-note stamp e)

pub IsQuiet-count : (f : Metrics → Metrics) → IsQuiet (count f)
unfolding count IsQuiet
IsQuiet-count f w = (record { tables_same = refl; trail_kept = omega arith }, tt)

module _ {A B : Type 0} where
  pub IsQuiet-bind :
      (m : Serve A) (f : A → Serve B) → IsQuiet m → ((a : A) → IsQuiet (f a)) → IsQuiet (m >>= f)
  unfolding ◌>>=◌ IsQuiet
  IsQuiet-bind (done a) f p q = q a
  IsQuiet-bind (act change rest) f p q = λ w. ((p w).0, IsQuiet-bind (rest w) f (p w).1 q)

  pub IsQuiet-on_result :
      (r : Result A) (f : Error → Serve B) (g : A → Serve B)
      → ((e : Error) → IsQuiet (f e))
      → ((a : A) → IsQuiet (g a))
      → IsQuiet (on_result r f g)
  unfolding on_result
  IsQuiet-on_result (err e) f g p q = p e
  IsQuiet-on_result (ok a) f g p q = q a

  pub IsQuiet-on_option :
      (o : Option A) (f : Serve B) (g : A → Serve B)
      → IsQuiet f
      → ((a : A) → IsQuiet (g a))
      → IsQuiet (on_option o f g)
  unfolding on_option
  IsQuiet-on_option none f g p q = p
  IsQuiet-on_option (some a) f g p q = q a

  pub Grows-bind :
      (m : Serve A) (f : A → Serve B) → Grows m → ((a : A) → IsQuiet (f a)) → Grows (m >>= f)
  unfolding ◌>>=◌ Grows
  Grows-bind (done a) f p q = absurd p
  Grows-bind (act change rest) f p q = λ w. (
    (p w).0,
    elim (p w).1 [
      | inl (g, s) ↦ inl (g, IsQuiet-bind (rest w) f s q)
      | inr g ↦ inr (Grows-bind (rest w) f g q)
    ],
  )

  pub Grows-after :
      (m : Serve A) (f : A → Serve B) → IsQuiet m → ((a : A) → Grows (f a)) → Grows (m >>= f)
  unfolding ◌>>=◌ Grows IsQuiet
  Grows-after (done a) f p q = q a
  Grows-after (act change rest) f p q = λ w. ((p w).0, inr (Grows-after (rest w) f (p w).1 q))

  -- A quiet step may stand before the others.
  pub IsAccounted-after :
      (m : Serve A) (f : A → Serve B)
      → IsQuiet m
      → ((a : A) → IsAccounted (f a))
      → IsAccounted (m >>= f)
  unfolding ◌>>=◌ IsAccounted IsQuiet
  IsAccounted-after (done a) f p q = q a
  IsAccounted-after (act change rest) f p q =
      λ w. inl ((p w).0, IsAccounted-after (rest w) f (p w).1 q)

  pub IsAccounted-on_result :
      (r : Result A) (f : Error → Serve B) (g : A → Serve B)
      → ((e : Error) → IsAccounted (f e))
      → ((a : A) → IsAccounted (g a))
      → IsAccounted (on_result r f g)
  unfolding on_result
  IsAccounted-on_result (err e) f g p q = p e
  IsAccounted-on_result (ok a) f g p q = q a

module _ {A : Type 0} where
  pub IsAccounted-quiet : (m : Serve A) → IsQuiet m → IsAccounted m
  unfolding IsAccounted IsQuiet
  IsAccounted-quiet (done a) p = tt
  IsAccounted-quiet (act change rest) p = λ w. inl ((p w).0, IsAccounted-quiet (rest w) (p w).1)

  pub IsAccounted-if :
      (b : Bool) (m n : Serve A) → IsAccounted m → IsAccounted n → IsAccounted (if b then m else n)
  IsAccounted-if true m n p q = p
  IsAccounted-if false m n p q = q

module _ {A B : Type 0} where
  -- An error after which the tables are as they were, or which is reported.
  abbrev pub Excused : Exec A → Error → Serve B → Type 0
  Excused m e s =
      (((db : Db) → (m db).0 ≡ err e → (m db).1.tables ≡ db.tables) × IsQuiet s) ⊎ Grows s

  asked :
      (r : Result A) (f : Error → Serve B) (g : A → Serve B) (m : Exec A) (w : World)
      → (m w.db).0 ≡ r
      → ((e : Error) → Excused m e (f e))
      → ((a : A) → Grows (g a))
      → (Quiet w (record w { db = (m w.db).1 }) × IsAccounted (on_result r f g))
        ⊎ (Kept w (record w { db = (m w.db).1 }) × Grows (on_result r f g))
  unfolding on_result
  asked (err e) f g m w h p q = elim (p e) [
    | inl (same, s) ↦
        inl (
          record { tables_same = same w.db h; trail_kept = omega arith },
          IsAccounted-quiet (f e) s,
        )
    | inr s ↦ inr (omega arith, s)
  ]
  asked (ok a) f g m w h p q = inr (omega arith, q a)

  -- A call of the store that changes the tables is followed by an event.
  pub IsAccounted-ask :
      (m : Exec A) (f : Error → Serve B) (g : A → Serve B)
      → ((e : Error) → Excused m e (f e))
      → ((a : A) → Grows (g a))
      → IsAccounted (ask m >>= λ r. on_result r f g)
  unfolding ask ◌>>=◌ IsAccounted
  IsAccounted-ask m f g p q w = asked (m w.db).0 f g m w refl p q

  -- The call alone, with what follows it in either case.
  pub IsAccounted-ask_then :
      (m : Exec A) (f : Result A → Serve B)
      → ((r : Result A) → Grows (f r))
      → IsAccounted (ask m >>= f)
  unfolding ask ◌>>=◌ IsAccounted
  IsAccounted-ask_then m f q w = inr (omega arith, q (m w.db).0)

pub ruleset quiet_rules = (
  IsQuiet-done, IsQuiet-ask, IsQuiet-if, IsQuiet-note, IsQuiet-count, IsQuiet-bind,
  IsQuiet-on_result, IsQuiet-on_option,
)
