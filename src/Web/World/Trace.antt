-- ===== src/Web/World/Trace.antt =====
-- A handler among the other requests: the state that each of its acts found and the one it left.
-- What is done between two acts is left open, so the state that an act finds is any.
use mrdns.Prelude.{List, [], ◌∷◌, ◌++◌, All, ◌≡◌, ◌⊎◌, inl, inr, refl, ap}
use mrdns.Web.World.{World, Serve, done, act}
use mrdns.Web.World.Rules.{IsQuiet, IsQuiet-Grows, Grows, IsAccounted, Grown}

abbrev pub Acts : Type 0
Acts = List (World × World)

pub data Runs {A : Type 0} : Serve A → Acts → Type 0 where
  ends : {a : A} → Runs (done a) []
  acts :
      {change : World → World} {rest : World → Serve A} {w : World} {tr : Acts}
      → Runs (rest w) tr
      → Runs (act change rest) ((w, change w) ∷ tr)

abbrev pub Untouched : World × World → Type 0
Untouched (w, w') = w'.db.tables ≡ w.db.tables

-- Some act adds to the audit trail.
unfoldable pub Adds : Acts → Type 0
Adds [] = ⊥
Adds ((w, w') ∷ tr) = Grown w w' ⊎ Adds tr

-- One act may change the tables, no other does, and a later one adds to the audit trail.
pub record IsReported (tr : Acts) : Type 0 where
  pub before : Acts
  pub changing : World × World
  pub after : Acts
  pub split : tr ≡ before ++ changing ∷ after
  pub untouched_before : All Untouched before
  pub untouched_after : All Untouched after
  pub added_after : Adds after

IsReported-cons :
    (x : World × World) (tr : Acts) → Untouched x → IsReported tr → IsReported (x ∷ tr)
IsReported-cons x tr u h = record {
  before = x ∷ h.before;
  changing = h.changing;
  after = h.after;
  split = ap (λ t. x ∷ t) h.split;
  untouched_before = (u, h.untouched_before);
  untouched_after = h.untouched_after;
  added_after = h.added_after;
}

module _ {A : Type 0} where
  pub Untouched-IsQuiet : {s : Serve A} {tr : Acts} → IsQuiet s → Runs s tr → All Untouched tr
  unfolding IsQuiet
  Untouched-IsQuiet q ends = tt
  Untouched-IsQuiet q (acts {change} {rest} {w} {tr} r) =
      ((q w).0.tables_same, Untouched-IsQuiet (q w).1 r)

  added-Grows : {s : Serve A} {tr : Acts} → Grows s → Runs s tr → Adds tr
  unfolding Grows Adds
  added-Grows g ends = absurd g
  added-Grows g (acts {change} {rest} {w} {tr} r) = elim (g w).1 [
    | inl (h, q) ↦ inl h
    | inr h ↦ inr (added-Grows h r)
  ]

  pub IsReported-IsAccounted :
      {s : Serve A} {tr : Acts} → IsAccounted s → Runs s tr → All Untouched tr ⊎ IsReported tr
  unfolding IsAccounted
  IsReported-IsAccounted p ends = inl tt
  IsReported-IsAccounted p (acts {change} {rest} {w} {tr} r) = elim (p w) [
    | inl (q, h) ↦ elim (IsReported-IsAccounted h r) [
      | inl u ↦ inl (q.tables_same, u)
      | inr k ↦ inr (IsReported-cons (w, change w) tr q.tables_same k)
    ]
    | inr (k, g) ↦ inr (record {
      before = [];
      changing = (w, change w);
      after = tr;
      split = refl;
      untouched_before = tt;
      untouched_after = Untouched-IsQuiet (IsQuiet-Grows (rest w) g) r;
      added_after = added-Grows g r;
    })
  ]

  -- The acts of a handler that runs alone.
  pub alone : Serve A → World → Acts
  alone (done a) w = []
  alone (act change rest) w = (w, change w) ∷ alone (rest w) (change w)

  pub alone-Runs : (s : Serve A) (w : World) → Runs s (alone s w)
  unfolding alone
  alone-Runs (done a) w = ends
  alone-Runs (act change rest) w = acts (alone-Runs (rest w) (change w))
