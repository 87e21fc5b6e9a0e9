-- ===== src/Resources.antt =====
-- What calls open and close, and what they do in between: a `defer x.Close()` closes on every path,
-- and what a call left open is what was opened and not closed.
use mrdns.Prelude.{Bool, Option, List, [], ◌∷◌, ◌++◌, ◌≡◌, refl, if◌then◌else◌}

-- `R` names what can be open, and `S` the other calls.
pub data Act (R S : Type 0) : Type 0 where
  opened closed : R → Act R S
  did : S → Act R S

-- What a call did, and its error if there is one.
abbrev pub Outcome : Type 0 → Type 0 → Type 0 → Type 0
Outcome R S E = List (Act R S) × Option E

module _ {R : Type 0} (same : R → R → Bool) where
  -- the list without one occurrence
  abbrev pub without : R → List R → List R
  without r [] = []
  without r (x ∷ xs) = if same r x then xs else x ∷ without r xs

module _ {R S : Type 0} (same : R → R → Bool) where
  -- What is open after some acts, when something was open before them.
  unfoldable pub open_after : List R → List (Act R S) → List R
  open_after l [] = l
  open_after l (opened r ∷ as') = open_after (r ∷ l) as'
  open_after l (closed r ∷ as') = open_after (without same r l) as'
  open_after l (did s ∷ as') = open_after l as'

module _ {R S E : Type 0} where
  -- `r` is opened, and closed by a `defer` when the rest of the function is over.
  abbrev pub deferred : R → Outcome R S E → Outcome R S E
  deferred r o = (opened r ∷ (o.0 ++ closed r ∷ []), o.1)

  abbrev pub then_did : S → Outcome R S E → Outcome R S E
  then_did s o = (did s ∷ o.0, o.1)

module _ {R S : Type 0} (same : R → R → Bool) where
  pub open_after-append :
      (l : List R) (as' bs : List (Act R S))
      → open_after same l (as' ++ bs) ≡ open_after same (open_after same l as') bs
  unfolding open_after
  open_after-append l [] bs = refl
  open_after-append l (opened r ∷ as') bs = open_after-append (r ∷ l) as' bs
  open_after-append l (closed r ∷ as') bs = open_after-append (without same r l) as' bs
  open_after-append l (did s ∷ as') bs = open_after-append l as' bs
