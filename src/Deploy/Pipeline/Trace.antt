-- ===== src/Deploy/Pipeline/Trace.antt =====
-- The orders in which the goroutines of a deploy can act on the servers, and that no target's live
-- file is touched before every target has been checked.
use mrdns.Prelude.{true, false, none, some, List, [], ◌∷◌, ◌++◌, map, All, ◌≡◌, ◌⊎◌}
use mrdns.Dns.{Dns}
use mrdns.Deploy.Remote.{Remote, Request, Event, Slot, DeployError}
use mrdns.Deploy.Pipeline.{
  staged, committed, finished, deploy, cleanup_events, close_events, indexed, all_checked,
}

-- A run of goroutines that each have some acts left: one of them acts next.
pub data Pick {A : Type 0} : List (List A) → A → List (List A) → Type 0 where
  first : {e : A} {t : List A} {ts : List (List A)} → Pick ((e ∷ t) ∷ ts) e (t ∷ ts)
  later : {e : A} {t : List A} {ts us : List (List A)} → Pick ts e us → Pick (t ∷ ts) e (t ∷ us)

pub data Merge {A : Type 0} : List (List A) → List A → Type 0 where
  done : {ts : List (List A)} → All (λ t. t ≡ []) ts → Merge ts []
  act :
      {e : A} {es : List A} {ts us : List (List A)} → Pick ts e us → Merge us es → Merge ts (e ∷ es)

abbrev pub In : {A : Type 0} → A → List A → Type 0
In a [] = ⊥
In a (x ∷ xs) = (a ≡ x) ⊎ In a xs

abbrev pub concat_all : {A : Type 0} → List (List A) → List A
concat_all [] = []
concat_all (x ∷ xs) = x ++ concat_all xs

abbrev pub events_of : List Slot → List (List Event)
events_of slots = map (λ s. s.events) slots

abbrev pub closes : List Slot → List Event
closes slots = concat_all (indexed close_events 0 slots)

module _ (d : Dns) (rem : Remote) (req : Request) where
  -- The sequences of acts that a deploy can make. `wg.Wait` ends each phase before the next.
  pub data Trace : List Event → Type 0 where
    refused : (e : DeployError) → (deploy d rem req).1 ≡ some e → Trace []
    aborted :
        (es : List Event)
        → (deploy d rem req).1 ≡ none
        → all_checked (staged d rem req) ≡ false
        → Merge (events_of (staged d rem req)) es
        → Trace (
            es
            ++ (concat_all (indexed cleanup_events 0 (staged d rem req))
                ++ closes (staged d rem req)))
    rolled_out :
        (es fs : List Event)
        → (deploy d rem req).1 ≡ none
        → all_checked (staged d rem req) ≡ true
        → Merge (events_of (staged d rem req)) es
        → Merge (events_of (committed d rem req)) fs
        → Trace (es ++ (fs ++ closes (finished d rem req)))
