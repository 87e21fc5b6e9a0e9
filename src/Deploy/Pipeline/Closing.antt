-- ===== src/Deploy/Pipeline/Closing.antt =====
-- Every connection that a deploy opens is closed.
use mrdns.Prelude.{
  ℕ, ◌+◌, String, true, Option, none, some, List, [], ◌∷◌, ◌++◌, All, All-append, ◌≡◌, refl, sym,
  ap, ◌∙◌, ◌⊎◌, inl, inr, arith,
}
use mathlib.Core.Path.{subst}
use mrdns.Dns.{Dns}
use mrdns.Deploy.Remote.{Remote, Request, Event, dialled, closed, Slot}
use mrdns.Deploy.Pipeline.{
  staged, committed, finished, cleanup_events, close_events, indexed, stage, commit, verify_slot,
}
use mrdns.Deploy.Pipeline.Outcome.{All-weaken}
use mrdns.Deploy.Pipeline.Phases.{In-append, Merge-holds}
use mrdns.Deploy.Pipeline.Trace.{
  Merge, In, concat_all, events_of, closes, Trace, refused, aborted, rolled_out,
}

-- The place of the target whose connection an event opens.
abbrev pub dial_of : Event → Option ℕ
dial_of (dialled i) = some i
dial_of _ = none

-- An event that opens a connection is made good by a list that closes it.
abbrev MadeGood : List Event → Event → Type 0
MadeGood ends e = (j : ℕ) → dial_of e ≡ some j → In (closed j) ends

In-append_right : {A : Type 0} (a : A) (xs ys : List A) → In a ys → In a (xs ++ ys)
In-append_right a [] ys h = h
In-append_right a (x ∷ xs) ys h = inr (In-append_right a xs ys h)

no_dial :
    (ends : List Event) (es : List Event) → All (λ e. dial_of e ≡ none) es → All (MadeGood ends) es
no_dial ends [] h = tt
no_dial ends (e ∷ es) (p, h) = (λ j k. absurd (ground (arith, p, k)), no_dial ends es h)

cleanup-no_dial :
    (i : ℕ) (slots : List Slot)
    → All (λ e. dial_of e ≡ none) (concat_all (indexed cleanup_events i slots))
unfolding cleanup_events
cleanup-no_dial i [] = tt
cleanup-no_dial i (s ∷ slots) = All-append _ _ _ (ground arith) (cleanup-no_dial (i + 1) slots)

close-no_dial :
    (i : ℕ) (slots : List Slot)
    → All (λ e. dial_of e ≡ none) (concat_all (indexed close_events i slots))
unfolding close_events
close-no_dial i [] = tt
close-no_dial i (s ∷ slots) = All-append _ _ _ (ground arith) (close-no_dial (i + 1) slots)

-- A phase that keeps the connections keeps what closes them.
close-indexed :
    (f : ℕ → Slot → Slot)
    → ((i : ℕ) (s : Slot) → (f i s).connected ≡ s.connected)
    → (i : ℕ) (slots : List Slot)
    → concat_all (indexed close_events i (indexed f i slots))
      ≡ concat_all (indexed close_events i slots)
unfolding close_events
close-indexed f k i [] = refl
close-indexed f k i (s ∷ slots) = rw (k i s, close-indexed f k (i + 1) slots) refl

ap_place : (i j : ℕ) → some i ≡ some j → i ≡ j
ap_place i j h = cc h

later-MadeGood :
    (before ends es : List Event) → All (MadeGood ends) es → All (MadeGood (before ++ ends)) es
later-MadeGood before ends es h =
    All-weaken (MadeGood ends) (MadeGood (before ++ ends)) es
      (λ e g j k. In-append_right (closed j) before ends (g j k)) h

each-MadeGood :
    (before ends : List Event) (ts : List (List Event))
    → All (All (MadeGood ends)) ts
    → All (All (MadeGood (before ++ ends))) ts
each-MadeGood before ends [] h = tt
each-MadeGood before ends (t ∷ ts) (p, h) =
    (later-MadeGood before ends t p, each-MadeGood before ends ts h)

picked :
    (ends es : List Event)
    → All (MadeGood ends) es
    → (i : ℕ) → In (dialled i) es
    → In (closed i) ends
picked ends [] h i k = elim k [ ]
picked ends (e ∷ es) (p, h) i (inl same) = p i (ap dial_of (sym same))
picked ends (e ∷ es) (p, h) i (inr k) = picked ends es h i k

module _ (d : Dns) (rem : Remote) (req : Request) where
  -- An event of the slot at a place that opens a connection opens the slot's, and it is noted.
  abbrev Dials : ℕ → Slot → Event → Type 0
  Dials i s e = (dial_of e ≡ none) ⊎ ((dial_of e ≡ some i) × (s.connected ≡ true))

  stage-Dials :
      (i : ℕ) (name : String)
      → All (Dials i (stage d rem req i name)) (stage d rem req i name).events
  unfolding stage
  stage-Dials i name = ground arith

  dial-closed : (i : ℕ) (s : Slot) (e : Event) → Dials i s e → MadeGood (close_events i s) e
  unfolding close_events
  dial-closed i s e (inl h) j k = absurd (ground (arith, h, k))
  dial-closed i s e (inr (h, c)) j k = rw c (inl (ap closed (sym (ap_place i j (sym h ∙ k)))))

  staged-MadeGood :
      (i : ℕ) (names : List String)
      → All
          (All (MadeGood (concat_all (indexed close_events i (indexed (stage d rem req) i names)))))
          (events_of (indexed (stage d rem req) i names))
  staged-MadeGood i [] = tt
  staged-MadeGood i (name ∷ names) =
      let s = stage d rem req i name in
      let rest =
        concat_all (indexed close_events (i + 1) (indexed (stage d rem req) (i + 1) names)) in
      let ends = close_events i s ++ rest in
      (
        All-weaken (Dials i s) (MadeGood ends) s.events
            (λ e h j k. In-append (closed j) (close_events i s) rest (dial-closed i s e h j k))
            (stage-Dials i name),
        each-MadeGood (close_events i s) rest _ (staged-MadeGood (i + 1) names),
      )

  commit-no_dial : (i : ℕ) (s : Slot) → All (λ e. dial_of e ≡ none) (commit d rem req i s).events
  unfolding commit
  commit-no_dial i s = ground arith

  committed-no_dial :
      (i : ℕ) (slots : List Slot)
      → All (All (λ e. dial_of e ≡ none)) (events_of (indexed (commit d rem req) i slots))
  committed-no_dial i [] = tt
  committed-no_dial i (s ∷ slots) = (commit-no_dial i s, committed-no_dial (i + 1) slots)

  commit-connected : (i : ℕ) (s : Slot) → (commit d rem req i s).connected ≡ s.connected
  unfolding commit
  commit-connected i s = ground arith

  verify-connected : (i : ℕ) (s : Slot) → (verify_slot d rem req i s).connected ≡ s.connected
  unfolding verify_slot
  verify-connected i s = ground arith

  same_closes : closes (finished d rem req) ≡ closes (staged d rem req)
  unfolding finished committed
  same_closes =
      close-indexed (verify_slot d rem req) verify-connected 0 (committed d rem req)
      ∙ close-indexed (commit d rem req) commit-connected 0 (staged d rem req)

  first-MadeGood :
      (es : List Event)
      → Merge (events_of (staged d rem req)) es
      → All (MadeGood (closes (staged d rem req))) es
  unfolding staged
  first-MadeGood es m = Merge-holds _ m (staged-MadeGood 0 req.targets)

  moved-no_dial :
      (fs : List Event)
      → Merge (events_of (committed d rem req)) fs
      → All (λ e. dial_of e ≡ none) fs
  unfolding committed
  moved-no_dial fs m = Merge-holds _ m (committed-no_dial 0 (staged d rem req))

  -- In every run of a deploy, whatever fails and in whatever order the goroutines act, each
  -- connection that is opened is closed.
  pub connections_closed :
      (tr : List Event) → Trace d rem req tr → (i : ℕ) → In (dialled i) tr → In (closed i) tr
  connections_closed tr (refused x h) i opened = elim opened [ ]
  connections_closed tr (aborted es ok_run unchecked merged) i opened =
      let ends = closes (staged d rem req) in
      let cleaned = concat_all (indexed cleanup_events 0 (staged d rem req)) in
      In-append_right (closed i) es (cleaned ++ ends) (
        In-append_right (closed i) cleaned ends (
          picked ends (es ++ (cleaned ++ ends))
            (All-append (MadeGood ends) es (cleaned ++ ends) (first-MadeGood es merged) (
              no_dial ends (cleaned ++ ends) (
                All-append (λ e. dial_of e ≡ none) cleaned ends
                  (cleanup-no_dial 0 (staged d rem req)) (close-no_dial 0 (staged d rem req)))))
            i opened))
  connections_closed tr (rolled_out es fs ok_run checked merged moved) i opened =
      let ends = closes (finished d rem req) in
      In-append_right (closed i) es (fs ++ ends) (
        In-append_right (closed i) fs ends (
          picked ends (es ++ (fs ++ ends))
            (All-append (MadeGood ends) es (fs ++ ends)
              (subst (λ l. All (MadeGood l) es) (sym same_closes) (first-MadeGood es merged))
              (no_dial ends (fs ++ ends) (
                All-append (λ e. dial_of e ≡ none) fs ends (moved-no_dial fs moved)
                  (close-no_dial 0 (finished d rem req)))))
            i opened))
