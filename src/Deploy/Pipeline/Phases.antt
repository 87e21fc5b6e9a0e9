-- ===== src/Deploy/Pipeline/Phases.antt =====
-- No target's live file is touched before every target of the deploy has been checked.
use mathlib.Core.Path.{subst}
use mathlib.Core.List.{head-eq_of_cons-eq, tail-eq_of_cons-eq}
use mrdns.Prelude.{
  ℕ, ◌+◌, String, Bool, true, false, List, [], ◌∷◌, ◌++◌, All, All-append, ◌≡◌, refl, sym, inl, inr,
  arith,
}
use mrdns.Dns.{Dns}
use mrdns.Deploy.Remote.{Remote, Request, Event, ran, Slot, moving}
use mrdns.Deploy.Pipeline.{staged, cleanup_events, close_events, indexed, all_checked, stage}
use mrdns.Deploy.Pipeline.Trace.{
  Pick, first, later, Merge, done, act, In, concat_all, events_of, Trace, refused, aborted,
  rolled_out,
}

abbrev pub is_move : Event → Bool
is_move (ran i moving cmd) = true
is_move _ = false

abbrev NoMove : List Event → Type 0
NoMove es = All (λ e. is_move e ≡ false) es

pub In-append : {A : Type 0} (a : A) (xs ys : List A) → In a xs → In a (xs ++ ys)
In-append a [] ys h = elim h [ ]
In-append a (x ∷ xs) ys (inl e) = inl e
In-append a (x ∷ xs) ys (inr h) = inr (In-append a xs ys h)

module _ {A : Type 0} (P : A → Type 0) where
  Pick-holds :
      {ts us : List (List A)} {e : A} → Pick ts e us → All (All P) ts → P e × All (All P) us
  Pick-holds first ((p, t), ts) = (p, (t, ts))
  Pick-holds (later k) (t, ts) = let (p, us) = Pick-holds k ts in (p, (t, us))

  -- What holds of every act of every goroutine holds of every act of a run.
  pub Merge-holds : {ts : List (List A)} {es : List A} → Merge ts es → All (All P) ts → All P es
  Merge-holds (done h) k = tt
  Merge-holds (act p m) k = let (q, us) = Pick-holds p k in (q, Merge-holds m us)

module _ {A : Type 0} where
  none_left : (es : List A) (t : List A) → t ≡ [] → All (λ e. In e es) t
  none_left es [] h = tt
  none_left es (x ∷ t) h = cc

  done-covers : (ts : List (List A)) → All (λ t. t ≡ []) ts → All (λ t. All (λ e. In e []) t) ts
  done-covers [] h = tt
  done-covers (t ∷ ts) (e, h) = (none_left [] t e, done-covers ts h)

  weaken : (e : A) (es t : List A) → All (λ x. In x es) t → All (λ x. In x (e ∷ es)) t
  weaken e es [] h = tt
  weaken e es (x ∷ t) (p, h) = (inr p, weaken e es t h)

  weaken-All :
      (e : A) (es : List A) (ts : List (List A))
      → All (λ t. All (λ x. In x es) t) ts
      → All (λ t. All (λ x. In x (e ∷ es)) t) ts
  weaken-All e es [] h = tt
  weaken-All e es (t ∷ ts) (p, h) = (weaken e es t p, weaken-All e es ts h)

  Pick-covers :
      {ts us : List (List A)} {e : A} (es : List A)
      → Pick ts e us
      → All (λ t. All (λ x. In x es) t) us
      → All (λ t. All (λ x. In x (e ∷ es)) t) ts
  Pick-covers es (first {e} {t} {ts}) (p, h) = ((inl refl, weaken e es t p), weaken-All e es ts h)
  Pick-covers es (later {e} {t} k) (p, h) = (weaken e es t p, Pick-covers es k h)

  -- Every act of every goroutine is in a finished run.
  Merge-covers :
      {ts : List (List A)} {es : List A} → Merge ts es → All (λ t. All (λ x. In x es) t) ts
  Merge-covers (done {ts} h) = done-covers ts h
  Merge-covers (act {es} p m) = Pick-covers es p (Merge-covers m)

-- The acts before one that fails a test which the first list passes throughout.
before_move :
    (as' bs xs ys : List Event) (e : Event)
    → NoMove as'
    → is_move e ≡ true
    → as' ++ bs ≡ xs ++ e ∷ ys
    → (zs : List Event) × (xs ≡ as' ++ zs)
before_move [] bs xs ys e h m eq = (xs, refl)
before_move (a ∷ as') bs [] ys e (p, h) m eq = ground arith
before_move (a ∷ as') bs (x ∷ xs) ys e (p, h) m eq =
    let (zs, k) = before_move as' bs xs ys e h m (tail-eq_of_cons-eq eq) in
    (zs, cc (k, head-eq_of_cons-eq eq))

no_move : (xs ys : List Event) (e : Event) → NoMove (xs ++ e ∷ ys) → is_move e ≡ true → ⊥
no_move [] ys e (p, h) m = cc
no_move (x ∷ xs) ys e (p, h) m = no_move xs ys e h m

cleanup-NoMove : (i : ℕ) (slots : List Slot) → NoMove (concat_all (indexed cleanup_events i slots))
unfolding cleanup_events
cleanup-NoMove i [] = tt
cleanup-NoMove i (s ∷ slots) = All-append _ _ _ (ground arith) (cleanup-NoMove (i + 1) slots)

close-NoMove : (i : ℕ) (slots : List Slot) → NoMove (concat_all (indexed close_events i slots))
unfolding close_events
close-NoMove i [] = tt
close-NoMove i (s ∷ slots) = All-append _ _ _ (ground arith) (close-NoMove (i + 1) slots)

module _ (d : Dns) (rem : Remote) (req : Request) where
  stage-NoMove : (i : ℕ) (name : String) → NoMove (stage d rem req i name).events
  unfolding stage
  stage-NoMove i name = ground arith

  staged-NoMove :
      (i : ℕ) (names : List String) → All NoMove (events_of (indexed (stage d rem req) i names))
  staged-NoMove i [] = tt
  staged-NoMove i (name ∷ names) = (stage-NoMove i name, staged-NoMove (i + 1) names)

  first_phase : (es : List Event) → Merge (events_of (staged d rem req)) es → NoMove es
  unfolding staged
  first_phase es merged = Merge-holds (λ x. is_move x ≡ false) merged (staged-NoMove 0 req.targets)

  events-In :
      (slots : List Slot) (es : List Event)
      → All (λ t. All (λ x. In x es) t) (events_of slots)
      → All (λ s. All (λ x. In x es) s.events) slots
  events-In [] es h = tt
  events-In (s ∷ slots) es (p, h) = (p, events-In slots es h)

  all_checked-All :
      (slots : List Slot) → all_checked slots ≡ true → All (λ s. s.result.checked ≡ true) slots
  all_checked-All [] h = tt
  all_checked-All (s ∷ slots) h = (ground arith, all_checked-All slots (ground arith))

  In-append_more :
      (slots : List Slot) (es zs : List Event)
      → All (λ s. All (λ x. In x es) s.events) slots
      → All (λ s. All (λ x. In x (es ++ zs)) s.events) slots
  In-append_more [] es zs h = tt
  In-append_more (s ∷ slots) es zs (p, h) = (each s.events p, In-append_more slots es zs h)
    where
      each : (t : List Event) → All (λ x. In x es) t → All (λ x. In x (es ++ zs)) t
      each [] h = tt
      each (x ∷ t) (p, h) = (In-append x es zs p, each t h)

  -- In whatever order the goroutines act, the command that moves a staged file into place on a
  -- target comes after every act of the first phase on every target, and then every target has
  -- passed its check.
  pub moves_follow_checks :
      (tr : List Event)
      → Trace d rem req tr
      → (xs ys : List Event) (e : Event) → tr ≡ xs ++ e ∷ ys
      → is_move e ≡ true
      → All (λ s. s.result.checked ≡ true) (staged d rem req)
        × All (λ s. All (λ x. In x xs) s.events) (staged d rem req)
  moves_follow_checks tr (refused x h) xs ys e eq mv =
      absurd (no_move xs ys e (subst NoMove eq tt) mv)
  moves_follow_checks tr (aborted es ok_run unchecked merged) xs ys e eq mv = absurd (
      no_move xs ys e
        (subst NoMove eq (
          All-append (λ x. is_move x ≡ false) es _ (first_phase es merged)
            (All-append (λ x. is_move x ≡ false)
              (concat_all (indexed cleanup_events 0 (staged d rem req))) _
              (cleanup-NoMove 0 (staged d rem req)) (close-NoMove 0 (staged d rem req)))))
        mv)
  moves_follow_checks tr (rolled_out es fs ok_run checked merged moved) xs ys e eq mv =
      let (zs, is_xs) = before_move es _ xs ys e (first_phase es merged) mv eq in
      (
        all_checked-All (staged d rem req) checked,
        subst (λ l. All (λ s. All (λ x. In x l) s.events) (staged d rem req)) (sym is_xs)
            (In-append_more (staged d rem req) es zs
              (events-In (staged d rem req) es (Merge-covers merged))),
      )
