-- ===== src/Web/RateLimit/Window.antt =====
-- The limiter against the whole history of attempts it allowed.
use mrdns.Prelude.{
  ℕ, ◌≤◌, String, true, false, List, [], ◌∷◌, ◌++◌, ◌==◌, ltb, leb, if◌then◌else◌, length, select,
  map, ◌≡◌, refl, sym, ap, ◌∙◌, arith, Bool-cases, inl, inr, eq_iff, eq_refl, select-append,
  length-append, length-select-le,
}
use mrdns.Web.RateLimit.{Hits, no_hits, store, recent, allow}

pub record Attempt : Type 0 where
  pub key : String
  pub time : ℕ

-- The map, and every attempt that was allowed so far.
pub record State : Type 0 where
  pub hits : Hits
  pub allowed : List Attempt

abbrev pub start : State
start = record { hits = no_hits; allowed = [] }

abbrev pub times_of : String → List Attempt → List ℕ
times_of key as' = map (λ a. a.time) (select (λ a. a.key == key) as')

-- Attempts in the order of their times, none before a time.
abbrev pub Ascend : ℕ → List Attempt → Type 0
Ascend last [] = Unit
Ascend last (a ∷ as') = (last ≤ a.time) × Ascend a.time as'

abbrev pub last_time : ℕ → List Attempt → ℕ
last_time last [] = last
last_time last (a ∷ as') = last_time a.time as'

module _ (max window : ℕ) where
  unfoldable pub after : State → Attempt → State
  after s a =
      let (yes_no, hits) = allow max window s.hits a.key a.time in
      record { hits = hits; allowed = if yes_no then s.allowed ++ a ∷ [] else s.allowed }

  unfoldable pub run : State → List Attempt → State
  unfolding after
  run s [] = s
  run s (a ∷ as') = run (after s a) as'

  -- How many attempts of a key were allowed in the window that ends at a time.
  abbrev pub used : State → String → ℕ → ℕ
  used s key now = length (select (recent window now) (times_of key s.allowed))

  -- From a time on, the map and the history agree on what is recent, and the map holds no more
  -- than the limit.
  record Follows (last : ℕ) (s : State) : Type 0 where
    same :
        (key : String) (now : ℕ)
        → last ≤ now
        → select (recent window now) (s.hits key)
          ≡ select (recent window now) (times_of key s.allowed)
    bounded : (key : String) → length (s.hits key) ≤ max

  start-Follows : Follows 0 start
  start-Follows = record { same = λ key now h. refl; bounded = λ key. omega arith }

  -- What is recent at a time was recent before it.
  select-later :
      (now later : ℕ) (l : List ℕ)
      → now ≤ later
      → select (recent window later) (select (recent window now) l) ≡ select (recent window later) l
  select-later now later [] h = refl
  select-later now later (t ∷ l) h = ground (arith, select-later now later l h)

  times-append :
      (key : String) (as' : List Attempt) (a : Attempt)
      → times_of key (as' ++ a ∷ [])
        ≡ (if a.key == key then times_of key as' ++ a.time ∷ [] else times_of key as')
  times-append key [] a = ground arith
  times-append key (x ∷ as') a = ground (arith, times-append key as' a)

  -- What a list of times for one key, and another list of allowed attempts, must give for a call
  -- to be followed.
  recent_stored :
      (s : State) (key : String) (times : List ℕ) (allowed : List Attempt) (now : ℕ)
      → select (recent window now) times ≡ select (recent window now) (times_of key allowed)
      → ((k : String)
          → (key == k) ≡ false
          → select (recent window now) (s.hits k) ≡ select (recent window now) (times_of k allowed))
      → (k : String)
      → select (recent window now) (store s.hits key times k)
        ≡ select (recent window now) (times_of k allowed)
  recent_stored s key times allowed now h other k = elim (Bool-cases (key == k)) [
    | inl e ↦
        ground (
          arith,
          h ∙ ap (λ x. select (recent window now) (times_of x allowed)) ((eq_iff key k).0 e),
        )
    | inr e ↦ ground (arith, other k e)
  ]

  refused :
      (last : ℕ) (s : State) (a : Attempt)
      → last ≤ a.time
      → Follows last s
      → leb max (length (select (recent window a.time) (s.hits a.key))) ≡ true
      → Follows a.time (after s a)
  unfolding after allow
  refused last s a h f full = rw full record {
    same = λ key now k.
        recent_stored s a.key (select (recent window a.time) (s.hits a.key)) s.allowed now
          (select-later a.time now (s.hits a.key) k ∙ f.same a.key now (omega arith))
          (λ x e. f.same x now (omega arith)) key;
    bounded = λ key. ground (
      arith,
      f.bounded key,
      f.bounded a.key,
      length-select-le (recent window a.time) (s.hits a.key),
    );
  }

  accepted :
      (last : ℕ) (s : State) (a : Attempt)
      → last ≤ a.time
      → Follows last s
      → leb max (length (select (recent window a.time) (s.hits a.key))) ≡ false
      → Follows a.time (after s a)
  unfolding after allow
  accepted last s a h f free =
      let kept = select (recent window a.time) (s.hits a.key) in
      rw free record {
        same = λ key now k.
            let p = recent window now in
            let before =
              select-later a.time now (s.hits a.key) k ∙ f.same a.key now (omega arith) in
            recent_stored s a.key (kept ++ a.time ∷ []) (s.allowed ++ a ∷ []) now
              (select-append p kept (a.time ∷ [])
                ∙ ap (λ (l : List ℕ). l ++ select p (a.time ∷ [])) before
                ∙ sym (select-append p (times_of a.key s.allowed) (a.time ∷ []))
                ∙ ap (select p) (ground (arith, times-append a.key s.allowed a, eq_refl a.key)))
              (λ x e.
                f.same x now (omega arith)
                ∙ ap (select p) (ground (arith, times-append x s.allowed a)))
              key;
        bounded = λ key. ground (arith, f.bounded key, length-append kept (a.time ∷ []));
      }

  after-Follows :
      (last : ℕ) (s : State) (a : Attempt)
      → last ≤ a.time
      → Follows last s
      → Follows a.time (after s a)
  after-Follows last s a h f =
      elim (Bool-cases (leb max (length (select (recent window a.time) (s.hits a.key))))) [
        | inl full ↦ refused last s a h f full
        | inr free ↦ accepted last s a h f free
      ]

  run-Follows :
      (last : ℕ) (s : State) (as' : List Attempt)
      → Ascend last as'
      → Follows last s
      → Follows (last_time last as') (run s as')
  unfolding run
  run-Follows last s [] h f = f
  run-Follows last s (a ∷ as') (h, hs) f =
      run-Follows a.time (after s a) as' hs (after-Follows last s a h f)

  -- After any attempts in the order of their times, at no time from the last of them on were more
  -- than `max` attempts of a key allowed in the window that ends then, and the next attempt is
  -- allowed exactly when fewer than `max` were.
  pub allow_lem :
      (as' : List Attempt) (key : String) (now : ℕ)
      → Ascend 0 as'
      → last_time 0 as' ≤ now
      → (used (run start as') key now ≤ max)
        × ((allow max window (run start as').hits key now).0
            ≡ ltb (used (run start as') key now) max)
  unfolding allow
  allow_lem as' key now h k =
      let f = run-Follows 0 start as' h start-Follows in
      let same = f.same key now k in
      (
        ground (
          arith,
          f.bounded key,
          length-select-le (recent window now) ((run start as').hits key),
          same,
        ),
        ground (arith, same),
      )
