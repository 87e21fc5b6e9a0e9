-- ===== src/Web/World.antt =====
-- What a handler of internal/web reads and changes: the database, the map of the login limiter, the
-- audit trail and the counters. net/http runs every request on a goroutine of its own, so a handler
-- is a sequence of acts between which other requests may change the state: one call of the store, of
-- the limiter, of the audit log or of a counter is one act, since the pool of one connection and the
-- mutexes of the parts serialise them.
pub mod Rules
pub mod Preserves
pub mod Trace
use mrdns.Prelude.{
  ℕ, String, Bool, true, false, Option, none, some, List, [], Result, ok, err, Error, if◌then◌else◌,
}
use mrdns.Db.{Db, Exec}
use mrdns.Audit.{Event, Trail, log}
use mrdns.Metrics.{Metrics}
use mrdns.Web.RateLimit.{Hits}

pub record World : Type 0 where
  pub db : Db
  pub hits : Hits
  pub trail : Trail
  pub metrics : Metrics

-- What is left of a handler: its answer, or the change of its next act and what follows it, either of
-- them for the state that the act finds.
pub data Serve (A : Type 0) : Type 0 where
  done : A → Serve A
  act : (World → World) → (World → Serve A) → Serve A

module _ {A : Type 0} where
  -- The handler alone: the answer, and the state after it.
  unfoldable pub run : Serve A → World → A × World
  run (done a) w = (a, w)
  run (act change rest) w = run (rest w) (change w)

  -- a call of the store: its result, and the database after it
  unfoldable pub ask : Exec A → Serve (Result A)
  ask m = act (λ w. record w { db = (m w.db).1 }) (λ w. done (m w.db).0)

-- `srv.audit.Log(…)`; `stamp` is the text of the current time.
unfoldable pub note : String → Event → Serve (Unit {0})
note stamp e = act (λ w. record w { trail = log stamp e w.trail }) (λ w. done tt)

unfoldable pub count : (Metrics → Metrics) → Serve (Unit {0})
count f = act (λ w. record w { metrics = f w.metrics }) (λ w. done tt)

module _ {A B : Type 0} where
  infixl 5 ◌>>=◌ ◌>>◌
  unfoldable pub ◌>>=◌ : Serve A → (A → Serve B) → Serve B
  done a >>= f = f a
  act change rest >>= f = act change (λ w. rest w >>= f)

  abbrev pub ◌>>◌ : Serve A → Serve B → Serve B
  m >> n = m >>= λ _. n

  -- `if err != nil { … }`, and what follows
  unfoldable pub on_result : Result A → (Error → Serve B) → (A → Serve B) → Serve B
  on_result (err e) f g = f e
  on_result (ok a) f g = g a

  unfoldable pub on_option : Option A → Serve B → (A → Serve B) → Serve B
  on_option none f g = f
  on_option (some a) f g = g a

-- `x, _ := …`: the value, or what is returned beside an error
abbrev pub or_else {ℓ} : {A : Type ℓ} → A → Result A → A
or_else d (err e) = d
or_else d (ok a) = a

-- `if ok, _ := …; ok`
abbrev pub is_true : Result Bool → Bool
is_true r = or_else false r
