-- ===== src/Web/Service/Turns.antt =====
-- A schedule of the open requests: which of them takes the next act, by its place in the list.
use mrdns.Prelude.{ℕ, zero, suc, List, [], ◌∷◌, ◌≡◌, ◌⊎◌, inl, inr, refl, ap, sym}
use mathlib.Core.Path.{subst}
use mrdns.Dns.{Dns}
use mrdns.Config.{Config}
use mrdns.Web.Session.{Codec}
use mrdns.Web.World.{World, Serve, done, act, run}
use mrdns.Web.Response.{Response}
use mrdns.Web.Service.{
  Pending, Service, Acts, acts, answers, another, proceeds, Steps, further, idle,
}

-- A place that is not there takes no act.
unfoldable pub turn : ℕ → World → Pending → World × Pending
turn i w [] = (w, [])
turn zero w (done a ∷ others) = (w, others)
turn zero w (act change rest ∷ others) = (change w, rest w ∷ others)
turn (suc i) w (s ∷ others) = let (w', after) = turn i w others in (w', s ∷ after)

unfoldable pub turns : List ℕ → World → Pending → World × Pending
unfolding turn
turns [] w pending = (w, pending)
turns (i ∷ is) w pending = let (w', after) = turn i w pending in turns is w' after

Taken : World → Pending → World × Pending → Type 0
Taken w pending r = (r ≡ (w, pending)) ⊎ Acts w pending r.0 r.1

turn-Taken : (i : ℕ) (w : World) (pending : Pending) → Taken w pending (turn i w pending)
unfolding turn Taken
turn-Taken zero w [] = inl refl
turn-Taken (suc i) w [] = inl refl
turn-Taken zero w (done a ∷ others) = inr answers
turn-Taken zero w (act change rest ∷ others) = inr acts
turn-Taken (suc i) w (s ∷ others) = elim (turn-Taken i w others) [
  | inl h ↦ inl (ap (λ r. (r.0, s ∷ r.1)) h)
  | inr a ↦ inr (another a)
]

abbrev pub service : World × Pending → Service
service (w, pending) = record { world = w; pending = pending }

-- the state when each request has taken all its acts, one request after the other
unfoldable pub drain : Pending → World → World
drain [] w = w
drain (s ∷ others) w = drain others (run s w).1

module _ (d : Dns) (c : Codec) (cfg : Config) where
  turn-Steps :
      {t : Service} (w : World) (pending : Pending) (r : World × Pending)
      → Taken w pending r
      → Steps d c cfg t (service (w, pending))
      → Steps d c cfg t (service r)
  unfolding Taken
  turn-Steps {t = t} w pending r (inl e) h = subst (λ x. Steps d c cfg t (service x)) (sym e) h
  turn-Steps w pending r (inr a) h = further h (proceeds a)

  -- Every schedule is a run of the service.
  pub turns-Steps :
      {t : Service} (is : List ℕ) (w : World) (pending : Pending)
      → Steps d c cfg t (service (w, pending))
      → Steps d c cfg t (service (turns is w pending))
  unfolding turns
  turns-Steps [] w pending h = h
  turns-Steps (i ∷ is) w pending h =
      turns-Steps is _ _ (turn-Steps w pending _ (turn-Taken i w pending) h)

  run-Steps :
      {t : Service} (s : Serve Response) (others : Pending) (w : World)
      → Steps d c cfg t (service (w, s ∷ others))
      → Steps d c cfg t (service ((run s w).1, others))
  unfolding run
  run-Steps (done a) others w h = further h (proceeds answers)
  run-Steps (act change rest) others w h =
      run-Steps (rest w) others (change w) (further h (proceeds acts))

  pub drain-Steps :
      {t : Service} (pending : Pending) (w : World)
      → Steps d c cfg t (service (w, pending))
      → Steps d c cfg t (idle (drain pending w))
  unfolding drain
  drain-Steps [] w h = h
  drain-Steps (s ∷ others) w h = drain-Steps others _ (run-Steps s others w h)
