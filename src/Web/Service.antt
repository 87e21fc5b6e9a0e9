-- ===== src/Web/Service.antt =====
-- The server of cmd/mrdns/main.go with the requests that it is answering: net/http serves each on a
-- goroutine of its own, so that their acts interleave in any order.
pub mod Sound
pub mod Rest
pub mod Turns
pub mod Overlap
use mrdns.Prelude.{List, [], ◌∷◌}
use mrdns.Dns.{Dns}
use mrdns.Config.{Config}
use mrdns.Metrics.{zeroed}
use mrdns.Web.RateLimit.{no_hits}
use mrdns.Web.Session.{Codec}
use mrdns.Web.World.{World, Serve, done, act}
use mrdns.Web.Response.{Response}
use mrdns.Web.Server.{Arrival, serve}

-- what is left of each request that has no answer yet
abbrev pub Pending : Type 0
Pending = List (Serve Response)

pub record Service : Type 0 where
  pub world : World
  pub pending : Pending

-- One of the open requests takes its next act, or is answered.
pub data Acts (w : World) : Pending → World → Pending → Type 0 where
  acts :
      {change : World → World} {rest : World → Serve Response} {others : Pending}
      → Acts w (act change rest ∷ others) (change w) (rest w ∷ others)
  answers : {a : Response} {others : Pending} → Acts w (done a ∷ others) w others
  another :
      {s : Serve Response} {before after : Pending} {w' : World}
      → Acts w before w' after
      → Acts w (s ∷ before) w' (s ∷ after)

-- The process ends at any point and is started again: the database and the audit trail stay, the
-- requests are gone, and the limiter and the counters are new.
unfoldable pub restarted : Service → Service
restarted s = record { world = record s.world { hits = no_hits; metrics = zeroed }; pending = [] }

abbrev pub idle : World → Service
idle w = record { world = w; pending = [] }

-- One of the open requests is gone without an answer of its handler: `recoverer` has answered for a
-- handler that panicked.
pub data Dropped : Pending → Pending → Type 0 where
  gone : {s : Serve Response} {others : Pending} → Dropped (s ∷ others) others
  another_gone :
      {s : Serve Response} {before after : Pending}
      → Dropped before after
      → Dropped (s ∷ before) (s ∷ after)

module _ (d : Dns) (c : Codec) (cfg : Config) where
  pub data Step : Service → Service → Type 0 where
    arrives :
        {w : World} {pending : Pending} (a : Arrival)
        → Step
            (record { world = w; pending = pending })
            (record { world = w; pending = serve d c cfg a.moment a.request a.path ∷ pending })
    proceeds :
        {w w' : World} {pending pending' : Pending}
        → Acts w pending w' pending'
        → Step (record { world = w; pending = pending }) (record { world = w'; pending = pending' })

  pub data Steps (s : Service) : Service → Type 0 where
    still : Steps s s
    further : {t u : Service} → Steps s t → Step t u → Steps s u

  pub data Lives (s : Service) : Service → Type 0 where
    started : Lives s s
    goes_on : {t u : Service} → Lives s t → Step t u → Lives s u
    panics :
        {w : World} {before after : Pending}
        → Lives s (record { world = w; pending = before })
        → Dropped before after
        → Lives s (record { world = w; pending = after })
    starts_again : {t : Service} → Lives s t → Lives s (restarted t)

  pub Steps-Lives : {s t : Service} → Steps s t → Lives s t
  Steps-Lives still = started
  Steps-Lives (further h st) = goes_on (Steps-Lives h) st
