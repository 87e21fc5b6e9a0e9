-- ===== src/Tests/ServerRuns.antt =====
-- The theorems on the routes, the login and the forms at concrete requests.
use mrdns.Prelude.{All, ◌+◌, ◌<◌, true, false, none, [], ◌∷◌, ◌≡◌, ◌≢◌, ◌↔◌, ◌⊎◌, refl, length}
use mrdns.Db.{empty}
use mrdns.Db.Invariant.{IsWellFormed}
use mrdns.Metrics.{Metrics, zeroed}
use mrdns.Store.SoaFree.{IsSoaFree}
use mrdns.Web.RateLimit.{no_hits, allow}
use mrdns.Web.Session.{HttpRequest, served, require_auth, guarded, current_session, is_mutating}
use mrdns.Web.World.{World, Serve, done, run, count, ◌>>◌}
use mrdns.Web.Response.{redirect, text, Response}
use mrdns.Web.Moment.{Moment}
use mrdns.Web.Handlers.Login.{handle_login}
use mrdns.Web.Handlers.Login.Granted.{HasCredentials, handle_login-granted_iff}
use mrdns.Web.Server.{public, login_path, of_zone, delete_path, records_path, serve}
use mrdns.Web.Server.Effects.{serve_effects}
use mrdns.Web.Server.Refused.{serve-refused}
use mrdns.Web.World.Trace.{Untouched, IsReported, alone, alone-Runs}
use mrdns.Web.Service.{
  Pending, Service, Steps, idle, Steps-Lives, arrives, still, further, restarted, starts_again,
}
use mrdns.Web.Service.Turns.{turns, turns-Steps, drain, drain-Steps}
use mrdns.Web.Service.Sound.{all_runs_sound}
use mrdns.Web.Service.Rest.{rest_accounted}
use mrdns.Tests.Sample.{sample, sample-IsLawful}
use mrdns.Tests.StoreRuns.{two_zones, sound, past}
use mrdns.Tests.DeployRuns.{servers}
use mrdns.Tests.WebRuns.{codec, post}
use mrdns.Tests.ConfigRuns.{complete}

abbrev pub moment : Moment
moment = record {
  unix = 50;
  clock = 50_000_000_000;
  date = past;
  stamp = "2026-01-02T03:04:05Z";
  drawn = "fresh";
  remote = servers;
  upper = λ s. s;
  files = λ file. text "";
}

abbrev pub world : World
world = record { db = sound two_zones; hits = no_hits; trail = []; metrics = zeroed }

abbrev deletion : Serve Response
deletion = serve sample codec complete moment post (of_zone "example.org." delete_path)

serve_effects_example :
    (All Untouched (alone deletion world) ⊎ IsReported (alone deletion world))
    × (is_mutating "POST" ≡ false → All Untouched (alone deletion world))
serve_effects_example =
    serve_effects sample codec complete moment post (of_zone "example.org." delete_path)
      (alone deletion world) (alone-Runs deletion world)

-- The request without its cookie.
abbrev anonymous : HttpRequest
anonymous = record post { cookie = none }

not_served : require_auth codec 50 anonymous ≢ served
unfolding require_auth guarded current_session
not_served h = cc h

serve-refused_example :
    (a : Response) × (serve sample codec complete moment anonymous
        (of_zone "example.org." delete_path)
      ≡ (do count (λ (k : Metrics). record k { http_requests = k.http_requests + 1 }); done a))
serve-refused_example =
    serve-refused sample codec complete moment anonymous (of_zone "example.org." delete_path)
      not_served refl

handle_login-granted_iff_example :
    ((run (handle_login codec complete moment post) world).0.body ≡ redirect "/") ↔ (
      ((allow 5 60_000_000_000 no_hits "192.0.2.1" 50_000_000_000).0 ≡ true)
      × HasCredentials complete (current_session codec 50 post) post)
handle_login-granted_iff_example = handle_login-granted_iff codec complete moment post world

abbrev before_requests : World
before_requests = record world { db = sound empty }

-- Both requests have arrived; their acts alternate for a while, and then each comes to its end.
abbrev both : Pending
both =
    serve sample codec complete moment post (of_zone "example.org." records_path)
    ∷ serve sample codec complete moment post (public login_path)
    ∷ []

abbrev halfway : World × Pending
halfway = turns (0 ∷ 1 ∷ 1 ∷ 0 ∷ 1 ∷ []) before_requests both

abbrev after_both : Service
after_both = idle (drain halfway.1 halfway.0)

interleaved : Steps sample codec complete (idle before_requests) after_both
interleaved = drain-Steps sample codec complete halfway.1 halfway.0 (
    turns-Steps sample codec complete (0 ∷ 1 ∷ 1 ∷ 0 ∷ 1 ∷ []) before_requests both (
      further
        (further still
          (arrives (record { moment = moment; request = post; path = public login_path })))
        (arrives (record {
          moment = moment;
          request = post;
          path = of_zone "example.org." records_path;
        }))))

all_runs_sound_example :
    IsWellFormed (restarted after_both).world.db.tables
    × IsSoaFree (restarted after_both).world.db.tables
all_runs_sound_example =
    all_runs_sound sample codec complete (idle before_requests) (restarted after_both)
      sample-IsLawful refl refl (starts_again (Steps-Lives sample codec complete interleaved))

rest_accounted_example : (after_both.world.db.tables ≡ empty) ⊎ (0 < length after_both.world.trail)
rest_accounted_example =
    rest_accounted sample codec complete (idle before_requests) after_both interleaved refl refl
