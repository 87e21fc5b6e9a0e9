-- ===== src/Web/Server/Refused.antt =====
-- What `requireAuth` keeps from a request, over all routes that stand behind it.
use mrdns.Prelude.{◌+◌, String, Bool, true, false, ◌≡◌, ◌≢◌, refl, arith, if◌then◌else◌}
use mrdns.Dns.{Dns}
use mrdns.Config.{Config}
use mrdns.Web.Session.{Verdict, redirected, forbidden, served, Codec, HttpRequest, require_auth}
use mrdns.Web.World.{Serve, done, count, ◌>>◌}
use mrdns.Metrics.{Metrics}
use mrdns.Web.Response.{Response}
use mrdns.Web.Moment.{Moment}
use mrdns.Web.Server.{
  AppPath, root_path, servers_path, new_path, zones_path, import_path, ZonePath, editor_path,
  settings_path, delete_path, records_path, edit_path, update_path, remove_path, preview_path,
  diff_path, validate_path, deploy_path, history_path, rollback_path, Route, public, app, of_zone,
  unknown_path, passed, auth, serve_app, serve_zone, route, serve,
}

-- A handler that gives one answer at once.
record IsIdle (s : Serve Response) : Type 0 where
  answer : Response
  always : s ≡ done answer

IsIdle-done : (a : Response) → IsIdle (done a)
IsIdle-done a = record { answer = a; always = refl }

IsIdle-if : (b : Bool) (s t : Serve Response) → IsIdle s → IsIdle t → IsIdle (if b then s else t)
IsIdle-if true s t p q = p
IsIdle-if false s t p q = q

IsIdle-passed : (v : Verdict) (h : Serve Response) → v ≢ served → IsIdle (passed v h)
unfolding passed
IsIdle-passed redirected h n = IsIdle-done _
IsIdle-passed forbidden h n = IsIdle-done _
IsIdle-passed served h n = absurd (n refl)

ruleset idle_rules = (IsIdle-done, IsIdle-if)

-- The paths of `Handler` that stand behind `requireAuth`.
abbrev pub is_guarded : Route → Bool
is_guarded (public p) = false
is_guarded (app p) = true
is_guarded (of_zone z p) = true
is_guarded unknown_path = false

module _ (d : Dns) (c : Codec) (cfg : Config) (m : Moment) (r : HttpRequest) where
  module _ (n : require_auth c m.unix r ≢ served) where
    auth-IsIdle : (h : Serve Response) → IsIdle (auth d c cfg m r h)
    unfolding auth
    auth-IsIdle h = IsIdle-passed _ h n

    serve_app-IsIdle : (p : AppPath) → IsIdle (serve_app d c cfg m r p)
    unfolding serve_app
    serve_app-IsIdle root_path = search (idle_rules, auth-IsIdle)
    serve_app-IsIdle servers_path = search (idle_rules, auth-IsIdle)
    serve_app-IsIdle new_path = search (idle_rules, auth-IsIdle)
    serve_app-IsIdle zones_path = search (idle_rules, auth-IsIdle)
    serve_app-IsIdle import_path = search (idle_rules, auth-IsIdle)

    serve_zone-IsIdle : (z : String) (p : ZonePath) → IsIdle (serve_zone d c cfg m r z p)
    unfolding serve_zone
    serve_zone-IsIdle z editor_path = search (idle_rules, auth-IsIdle)
    serve_zone-IsIdle z settings_path = search (idle_rules, auth-IsIdle)
    serve_zone-IsIdle z delete_path = search (idle_rules, auth-IsIdle)
    serve_zone-IsIdle z records_path = search (idle_rules, auth-IsIdle)
    serve_zone-IsIdle z edit_path = search (idle_rules, auth-IsIdle)
    serve_zone-IsIdle z update_path = search (idle_rules, auth-IsIdle)
    serve_zone-IsIdle z remove_path = search (idle_rules, auth-IsIdle)
    serve_zone-IsIdle z preview_path = search (idle_rules, auth-IsIdle)
    serve_zone-IsIdle z diff_path = search (idle_rules, auth-IsIdle)
    serve_zone-IsIdle z validate_path = search (idle_rules, auth-IsIdle)
    serve_zone-IsIdle z deploy_path = search (idle_rules, auth-IsIdle)
    serve_zone-IsIdle z history_path = search (idle_rules, auth-IsIdle)
    serve_zone-IsIdle z rollback_path = search (idle_rules, auth-IsIdle)

    route-IsIdle : (p : Route) → is_guarded p ≡ true → IsIdle (route d c cfg m r p)
    unfolding route
    route-IsIdle (public p) h = absurd (ground arith)
    route-IsIdle (app p) h = serve_app-IsIdle p
    route-IsIdle (of_zone z p) h = serve_zone-IsIdle z p
    route-IsIdle unknown_path h = absurd (ground arith)

  -- On every path but those of health, metrics, login, logout and static files, a request that the
  -- guard does not let through is counted and then answered, in every state of the service with the
  -- same answer: it neither reads nor changes the database, the limiter or the audit trail.
  pub serve-refused :
      (p : Route)
      → require_auth c m.unix r ≢ served
      → is_guarded p ≡ true
      → (a : Response) × (serve d c cfg m r p
          ≡ (do count (λ (k : Metrics). record k { http_requests = k.http_requests + 1 }); done a))
  unfolding serve
  serve-refused p n h = let idle = route-IsIdle n p h in (idle.answer, rw idle.always refl)
