-- ===== src/Web/Server.antt =====
-- `Handler` of internal/web/server.go: which handler a request reaches, behind `requireAuth` or not,
-- and the counter of `logRequests`. net/http's `ServeMux` is not part of the repository: the path of
-- a request is given as the pattern that it matches, a pattern for GET matches HEAD too, and a method
-- without a pattern for the path is answered with 405.
pub mod Effects
pub mod Refused
pub mod Invariant
use mrdns.Prelude.{
  ℕ, ◌+◌, String, Bool, true, false, ◌||◌, Option, none, some, List, [], ◌∷◌, ◌==◌, if◌then◌else◌,
}
use mrdns.Dns.{Dns}
use mrdns.Config.{Config}
use mrdns.Metrics.{Metrics, exposition}
use mrdns.Web.Session.{Verdict, redirected, forbidden, served, Codec, HttpRequest, require_auth}
use mrdns.Web.World.{World, Serve, done, act, run, count, ◌>>=◌, ◌>>◌}
use mrdns.Web.Response.{redirect, failure, text, Response, plain}
use mrdns.Web.Moment.{Moment}
use mrdns.Web.Handlers.Login.{handle_healthz, handle_login_form, handle_login, handle_logout}
use mrdns.Web.Handlers.Pages.{
  handle_dashboard, handle_servers, handle_new_zone_form, handle_import_form, handle_editor,
  handle_settings_form, handle_records_fragment, handle_edit_record_form, handle_preview,
  handle_diff, handle_validate, handle_history,
}
use mrdns.Web.Handlers.Records.{handle_add_record, handle_update_record, handle_delete_record}
use mrdns.Web.Handlers.Zones.{
  handle_create_zone, handle_import, handle_update_settings, handle_delete_zone, serve_deploy,
  handle_rollback,
}

-- The paths of the patterns that need no session.
pub data PublicPath : Type 0 where
  healthz_path metrics_path login_path logout_path : PublicPath
  static_path : String → PublicPath

-- The paths behind `requireAuth` that name no zone, and those under /zones/{zone}.
pub data AppPath : Type 0 where
  root_path servers_path new_path zones_path import_path : AppPath

pub data ZonePath : Type 0 where
  editor_path settings_path delete_path records_path edit_path update_path remove_path
        preview_path :
      ZonePath
  diff_path validate_path deploy_path history_path rollback_path : ZonePath

pub data Route : Type 0 where
  public : PublicPath → Route
  app : AppPath → Route
  of_zone : String → ZonePath → Route
  unknown_path : Route

abbrev pub is_get : HttpRequest → Bool
is_get r = r.method == "GET" || r.method == "HEAD"

abbrev pub is_post : HttpRequest → Bool
is_post r = r.method == "POST"

abbrev pub not_allowed : Serve Response
not_allowed = done (plain (failure 405 "Method Not Allowed" none))

abbrev pub on_get : HttpRequest → Serve Response → Serve Response
on_get r h = if is_get r then h else not_allowed

abbrev pub on_post : HttpRequest → Serve Response → Serve Response
on_post r h = if is_post r then h else not_allowed

abbrev pub on_either : HttpRequest → Serve Response → Serve Response → Serve Response
on_either r get post = if is_get r then get else on_post r post

unfoldable pub handle_metrics : Serve Response
handle_metrics = act (λ w. w) (λ w. done (plain (text (exposition w.metrics))))

-- `requireAuth` around a handler
unfoldable pub passed : Verdict → Serve Response → Serve Response
passed redirected h = done (plain (redirect "/login"))
passed forbidden h = done (plain (failure 403 "csrf token mismatch" none))
passed served h = h

module _ (d : Dns) (c : Codec) (cfg : Config) (m : Moment) where
  unfoldable pub serve_public : HttpRequest → PublicPath → Serve Response
  serve_public r healthz_path = on_get r handle_healthz
  serve_public r metrics_path = on_get r handle_metrics
  serve_public r login_path = on_either r (handle_login_form c cfg m r) (handle_login c cfg m r)
  serve_public r logout_path = on_post r (handle_logout cfg)
  serve_public r (static_path file) = on_get r (done (plain (m.files file)))

  unfoldable pub auth : HttpRequest → Serve Response → Serve Response
  unfolding passed
  auth r h = passed (require_auth c m.unix r) h

  unfoldable pub serve_app : HttpRequest → AppPath → Serve Response
  unfolding auth
  serve_app r root_path = on_get r (auth r (handle_dashboard d c cfg m r))
  serve_app r servers_path = on_get r (auth r (handle_servers d c cfg m r))
  serve_app r new_path = on_get r (auth r (handle_new_zone_form d c cfg m r))
  serve_app r zones_path = on_post r (auth r (handle_create_zone d c cfg m r))
  serve_app r import_path =
      on_either r (auth r (handle_import_form d c cfg m r)) (auth r (handle_import d c cfg m r))

  unfoldable pub serve_zone : HttpRequest → String → ZonePath → Serve Response
  unfolding auth
  serve_zone r z editor_path = on_get r (auth r (handle_editor d c cfg m r z))
  serve_zone r z settings_path =
      on_either r (auth r (handle_settings_form d c cfg m r z))
        (auth r (handle_update_settings d c cfg m r z))
  serve_zone r z delete_path = on_post r (auth r (handle_delete_zone d c cfg m r z))
  serve_zone r z records_path =
      on_either r (auth r (handle_records_fragment d c cfg m r z))
        (auth r (handle_add_record d c cfg m r z))
  serve_zone r z edit_path = on_get r (auth r (handle_edit_record_form d c cfg m r z))
  serve_zone r z update_path = on_post r (auth r (handle_update_record d c cfg m r z))
  serve_zone r z remove_path = on_post r (auth r (handle_delete_record d c cfg m r z))
  serve_zone r z preview_path = on_get r (auth r (handle_preview d c cfg m r z))
  serve_zone r z diff_path = on_get r (auth r (handle_diff d c cfg m r z))
  serve_zone r z validate_path = on_post r (auth r (handle_validate d c cfg m r z))
  serve_zone r z deploy_path = on_post r (auth r (serve_deploy d c cfg m r z))
  serve_zone r z history_path = on_get r (auth r (handle_history d c cfg m r z))
  serve_zone r z rollback_path = on_post r (auth r (handle_rollback d c cfg m r z))

  unfoldable pub route : HttpRequest → Route → Serve Response
  unfolding serve_public serve_app serve_zone
  route r (public p) = serve_public r p
  route r (app p) = serve_app r p
  route r (of_zone z p) = serve_zone r z p
  route r unknown_path = done (plain (failure 404 "404 page not found" none))

  -- `logRequests` around the mux
  unfoldable pub serve : HttpRequest → Route → Serve Response
  unfolding route
  serve r p = do
    count (λ (k : Metrics). record k { http_requests = k.http_requests + 1 })
    route r p

-- A request as it comes in: what the world gives, and what is asked.
pub record Arrival : Type 0 where
  pub moment : Moment
  pub request : HttpRequest
  pub path : Route
