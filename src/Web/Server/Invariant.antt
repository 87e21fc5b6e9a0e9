-- ===== src/Web/Server/Invariant.antt =====
-- What the methods of the store keep true of the tables, requests keep true of them, through all
-- routes of `Handler`, and so does every sequence of requests.
use mrdns.Prelude.{String}
use mrdns.Dns.{Dns, IsLawful}
use mrdns.Config.{Config}
use mrdns.Db.{Tables, empty}
use mrdns.Db.Invariant.{IsWellFormed}
use mrdns.Store.Laws.{StoreLaws}
use mrdns.Web.Session.{Verdict, redirected, forbidden, served, Codec, HttpRequest}
use mrdns.Web.World.{Serve}
use mrdns.Web.World.Rules.{IsQuiet, IsQuiet-count, IsQuiet-done, IsQuiet-if}
use mrdns.Web.World.Preserves.{Preserves, Preserves-quiet, Preserves-if, Preserves-bind}
use mrdns.Web.Response.{Response}
use mrdns.Web.Moment.{Moment}
use mrdns.Web.Handlers.Quiet.{
  handle_dashboard-IsQuiet, handle_servers-IsQuiet, handle_new_zone_form-IsQuiet,
  handle_import_form-IsQuiet, handle_settings_form-IsQuiet, handle_editor-IsQuiet,
  handle_records_fragment-IsQuiet, handle_edit_record_form-IsQuiet, handle_preview-IsQuiet,
  handle_diff-IsQuiet, handle_validate-IsQuiet, handle_history-IsQuiet,
}
use mrdns.Web.Handlers.Preserved.{
  handle_add_record-Preserves, handle_update_record-Preserves, handle_delete_record-Preserves,
  handle_create_zone-Preserves, handle_import-Preserves, handle_update_settings-Preserves,
  handle_delete_zone-Preserves, serve_deploy-Preserves, handle_rollback-Preserves,
}
use mrdns.Web.Server.{
  AppPath, root_path, servers_path, new_path, zones_path, import_path, ZonePath, editor_path,
  settings_path, delete_path, records_path, edit_path, update_path, remove_path, preview_path,
  diff_path, validate_path, deploy_path, history_path, rollback_path, Route, public, app, of_zone,
  unknown_path, on_get, on_post, on_either, passed, auth, serve_app, serve_zone, route, serve,
}
use mrdns.Web.Server.Effects.{passed-IsQuiet, serve_public-IsQuiet}

module _ (d : Dns) (lawful : IsLawful d) (P : Tables → Type 0) (laws : StoreLaws d P) where
  passed-Preserves : (v : Verdict) (h : Serve Response) → Preserves P h → Preserves P (passed v h)
  unfolding passed
  passed-Preserves redirected h p = Preserves-quiet P _ (IsQuiet-done _)
  passed-Preserves forbidden h p = Preserves-quiet P _ (IsQuiet-done _)
  passed-Preserves served h p = p

  module _ (c : Codec) (cfg : Config) (m : Moment) (r : HttpRequest) where
    on_get-Preserves :
        (h : Serve Response) → IsQuiet h → Preserves P (on_get r (auth d c cfg m r h))
    unfolding auth
    on_get-Preserves h p =
        Preserves-quiet P _ (IsQuiet-if _ _ _ (passed-IsQuiet _ h p) (IsQuiet-done _))

    on_post-Preserves :
        (h : Serve Response) → Preserves P h → Preserves P (on_post r (auth d c cfg m r h))
    unfolding auth
    on_post-Preserves h p =
        Preserves-if P _ _ _ (passed-Preserves _ h p) (Preserves-quiet P _ (IsQuiet-done _))

    on_either-Preserves :
        (g h : Serve Response)
        → IsQuiet g
        → Preserves P h
        → Preserves P (on_either r (auth d c cfg m r g) (auth d c cfg m r h))
    unfolding auth
    on_either-Preserves g h p q =
        Preserves-if P _ _ _ (Preserves-quiet P _ (passed-IsQuiet _ g p)) (on_post-Preserves h q)

    serve_app-Preserves : (p : AppPath) → Preserves P (serve_app d c cfg m r p)
    unfolding serve_app
    serve_app-Preserves root_path = on_get-Preserves _ (handle_dashboard-IsQuiet d c cfg m r)
    serve_app-Preserves servers_path = on_get-Preserves _ (handle_servers-IsQuiet d c cfg m r)
    serve_app-Preserves new_path = on_get-Preserves _ (handle_new_zone_form-IsQuiet d c cfg m r)
    serve_app-Preserves zones_path =
        on_post-Preserves _ (handle_create_zone-Preserves d lawful P laws c cfg m r)
    serve_app-Preserves import_path =
        on_either-Preserves _ _ (handle_import_form-IsQuiet d c cfg m r)
          (handle_import-Preserves d lawful P laws c cfg m r)

    serve_zone-Preserves : (z : String) (p : ZonePath) → Preserves P (serve_zone d c cfg m r z p)
    unfolding serve_zone
    serve_zone-Preserves z editor_path = on_get-Preserves _ (handle_editor-IsQuiet d c cfg m r z)
    serve_zone-Preserves z settings_path =
        on_either-Preserves _ _ (handle_settings_form-IsQuiet d c cfg m r z)
          (handle_update_settings-Preserves d lawful P laws c cfg m r z)
    serve_zone-Preserves z delete_path =
        on_post-Preserves _ (handle_delete_zone-Preserves d lawful P laws c cfg m r z)
    serve_zone-Preserves z records_path =
        on_either-Preserves _ _ (handle_records_fragment-IsQuiet d c cfg m r z)
          (handle_add_record-Preserves d lawful P laws c cfg m r z)
    serve_zone-Preserves z edit_path =
        on_get-Preserves _ (handle_edit_record_form-IsQuiet d c cfg m r z)
    serve_zone-Preserves z update_path =
        on_post-Preserves _ (handle_update_record-Preserves d lawful P laws c cfg m r z)
    serve_zone-Preserves z remove_path =
        on_post-Preserves _ (handle_delete_record-Preserves d lawful P laws c cfg m r z)
    serve_zone-Preserves z preview_path = on_get-Preserves _ (handle_preview-IsQuiet d c cfg m r z)
    serve_zone-Preserves z diff_path = on_get-Preserves _ (handle_diff-IsQuiet d c cfg m r z)
    serve_zone-Preserves z validate_path =
        on_post-Preserves _ (Preserves-quiet P _ (handle_validate-IsQuiet d c cfg m r z))
    serve_zone-Preserves z deploy_path =
        on_post-Preserves _ (serve_deploy-Preserves d lawful P laws c cfg m r z)
    serve_zone-Preserves z history_path = on_get-Preserves _ (handle_history-IsQuiet d c cfg m r z)
    serve_zone-Preserves z rollback_path =
        on_post-Preserves _ (handle_rollback-Preserves d lawful P laws c cfg m r z)

    route-Preserves : (p : Route) → Preserves P (route d c cfg m r p)
    unfolding route
    route-Preserves (public p) = Preserves-quiet P _ (serve_public-IsQuiet d c cfg m r p)
    route-Preserves (app p) = serve_app-Preserves p
    route-Preserves (of_zone z p) = serve_zone-Preserves z p
    route-Preserves unknown_path = Preserves-quiet P _ (IsQuiet-done _)

    pub serve-Preserves : (p : Route) → Preserves P (serve d c cfg m r p)
    unfolding serve
    serve-Preserves p =
        Preserves-bind P _ _ (Preserves-quiet P _ (IsQuiet-count _)) (λ u. route-Preserves p)

pub empty-IsWellFormed : IsWellFormed empty
empty-IsWellFormed = record {
  names = tt;
  records_owned = tt;
  snapshots_owned = tt;
  record_ids = tt;
  records_below = tt;
  snapshot_ids = tt;
  snapshots_below = tt;
}
