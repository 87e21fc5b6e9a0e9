-- ===== src/Web/Server/Effects.antt =====
-- What a request does to the tables and to the audit trail, over all routes of `Handler`.
use mrdns.Prelude.{All, String, false, ◌≡◌, arith, inl, inr, ◌⊎◌, Bool-cases}
use mrdns.Dns.{Dns}
use mrdns.Config.{Config}
use mrdns.Web.Session.{Verdict, redirected, forbidden, served, Codec, HttpRequest, is_mutating}
use mrdns.Web.World.{Serve}
use mrdns.Web.World.Rules.{
  Quiet-refl, IsQuiet, IsAccounted, IsAccounted-after, IsAccounted-quiet, IsAccounted-if,
  IsQuiet-count, IsQuiet-done, IsQuiet-if, IsQuiet-bind, quiet_rules,
}
use mrdns.Web.World.Trace.{
  Acts, Runs, Untouched, IsReported, IsReported-IsAccounted, Untouched-IsQuiet,
}
use mrdns.Web.Response.{Response}
use mrdns.Web.Moment.{Moment}
use mrdns.Web.Handlers.Quiet.{
  handle_healthz-IsQuiet, handle_logout-IsQuiet, handle_login_form-IsQuiet, handle_login-IsQuiet,
  handle_dashboard-IsQuiet, handle_servers-IsQuiet, handle_new_zone_form-IsQuiet,
  handle_import_form-IsQuiet, handle_settings_form-IsQuiet, handle_editor-IsQuiet,
  handle_records_fragment-IsQuiet, handle_edit_record_form-IsQuiet, handle_preview-IsQuiet,
  handle_diff-IsQuiet, handle_validate-IsQuiet, handle_history-IsQuiet,
}
use mrdns.Web.Handlers.Audited.{
  handle_add_record-IsAccounted, handle_update_record-IsAccounted, handle_delete_record-IsAccounted,
  handle_create_zone-IsAccounted, handle_import-IsAccounted, handle_update_settings-IsAccounted,
  handle_delete_zone-IsAccounted, serve_deploy-IsAccounted, handle_rollback-IsAccounted,
}
use mrdns.Web.Server.{
  PublicPath, healthz_path, metrics_path, login_path, logout_path, static_path, AppPath, root_path,
  servers_path, new_path, zones_path, import_path, ZonePath, editor_path, settings_path,
  delete_path, records_path, edit_path, update_path, remove_path, preview_path, diff_path,
  validate_path, deploy_path, history_path, rollback_path, Route, public, app, of_zone,
  unknown_path, is_post, on_get, on_post, on_either, handle_metrics, passed, serve_public, auth,
  serve_app, serve_zone, route, serve,
}

handle_metrics-IsQuiet : IsQuiet handle_metrics
unfolding handle_metrics IsQuiet
handle_metrics-IsQuiet w = (Quiet-refl w, tt)

pub passed-IsQuiet : (v : Verdict) (h : Serve Response) → IsQuiet h → IsQuiet (passed v h)
unfolding passed
passed-IsQuiet redirected h p = search quiet_rules
passed-IsQuiet forbidden h p = search quiet_rules
passed-IsQuiet served h p = p

passed-IsAccounted : (v : Verdict) (h : Serve Response) → IsAccounted h → IsAccounted (passed v h)
unfolding passed
passed-IsAccounted redirected h p = search (IsAccounted-quiet, quiet_rules)
passed-IsAccounted forbidden h p = search (IsAccounted-quiet, quiet_rules)
passed-IsAccounted served h p = p

-- What every route does: it reports its changes, and changes nothing for a method that only reads.
record IsProper (r : HttpRequest) (s : Serve Response) : Type 0 where
  accounted : IsAccounted s
  harmless : is_mutating r.method ≡ false → IsQuiet s

module _ (r : HttpRequest) where
  IsProper-quiet : (s : Serve Response) → IsQuiet s → IsProper r s
  IsProper-quiet s p = record { accounted = IsAccounted-quiet s p; harmless = λ h. p }

  post-harmless : (s : Serve Response) → is_mutating r.method ≡ false → IsQuiet (on_post r s)
  unfolding is_mutating
  post-harmless s h = elim (Bool-cases (is_post r)) [
    | inl e ↦ absurd (ground (arith, h, e))
    | inr e ↦ rw e (IsQuiet-done _)
  ]

module _ (d : Dns) (c : Codec) (cfg : Config) (m : Moment) (r : HttpRequest) where
  IsProper-get : (h : Serve Response) → IsQuiet h → IsProper r (on_get r (auth d c cfg m r h))
  unfolding auth
  IsProper-get h p = IsProper-quiet r _ (IsQuiet-if _ _ _ (passed-IsQuiet _ h p) (IsQuiet-done _))

  IsProper-post : (h : Serve Response) → IsAccounted h → IsProper r (on_post r (auth d c cfg m r h))
  unfolding auth
  IsProper-post h p = record {
    accounted =
        IsAccounted-if _ _ _ (passed-IsAccounted _ h p) (IsAccounted-quiet _ (IsQuiet-done _));
    harmless = post-harmless r (auth d c cfg m r h);
  }

  IsProper-either :
      (g h : Serve Response)
      → IsQuiet g
      → IsAccounted h
      → IsProper r (on_either r (auth d c cfg m r g) (auth d c cfg m r h))
  unfolding auth
  IsProper-either g h p q = record {
    accounted =
        IsAccounted-if _ _ _ (IsAccounted-quiet _ (passed-IsQuiet _ g p))
          ((IsProper-post h q).accounted);
    harmless = λ k. IsQuiet-if _ _ _ (passed-IsQuiet _ g p) (post-harmless r _ k);
  }

  pub serve_public-IsQuiet : (p : PublicPath) → IsQuiet (serve_public d c cfg m r p)
  unfolding serve_public
  serve_public-IsQuiet healthz_path = search (quiet_rules, handle_healthz-IsQuiet)
  serve_public-IsQuiet metrics_path = search (quiet_rules, handle_metrics-IsQuiet)
  serve_public-IsQuiet login_path =
      search (quiet_rules, handle_login_form-IsQuiet, handle_login-IsQuiet)
  serve_public-IsQuiet logout_path = search (quiet_rules, handle_logout-IsQuiet)
  serve_public-IsQuiet (static_path file) = search quiet_rules

  serve_app-IsProper : (p : AppPath) → IsProper r (serve_app d c cfg m r p)
  unfolding serve_app
  serve_app-IsProper root_path = IsProper-get _ (handle_dashboard-IsQuiet d c cfg m r)
  serve_app-IsProper servers_path = IsProper-get _ (handle_servers-IsQuiet d c cfg m r)
  serve_app-IsProper new_path = IsProper-get _ (handle_new_zone_form-IsQuiet d c cfg m r)
  serve_app-IsProper zones_path = IsProper-post _ (handle_create_zone-IsAccounted d c cfg m r)
  serve_app-IsProper import_path =
      IsProper-either _ _ (handle_import_form-IsQuiet d c cfg m r)
        (handle_import-IsAccounted d c cfg m r)

  serve_zone-IsProper : (z : String) (p : ZonePath) → IsProper r (serve_zone d c cfg m r z p)
  unfolding serve_zone
  serve_zone-IsProper z editor_path = IsProper-get _ (handle_editor-IsQuiet d c cfg m r z)
  serve_zone-IsProper z settings_path =
      IsProper-either _ _ (handle_settings_form-IsQuiet d c cfg m r z)
        (handle_update_settings-IsAccounted d c cfg m r z)
  serve_zone-IsProper z delete_path = IsProper-post _ (handle_delete_zone-IsAccounted d c cfg m r z)
  serve_zone-IsProper z records_path =
      IsProper-either _ _ (handle_records_fragment-IsQuiet d c cfg m r z)
        (handle_add_record-IsAccounted d c cfg m r z)
  serve_zone-IsProper z edit_path = IsProper-get _ (handle_edit_record_form-IsQuiet d c cfg m r z)
  serve_zone-IsProper z update_path =
      IsProper-post _ (handle_update_record-IsAccounted d c cfg m r z)
  serve_zone-IsProper z remove_path =
      IsProper-post _ (handle_delete_record-IsAccounted d c cfg m r z)
  serve_zone-IsProper z preview_path = IsProper-get _ (handle_preview-IsQuiet d c cfg m r z)
  serve_zone-IsProper z diff_path = IsProper-get _ (handle_diff-IsQuiet d c cfg m r z)
  serve_zone-IsProper z validate_path =
      IsProper-post _ (IsAccounted-quiet _ (handle_validate-IsQuiet d c cfg m r z))
  serve_zone-IsProper z deploy_path = IsProper-post _ (serve_deploy-IsAccounted d c cfg m r z)
  serve_zone-IsProper z history_path = IsProper-get _ (handle_history-IsQuiet d c cfg m r z)
  serve_zone-IsProper z rollback_path = IsProper-post _ (handle_rollback-IsAccounted d c cfg m r z)

  route-IsProper : (p : Route) → IsProper r (route d c cfg m r p)
  unfolding route
  route-IsProper (public p) = IsProper-quiet r _ (serve_public-IsQuiet p)
  route-IsProper (app p) = serve_app-IsProper p
  route-IsProper (of_zone z p) = serve_zone-IsProper z p
  route-IsProper unknown_path = IsProper-quiet r _ (IsQuiet-done _)

  serve-IsProper : (p : Route) → IsProper r (serve d c cfg m r p)
  unfolding serve
  serve-IsProper p = record {
    accounted = IsAccounted-after _ _ (IsQuiet-count _) (λ u. (route-IsProper p).accounted);
    harmless = λ h. IsQuiet-bind _ _ (IsQuiet-count _) (λ u. (route-IsProper p).harmless h);
  }

  pub serve-IsAccounted : (p : Route) → IsAccounted (serve d c cfg m r p)
  serve-IsAccounted p = (serve-IsProper p).accounted

  -- Whatever the driver, the servers and the clock do, and whatever other requests do between two of
  -- its acts, a request changes no table, or it changes tables in one act only, a single call of the
  -- store, and adds to the audit trail in a later act, failed calls and failed deploys included; and
  -- a request whose method is not POST, PUT, PATCH or DELETE changes no table.
  pub serve_effects :
      (p : Route) (tr : Acts)
      → Runs (serve d c cfg m r p) tr
      → (All Untouched tr ⊎ IsReported tr) × (is_mutating r.method ≡ false → All Untouched tr)
  serve_effects p tr h = (
    IsReported-IsAccounted (serve-IsAccounted p) h,
    λ k. Untouched-IsQuiet ((serve-IsProper p).harmless k) h,
  )
