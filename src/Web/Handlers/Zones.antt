-- ===== src/Web/Handlers/Zones.antt =====
-- The handlers of internal/web/zones.go that create, import, change, delete, deploy and restore zones.
use Prim.Native.String.{◌++◌}
use mrdns.Prelude.{
  ℕ, Option, Result, ok, err, String, not, ◌||◌, none, some, List, [], map, ◌==◌, if◌then◌else◌,
}
use mrdns.Text.{trim_space, cut}
use mrdns.Text.Numbers.{parse_id}
use mrdns.Metrics.{decimal_long, observe_deploy}
use mrdns.Dns.{Dns}
use mrdns.Zone.{Zone, render}
use mrdns.Zone.Serial.{bump_serial}
use mrdns.Zone.Build.{build as build_zone}
use mrdns.Store.{
  StoredZone, stored_soa_data, get_zone, create_zone, zone_exists, update_zone_settings,
  delete_zone, snapshots_kept,
}
use mrdns.Store.Import.{import_zone, restore_snapshot}
use mrdns.Store.Rendered.{build}
use mrdns.Store.Snapshots.{publish}
use mrdns.Deploy.Pipeline.{deploy}
use mrdns.Deploy.{DeployResult, all_moved, Status, success, partial, failed, ServerResult}
use mrdns.Deploy.Remote.{DeployError, no_targets, local_rejected}
use mrdns.Config.{Config}
use mrdns.Audit.{Event, event}
use mrdns.Web.Session.{Codec, HttpRequest}
use mrdns.Web.World.{Serve, done, ask, note, count, ◌>>=◌, ◌>>◌, on_result, is_true}
use mrdns.Web.Forms.{zone_from_form, form_targets, server_choices}
use mrdns.Web.Deploying.{Page, no_zone, no_deploy, stopped, deployed, marked}
use mrdns.Web.Response.{
  redirect, failure, Response, plain, Complaint, new_zone_page, settings_page, import_page,
  deploy_page,
}
use mrdns.Web.Moment.{Moment, shown, zone_error, is_not_found, client_ip, note_action, configured}

abbrev pub status_text : Status → String
status_text success = "success"
status_text partial = "partial"
status_text failed = "failed"

-- `derr.Error()`
abbrev pub deploy_error_text : DeployError → String
deploy_error_text no_targets = "zone has no target servers"
deploy_error_text (local_rejected out) = "local named-checkzone rejected zone: " ++ out

-- the part of an error before its first ":"
abbrev pub error_kind : String → String
error_kind e = elim (cut b':' e) [ none ↦ e | some (kind, rest) ↦ kind ]

abbrev pub server_state : ServerResult → String
server_state s =
    if not (s.err_text == "")
    then error_kind s.err_text
    else if not s.verified
    then "unverified"
    else "reloaded"

unfoldable pub server_summaries : List ServerResult → List String
server_summaries srs = map (λ s. s.name ++ (":" ++ server_state s)) srs

module _ (d : Dns) (c : Codec) (cfg : Config) (m : Moment) where
  -- the `reErr` of the three forms
  abbrev pub new_zone_again : HttpRequest → StoredZone → Complaint → Serve Response
  new_zone_again r z why =
      done (shown c m r "New zone" (new_zone_page z (server_choices cfg z.targets) (some why)))

  abbrev pub settings_again : HttpRequest → StoredZone → Complaint → Serve Response
  settings_again r z why = done (
      shown c m r ("Settings " ++ z.name)
        (settings_page z (server_choices cfg z.targets) (some why)))

  abbrev pub import_again : HttpRequest → Complaint → Serve Response
  import_again r why = done (
      shown c m r "Import zone" (
        import_page (server_choices cfg (form_targets cfg r)) (trim_space (r.form "name"))
          (r.form "content") (some why)))

  unfoldable pub create_checked : HttpRequest → StoredZone → Serve Response
  create_checked r z =
      on_result (build_zone d z.name (stored_soa_data z) [])
        (λ e. new_zone_again r z ("invalid zone settings: ", some e))
        (λ built. do
          created ← ask (create_zone z m.stamp)
          on_result created (λ e. new_zone_again r z ("create: ", some e))
              λ u. do
                note_action c m r "zone_create" z.name ""
                done (plain (redirect ("/zones/" ++ (z.name ++ "?flash=Zone+created")))))

  unfoldable pub handle_create_zone : HttpRequest → Serve Response
  handle_create_zone r =
      let z = zone_from_form cfg r in
      if z.name == "" || z.primary_ns == "" || z.mbox == ""
      then new_zone_again r z ("name, primary NS, and admin email are required", none)
      else do
        known ← ask (zone_exists z.name)
        if is_true known
            then new_zone_again r z ("a zone named " ++ (z.name ++ " already exists"), none)
            else create_checked r z

  unfoldable pub handle_import : HttpRequest → Serve Response
  handle_import r =
      let name = trim_space (r.form "name") in
      let content = r.form "content" in
      if name == "" || trim_space content == ""
      then import_again r ("zone name and file content are required", none)
      else do
        imported ← ask (import_zone d name content (form_targets cfg r) m.stamp)
        on_result imported (λ e. import_again r ("", some e))
            λ n. do
              note_action c m r "zone_import" name (decimal_long n ++ " records")
              done (
                  plain (
                    redirect (
                      "/zones/"
                      ++ (name ++ ("?flash=Imported+" ++ (decimal_long n ++ "+records"))))))

  unfoldable pub handle_update_settings : HttpRequest → String → Serve Response
  handle_update_settings r name =
      let z = record (zone_from_form cfg r) { name = name } in
      if z.primary_ns == "" || z.mbox == ""
      then settings_again r z ("primary NS and admin email are required", none)
      else on_result (build_zone d name (stored_soa_data z) [])
          (λ e. settings_again r z ("invalid zone settings: ", some e))
          (λ built. do
            updated ← ask (update_zone_settings z)
            on_result updated (λ e. settings_again r z ("update: ", some e))
                λ u. do
                  note_action c m r "zone_settings" name ""
                  done (plain (redirect ("/zones/" ++ (name ++ "?flash=Settings+saved")))))

  unfoldable pub zone_gone : HttpRequest → String → Serve Response
  zone_gone r name = do
    note_action c m r "zone_delete" name ""
    done (plain (redirect "/?flash=Zone+deleted"))

  unfoldable pub handle_delete_zone : HttpRequest → String → Serve Response
  handle_delete_zone r name = do
    deleted ← ask (delete_zone name)
    on_result deleted
        (λ e.
          if is_not_found e
          then zone_gone r name
          else done (plain (failure 500 "delete: " (some e))))
        (λ u. zone_gone r name)

  abbrev pub deploy_event : HttpRequest → String → Event
  deploy_event r name = event "deploy" (client_ip r) name

  -- the audit trail and the answer of each outcome
  unfoldable pub report : HttpRequest → String → Page → Serve Response
  report r name (no_zone e) = done (plain (zone_error e))
  report r name (no_deploy e) =
      done (shown c m r ("Deploy " ++ name) (deploy_page name (no_deploy e)))
  report r name (stopped res e) = do
    note m.stamp (record (deploy_event r name) { status = "error"; detail = deploy_error_text e })
    done (shown c m r ("Deploy " ++ name) (deploy_page name (stopped res e)))
  report r name (deployed res) = do
    note m.stamp (record (deploy_event r name) {
      status = status_text res.status;
      old_serial = res.old_serial;
      new_serial = res.new_serial;
      servers = server_summaries res.servers;
    })
    done (shown c m r ("Deploy " ++ name) (deploy_page name (deployed res)))

  unfoldable pub deployed_with :
      HttpRequest → String → String → ℕ → DeployResult × Option DeployError → Serve Response
  unfolding report
  deployed_with r name content new (res, some e) = report r name (stopped res e)
  deployed_with r name content new (res, none) = do
    count (observe_deploy (status_text res.status))
    if all_moved res
        then (do
          published ← ask (publish (snapshots_kept cfg.backup_keep) name content new m.stamp)
          report r name (deployed (marked res published)))
        else report r name (deployed res)

  unfoldable pub deploy_built :
      HttpRequest → String → StoredZone → Result (ℕ × ℕ) × Zone d → Serve Response
  unfolding deployed_with report
  deploy_built r name z (err e, built) = report r name (no_deploy e)
  deploy_built r name z (ok (old, new), built) =
      let content = render d built in
      deployed_with r name content new (
        deploy d (configured cfg m) (record {
          zone = name;
          content = content;
          old_serial = old;
          new_serial = new;
          targets = z.targets;
        }))

  unfoldable pub serve_deploy : HttpRequest → String → Serve Response
  unfolding deploy_built report
  serve_deploy r name = do
    found ← ask (get_zone name)
    on_result found (λ e. report r name (no_zone e))
        λ z. do
          built ← ask (build d name)
          on_result built (λ e. report r name (no_deploy e))
              λ b. deploy_built r name z (bump_serial d b cfg.serial_policy m.date)

  unfoldable pub handle_rollback : HttpRequest → String → Serve Response
  handle_rollback r name =
      let id = parse_id (r.form "id") in
      do
        restored ← ask (restore_snapshot d name id)
        on_result restored
            (λ e. done (
              plain (
                if is_not_found e
                then failure 404 "unknown snapshot" none
                else failure 500 "rollback: " (some e))))
            (λ u. do
              note_action c m r "rollback" name (decimal_long id)
              done (plain (redirect ("/zones/" ++ (name ++ "?flash=Restored;+review+and+deploy")))))
