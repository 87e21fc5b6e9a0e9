-- ===== src/Web/Handlers/Pages.antt =====
-- The handlers of internal/web/handlers.go and internal/web/zones.go that show pages.
use Prim.Native.String.{◌++◌}
use mrdns.Prelude.{
  ℕ, zero, suc, ◌+◌, String, true, false, Option, none, some, List, [], ◌∷◌, map, length, select,
  Error, ◌==◌, ℤ, pos, is_zero, if◌then◌else◌,
}
use mrdns.Text.{trim_space}
use mrdns.Text.Numbers.{parse_id}
use mrdns.Text.Order.{insertion_sort}
use mrdns.Dns.{Dns}
use mrdns.Zone.{render}
use mrdns.Store.{StoredZone, list_zones, get_zone, zone_exists, records}
use mrdns.Store.Rendered.{build, dirty}
use mrdns.Store.Snapshots.{Snapshot, last_snapshot, list_snapshots}
use mrdns.Config.{Config, ServerConfig, server_names, server_named}
use mrdns.Deploy.Remote.{LocalCheck, accepted, rejected, unavailable}
use mrdns.Web.Session.{Codec, HttpRequest}
use mrdns.Web.Diff.{compute_diff}
use mrdns.Web.World.{Serve, done, ask, ◌>>=◌, on_result, on_option, or_else, is_true}
use mrdns.Web.Forms.{RecordLine, record_rows, mark_editing, server_choices}
use mrdns.Web.Response.{
  failure, page, Response, plain, View, Card, ServerRow, ServerLine, HistoryRow, dashboard_page,
  servers_page, new_zone_page, settings_page, import_page, editor_page, records_part, preview_page,
  diff_page, validate_part, history_page,
}
use mrdns.Web.Moment.{Moment, shown, zone_error, is_not_found}

-- `store.Zone{TTL: 3600, …}` of `handleNewZoneForm`
abbrev pub blank_zone : StoredZone
blank_zone = record {
  name = "";
  primary_ns = "";
  mbox = "";
  refresh = 7200;
  retry = 3600;
  expire = 1209600;
  minimum = 3600;
  ttl = 3600;
  serial = 0;
  targets = [];
}

abbrev pub port_of : ServerConfig → ℤ
port_of s = if is_zero s.port then pos 22 else s.port

-- how often the zones name a server, and the names of the zones, once for each time
abbrev pub uses : String → StoredZone → ℕ
uses name z = length (select (λ t. t == name) z.targets)

unfoldable pub used : String → List StoredZone → ℕ
used name [] = 0
used name (z ∷ zs) = uses name z + used name zs

times : ℕ → String → List String → List String
times zero s rest = rest
times (suc n) s rest = s ∷ times n s rest

unfoldable pub users : String → List StoredZone → List String
unfolding times
users name [] = []
users name (z ∷ zs) = times (uses name z) z.name (users name zs)

-- `Config.Servers[name]` of a name that `ServerNames` gave
abbrev pub with_server {ℓ} :
    {A : Type ℓ} → Config → (String → ServerConfig → A) → List String → List A
with_server cfg f [] = []
with_server cfg f (n ∷ ns) = elim (server_named n cfg.servers) [
  | none ↦ with_server cfg f ns
  | some s ↦ f n s ∷ with_server cfg f ns
]

abbrev pub server_row : List StoredZone → String → ServerConfig → ServerRow
server_row zones name s = record {
  name = name;
  host = s.host;
  user = s.user;
  port = port_of s;
  zones = used name zones;
}

abbrev pub server_line : List StoredZone → String → ServerConfig → ServerLine
server_line zones name s = record {
  name = name;
  host = s.host;
  user = s.user;
  remote_dir = s.remote_zone_dir;
  port = port_of s;
  zones = insertion_sort (users name zones);
}

abbrev pub history_row : Snapshot → HistoryRow
history_row s = record { id = s.id; serial = s.serial; time = s.created_at; size = s.size }

module _ (d : Dns) (c : Codec) (cfg : Config) (m : Moment) where
  -- the cards of the dashboard
  unfoldable pub cards : List StoredZone → Serve (List Card)
  cards [] = done []
  cards (z ∷ zs) = do
    recs ← ask (records z.name)
    changed ← ask (dirty d z.name)
    rest ← cards zs
    done (
        record {
          name = z.name;
          serial = z.serial;
          records = length (or_else [] recs);
          dirty = is_true changed;
          targets = z.targets;
        }
        ∷ rest)

  unfoldable pub handle_dashboard : HttpRequest → Serve Response
  handle_dashboard r = do
    zones ← ask list_zones
    on_result zones (λ e. done (plain (failure 500 "internal error" none)))
        λ zs. do
          cs ← cards zs
          done (
              shown c m r "Zones" (
                dashboard_page cs (with_server cfg (server_row zs) (server_names cfg))
                  (length (select (λ k. k.dirty) cs))))

  unfoldable pub handle_servers : HttpRequest → Serve Response
  handle_servers r = do
    zones ← ask list_zones
    done (
        shown c m r "Servers"
          (servers_page (with_server cfg (server_line (or_else [] zones)) (server_names cfg))))

  unfoldable pub handle_new_zone_form : HttpRequest → Serve Response
  handle_new_zone_form r =
      done (shown c m r "New zone" (new_zone_page blank_zone (server_choices cfg []) none))

  unfoldable pub handle_import_form : HttpRequest → Serve Response
  handle_import_form r =
      done (shown c m r "Import zone" (import_page (server_choices cfg []) "" "" none))

  unfoldable pub handle_settings_form : HttpRequest → String → Serve Response
  handle_settings_form r name = do
    found ← ask (get_zone name)
    on_result found (λ e. done (plain (zone_error e)))
        λ z.
          done (
            shown c m r ("Settings " ++ name) (settings_page z (server_choices cfg z.targets) none))

  unfoldable pub handle_editor : HttpRequest → String → Serve Response
  handle_editor r name = do
    found ← ask (get_zone name)
    on_result found (λ e. done (plain (zone_error e)))
        λ z. do
          recs ← ask (records name)
          changed ← ask (dirty d name)
          last ← ask (last_snapshot name)
          done (
              shown c m r name (
                editor_page z (record_rows (or_else [] recs)) (is_true changed)
                  (elim (or_else none last) [ none ↦ false | some s ↦ true ]) (r.query "flash")))

  -- `renderRecords`, of the records as they are stored
  unfoldable pub render_records :
      HttpRequest → String → (List RecordLine → List RecordLine) → Option Error → Serve Response
  render_records r name mark problem = do
    recs ← ask (records name)
    done (shown c m r "" (records_part name (mark (record_rows (or_else [] recs))) problem))

  unfoldable pub handle_records_fragment : HttpRequest → String → Serve Response
  handle_records_fragment r name = do
    known ← ask (zone_exists name)
    if is_true known
        then render_records r name (λ rows. rows) none
        else done (plain (failure 404 "unknown zone" none))

  unfoldable pub handle_edit_record_form : HttpRequest → String → Serve Response
  handle_edit_record_form r name =
      render_records r name (λ rows. mark_editing rows (parse_id (r.query "id"))) none

  unfoldable pub handle_preview : HttpRequest → String → Serve Response
  handle_preview r name = do
    built ← ask (build d name)
    on_result built
        (λ e. done (
          plain (
            if is_not_found e
            then failure 404 "unknown zone" none
            else failure 500 "render: " (some e))))
        (λ z. done (shown c m r ("Preview " ++ name) (preview_page name (render d z))))

  unfoldable pub handle_diff : HttpRequest → String → Serve Response
  handle_diff r name = do
    built ← ask (build d name)
    on_result built (λ e. done (plain (zone_error e)))
        λ z. do
          last ← ask (last_snapshot name)
          on_option (or_else none last) (done (shown c m r ("Diff " ++ name) (diff_page name none)))
              λ s. done (
                shown c m r ("Diff " ++ name)
                  (diff_page name (some (compute_diff s.content (render d z)))))

  -- `Checker.Check` of the rendered zone
  abbrev pub check_view : LocalCheck → View
  check_view accepted = validate_part true "Zone is valid." none
  check_view (rejected out) = validate_part false (trim_space out) none
  check_view unavailable =
      validate_part true
        "Parsed OK (named-checkzone unavailable locally; targets re-validate on deploy)." none

  unfoldable pub handle_validate : HttpRequest → String → Serve Response
  handle_validate r name = do
    built ← ask (build d name)
    on_result built (λ e. done (plain (page "" "" (validate_part false "" (some e)))))
        λ z. done (plain (page "" "" (check_view (m.remote.check name (render d z)))))

  unfoldable pub history_shown : HttpRequest → String → Serve Response
  history_shown r name = do
    snaps ← ask (list_snapshots name)
    done (
        shown c m r ("History " ++ name)
          (history_page name (map history_row (or_else [] snaps)) (r.query "flash")))

  unfoldable pub handle_history : HttpRequest → String → Serve Response
  handle_history r name = do
    known ← ask (zone_exists name)
    if is_true known then history_shown r name else done (plain (failure 404 "unknown zone" none))
