-- ===== src/Web/Handlers/Records.antt =====
-- The handlers of internal/web/zones.go that change the records of a zone.
use mrdns.Prelude.{String, none, some, Result, Error, if◌then◌else◌}
use mrdns.Text.Numbers.{parse_id}
use mrdns.Dns.{Dns}
use mrdns.Zone.{Record}
use mrdns.Zone.Build.{normalize_record}
use mrdns.Store.{add_record, update_record, delete_record}
use mrdns.Config.{Config}
use mrdns.Web.Session.{Codec, HttpRequest}
use mrdns.Web.World.{Serve, done, ask, ◌>>=◌, ◌>>◌, on_result}
use mrdns.Web.Forms.{form_uint, mark_editing}
use mrdns.Web.Response.{failure, Response, plain}
use mrdns.Web.Moment.{Moment, is_not_found, note_action}
use mrdns.Web.Handlers.Pages.{render_records}

module _ (d : Dns) (c : Codec) (cfg : Config) (m : Moment) where
  -- the audit event of a change, and the table of records after it
  unfoldable pub recorded : HttpRequest → String → String → Serve Response
  recorded r action name = do
    note_action c m r action name ""
    render_records d c cfg m r name (λ rows. rows) none

  abbrev pub posted_record : HttpRequest → String → Result Record
  posted_record r name =
      normalize_record d m.upper name (r.form "name") (form_uint r "ttl" 3600) (r.form "type")
        (r.form "data")

  abbrev pub store_failure : String → Error → Serve Response
  store_failure prefix e = done (plain (failure 500 prefix (some e)))

  unfoldable pub handle_add_record : HttpRequest → String → Serve Response
  handle_add_record r name =
      on_result (posted_record r name)
        (λ e. render_records d c cfg m r name (λ rows. rows) (some e))
        (λ rec. do
          added ← ask (add_record name rec)
          on_result added (store_failure "add record: ") (λ id. recorded r "record_add" name))

  unfoldable pub handle_update_record : HttpRequest → String → Serve Response
  handle_update_record r name =
      let id = parse_id (r.form "id") in
      on_result (posted_record r name)
        (λ e. render_records d c cfg m r name (λ rows. mark_editing rows id) (some e))
        (λ rec. do
          updated ← ask (update_record name id rec)
          on_result updated (store_failure "update record: ")
              (λ u. recorded r "record_update" name))

  unfoldable pub handle_delete_record : HttpRequest → String → Serve Response
  handle_delete_record r name = do
    deleted ← ask (delete_record name (parse_id (r.form "id")))
    on_result deleted
        (λ e.
          if is_not_found e
          then recorded r "record_delete" name
          else store_failure "delete record: " e)
        (λ u. recorded r "record_delete" name)
