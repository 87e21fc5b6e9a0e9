-- ===== src/Web/Handlers/Quiet.antt =====
-- The handlers of Handlers/Login.antt and Handlers/Pages.antt change no table.
use mrdns.Prelude.{String, Option, none, some, List, [], ◌∷◌, Error, refl, arith}
use mrdns.Dns.{Dns}
use mrdns.Config.{Config}
use mrdns.Store.{StoredZone}
use mrdns.Store.Reading.{store_reads}
use mrdns.Web.Session.{Session, Codec, HttpRequest}
use mrdns.Web.World.Rules.{IsQuiet, IsQuiet-done, IsQuiet-bind, quiet_rules}
use mrdns.Web.Forms.{RecordLine}
use mrdns.Web.Moment.{Moment, attempt}
use mrdns.Web.Handlers.Login.{
  handle_healthz, login_page_for, handle_login_form, handle_login, handle_logout, log_in,
  refuse_token, check_login,
}
use mrdns.Web.Handlers.Pages.{
  cards, handle_dashboard, handle_servers, handle_new_zone_form, handle_import_form, handle_editor,
  handle_settings_form, render_records, handle_records_fragment, handle_edit_record_form,
  handle_preview, handle_diff, handle_validate, history_shown, handle_history,
}

pub handle_healthz-IsQuiet : IsQuiet handle_healthz
unfolding handle_healthz
handle_healthz-IsQuiet = search quiet_rules

pub handle_logout-IsQuiet : (cfg : Config) → IsQuiet (handle_logout cfg)
unfolding handle_logout
handle_logout-IsQuiet cfg = search quiet_rules

module _ (c : Codec) (cfg : Config) (m : Moment) where
  attempt-IsQuiet : (ip : String) → IsQuiet (attempt c m ip)
  unfolding attempt IsQuiet
  attempt-IsQuiet ip w = (record { tables_same = refl; trail_kept = omega arith }, tt)

  login_page_for-IsQuiet :
      (r : HttpRequest) (s : Option Session) → IsQuiet (login_page_for c cfg m r s)
  unfolding login_page_for
  login_page_for-IsQuiet r none = search quiet_rules
  login_page_for-IsQuiet r (some s) = search quiet_rules

  pub handle_login_form-IsQuiet : (r : HttpRequest) → IsQuiet (handle_login_form c cfg m r)
  unfolding handle_login_form
  handle_login_form-IsQuiet r = login_page_for-IsQuiet r _

  check_login-IsQuiet : (r : HttpRequest) (s : Option Session) → IsQuiet (check_login c cfg m r s)
  unfolding check_login log_in refuse_token
  check_login-IsQuiet r none = search quiet_rules
  check_login-IsQuiet r (some s) = search quiet_rules depth 9

  pub handle_login-IsQuiet : (r : HttpRequest) → IsQuiet (handle_login c cfg m r)
  unfolding handle_login
  handle_login-IsQuiet r = search (quiet_rules, attempt-IsQuiet, check_login-IsQuiet) depth 9

module _ (d : Dns) (c : Codec) (cfg : Config) (m : Moment) where
  cards-IsQuiet : (zs : List StoredZone) → IsQuiet (cards d c cfg m zs)
  unfolding cards
  cards-IsQuiet [] = search quiet_rules
  cards-IsQuiet (z ∷ zs) = IsQuiet-bind _ _ (search (quiet_rules, store_reads)) λ recs.
      IsQuiet-bind _ _ (search (quiet_rules, store_reads))
        λ changed. IsQuiet-bind _ _ (cards-IsQuiet zs) λ rest. IsQuiet-done _

  pub handle_dashboard-IsQuiet : (r : HttpRequest) → IsQuiet (handle_dashboard d c cfg m r)
  unfolding handle_dashboard
  handle_dashboard-IsQuiet r = search (quiet_rules, store_reads, cards-IsQuiet) depth 9

  pub handle_servers-IsQuiet : (r : HttpRequest) → IsQuiet (handle_servers d c cfg m r)
  unfolding handle_servers
  handle_servers-IsQuiet r = search (quiet_rules, store_reads)

  pub handle_new_zone_form-IsQuiet : (r : HttpRequest) → IsQuiet (handle_new_zone_form d c cfg m r)
  unfolding handle_new_zone_form
  handle_new_zone_form-IsQuiet r = search quiet_rules

  pub handle_import_form-IsQuiet : (r : HttpRequest) → IsQuiet (handle_import_form d c cfg m r)
  unfolding handle_import_form
  handle_import_form-IsQuiet r = search quiet_rules

  pub handle_settings_form-IsQuiet :
      (r : HttpRequest) (name : String) → IsQuiet (handle_settings_form d c cfg m r name)
  unfolding handle_settings_form
  handle_settings_form-IsQuiet r name = search (quiet_rules, store_reads)

  pub handle_editor-IsQuiet :
      (r : HttpRequest) (name : String) → IsQuiet (handle_editor d c cfg m r name)
  unfolding handle_editor
  handle_editor-IsQuiet r name = search (quiet_rules, store_reads) depth 9

  pub render_records-IsQuiet :
      (r : HttpRequest) (name : String) (mark : List RecordLine → List RecordLine)
      (problem : Option Error)
      → IsQuiet (render_records d c cfg m r name mark problem)
  unfolding render_records
  render_records-IsQuiet r name mark problem = search (quiet_rules, store_reads)

  pub handle_records_fragment-IsQuiet :
      (r : HttpRequest) (name : String) → IsQuiet (handle_records_fragment d c cfg m r name)
  unfolding handle_records_fragment
  handle_records_fragment-IsQuiet r name = search (quiet_rules, store_reads, render_records-IsQuiet)

  pub handle_edit_record_form-IsQuiet :
      (r : HttpRequest) (name : String) → IsQuiet (handle_edit_record_form d c cfg m r name)
  unfolding handle_edit_record_form
  handle_edit_record_form-IsQuiet r name = render_records-IsQuiet r name _ _

  pub handle_preview-IsQuiet :
      (r : HttpRequest) (name : String) → IsQuiet (handle_preview d c cfg m r name)
  unfolding handle_preview
  handle_preview-IsQuiet r name = search (quiet_rules, store_reads)

  pub handle_diff-IsQuiet :
      (r : HttpRequest) (name : String) → IsQuiet (handle_diff d c cfg m r name)
  unfolding handle_diff
  handle_diff-IsQuiet r name = search (quiet_rules, store_reads) depth 9

  pub handle_validate-IsQuiet :
      (r : HttpRequest) (name : String) → IsQuiet (handle_validate d c cfg m r name)
  unfolding handle_validate
  handle_validate-IsQuiet r name = search (quiet_rules, store_reads)

  pub handle_history-IsQuiet :
      (r : HttpRequest) (name : String) → IsQuiet (handle_history d c cfg m r name)
  unfolding handle_history history_shown
  handle_history-IsQuiet r name = search (quiet_rules, store_reads) depth 9
