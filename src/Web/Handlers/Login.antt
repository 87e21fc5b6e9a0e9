-- ===== src/Web/Handlers/Login.antt =====
-- The handlers of internal/web/handlers.go that need no session: health, login and logout.
pub mod Granted
pub mod Opened
use Prim.Native.String.{◌++◌}
use mrdns.Prelude.{ℕ, ◌+◌, String, Bool, true, false, Option, none, some, ◌==◌, if◌then◌else◌}
use mrdns.Config.{Config}
use mrdns.Audit.{Event, event}
use mrdns.Metrics.{Metrics}
use mrdns.Web.Session.{Session, Codec, HttpRequest, current_session, new_session}
use mrdns.Web.World.{World, Serve, done, note, count, ◌>>=◌, ◌>>◌}
use mrdns.Web.Response.{
  Body, redirect, failure, page, text, login_page, CookieChange, kept, Response, plain,
}
use mrdns.Web.Moment.{Moment, client_ip, set_session, clear_session, attempt, note_action}

unfoldable pub handle_healthz : Serve Response
handle_healthz = done (plain (text "ok\n"))

unfoldable pub handle_logout : Config → Serve Response
handle_logout cfg = done (record { cookie = clear_session cfg; body = redirect "/login" })

module _ (c : Codec) (cfg : Config) (m : Moment) where
  abbrev pub login_form : HttpRequest → CookieChange → Session → Response
  login_form r change s = record {
    cookie = change;
    body = page "Sign in" s.csrf (login_page (r.query "error"));
  }

  unfoldable pub login_page_for : HttpRequest → Option Session → Serve Response
  login_page_for r none =
      let s = new_session m.unix m.drawn false in done (login_form r (set_session c cfg s) s)
  login_page_for r (some s) =
      if s.authed then done (plain (redirect "/")) else done (login_form r kept s)

  unfoldable pub handle_login_form : HttpRequest → Serve Response
  unfolding login_page_for
  handle_login_form r = login_page_for r (current_session c m.unix r)

  unfoldable pub log_in : HttpRequest → Serve Response
  log_in r = do
    note_action c m r "login" "" ""
    done (record {
      cookie = set_session c cfg (new_session m.unix m.drawn true);
      body = redirect "/";
    })

  unfoldable pub refuse_token : HttpRequest → Serve Response
  refuse_token r = do
    count (λ (k : Metrics). record k { login_failures = k.login_failures + 1 })
    note_action c m r "login_failed" "" ""
    done (plain (redirect "/login?error=Invalid+access+token"))

  unfoldable pub check_login : HttpRequest → Option Session → Serve Response
  check_login r none = done (plain (redirect "/login"))
  check_login r (some s) =
      if r.form_fails
      then done (plain (failure 400 "bad form" none))
      else if r.form "csrf_token" == s.csrf
      then (if r.form "token" == cfg.auth_token then log_in r else refuse_token r)
      else done (plain (failure 403 "csrf token mismatch" none))

  unfoldable pub handle_login : HttpRequest → Serve Response
  handle_login r = do
    within ← attempt c m (client_ip r)
    if within then check_login r (current_session c m.unix r) else do
      note_action c m r "login_rate_limited" "" ""
      done (plain (failure 429 "too many attempts; try again later" none))
