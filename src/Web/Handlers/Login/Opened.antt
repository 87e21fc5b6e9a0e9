-- ===== src/Web/Handlers/Login/Opened.antt =====
-- The session that `handleLogin` opens, and what `requireAuth` makes of its cookie.
use mrdns.Prelude.{
  ℕ, ◌+◌, ◌<◌, String, Bool, true, false, Option, none, some, ◌≡◌, refl, sym, ap, ◌∙◌, arith,
  eq_iff, if◌then◌else◌,
}
use mrdns.Config.{Config, secure_cookies_enabled}
use mrdns.Web.Session.{
  Session, Codec, HttpRequest, served, session_ttl, new_session, sign_session, current_session,
  require_auth, is_mutating, token_of,
}
use mrdns.Web.Session.Cookie.{IsLawful, parse_session-sign_session}
use mrdns.Web.Session.Guard.{the_session, require_auth-served_iff}
use mrdns.Web.World.{World, done, run, note, ◌>>=◌, ◌>>◌}
use mrdns.Web.Response.{redirect, failure, plain, expires, set_to}
use mrdns.Web.Moment.{Moment, attempt, note_action, set_session}
use mrdns.Web.Handlers.Login.{log_in, check_login, handle_login}
use mrdns.Web.Handlers.Login.Granted.{HasCredentials, handle_login-granted_iff}

module _ (c : Codec) (cfg : Config) (m : Moment) where
  check_login-opened :
      (r : HttpRequest) (o : Option Session) (w : World)
      → HasCredentials cfg o r
      → (run (check_login c cfg m r o) w).0.cookie
        ≡ set_session c cfg (new_session m.unix m.drawn true)
  unfolding check_login log_in run note ◌>>=◌
  check_login-opened r none w k = absurd (ground (arith, k.is_current))
  check_login-opened r (some s) w k =
      let same = the_session s k.session k.is_current in
      rw k.form_read (
        rw ((eq_iff (r.form "csrf_token") s.csrf).1 (k.csrf_matches ∙ ap (λ x. x.csrf) (sym same)))
          (rw ((eq_iff (r.form "token") cfg.auth_token).1 k.token_matches) refl))

  limited-opened :
      (r : HttpRequest) (within : Bool) (w : World)
      → within ≡ true
      → HasCredentials cfg (current_session c m.unix r) r
      → (run
          (if within then check_login c cfg m r (current_session c m.unix r) else do
            note_action c m r "login_rate_limited" "" ""
            done (plain (failure 429 "too many attempts; try again later" none)))
          w).0.cookie
        ≡ set_session c cfg (new_session m.unix m.drawn true)
  limited-opened r true w h k = check_login-opened r _ w k
  limited-opened r false w h k = absurd (ground (arith, h))

  handle_login-opened :
      (r : HttpRequest) (w : World)
      → (run (handle_login c cfg m r) w).0.body ≡ redirect "/"
      → (run (handle_login c cfg m r) w).0.cookie
        ≡ set_session c cfg (new_session m.unix m.drawn true)
  unfolding handle_login run attempt ◌>>=◌
  handle_login-opened r w h =
      let (within, k) = (handle_login-granted_iff c cfg m r w).0 h in limited-opened r _ _ within k

  -- A login that is granted, whose session can be signed, answers with the signed session in a cookie
  -- with the path /, HttpOnly, SameSite=Lax, Secure unless the configuration says otherwise, and the
  -- expiry of the session, twelve hours later. With codecs that keep what they encode, a request that comes with
  -- this cookie within twelve hours, and with the token of the session where its method changes
  -- state, is let through.
  pub require_auth-handle_login :
      (r next : HttpRequest) (w : World) (value : String) (now : ℕ)
      → IsLawful c
      → (run (handle_login c cfg m r) w).0.body ≡ redirect "/"
      → sign_session c (new_session m.unix m.drawn true) ≡ some value
      → next.cookie ≡ some value
      → now < m.unix + session_ttl
      → (is_mutating next.method ≡ true → token_of c next ≡ m.drawn)
      → ((run (handle_login c cfg m r) w).0.cookie
          ≡ set_to (record {
            name = "mrdns_session";
            value = value;
            path = "/";
            http_only = true;
            secure = secure_cookies_enabled cfg;
            same_site_lax = true;
            lifetime = expires (m.unix + session_ttl);
          }))
        × (require_auth c now next ≡ served)
  unfolding set_session current_session
  require_auth-handle_login r next w value now lawful h signed carried fresh token = (
    handle_login-opened r w h ∙ rw (signed, set_session) refl,
    (require_auth-served_iff c now next).1 (
      new_session m.unix m.drawn true,
      rw carried (
          parse_session-sign_session c lawful (new_session m.unix m.drawn true) now value signed
            fresh),
      refl,
      token,
    ),
  )
