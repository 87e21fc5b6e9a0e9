-- ===== src/Web/Handlers/Login/Granted.antt =====
-- When `handleLogin` logs a request in.
use mrdns.Prelude.{
  Bool, true, false, Option, none, some, ◌≡◌, ◌≢◌, ◌↔◌, refl, sym, ap, ◌∙◌, arith, ◌==◌, eq_iff,
  if◌then◌else◌,
}
use mrdns.Config.{Config}
use mrdns.Web.RateLimit.{allow}
use mrdns.Web.Session.{Session, Codec, HttpRequest, current_session}
use mrdns.Web.Session.Guard.{the_session}
use mrdns.Web.World.{World, done, run, note, count, ◌>>=◌, ◌>>◌}
use mrdns.Web.Response.{redirect, failure, page, text, plain, Body}
use mrdns.Web.Moment.{Moment, client_ip, attempt, note_action}
use mrdns.Web.Handlers.Login.{log_in, refuse_token, check_login, handle_login}

abbrev goes_home : Body → Bool
goes_home (redirect l) = l == "/"
goes_home (failure n t e) = false
goes_home (page t k v) = false
goes_home (text t) = false

not_home : (b : Body) → goes_home b ≡ false → b ≢ redirect "/"
not_home b h k = ground (arith, h, ap goes_home k)

-- What a login must bring: a session, and a form that holds its token and the access token.
pub record HasCredentials (cfg : Config) (o : Option Session) (r : HttpRequest) : Type 0 where
  pub session : Session
  pub is_current : o ≡ some session
  pub form_read : r.form_fails ≡ false
  pub csrf_matches : r.form "csrf_token" ≡ session.csrf
  pub token_matches : r.form "token" ≡ cfg.auth_token

module _ (c : Codec) (cfg : Config) (m : Moment) where
  -- The three tests of `check_login`, in their order.
  passed_all :
      (r : HttpRequest) (unread csrf token : Bool) (w : World)
      → ((run
            (if unread
              then done (plain (failure 400 "bad form" none))
              else if csrf
              then (if token then log_in c cfg m r else refuse_token c cfg m r)
              else done (plain (failure 403 "csrf token mismatch" none)))
            w).0.body
          ≡ redirect "/")
      → (unread ≡ false) × (csrf ≡ true) × (token ≡ true)
  unfolding log_in refuse_token run note count ◌>>=◌
  passed_all r true csrf token w h = absurd (not_home (failure 400 _ none) refl h)
  passed_all r false false token w h = absurd (not_home (failure 403 _ none) refl h)
  passed_all r false true false w h =
      absurd (not_home (redirect "/login?error=Invalid+access+token") refl h)
  passed_all r false true true w h = (refl, refl, refl)

  check_login-granted_iff :
      (r : HttpRequest) (o : Option Session) (w : World)
      → ((run (check_login c cfg m r o) w).0.body ≡ redirect "/") ↔ HasCredentials cfg o r
  unfolding check_login log_in refuse_token run note count ◌>>=◌
  check_login-granted_iff r none w = (
    λ h. absurd (not_home (redirect "/login") refl h),
    λ k. absurd (ground (arith, k.is_current)),
  )
  check_login-granted_iff r (some s) w = (
    λ h.
        let (f, x, y) = passed_all r _ _ _ w h in
        record {
          session = s;
          is_current = refl;
          form_read = f;
          csrf_matches = (eq_iff (r.form "csrf_token") s.csrf).0 x;
          token_matches = (eq_iff (r.form "token") cfg.auth_token).0 y;
        },
    λ k.
        let same = the_session s k.session k.is_current in
        rw k.form_read (
          rw
            ((eq_iff (r.form "csrf_token") s.csrf).1 (k.csrf_matches ∙ ap (λ x. x.csrf) (sym same)))
            (rw ((eq_iff (r.form "token") cfg.auth_token).1 k.token_matches) refl)),
  )

  limited-granted_iff :
      (r : HttpRequest) (within : Bool) (w : World)
      → ((run
            (if within then check_login c cfg m r (current_session c m.unix r) else do
              note_action c m r "login_rate_limited" "" ""
              done (plain (failure 429 "too many attempts; try again later" none)))
            w).0.body
          ≡ redirect "/")
        ↔ ((within ≡ true) × HasCredentials cfg (current_session c m.unix r) r)
  unfolding run note ◌>>=◌
  limited-granted_iff r true w = (
    λ h. (refl, (check_login-granted_iff r _ w).0 h),
    λ (x, k). (check_login-granted_iff r _ w).1 k,
  )
  limited-granted_iff r false w =
      (λ h. absurd (not_home (failure 429 _ none) refl h), λ (x, k). absurd (ground (arith, x)))

  -- A login is answered with the page of the zones exactly when the attempts from its address are
  -- within the limit, it comes with a session that has not expired, its form can be read and holds
  -- the token of that session, and the access token it gives is the configured one.
  pub handle_login-granted_iff :
      (r : HttpRequest) (w : World)
      → ((run (handle_login c cfg m r) w).0.body ≡ redirect "/") ↔ (
          ((allow 5 60_000_000_000 w.hits (client_ip r) m.clock).0 ≡ true)
          × HasCredentials cfg (current_session c m.unix r) r)
  unfolding handle_login run attempt ◌>>=◌
  handle_login-granted_iff r w = limited-granted_iff r _ _
