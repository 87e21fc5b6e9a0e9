-- ===== src/Web/Moment.antt =====
-- What a request to internal/web meets outside the program, and what the handlers do alike.
use mrdns.Prelude.{
  ℕ, String, Bool, true, false, Option, none, some, Error, not_found, if◌then◌else◌,
}
use mrdns.Zone.Serial.{Time}
use mrdns.Deploy.Quote.{Server}
use mrdns.Deploy.Remote.{Remote}
use mrdns.Config.{Config, ServerConfig, server_named, secure_cookies_enabled}
use mrdns.Audit.{event}
use mrdns.Web.RateLimit.{allow}
use mrdns.Web.Session.{Session, Codec, HttpRequest, current_session, sign_session}
use mrdns.Web.World.{Serve, done, act, note}
use mrdns.Web.Response.{
  Body, View, CookieChange, kept, set_to, Cookie, Lifetime, expires, dropped, failure, page,
  Response, plain,
}

-- The time as seconds, as nanoseconds, as a date and as text, what `newCSRF` would draw, the answers
-- of the servers, what `strings.ToUpper` gives, and the answers of the file server of static/.
pub record Moment : Type 0 where
  pub unix : ℕ
  pub clock : ℕ
  pub date : Time
  pub stamp : String
  pub drawn : String
  pub remote : Remote
  pub upper : String → String
  pub files : String → Body

abbrev pub deploy_server : ServerConfig → Server
deploy_server s = record {
  host = s.host;
  remote_zone_dir = s.remote_zone_dir;
  checkzone_cmd = s.checkzone_cmd;
  reload_cmd = s.reload_cmd;
}

-- the servers of the configuration behind the connections of the moment
abbrev pub configured : Config → Moment → Remote
configured cfg m = record m.remote {
  servers = λ name. elim (server_named name cfg.servers) [
    | none ↦ none
    | some s ↦ some (deploy_server s)
  ];
}

-- `clientIP`
abbrev pub client_ip : HttpRequest → String
client_ip r = elim r.remote_host [ some host ↦ host | none ↦ r.remote_addr ]

-- `csrfOf`
abbrev pub csrf_of : Option Session → String
csrf_of none = ""
csrf_of (some s) = s.csrf

abbrev pub is_not_found : Error → Bool
is_not_found not_found = true
is_not_found _ = false

-- `zoneOK`, for an error
abbrev pub zone_error : Error → Body
zone_error e =
    if is_not_found e
    then failure 404 "unknown zone" none
    else failure 500 "internal error: " (some e)

-- the cookie of `setSession` and `clearSession`
abbrev pub session_cookie : Config → String → Lifetime → Cookie
session_cookie cfg value lifetime = record {
  name = "mrdns_session";
  value = value;
  path = "/";
  http_only = true;
  secure = secure_cookies_enabled cfg;
  same_site_lax = true;
  lifetime = lifetime;
}

-- `setSession`: the cookie stays when the session cannot be signed
unfoldable pub set_session : Codec → Config → Session → CookieChange
set_session c cfg s = elim (sign_session c s) [
  | none ↦ kept
  | some value ↦ set_to (session_cookie cfg value (expires s.expiry))
]

-- `clearSession`
abbrev pub clear_session : Config → CookieChange
clear_session cfg = set_to (session_cookie cfg "" dropped)

module _ (c : Codec) (m : Moment) where
  -- `pageData` and `render`
  abbrev pub shown : HttpRequest → String → View → Response
  shown r title view = plain (page title (csrf_of (current_session c m.unix r)) view)

  -- `srv.loginLimiter.allow(ip, time.Now())`, five attempts a minute
  unfoldable pub attempt : String → Serve Bool
  attempt ip =
      act (λ w. record w { hits = (allow 5 60_000_000_000 w.hits ip m.clock).1 })
        (λ w. done (allow 5 60_000_000_000 w.hits ip m.clock).0)

  -- `srv.audit.Log` of an action on a zone, with a detail
  abbrev pub note_action : HttpRequest → String → String → String → Serve (Unit {0})
  note_action r action zone detail =
      note m.stamp (record (event action (client_ip r) zone) { detail = detail })
