-- ===== src/Tests/LoginRuns.antt =====
-- The theorem on the session that a login opens, at a login and a request that deletes a zone.
use mrdns.Prelude.{true, some, ◌≡◌, refl, arith}
use mrdns.Config.{Config}
use mrdns.Web.RateLimit.{allow}
use mrdns.Web.Session.{
  HttpRequest, served, new_session, sign_session, current_session, parse_session, require_auth,
}
use mrdns.Text.{cut}
use mrdns.Web.World.{run, note, ◌>>=◌}
use mrdns.Web.Response.{redirect, set_to, expires}
use mrdns.Web.Moment.{Moment, attempt}
use mrdns.Web.Handlers.Login.{handle_login, check_login, log_in}
use mrdns.Web.Handlers.Login.Opened.{require_auth-handle_login}
use mrdns.Tests.WebRuns.{codec, codec-IsLawful, post}
use mrdns.Tests.ConfigRuns.{complete}
use mrdns.Tests.ServerRuns.{moment, world}

-- The form holds the same word as the token of the session and as the access token.
abbrev login : HttpRequest
login = record post { form = λ key. "t" }

abbrev trusting : Config
trusting = record complete { auth_token = "t" }

abbrev drawing : Moment
drawing = record moment { drawn = "t" }

granted : (run (handle_login codec trusting drawing login) world).0.body ≡ redirect "/"
unfolding handle_login run attempt ◌>>=◌ check_login log_in note allow current_session parse_session
    cut
granted = refl

signed : sign_session codec (new_session 50 "t" true) ≡ some "YWRtaW4.bWFj"
unfolding sign_session
signed = refl

require_auth-handle_login_example :
    ((run (handle_login codec trusting drawing login) world).0.cookie
      ≡ set_to (record {
        name = "mrdns_session";
        value = "YWRtaW4.bWFj";
        path = "/";
        http_only = true;
        secure = true;
        same_site_lax = true;
        lifetime = expires 43_250;
      }))
    × (require_auth codec 43_249 post ≡ served)
require_auth-handle_login_example =
    require_auth-handle_login codec trusting drawing login post world "YWRtaW4.bWFj" 43_249
      codec-IsLawful granted signed refl (omega arith) (λ h. refl)
