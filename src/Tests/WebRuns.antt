-- ===== src/Tests/WebRuns.antt =====
-- The theorems on the HTTP layer at concrete inputs.
use Prim.Native.String.{◌++◌}
use mathlib.Core.Path.{subst}
use mrdns.Prelude.{
  ◌≤◌, ◌<◌, String, true, false, false, not, ◌&&◌, ◌||◌, Option, none, some, List, [], ◌∷◌, ◌≡◌,
  ◌↔◌, refl, arith, ltb, eqb, ◌==◌, eq_iff, ap, sym, if◌then◌else◌,
}
use mrdns.Text.{cut}
use mrdns.Text.Trim.{Lacks}
use mrdns.Web.RateLimit.{allow}
use mrdns.Web.RateLimit.Window.{Attempt, start, run, used, allow_lem}
use mrdns.Web.Diff.{holds, ordered_lines, compute_diff}
use mrdns.Web.Diff.Lines.{compute_diff_lem}
use mrdns.Web.Session.{
  Session, Codec, HttpRequest, served, parse_session, current_session, require_auth, is_mutating,
  token_of,
}
use mrdns.Web.Session.Cookie.{IsLawful, parse_session_sound}
use mrdns.Web.Session.Guard.{require_auth-served_iff}

abbrev attempts : List Attempt
attempts =
    record { key = "192.0.2.1"; time = 10 }
    ∷ record { key = "192.0.2.1"; time = 12 }
    ∷ record { key = "192.0.2.9"; time = 12 }
    ∷ record { key = "192.0.2.1"; time = 13 }
    ∷ []

allow_lem_example :
    (used 2 5 (run 2 5 start attempts) "192.0.2.1" 14 ≤ 2)
    × ((allow 2 5 (run 2 5 start attempts).hits "192.0.2.1" 14).0
        ≡ ltb (used 2 5 (run 2 5 start attempts) "192.0.2.1" 14) 2)
allow_lem_example =
    allow_lem 2 5 attempts "192.0.2.1" 14
      (omega arith, (omega arith, (omega arith, (omega arith, tt)))) (omega arith)

compute_diff_lem_example :
    let (added, removed) = compute_diff "a\nb" "b\nc" in
    (holds (ordered_lines "b\nc") "c"
      ≡ ((holds (ordered_lines "a\nb") "c" && not (holds removed "c")) || holds added "c"))
    × ((holds added "c" && holds (ordered_lines "a\nb") "c") ≡ false)
    × ((holds removed "c" && not (holds (ordered_lines "a\nb") "c")) ≡ false)
    × ((holds removed "c" && holds (ordered_lines "b\nc") "c") ≡ false)
compute_diff_lem_example = compute_diff_lem "a\nb" "b\nc" "c"

-- Codecs on the sessions of the test.
abbrev admin : Session
admin = record { authed = true; expiry = 43_250; csrf = "t" }

abbrev payload : Session → Option String
payload s = if s.authed && (eqb s.expiry 43_250 && s.csrf == "t") then some "admin" else none

abbrev read : String → Option Session
read p = if p == "admin" then some admin else none

abbrev pub codec : Codec
codec = record {
  marshal = payload;
  unmarshal = read;
  encode = λ p. if p == "admin" then "YWRtaW4" else "";
  decode = λ e. if e == "YWRtaW4" then some "admin" else none;
  mac = λ e. if e == "YWRtaW4" then "bWFj" else "";
}

is_admin : (s : Session) (p : String) → payload s ≡ some p → (p ≡ "admin") × (s ≡ admin)
is_admin s p h = ground (arith, eq_iff s.csrf "t")

pub codec-IsLawful : IsLawful codec
codec-IsLawful = record {
  json = λ s p h. let (e, k) = is_admin s p h in ground (arith, ap read e, k);
  base64 = λ s p h.
      ground
        (arith, ap (λ x. codec.decode (codec.encode x)) (is_admin s p h).0, (is_admin s p h).0);
  no_dot =
      λ s p h. subst (λ x. Lacks b'.' (codec.encode x)) (sym (is_admin s p h).0) (ground arith);
}

abbrev form_of : String → String
form_of key = if key == "csrf_token" then "t" else ""

abbrev pub post : HttpRequest
post = record {
  method = "POST";
  cookie = some "YWRtaW4.bWFj";
  header_token = "";
  remote_addr = "192.0.2.1:50000";
  remote_host = some "192.0.2.1";
  form_fails = false;
  form = form_of;
  query = λ key. "";
  targets = [];
}

require_auth-served_iff_example : (require_auth codec 50 post ≡ served) ↔ (
    (s : Session) × (current_session codec 50 post ≡ some s)
    × (s.authed ≡ true)
    × (is_mutating "POST" ≡ true → token_of codec post ≡ s.csrf))
require_auth-served_iff_example = require_auth-served_iff codec 50 post

parsed : parse_session codec 50 "YWRtaW4.bWFj" ≡ some admin
unfolding parse_session cut
parsed = refl

parse_session_sound_example :
    (enc p : String) × ("YWRtaW4.bWFj" ≡ enc ++ ("." ++ codec.mac enc))
    × (codec.decode enc ≡ some p)
    × (codec.unmarshal p ≡ some admin)
    × (50 < 43_250)
parse_session_sound_example = parse_session_sound codec 50 "YWRtaW4.bWFj" admin parsed
