-- ===== src/Web/Session.antt =====
-- internal/web/session.go and the check of internal/web/middleware.go: signed session cookies, and
-- which requests reach a handler.
pub mod Cookie
pub mod Guard
use Prim.Native.String.{◌++◌}
use mrdns.Prelude.{
  ℕ, ◌+◌, String, Bool, true, false, not, ◌||◌, Option, none, some, List, ◌==◌, ltb, if◌then◌else◌,
}
use mrdns.Text.{cut}

pub record Session : Type 0 where
  pub authed : Bool
  pub expiry : ℕ
  pub csrf : String

-- encoding/json on a session, base64.RawURLEncoding, and the encoded HMAC under the server's key;
-- they are not part of the repository.
pub record Codec : Type 0 where
  pub marshal : Session → Option String
  pub unmarshal : String → Option Session
  pub encode : String → String
  pub decode : String → Option String
  pub mac : String → String

-- What the code reads of an `*http.Request`: the method, the cookie of the session, the header of the
-- token, `RemoteAddr` and its host where it splits, whether `ParseForm` fails, the values of the
-- posted form and the query, where a missing key is empty, and the posted `targets`.
pub record HttpRequest : Type 0 where
  pub method : String
  pub cookie : Option String
  pub header_token : String
  pub remote_addr : String
  pub remote_host : Option String
  pub form_fails : Bool
  pub form : String → String
  pub query : String → String
  pub targets : List String

pub data Verdict : Type 0 where
  redirected forbidden served : Verdict

-- `sessionTTL`, in seconds
abbrev pub session_ttl : ℕ
session_ttl = 43_200

abbrev pub valid : ℕ → Session → Bool
valid now s = ltb now s.expiry

-- `token` is what `newCSRF` drew.
abbrev pub new_session : ℕ → String → Bool → Session
new_session now token authed = record { authed = authed; expiry = now + session_ttl; csrf = token }

unfoldable pub is_mutating : String → Bool
is_mutating method = method == "POST" || method == "PUT" || method == "PATCH" || method == "DELETE"

module _ (c : Codec) where
  unfoldable pub sealed : Option String → Option String
  sealed none = none
  sealed (some payload) = some (c.encode payload ++ ("." ++ c.mac (c.encode payload)))

  unfoldable pub sign_session : Session → Option String
  unfolding sealed
  sign_session s = sealed (c.marshal s)

  unfoldable pub current : ℕ → Option Session → Option Session
  current now none = none
  current now (some s) = if valid now s then some s else none

  unfoldable pub decoded : ℕ → Option String → Option Session
  unfolding current
  decoded now none = none
  decoded now (some payload) = current now (c.unmarshal payload)

  unfoldable pub verified : ℕ → Option (String × String) → Option Session
  unfolding decoded
  verified now none = none
  verified now (some (enc, mac)) = if mac == c.mac enc then decoded now (c.decode enc) else none

  -- `now` is the time of `valid`.
  unfoldable pub parse_session : ℕ → String → Option Session
  unfolding verified
  parse_session now value = verified now (cut b'.' value)

  unfoldable pub current_session : ℕ → HttpRequest → Option Session
  current_session now r = elim r.cookie [ none ↦ none | some value ↦ parse_session now value ]

  abbrev pub token_of : HttpRequest → String
  token_of r = if r.header_token == "" then r.form "csrf_token" else r.header_token

  unfoldable pub guarded : HttpRequest → Option Session → Verdict
  guarded r none = redirected
  guarded r (some s) =
      if not s.authed
      then redirected
      else if is_mutating r.method
      then (if token_of r == s.csrf then served else forbidden)
      else served

  -- `served` is the call of the handler behind it.
  unfoldable pub require_auth : ℕ → HttpRequest → Verdict
  unfolding guarded
  require_auth now r = guarded r (current_session now r)
