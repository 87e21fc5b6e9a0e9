-- ===== src/Web/Response.antt =====
-- What the handlers of internal/web answer. The templates are files that the code only names: a page
-- is its title, the token of the session and the values that the template is given.
use mrdns.Prelude.{ℕ, ℤ, String, Bool, Option, List, Error}
use mrdns.Store.{StoredZone}
use mrdns.Web.Forms.{RecordLine, ServerChoice}
use mrdns.Web.Deploying.{Page}

-- The message of a form that is shown again: its text, and the error at its end if there is one.
abbrev pub Complaint : Type 0
Complaint = String × Option Error

pub record Card : Type 0 where
  pub name : String
  pub serial : ℕ
  pub records : ℕ
  pub dirty : Bool
  pub targets : List String

pub record ServerRow : Type 0 where
  pub name : String
  pub host : String
  pub user : String
  pub port : ℤ
  pub zones : ℕ

pub record ServerLine : Type 0 where
  pub name : String
  pub host : String
  pub user : String
  pub remote_dir : String
  pub port : ℤ
  pub zones : List String

pub record HistoryRow : Type 0 where
  pub id : ℕ
  pub serial : ℕ
  pub time : String
  pub size : ℕ

pub data View : Type 0 where
  login_page : String → View
  dashboard_page : List Card → List ServerRow → ℕ → View
  servers_page : List ServerLine → View
  new_zone_page settings_page : StoredZone → List ServerChoice → Option Complaint → View
  import_page : List ServerChoice → String → String → Option Complaint → View
  editor_page : StoredZone → List RecordLine → Bool → Bool → String → View
  records_part : String → List RecordLine → Option Error → View
  preview_page : String → String → View
  diff_page : String → Option (List String × List String) → View
  validate_part : Bool → String → Option Error → View
  deploy_page : String → Page → View
  history_page : String → List HistoryRow → String → View

-- `http.Redirect` with 303, `http.Error` with the error at its end, a page, or a text.
pub data Body : Type 0 where
  redirect : String → Body
  failure : ℕ → String → Option Error → Body
  page : String → String → View → Body
  text : String → Body

-- `Expires` in seconds, or a negative `MaxAge`, at which the browser drops the cookie.
pub data Lifetime : Type 0 where
  expires : ℕ → Lifetime
  dropped : Lifetime

-- What the code sets of an `http.Cookie`.
pub record Cookie : Type 0 where
  pub name : String
  pub value : String
  pub path : String
  pub http_only : Bool
  pub secure : Bool
  pub same_site_lax : Bool
  pub lifetime : Lifetime

-- What becomes of the cookie that the browser has.
pub data CookieChange : Type 0 where
  kept : CookieChange
  set_to : Cookie → CookieChange

pub record Response : Type 0 where
  pub cookie : CookieChange
  pub body : Body

abbrev pub plain : Body → Response
plain b = record { cookie = kept; body = b }
