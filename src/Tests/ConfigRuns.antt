-- ===== src/Tests/ConfigRuns.antt =====
-- The theorem on configurations at a concrete one.
use mathlib.Core.Option.{Option, none, some}
use mrdns.Prelude.{
  pos, ℕ, false, true, List, [], ◌∷◌, length, ◌≡◌, refl, ap, sym, ◌==◌, if◌then◌else◌,
}
use mrdns.Text.{trim_space}
use mrdns.Config.{
  ServerConfig, Config, Process, loaded, load, validate, server_errors, server_defaults,
  config_defaults, resolve_secrets, drawn_key, given_key,
}
use mrdns.Config.Valid.{IsValid, load-IsValid}

abbrev key_of_32 : List ℕ
key_of_32 =
    0 ∷ 1 ∷ 2 ∷ 3 ∷ 4 ∷ 5 ∷ 6 ∷ 7 ∷ 0 ∷ 1 ∷ 2 ∷ 3 ∷ 4 ∷ 5 ∷ 6 ∷ 7 ∷ 0 ∷ 1 ∷ 2 ∷ 3 ∷ 4 ∷ 5 ∷ 6 ∷ 7
    ∷ 0 ∷ 1 ∷ 2 ∷ 3 ∷ 4 ∷ 5 ∷ 6 ∷ 7 ∷ []

-- The token is set and no cookie key is.
abbrev pub process : Process
process = record {
  env = λ name. if name == "MRDNS_TOKEN" then "secret" else "";
  hex = λ raw. none;
  drawn = some key_of_32;
}

full_draw : (key : List ℕ) → process.drawn ≡ some key → length key ≡ 32
full_draw key h = ap_length (some key) h
  where
    measure : Option (List ℕ) → ℕ
    measure none = 32
    measure (some k) = length k

    ap_length : (o : Option (List ℕ)) → some key_of_32 ≡ o → measure o ≡ 32
    ap_length o e = ap measure (sym e)

abbrev pub ns1 : ServerConfig
ns1 = record {
  host = "192.0.2.53";
  port = pos 0;
  user = "mrdns";
  ssh_key = "";
  known_hosts = "";
  remote_zone_dir = "/zones";
  checkzone_cmd = "";
  reload_cmd = "";
}

abbrev pub sparse : Config
sparse = record {
  listen = "";
  secure_cookies = none;
  data_dir = "";
  audit_log = "";
  auth_token_env = "";
  cookie_key_env = "";
  serial_policy = "";
  backup_keep = 0;
  servers = ("ns1", ns1) ∷ [];
  auth_token = "";
  cookie_key = [];
  cookie_key_ephemeral = false;
}

abbrev pub complete : Config
complete = record {
  listen = "127.0.0.1:8080";
  secure_cookies = none;
  data_dir = "/opt/mrdns/var";
  audit_log = "";
  auth_token_env = "MRDNS_TOKEN";
  cookie_key_env = "MRDNS_COOKIE_KEY";
  serial_policy = "date";
  backup_keep = 20;
  servers = ("ns1", record ns1 { port = pos 22; checkzone_cmd = "named-checkzone" }) ∷ [];
  auth_token = "secret";
  cookie_key = key_of_32;
  cookie_key_ephemeral = true;
}

sparse_loads : load process sparse ≡ loaded complete
unfolding load validate server_errors server_defaults config_defaults resolve_secrets drawn_key
    given_key trim_space
sparse_loads = refl

load-IsValid_example : IsValid complete
load-IsValid_example = load-IsValid process full_draw sparse complete sparse_loads
