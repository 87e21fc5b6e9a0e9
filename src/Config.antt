-- ===== src/Config.antt =====
-- internal/config/config.go, from the parsed YAML on: defaults, validation and secrets.
pub mod Valid
pub mod Refused
pub mod Names
use mathlib.Core.Option.{Option, none, some}
use mrdns.Prelude.{
  ℕ, String, Bool, true, ◌||◌, List, [], ◌∷◌, map, length, ◌==◌, eqb, ltb, ℤ, pos, is_zero,
  if◌then◌else◌,
}
use mrdns.Text.{trim_space}
use mrdns.Text.Order.{insertion_sort}
use mrdns.Text.Paths.{join_paths}

pub record ServerConfig : Type 0 where
  pub host : String
  pub port : ℤ
  pub user : String
  pub ssh_key : String
  pub known_hosts : String
  pub remote_zone_dir : String
  pub checkzone_cmd : String
  pub reload_cmd : String

-- The map of servers is the list of its entries in an order of iteration; 0 in `backup_keep` stands
-- for every number up to 0.
pub record Config : Type 0 where
  pub listen : String
  pub secure_cookies : Option Bool
  pub data_dir : String
  pub audit_log : String
  pub auth_token_env : String
  pub cookie_key_env : String
  pub serial_policy : String
  pub backup_keep : ℕ
  pub servers : List (String × ServerConfig)
  pub auth_token : String
  pub cookie_key : List ℕ
  pub cookie_key_ephemeral : Bool

pub data ConfigError : Type 0 where
  bad_policy : String → ConfigError
  no_data_dir : ConfigError
  no_host no_user no_zone_dir : String → ConfigError
  no_token bad_hex short_key : String → ConfigError
  no_entropy : ConfigError

-- What the process gives: the environment, `hex.DecodeString`, and the bytes that `rand.Read` drew.
pub record Process : Type 0 where
  pub env : String → String
  pub hex : String → Option (List ℕ)
  pub drawn : Option (List ℕ)

abbrev pub text_or : String → String → String
text_or s default = if s == "" then default else s

abbrev pub number_or : ℕ → ℕ → ℕ
number_or n default = if eqb n 0 then default else n

abbrev pub port_or : ℤ → ℤ → ℤ
port_or p default = if is_zero p then default else p

unfoldable pub server_defaults : String × ServerConfig → String × ServerConfig
server_defaults (name, s) = (
  name,
  record s {
    port = port_or s.port (pos 22);
    checkzone_cmd = text_or s.checkzone_cmd "named-checkzone";
  },
)

unfoldable pub config_defaults : Config → Config
unfolding server_defaults
config_defaults c = record c {
  listen = text_or c.listen "127.0.0.1:8080";
  data_dir = text_or c.data_dir "/opt/mrdns/var";
  auth_token_env = text_or c.auth_token_env "MRDNS_TOKEN";
  cookie_key_env = text_or c.cookie_key_env "MRDNS_COOKIE_KEY";
  serial_policy = text_or c.serial_policy "date";
  backup_keep = number_or c.backup_keep 20;
  servers = map server_defaults c.servers;
}

-- the loop of `Validate`; `none` is no error
unfoldable pub server_errors : List (String × ServerConfig) → Option ConfigError
server_errors [] = none
server_errors ((name, s) ∷ rest) =
    let later = server_errors rest in
    if s.host == ""
    then some (no_host name)
    else if s.user == ""
    then some (no_user name)
    else if s.remote_zone_dir == ""
    then some (no_zone_dir name)
    else later

abbrev pub is_policy : String → Bool
is_policy p = p == "date" || p == "unixtime" || p == "increment"

unfoldable pub validate : Config → Option ConfigError
unfolding server_errors
validate c =
    if is_policy c.serial_policy
    then (if c.data_dir == "" then some no_data_dir else server_errors c.servers)
    else some (bad_policy c.serial_policy)

-- A config, or the error that stopped the load.
pub data Loaded : Type 0 where
  loaded : Config → Loaded
  refused : ConfigError → Loaded

module _ (p : Process) where
  unfoldable pub drawn_key : Config → Option (List ℕ) → Loaded
  drawn_key c none = refused no_entropy
  drawn_key c (some key) = loaded (record c { cookie_key = key; cookie_key_ephemeral = true })

  unfoldable pub given_key : Config → Option (List ℕ) → Loaded
  given_key c none = refused (bad_hex c.cookie_key_env)
  given_key c (some key) =
      if ltb (length key) 32
      then refused (short_key c.cookie_key_env)
      else loaded (record c { cookie_key = key })

  unfoldable pub resolve_secrets : Config → Loaded
  unfolding drawn_key given_key
  resolve_secrets c0 =
      let c = record c0 { auth_token = p.env c0.auth_token_env } in
      let raw = trim_space (p.env c.cookie_key_env) in
      if c.auth_token == ""
      then refused (no_token c.auth_token_env)
      else if raw == ""
      then drawn_key c p.drawn
      else given_key c (p.hex raw)

  -- `Load`, on what `yaml.Unmarshal` gave
  unfoldable pub load : Config → Loaded
  unfolding config_defaults validate
  load raw =
      let c = config_defaults raw in
      elim (validate c) [ some e ↦ refused e | none ↦ resolve_secrets c ]

-- `LoadNoSecrets`, on what `yaml.Unmarshal` gave
unfoldable pub load_no_secrets : Config → Loaded
load_no_secrets raw =
    let c = config_defaults raw in elim (validate c) [ some e ↦ refused e | none ↦ loaded c ]

-- `ServerNames`, on the names in an order of iteration
unfoldable pub server_names : Config → List String
server_names c = insertion_sort (map (λ e. e.0) c.servers)

-- `c.Servers[name]`, and whether it is there
unfoldable pub server_named : String → List (String × ServerConfig) → Option ServerConfig
server_named name [] = none
server_named name ((n, s) ∷ rest) =
    let later = server_named name rest in if n == name then some s else later

abbrev pub secure_cookies_enabled : Config → Bool
secure_cookies_enabled c = elim c.secure_cookies [ none ↦ true | some b ↦ b ]

-- `DBPath`; `filepath.Join` is the one of paths with slashes.
abbrev pub db_path : Config → String
db_path c = join_paths c.data_dir "mrdns.db"
