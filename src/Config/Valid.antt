-- ===== src/Config/Valid.antt =====
-- What holds of a configuration that was loaded.
use mathlib.Core.Path.{subst}
use mathlib.Core.Option.{Option, none, some}
use mrdns.Prelude.{
  ℕ, ◌≤◌, String, true, false, List, [], ◌∷◌, map, length, All, ◌==◌, ◌≡◌, ◌≢◌, ℤ, pos, negsuc,
  refl, ap, sym, ◌∙◌, inl, inr, arith, ltb, Bool-cases,
}
use mrdns.Text.{trim_space}
use mrdns.Config.{
  ServerConfig, Config, ConfigError, Process, loaded, refused, load, validate, server_errors,
  server_defaults, config_defaults, resolve_secrets, is_policy, text_or, number_or, port_or,
  drawn_key, given_key,
}

pub record IsUsable (s : ServerConfig) : Type 0 where
  pub named : (s.host == "") ≡ false
  pub logs_in : (s.user == "") ≡ false
  pub has_dir : (s.remote_zone_dir == "") ≡ false
  pub has_port : s.port ≢ pos 0
  pub checks : (s.checkzone_cmd == "") ≡ false

pub record IsValid (c : Config) : Type 0 where
  pub policy : is_policy c.serial_policy ≡ true
  pub has_data_dir : (c.data_dir == "") ≡ false
  pub keeps : 1 ≤ c.backup_keep
  pub servers : All (λ e. IsUsable e.1) c.servers
  pub has_token : (c.auth_token == "") ≡ false
  pub long_key : 32 ≤ length c.cookie_key

text_given : (s default : String) → (default == "") ≡ false → (text_or s default == "") ≡ false
text_given s default h = elim (Bool-cases (s == "")) [ inl e ↦ rw e h | inr e ↦ rw e e ]

number_given : (n : ℕ) (default : ℕ) → 1 ≤ default → 1 ≤ number_or n default
number_given n default h = ground arith

port_given : (p default : ℤ) → default ≢ pos 0 → port_or p default ≢ pos 0
port_given (pos n) default h = ground (arith, h)
port_given (negsuc n) default h = λ k. cc k

servers_usable :
    (es : List (String × ServerConfig))
    → server_errors (map server_defaults es) ≡ none
    → All (λ e. IsUsable e.1) (map server_defaults es)
unfolding server_errors server_defaults
servers_usable [] h = tt
servers_usable ((name, s) ∷ es) h = (
  record {
    named = ground arith;
    logs_in = ground arith;
    has_dir = ground arith;
    has_port = port_given s.port (pos 22) (λ h. cc h);
    checks = text_given s.checkzone_cmd "named-checkzone" refl;
  },
  servers_usable es (ground arith),
)

-- The fields that the secrets are stored in.
record IsResolved (c c' : Config) : Type 0 where
  policy_same : c'.serial_policy ≡ c.serial_policy
  dir_same : c'.data_dir ≡ c.data_dir
  keep_same : c'.backup_keep ≡ c.backup_keep
  servers_same : c'.servers ≡ c.servers
  has_token : (c'.auth_token == "") ≡ false
  long_key : 32 ≤ length c'.cookie_key

the_config : (c c' : Config) → loaded c ≡ loaded c' → c ≡ c'
the_config c c' h = cc h

module _ (p : Process) (full : (key : List ℕ) → p.drawn ≡ some key → length key ≡ 32) where
  given_key-IsResolved :
      (c c' : Config) (o : Option (List ℕ))
      → (c.auth_token == "") ≡ false
      → given_key p c o ≡ loaded c'
      → IsResolved c c'
  unfolding given_key
  given_key-IsResolved c c' none t h = cc
  given_key-IsResolved c c' (some key) t h = elim (Bool-cases (ltb (length key) 32)) [
    | inl e ↦ absurd (ground (arith, e))
    | inr e ↦ subst (IsResolved c) (the_config _ c' (rw e at h)) record {
      policy_same = refl;
      dir_same = refl;
      keep_same = refl;
      servers_same = refl;
      has_token = t;
      long_key = ground (arith, e);
    }
  ]

  drawn_key-IsResolved :
      (c c' : Config) (o : Option (List ℕ))
      → o ≡ p.drawn
      → (c.auth_token == "") ≡ false
      → drawn_key p c o ≡ loaded c'
      → IsResolved c c'
  unfolding drawn_key
  drawn_key-IsResolved c c' none k t h = cc
  drawn_key-IsResolved c c' (some key) k t h = subst (IsResolved c) (the_config _ c' h) record {
    policy_same = refl;
    dir_same = refl;
    keep_same = refl;
    servers_same = refl;
    has_token = t;
    long_key = omega (arith, full key (sym k));
  }

  resolve_secrets-IsResolved : (c c' : Config) → resolve_secrets p c ≡ loaded c' → IsResolved c c'
  unfolding resolve_secrets
  resolve_secrets-IsResolved c c' h =
      let raw = trim_space (p.env c.cookie_key_env) in
      elim (Bool-cases (p.env c.auth_token_env == "")) [
        | inl e ↦ absurd (ground (arith, e))
        | inr e ↦ elim (Bool-cases (raw == "")) [
          | inl r ↦ of_token c c' (drawn_key-IsResolved _ c' p.drawn refl e (rw (e, r) at h))
          | inr r ↦ of_token c c' (given_key-IsResolved _ c' (p.hex raw) e (rw (e, r) at h))
        ]
      ]
    where
      of_token :
          (c c' : Config)
          → IsResolved (record c { auth_token = p.env c.auth_token_env }) c'
          → IsResolved c c'
      of_token c c' r = record {
        policy_same = r.policy_same;
        dir_same = r.dir_same;
        keep_same = r.keep_same;
        servers_same = r.servers_same;
        has_token = r.has_token;
        long_key = r.long_key;
      }

  passed :
      (c c' : Config) (o : Option ConfigError)
      → (elim o [ some e ↦ refused e | none ↦ resolve_secrets p c ]) ≡ loaded c'
      → (o ≡ none) × (resolve_secrets p c ≡ loaded c')
  passed c c' none h = (refl, h)
  passed c c' (some e) h = cc

  validate_sound :
      (c : Config)
      → validate c ≡ none
      → (is_policy c.serial_policy ≡ true) × (server_errors c.servers ≡ none)
  unfolding validate
  validate_sound c h = ground arith

  checked-IsValid :
      (raw c : Config)
      → validate (config_defaults raw) ≡ none
      → IsResolved (config_defaults raw) c
      → IsValid c
  unfolding config_defaults
  checked-IsValid raw c h r =
      let (policy, fine) = validate_sound (config_defaults raw) h in
      record {
        policy = ap is_policy r.policy_same ∙ policy;
        has_data_dir = ap (λ s. s == "") r.dir_same ∙ text_given raw.data_dir "/opt/mrdns/var" refl;
        keeps = omega (arith, r.keep_same, number_given raw.backup_keep 20 (omega arith));
        servers =
            subst (All (λ e. IsUsable e.1)) (sym r.servers_same) (servers_usable raw.servers fine);
        has_token = r.has_token;
        long_key = r.long_key;
      }

  -- If the bytes that the process draws for a key are 32, a configuration that was loaded has one of
  -- the three serial policies, a data directory, a positive number of snapshots to keep, a token, a
  -- cookie key of at least 32 bytes, and servers that each have a host, a user, a zone directory,
  -- a port other than 0 and a check command.
  pub load-IsValid : (raw c : Config) → load p raw ≡ loaded c → IsValid c
  unfolding load
  load-IsValid raw c h =
      let (fine, rest) = passed (config_defaults raw) c (validate (config_defaults raw)) h in
      checked-IsValid raw c fine (resolve_secrets-IsResolved (config_defaults raw) c rest)
