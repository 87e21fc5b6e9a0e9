-- ===== src/Config/Refused.antt =====
-- Which error `Validate` gives, and `LoadNoSecrets` with it.
use mathlib.Core.Path.{subst}
use mrdns.Prelude.{
  String, true, false, some, List, [], ◌∷◌, ◌==◌, ◌≡◌, ◌≢◌, arith, eq_iff, Bool-cases, Option-cases,
  inl, inr,
}
use mrdns.Config.{
  ServerConfig, Config, ConfigError, bad_policy, no_data_dir, no_host, no_user, no_zone_dir,
  refused, validate, server_errors, config_defaults, load_no_secrets, is_policy,
}

-- The first server without a field that must be set, and the first such field of it.
pub data ServerRefusal : List (String × ServerConfig) → ConfigError → Type 0 where
  without_host :
      {name : String} {s : ServerConfig} {rest : List (String × ServerConfig)}
      → s.host ≡ ""
      → ServerRefusal ((name, s) ∷ rest) (no_host name)
  without_user :
      {name : String} {s : ServerConfig} {rest : List (String × ServerConfig)}
      → s.host ≢ ""
      → s.user ≡ ""
      → ServerRefusal ((name, s) ∷ rest) (no_user name)
  without_dir :
      {name : String} {s : ServerConfig} {rest : List (String × ServerConfig)}
      → s.host ≢ ""
      → s.user ≢ ""
      → s.remote_zone_dir ≡ ""
      → ServerRefusal ((name, s) ∷ rest) (no_zone_dir name)
  another :
      {name : String} {s : ServerConfig} {rest : List (String × ServerConfig)} {e : ConfigError}
      → s.host ≢ ""
      → s.user ≢ ""
      → s.remote_zone_dir ≢ ""
      → ServerRefusal rest e
      → ServerRefusal ((name, s) ∷ rest) e

-- The policy is checked before the data directory, and that before the servers.
pub data Refusal (c : Config) : ConfigError → Type 0 where
  of_policy :
      c.serial_policy ≢ "date"
      → c.serial_policy ≢ "unixtime"
      → c.serial_policy ≢ "increment"
      → Refusal c (bad_policy c.serial_policy)
  of_dir : is_policy c.serial_policy ≡ true → c.data_dir ≡ "" → Refusal c no_data_dir
  of_server :
      {e : ConfigError}
      → is_policy c.serial_policy ≡ true
      → c.data_dir ≢ ""
      → ServerRefusal c.servers e
      → Refusal c e

differs : (s t : String) → (s == t) ≡ false → s ≢ t
differs s t h k = absurd (ground (arith, h, (eq_iff s t).1 k))

the_error : (e e' : ConfigError) → some e ≡ some e' → e ≡ e'
the_error e e' h = cc h

servers_refused :
    (es : List (String × ServerConfig)) (e : ConfigError)
    → server_errors es ≡ some e
    → ServerRefusal es e
unfolding server_errors
servers_refused [] e h = cc h
servers_refused ((name, s) ∷ es) e h = elim (Bool-cases (s.host == "")) [
  | inl a ↦
      subst (ServerRefusal ((name, s) ∷ es)) (the_error (no_host name) e (rw a at h))
        (without_host ((eq_iff s.host "").0 a))
  | inr a ↦ elim (Bool-cases (s.user == "")) [
    | inl b ↦
        subst (ServerRefusal ((name, s) ∷ es)) (the_error (no_user name) e (rw (a, b) at h))
          (without_user (differs s.host "" a) ((eq_iff s.user "").0 b))
    | inr b ↦ elim (Bool-cases (s.remote_zone_dir == "")) [
      | inl d ↦
          subst (ServerRefusal ((name, s) ∷ es))
            (the_error (no_zone_dir name) e (rw (a, b, d) at h))
            (without_dir (differs s.host "" a) (differs s.user "" b)
              ((eq_iff s.remote_zone_dir "").0 d))
      | inr d ↦
          another (differs s.host "" a) (differs s.user "" b) (differs s.remote_zone_dir "" d)
            (servers_refused es e (rw (a, b, d) at h))
    ]
  ]
]

no_policy : (p : String) → is_policy p ≡ false → (p ≢ "date") × (p ≢ "unixtime") × (p ≢ "increment")
no_policy p h = (
  differs p "date" (ground (arith, h)),
  differs p "unixtime" (ground (arith, h)),
  differs p "increment" (ground (arith, h)),
)

validate-Refusal : (c : Config) (e : ConfigError) → validate c ≡ some e → Refusal c e
unfolding validate
validate-Refusal c e h = elim (Bool-cases (is_policy c.serial_policy)) [
  | inr a ↦
      let (x, y, z) = no_policy c.serial_policy a in
      subst (Refusal c) (the_error (bad_policy c.serial_policy) e (rw a at h)) (of_policy x y z)
  | inl a ↦ elim (Bool-cases (c.data_dir == "")) [
    | inl b ↦
        subst (Refusal c) (the_error no_data_dir e (rw (a, b) at h))
          (of_dir a ((eq_iff c.data_dir "").0 b))
    | inr b ↦ of_server a (differs c.data_dir "" b) (servers_refused c.servers e (rw (a, b) at h))
  ]
]

pub load_no_secrets-Refusal :
    (raw : Config) (e : ConfigError)
    → load_no_secrets raw ≡ refused e
    → Refusal (config_defaults raw) e
unfolding load_no_secrets
load_no_secrets-Refusal raw e h = elim (Option-cases (validate (config_defaults raw))) [
  | inl x ↦ absurd (ground (arith, x, h))
  | inr (e', x) ↦ validate-Refusal (config_defaults raw) e (ground (arith, x, h))
]
