-- ===== src/Commands/Imported.antt =====
-- What the import command leaves in the database.
use mathlib.Core.Path.{subst}
use Prim.Native.String.{◌++◌}
use mrdns.Prelude.{
  ℕ, String, Option, none, some, List, [], ◌∷◌, Result, ok, err, Error, ◌≡◌, ◌≢◌, refl, sym, true,
  false, arith, ap, ◌∙◌, All, ◌==◌, Bool-cases, Option-cases, inl, inr,
}
use mrdns.Text.{trim_space, split_on}
use mrdns.Metrics.{decimal_long}
use mrdns.Dns.{Dns}
use mrdns.Db.{Db}
use mrdns.Store.{split_targets, non_empty}
use mrdns.Store.Import.{import_zone}
use mrdns.Store.Import.Atomic.{import_zone-IsAtomic}
use mrdns.Config.{
  Config, ConfigError, Loaded, loaded, refused, load_no_secrets, config_defaults, server_named,
  db_path,
}
use mrdns.Config.Refused.{Refusal, load_no_secrets-Refusal}
use mrdns.Commands.{
  Given, failed, given, Machine, Args, usage, bad_config, unknown_target, outside, from_store,
  Finish, stopped, printed, Choice, known, stranger, also_known, choose, target_list, reported,
  with_db, with_dir, with_content, with_targets, with_config, with_file, with_args, run_import,
}

abbrev pub Configured : Config → List String → Type 0
Configured cfg ts = All (λ t. server_named t cfg.servers ≢ none) ts

-- The last argument is the first of the names that is not configured.
pub data FirstStranger (cfg : Config) : List String → String → Type 0 where
  here :
      {t : String} {ts : List String}
      → server_named t cfg.servers ≡ none
      → FirstStranger cfg (t ∷ ts) t
  later :
      {s t : String} {ts : List String}
      → server_named s cfg.servers ≢ none
      → FirstStranger cfg ts t
      → FirstStranger cfg (s ∷ ts) t

-- What a choice of targets says: they are all configured and are the ones that the store would split
-- the flag into, or one of those is the first that is not configured.
data Chosen (cfg : Config) (ps : List String) : Choice → Type 0 where
  all_known : {ts : List String} → ts ≡ non_empty ps → Configured cfg ts → Chosen cfg ps (known ts)
  one_stranger : {t : String} → FirstStranger cfg (non_empty ps) t → Chosen cfg ps (stranger t)

skipped :
    (cfg : Config) (p : String) (ps : List String) (c : Choice)
    → (trim_space p == "") ≡ true
    → Chosen cfg ps c
    → Chosen cfg (p ∷ ps) c
unfolding non_empty
skipped cfg p ps _ e (all_known h k) = all_known (rw e h) k
skipped cfg p ps _ e (one_stranger h) = one_stranger (rw e h)

kept :
    (cfg : Config) (p : String) (ps : List String) (c : Choice)
    → (trim_space p == "") ≡ false
    → server_named (trim_space p) cfg.servers ≢ none
    → Chosen cfg ps c
    → Chosen cfg (p ∷ ps) (also_known (trim_space p) c)
unfolding non_empty also_known
kept cfg p ps _ e n (all_known h k) = all_known (rw (e, h) refl) (n, k)
kept cfg p ps _ e n (one_stranger h) = one_stranger (rw e (later n h))

choose-Chosen : (cfg : Config) (ps : List String) → Chosen cfg ps (choose cfg ps)
unfolding choose non_empty
choose-Chosen cfg [] = all_known refl tt
choose-Chosen cfg (p ∷ ps) = elim (Bool-cases (trim_space p == "")) [
  | inl e ↦ rw e (skipped cfg p ps _ e (choose-Chosen cfg ps))
  | inr e ↦ elim (Option-cases (server_named (trim_space p) cfg.servers)) [
    | inl k ↦ rw (e, k) (one_stranger (rw e (here k)))
    | inr (s, k) ↦
        rw (e, k) (kept cfg p ps _ e (λ h. absurd (ground (arith, k, h))) (choose-Chosen cfg ps))
  ]
]

-- The arguments are a zone and a file, and the configuration was read and is valid.
pub record Ready (m : Machine) (args : Args) (zone file : String) (cfg : Config) : Type 0 where
  pub raw : Config
  pub arguments : args.rest ≡ zone ∷ file ∷ []
  pub config_read : m.config ≡ given raw
  pub config_valid : load_no_secrets raw ≡ loaded cfg

-- Besides, every target is configured.
pub record Targeted (m : Machine) (args : Args) (zone file : String) (cfg : Config) : Type 0 where
  pub ready : Ready m args zone file cfg
  pub configured : Configured cfg (split_targets args.targets)

-- Besides, the file was read, the data directory is there and the database was opened.
pub record Opened (m : Machine) (args : Args) (zone content : String) : Type 0 where
  pub file : String
  pub cfg : Config
  pub targeted : Targeted m args zone file cfg
  pub file_read : m.file file ≡ given content
  pub dir_made : m.make_dir cfg.data_dir ≡ none
  pub db_opened : m.open_db (db_path cfg) ≡ none

-- The calls outside the program that can fail with a text, each after those before it went well: the
-- config, the file, the data directory and the database.
pub data FailsWith (m : Machine) (args : Args) (e : String) : Type 0 where
  no_config :
      (zone file : String) → args.rest ≡ zone ∷ file ∷ [] → m.config ≡ failed e → FailsWith m args e
  no_file :
      (zone file : String) (cfg : Config)
      → Targeted m args zone file cfg
      → m.file file ≡ failed e
      → FailsWith m args e
  no_dir :
      (zone file content : String) (cfg : Config)
      → Targeted m args zone file cfg
      → m.file file ≡ given content
      → m.make_dir cfg.data_dir ≡ some e
      → FailsWith m args e
  no_db :
      (zone file content : String) (cfg : Config)
      → Targeted m args zone file cfg
      → m.file file ≡ given content
      → m.make_dir cfg.data_dir ≡ none
      → m.open_db (db_path cfg) ≡ some e
      → FailsWith m args e

-- How the command ends, for the database before and after it.
pub data Ends (d : Dns) (m : Machine) (args : Args) (db : Db) : Finish × Db → Type 0 where
  imported :
      {line : String} {db' : Db} (zone content : String) (n : ℕ)
      → Opened m args zone content
      → import_zone d zone content (split_targets args.targets) m.now db ≡ (ok n, db')
      → line
        ≡ "imported "
          ++ (zone
              ++ (": "
                  ++ (decimal_long n ++ (" records" ++ target_list (split_targets args.targets)))))
      → Ends d m args db (printed line, db')
  refused_by_store :
      {e : Error} {db' : Db} (zone content : String)
      → Opened m args zone content
      → import_zone d zone content (split_targets args.targets) m.now db ≡ (err e, db')
      → db'.tables ≡ db.tables
      → Ends d m args db (stopped (from_store e), db')
  misused :
      ((zone file : String) → args.rest ≢ zone ∷ file ∷ []) → Ends d m args db (stopped usage, db)
  misconfigured :
      {e : ConfigError} (zone file : String) (raw : Config)
      → args.rest ≡ zone ∷ file ∷ []
      → m.config ≡ given raw
      → load_no_secrets raw ≡ refused e
      → Refusal (config_defaults raw) e
      → Ends d m args db (stopped (bad_config e), db)
  misdirected :
      {t : String} (zone file : String) (cfg : Config)
      → Ready m args zone file cfg
      → FirstStranger cfg (split_targets args.targets) t
      → Ends d m args db (stopped (unknown_target t), db)
  let_down : {e : String} → FailsWith m args e → Ends d m args db (stopped (outside e), db)

module _ (d : Dns) (m : Machine) (args : Args) (db : Db) where
  reported-Ends :
      (zone content : String) (r : Result ℕ × Db)
      → Opened m args zone content
      → import_zone d zone content (split_targets args.targets) m.now db ≡ r
      → Ends d m args db (reported d m zone (split_targets args.targets) r)
  unfolding reported
  reported-Ends zone content (ok n, db') a h = imported zone content n a h refl
  reported-Ends zone content (err e, db') a h = refused_by_store zone content a h (
      ap (λ (q : Result ℕ × Db). q.1.tables) (sym h)
      ∙ (import_zone-IsAtomic d zone content _ m.now).undone db e
          (ap (λ (q : Result ℕ × Db). q.0) h))

  with_db-Ends :
      (zone file content : String) (cfg : Config) (o : Option String)
      → Targeted m args zone file cfg
      → m.file file ≡ given content
      → m.make_dir cfg.data_dir ≡ none
      → m.open_db (db_path cfg) ≡ o
      → Ends d m args db (with_db d m zone content (split_targets args.targets) o db)
  unfolding with_db
  with_db-Ends zone file content cfg (some e) a y z h =
      let_down (no_db zone file content cfg a y z h)
  with_db-Ends zone file content cfg none a y z h =
      reported-Ends zone content _
        record { file = file; cfg = cfg; targeted = a; file_read = y; dir_made = z; db_opened = h }
        refl

  with_dir-Ends :
      (zone file content : String) (cfg : Config) (o : Option String)
      → Targeted m args zone file cfg
      → m.file file ≡ given content
      → m.make_dir cfg.data_dir ≡ o
      → Ends d m args db (with_dir d m cfg zone content (split_targets args.targets) o db)
  unfolding with_dir
  with_dir-Ends zone file content cfg (some e) a y h = let_down (no_dir zone file content cfg a y h)
  with_dir-Ends zone file content cfg none a y h = with_db-Ends zone file content cfg _ a y h refl

  with_content-Ends :
      (zone file : String) (cfg : Config) (g : Given String)
      → Targeted m args zone file cfg
      → m.file file ≡ g
      → Ends d m args db (with_content d m cfg zone (split_targets args.targets) g db)
  unfolding with_content
  with_content-Ends zone file cfg (failed e) a y = let_down (no_file zone file cfg a y)
  with_content-Ends zone file cfg (given content) a y =
      with_dir-Ends zone file content cfg _ a y refl

  with_targets-Ends :
      (zone file : String) (cfg : Config) (c : Choice)
      → Ready m args zone file cfg
      → Chosen cfg (split_on b',' args.targets) c
      → Ends d m args db (with_targets d m cfg zone file c db)
  unfolding with_targets split_targets
  with_targets-Ends zone file cfg _ a (all_known {ts} h k) =
      subst (λ x. Ends d m args db (with_content d m cfg zone x (m.file file) db)) (sym h)
        (with_content-Ends zone file cfg _
          (record { ready = a; configured = subst (Configured cfg) h k }) refl)
  with_targets-Ends zone file cfg _ a (one_stranger h) = misdirected zone file cfg a h

  with_config-Ends :
      (zone file : String) (raw : Config) (l : Loaded)
      → args.rest ≡ zone ∷ file ∷ []
      → m.config ≡ given raw
      → load_no_secrets raw ≡ l
      → Ends d m args db (with_config d m args.targets zone file l db)
  unfolding with_config
  with_config-Ends zone file raw (refused e) a b h =
      misconfigured zone file raw a b h (load_no_secrets-Refusal raw _ h)
  with_config-Ends zone file raw (loaded cfg) a b h =
      with_targets-Ends zone file cfg _
        (record { raw = raw; arguments = a; config_read = b; config_valid = h })
        (choose-Chosen cfg (split_on b',' args.targets))

  with_file-Ends :
      (zone file : String) (g : Given Config)
      → args.rest ≡ zone ∷ file ∷ []
      → m.config ≡ g
      → Ends d m args db (with_file d m args.targets zone file g db)
  unfolding with_file
  with_file-Ends zone file (failed e) a b = let_down (no_config zone file a b)
  with_file-Ends zone file (given raw) a b = with_config-Ends zone file raw _ a b refl

  with_args-Ends :
      (l : List String) → args.rest ≡ l → Ends d m args db (with_args d m args.targets l db)
  unfolding with_args
  with_args-Ends [] h = misused (λ z f k. absurd (ground (arith, h, k)))
  with_args-Ends (x ∷ []) h = misused (λ z f k. absurd (ground (arith, h, k)))
  with_args-Ends (zone ∷ file ∷ []) h = with_file-Ends zone file m.config h refl
  with_args-Ends (x ∷ y ∷ z ∷ l) h = misused (λ u f k. absurd (ground (arith, h, k)))

  -- If the import command prints a line, it was given a zone and a file, the configuration was read
  -- and is valid, every target is configured, the file was read, the data directory is there, the
  -- database was opened, and the store has imported that file into that zone with those targets; the
  -- line has the zone, the number of records and the targets. If it returns an error, the steps
  -- before one went well and the error is the one of that step: the usage, the reading or the checks
  -- of the configuration (the first thing that is wrong with it, its defaults filled in), the first
  -- target that is not configured, the file, the directory, the database, or the import of that file,
  -- after which no table is changed. Before the store's import the database is as it was.
  pub run_import-Ends : Ends d m args db (run_import d m args db)
  unfolding run_import
  run_import-Ends = with_args-Ends args.rest refl
