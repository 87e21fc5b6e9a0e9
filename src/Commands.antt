-- ===== src/Commands.antt =====
-- `runImport` of cmd/mrdns/import.go, after the `flag` package has read the arguments. The files, the
-- YAML parser and the opening of the database are not part of the repository: what they give, or the
-- text of their error, is the record `Machine`.
pub mod Imported
pub mod Service
use Prim.Native.String.{◌++◌}
use mrdns.Prelude.{
  ℕ, String, Option, none, some, List, [], ◌∷◌, Result, ok, err, Error, ◌==◌, if◌then◌else◌,
}
use mrdns.Text.{trim_space, split_on, join}
use mrdns.Metrics.{decimal_long}
use mrdns.Dns.{Dns}
use mrdns.Db.{Db}
use mrdns.Store.Import.{import_zone}
use mrdns.Config.{
  Config, ConfigError, Loaded, loaded, refused, load_no_secrets, server_named, db_path,
}

-- What a call outside the program gives, or the text of its error.
pub data Given (A : Type 0) : Type 0 where
  failed : String → Given A
  given : A → Given A

-- The config as it was parsed, the zone file, the error of `MkdirAll`, the opening of the database at a path, and the time.
pub record Machine : Type 0 where
  pub config : Given Config
  pub file : String → Given String
  pub make_dir : String → Option String
  pub open_db : String → Option String
  pub now : String

-- the flag `-targets` and the other arguments
pub record Args : Type 0 where
  pub targets : String
  pub rest : List String

pub data CommandError : Type 0 where
  usage : CommandError
  bad_config : ConfigError → CommandError
  unknown_target : String → CommandError
  outside : String → CommandError
  from_store : Error → CommandError

-- The error, or the line that is printed.
pub data Finish : Type 0 where
  stopped : CommandError → Finish
  printed : String → Finish

-- the targets that are named, or the first one that is not configured
pub data Choice : Type 0 where
  known : List String → Choice
  stranger : String → Choice

also_known : String → Choice → Choice
also_known t (known ts) = known (t ∷ ts)
also_known t (stranger s) = stranger s

unfoldable pub choose : Config → List String → Choice
unfolding also_known
choose cfg [] = known []
choose cfg (p ∷ ps) =
    let rest = choose cfg ps in
    let t = trim_space p in
    if t == ""
    then rest
    else elim (server_named t cfg.servers) [ none ↦ stranger t | some s ↦ also_known t rest ]

abbrev pub target_list : List String → String
target_list [] = "\n"
target_list (t ∷ ts) = " (targets: " ++ (join ", " (t ∷ ts) ++ ")\n")

module _ (d : Dns) (m : Machine) where
  reported : String → List String → Result ℕ × Db → Finish × Db
  reported zone ts (err e, db) = (stopped (from_store e), db)
  reported zone ts (ok n, db) = (
    printed ("imported " ++ (zone ++ (": " ++ (decimal_long n ++ (" records" ++ target_list ts))))),
    db,
  )

  with_db : String → String → List String → Option String → Db → Finish × Db
  unfolding reported
  with_db zone content ts (some e) db = (stopped (outside e), db)
  with_db zone content ts none db = reported zone ts (import_zone d zone content ts m.now db)

  with_dir : Config → String → String → List String → Option String → Db → Finish × Db
  unfolding with_db
  with_dir cfg zone content ts (some e) db = (stopped (outside e), db)
  with_dir cfg zone content ts none db = with_db zone content ts (m.open_db (db_path cfg)) db

  with_content : Config → String → List String → Given String → Db → Finish × Db
  unfolding with_dir
  with_content cfg zone ts (failed e) db = (stopped (outside e), db)
  with_content cfg zone ts (given content) db =
      with_dir cfg zone content ts (m.make_dir cfg.data_dir) db

  with_targets : Config → String → String → Choice → Db → Finish × Db
  unfolding with_content
  with_targets cfg zone file (stranger t) db = (stopped (unknown_target t), db)
  with_targets cfg zone file (known ts) db = with_content cfg zone ts (m.file file) db

  with_config : String → String → String → Loaded → Db → Finish × Db
  unfolding with_targets choose
  with_config targets zone file (refused e) db = (stopped (bad_config e), db)
  with_config targets zone file (loaded cfg) db =
      with_targets cfg zone file (choose cfg (split_on b',' targets)) db

  with_file : String → String → String → Given Config → Db → Finish × Db
  unfolding with_config
  with_file targets zone file (failed e) db = (stopped (outside e), db)
  with_file targets zone file (given raw) db =
      with_config targets zone file (load_no_secrets raw) db

  with_args : String → List String → Db → Finish × Db
  unfolding with_file
  with_args targets (zone ∷ file ∷ []) db = with_file targets zone file m.config db
  with_args targets _ db = (stopped usage, db)

  unfoldable pub run_import : Args → Db → Finish × Db
  unfolding with_args
  run_import args db = with_args args.targets args.rest db
