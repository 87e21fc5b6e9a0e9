-- ===== src/Commands/Service.antt =====
-- `run` of cmd/mrdns/main.go: what the process opens before it serves, in its order, and what the
-- deferred calls close. The files, the YAML parser, the driver, the templates, the signals and
-- net/http are not part of the repository: what their calls give is the record `Boot`.
pub mod Released
use mrdns.Prelude.{ℕ, String, Option, none, some, List, [], ◌∷◌, ◌++◌, ◌==◌, if◌then◌else◌}
use mrdns.Resources.{Act, opened, closed, did, Outcome, deferred, then_did}
use mrdns.Audit.File.{Files, new_logger, close_logger, logger_for}
use mrdns.Store.Open.{Opening, OpenError, open_store}
use mrdns.Config.{Config, ConfigError, Process, Loaded, loaded, refused, load, db_path}
use mrdns.Commands.{Given, failed, given, Finish, stopped, printed}

-- The audit file, the database, the handler of the signals, and the context of the shutdown.
pub data Resource : Type 0 where
  audit_file database signals shutdown_context : Resource

pub data Step : Type 0 where
  listening : String → Step
  shutting_down : Step

-- What `select` receives: an error of `ListenAndServe`, or a signal, with the error of `Shutdown`.
pub data Ending : Type 0 where
  listen_failed : String → Ending
  signalled : Option String → Ending

-- The config as it was parsed, the environment, the audit file, the errors of `MkdirAll`, of the calls
-- of `store.Open` on a path and of the templates that `web.New` parses, and the end.
pub record Boot : Type 0 where
  pub config : Given Config
  pub process : Process
  pub files : Files
  pub make_dir : String → Option String
  pub opening : String → Opening
  pub templates : Option String
  pub ending : Ending

pub data Fatal : Type 0 where
  outside : String → Fatal
  bad_config : ConfigError → Fatal
  bad_store : OpenError → Fatal

abbrev pub Run : Type 0
Run = Outcome Resource Step Fatal

abbrev pub fatal : Option String → Option Fatal
fatal none = none
fatal (some e) = some (outside e)

module _ (b : Boot) where
  ended : Ending → Run
  ended (listen_failed e) = ([], some (outside e))
  ended (signalled e) = then_did shutting_down (deferred shutdown_context ([], fatal e))

  with_server : Config → Option String → Run
  unfolding ended
  with_server cfg (some e) = ([], some (outside e))
  with_server cfg none = deferred signals (then_did (listening cfg.listen) (ended b.ending))

  with_store : Config → Outcome Resource Step OpenError → Run
  unfolding with_server
  with_store cfg (as', some e) = (as', some (bad_store e))
  with_store cfg (as', none) =
      let (rest, e) = with_server cfg b.templates in (as' ++ (rest ++ closed database ∷ []), e)

  with_dir : Config → Option String → Run
  unfolding with_store
  with_dir cfg (some e) = ([], some (outside e))
  with_dir cfg none = with_store cfg (open_store database (b.opening (db_path cfg)))

  with_audit : Config → Outcome Resource Step String → Run
  unfolding with_dir
  with_audit cfg (as', some e) = (as', some (outside e))
  with_audit cfg (as', none) =
      let (rest, e) = with_dir cfg (b.make_dir cfg.data_dir) in
      (as' ++ (rest ++ close_logger audit_file (logger_for cfg.audit_log)), e)

  with_config : Loaded → Run
  unfolding with_audit
  with_config (refused e) = ([], some (bad_config e))
  with_config (loaded cfg) = with_audit cfg (new_logger audit_file b.files cfg.audit_log)

  with_file : Given Config → Run
  unfolding with_config
  with_file (failed e) = ([], some (outside e))
  with_file (given raw) = with_config (load b.process raw)

  unfoldable pub run_service : Run
  unfolding with_file
  run_service = with_file b.config

-- `main`: the status of the process, from the arguments after its name
unfoldable pub exit_status : List String → Finish → Option Fatal → ℕ
exit_status (first ∷ rest) imported served =
    if first == "import"
    then elim imported [ stopped e ↦ 1 | printed line ↦ 0 ]
    else elim served [ some e ↦ 1 | none ↦ 0 ]
exit_status [] imported served = elim served [ some e ↦ 1 | none ↦ 0 ]
