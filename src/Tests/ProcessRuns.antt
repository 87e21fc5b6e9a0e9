-- ===== src/Tests/ProcessRuns.antt =====
-- The theorems on the process, its files and its commands at concrete inputs.
use mrdns.Prelude.{String, Option, true, none, some, List, [], ◌∷◌, ◌≡◌, ◌↔◌}
use mrdns.Resources.{open_after}
use mrdns.Config.{Config}
use mrdns.Audit.{Event, event, log}
use mrdns.Audit.File.{appends_to, log_line, lines_of, log_line-refines}
use mrdns.Deploy.Remote.{accepted, rejected}
use mrdns.Deploy.Ssh.{Command, cancelled}
use mrdns.Zone.Check.{Tool, passed, nonzero, check, verdict}
use mrdns.Zone.Check.Released.{same as same_file, absent, runs_on_ready, check_lem}
use mrdns.Commands.{given}
use mrdns.Commands.Service.{Resource, Boot, database, signals, signalled, run_service}
use mrdns.Commands.Service.Released.{same, Starts, audit_open, listens_with, run_service_lem}
use mrdns.Tests.ConfigRuns.{process, sparse}

-- The deadline passes while the command runs.
abbrev late : Command
late = record {
  new_session = none;
  start = none;
  ending = cancelled "context deadline exceeded";
  written = "reloading\n";
}

-- named-checkzone finds a mistake.
abbrev strict : Tool
strict = record {
  create = none;
  write = none;
  close = none;
  exit = nonzero "exit status 1";
  output = "zone example.org/IN: not loaded due to errors.\n";
  fqdn = λ s. "example.org.";
}

check_lem_example :
    (open_after same_file [] (check strict "" "example.org" "a zone").0 ≡ [])
    × (runs_on_ready absent (check strict "" "example.org" "a zone").0 ≡ true)
    × ((verdict (check strict "" "example.org" "a zone") ≡ accepted) ↔ (
        (strict.create ≡ none)
        × (strict.write ≡ none)
        × (strict.close ≡ none)
        × (strict.exit ≡ passed)))
    × ((out : String)
        → (verdict (check strict "" "example.org" "a zone") ≡ rejected out) ↔ (
            (strict.create ≡ none)
            × (strict.write ≡ none)
            × (strict.close ≡ none)
            × ((e : String) × (strict.exit ≡ nonzero e))
            × (strict.output ≡ out)))
check_lem_example = check_lem strict "" "example.org" "a zone"

-- Without an audit log; the migration of the database fails.
abbrev boot : Boot
boot = record {
  config = given sparse;
  process = process;
  files = record { dir_of = λ p. "."; make_dir = λ p. none; open_append = λ p. none };
  make_dir = λ p. none;
  opening = λ path. record { driver = none; ping = none; migration = some "disk I/O error" };
  templates = none;
  ending = signalled none;
}

run_service_lem_example :
    (open_after same [] (run_service boot).0 ≡ [])
    × ((m : List Resource)
        → listens_with [] (run_service boot).0 ≡ some m
        → (cfg : Config) × Starts boot cfg × (m ≡ signals ∷ database ∷ audit_open cfg))
    × (((run_service boot).1 ≡ none)
        ↔ ((cfg : Config) × Starts boot cfg × (boot.ending ≡ signalled none)))
run_service_lem_example = run_service_lem boot

abbrev action_of : Event → Option String
action_of e = some e.action

abbrev deploy_logged : Event
deploy_logged = event "deploy" "192.0.2.1" "example.org."

log_line-refines_example :
    log_line action_of
      (appends_to "/var/log/mrdns.jsonl")
      "now"
      deploy_logged
      (lines_of action_of (event "login" "192.0.2.1" "" ∷ []))
    ≡ lines_of action_of (log "now" deploy_logged (event "login" "192.0.2.1" "" ∷ []))
log_line-refines_example =
    log_line-refines action_of "/var/log/mrdns.jsonl" "now" deploy_logged
      (event "login" "192.0.2.1" "" ∷ [])
