-- ===== src/Tests/CommandRuns.antt =====
-- The theorems on the import command and on dialling at concrete inputs.
use mrdns.Prelude.{none, some, [], ◌∷◌, ◌≡◌, ◌≢◌}
use mrdns.Config.{ServerConfig}
use mrdns.Deploy.Ssh.{Network, dial_ssh}
use mrdns.Deploy.Ssh.Released.{IsTidy, dial_ssh_lem}
use mrdns.Commands.{Machine, given, Args, run_import}
use mrdns.Commands.Imported.{Ends, run_import-Ends}
use mrdns.Tests.Sample.{sample}
use mrdns.Tests.StoreRuns.{two_zones, sound}
use mrdns.Tests.ConfigRuns.{sparse, ns1}

abbrev machine : Machine
machine = record {
  config = given sparse;
  file = λ name. given "a zone";
  make_dir = λ dir. none;
  open_db = λ path. none;
  now = "2026-01-02T03:04:05Z";
}

abbrev args : Args
args = record { targets = "ns1, ns9"; rest = "example.net." ∷ "example.net.zone" ∷ [] }

run_import-Ends_example :
    Ends sample machine args (sound two_zones) (run_import sample machine args (sound two_zones))
run_import-Ends_example = run_import-Ends sample machine args (sound two_zones)

-- The SFTP server does not answer.
abbrev network : Network
network = record {
  known_hosts = λ file. none;
  read_key = λ file. none;
  parse_key = λ file. none;
  address = λ host port. host;
  dial = λ addr. none;
  handshake = λ addr user. none;
  sftp = λ addr. some "subsystem request failed";
}

abbrev pinned : ServerConfig
pinned = record ns1 { known_hosts = "/etc/mrdns/known_hosts" }

dial_ssh_lem_example :
    IsTidy (dial_ssh network pinned)
    × (((dial_ssh network pinned).0 ≢ [])
        → (pinned.known_hosts ≢ "") × (network.known_hosts "/etc/mrdns/known_hosts" ≡ none))
dial_ssh_lem_example = dial_ssh_lem network pinned
