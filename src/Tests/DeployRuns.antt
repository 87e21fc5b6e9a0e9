-- ===== src/Tests/DeployRuns.antt =====
-- The theorems on deploys at concrete servers.
use mrdns.Prelude.{ℕ, zero, suc, String, true, none, some, List, [], ◌∷◌, ◌++◌, All, ◌≡◌, refl, inl}
use mrdns.Deploy.{partial}
use mrdns.Deploy.Quote.{Server, shell_quote}
use mrdns.Deploy.Quote.Shell.{read_word, plain, read_word-shell_quote}
use mrdns.Deploy.Remote.{
  Remote, Request, Reply, Purpose, Event, dialled, uploaded, ran, closed, checking, moving,
  reloading, accepted,
}
use mrdns.Deploy.Pipeline.{
  staged, committed, finished, deploy, stage, commit, verify_slot, close_events, move_cmd,
  check_cmd, tmp_of, reload_cmd_of,
}
use mrdns.Deploy.Pipeline.Trace.{first, later, done, act, In, Trace, rolled_out}
use mrdns.Deploy.Pipeline.Phases.{moves_follow_checks}
use mrdns.Deploy.Pipeline.Outcome.{IsChain, deploy-IsChain}
use mrdns.Deploy.Pipeline.Verdict.{Means, deploy_status}
use mrdns.Deploy.Pipeline.Closing.{connections_closed}
use mrdns.Tests.Sample.{sample}

-- Two servers; the reload of the second one fails.
abbrev pub server : String → Server
server host = record {
  host = host;
  remote_zone_dir = "/zones";
  checkzone_cmd = "check";
  reload_cmd = "reload {zone}";
}

abbrev pub reply : ℕ → Reply
reply zero = record { output = " ok\n"; failure = none }
reply (suc i) = record { output = ""; failure = some "exit status 1" }

abbrev pub answer : ℕ → Purpose → String → Reply
answer i reloading cmd = reply i
answer i _ cmd = reply 0

abbrev pub servers : Remote
servers = record {
  servers = λ name. some (server name);
  check = λ zone content. accepted;
  dial = λ i srv. none;
  suffix = λ i. "0";
  upload = λ i path content. none;
  run = answer;
  verify = λ i host zone. some 8;
}

abbrev request : Request
request = record {
  zone = "example.com";
  content = "a zone";
  old_serial = 7;
  new_serial = 8;
  targets = "ns1" ∷ "ns2" ∷ [];
}

deploy-IsChain_example : All IsChain (deploy sample servers request).0.servers
deploy-IsChain_example = deploy-IsChain sample servers request

deploy_status_example :
    Means
      (deploy sample servers request).0.status
      (deploy sample servers request).0.servers
      (deploy sample servers request).1
deploy_status_example = deploy_status sample servers request

-- The run is one where the status is `partial`.
ran_partly : (deploy sample servers request).0.status ≡ partial
unfolding deploy finished committed staged verify_slot commit stage
ran_partly = refl

read_word-shell_quote_example : read_word plain (shell_quote "it's") ≡ some "it's"
read_word-shell_quote_example = read_word-shell_quote "it's"

abbrev srv1 : Server
srv1 = server "ns1"

abbrev srv2 : Server
srv2 = server "ns2"

abbrev tmp1 : String
tmp1 = tmp_of sample servers request 0 srv1

abbrev tmp2 : String
tmp2 = tmp_of sample servers request 1 srv2

-- The second target's goroutine runs between the acts of the first one's.
abbrev first_events : List Event
first_events =
    dialled 0
    ∷ dialled 1
    ∷ uploaded 1 tmp2 "a zone"
    ∷ uploaded 0 tmp1 "a zone"
    ∷ ran 0 checking (check_cmd sample servers request 0 srv1)
    ∷ ran 1 checking (check_cmd sample servers request 1 srv2)
    ∷ []

abbrev second_events : List Event
second_events =
    ran 1 moving (move_cmd sample servers request tmp2 srv2)
    ∷ ran 0 moving (move_cmd sample servers request tmp1 srv1)
    ∷ ran 0 reloading (reload_cmd_of sample servers request srv1)
    ∷ ran 1 reloading (reload_cmd_of sample servers request srv2)
    ∷ []

abbrev rest : List Event
rest =
    ran 0 moving (move_cmd sample servers request tmp1 srv1)
    ∷ ran 0 reloading (reload_cmd_of sample servers request srv1)
    ∷ ran 1 reloading (reload_cmd_of sample servers request srv2)
    ∷ closed 0
    ∷ closed 1
    ∷ []

abbrev a_move : Event
a_move = ran 1 moving (move_cmd sample servers request tmp2 srv2)

a_run : Trace sample servers request (first_events ++ a_move ∷ rest)
unfolding deploy finished committed staged verify_slot commit stage close_events
a_run =
    rolled_out first_events second_events refl refl
      (act first (
        act (later first) (
          act (later first) (act first (act first (act (later first) (done (refl, (refl, tt)))))))))
      (act (later first) (act first (act first (act (later first) (done (refl, (refl, tt)))))))

moves_follow_checks_example :
    All (λ s. s.result.checked ≡ true) (staged sample servers request)
    × All (λ s. All (λ x. In x first_events) s.events) (staged sample servers request)
moves_follow_checks_example =
    moves_follow_checks sample servers request (first_events ++ a_move ∷ rest) a_run first_events
      rest a_move refl refl

connections_closed_example : In (closed 0) (first_events ++ a_move ∷ rest)
connections_closed_example =
    connections_closed sample servers request (first_events ++ a_move ∷ rest) a_run 0 (inl refl)
