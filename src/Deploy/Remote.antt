-- ===== src/Deploy/Remote.antt =====
-- What internal/deploy/pipeline.go works on: the servers it talks to, with their answers, the deploy
-- that is asked for, and what it does to each target.
use mrdns.Prelude.{ℕ, String, Bool, Option, List}
use mrdns.Deploy.{ServerResult}
use mrdns.Deploy.Quote.{Server}

-- What a command run over a connection is for.
pub data Purpose : Type 0 where
  checking moving reloading removing : Purpose

-- `Conn.Run`: the output, and the error if there is one
pub record Reply : Type 0 where
  pub output : String
  pub failure : Option String

-- `Checker.Check`: the zone passes, named-checkzone rejects it with an output, or it cannot be run
pub data LocalCheck : Type 0 where
  accepted : LocalCheck
  rejected : String → LocalCheck
  unavailable : LocalCheck

-- What the pipeline meets outside the program: the configured servers, and the answers of dialling,
-- of the connection of the target at each place of the list, and of the DNS query.
pub record Remote : Type 0 where
  pub servers : String → Option Server
  pub check : String → String → LocalCheck
  pub dial : ℕ → Server → Option String
  pub suffix : ℕ → String
  pub upload : ℕ → String → String → Option String
  pub run : ℕ → Purpose → String → Reply
  pub verify : ℕ → String → String → Option ℕ

pub record Request : Type 0 where
  pub zone : String
  pub content : String
  pub old_serial : ℕ
  pub new_serial : ℕ
  pub targets : List String

-- What reaches a server: the connection of the target at a place is opened, used or closed.
pub data Event : Type 0 where
  dialled : ℕ → Event
  uploaded : ℕ → String → String → Event
  ran : ℕ → Purpose → String → Event
  closed : ℕ → Event

-- The entries of one target in `res.Servers`, `conns` and `tmpPaths`, and what its goroutines did.
pub record Slot : Type 0 where
  pub result : ServerResult
  pub connected : Bool
  pub tmp_path : String
  pub events : List Event

pub data DeployError : Type 0 where
  no_targets : DeployError
  local_rejected : String → DeployError
