-- ===== src/Deploy/Ssh.antt =====
-- The connections of internal/deploy/ssh.go: what `dialSSH`, `Upload` and `Close` open and close. The
-- SSH and SFTP libraries, the key files and the network are not part of the repository: their errors
-- are the record `Network`, `none` where a call succeeds.
pub mod Released
use mrdns.Prelude.{
  ℕ, String, Option, none, some, List, [], ◌∷◌, ◌++◌, ◌==◌, ℤ, pos, is_zero, if◌then◌else◌,
}
use mrdns.Dns.{Dns}
use mrdns.Zone.{first_soa}
use mrdns.Config.{ServerConfig}
use mrdns.Resources.{Act, opened, closed, did, Outcome}
use mrdns.Deploy.Remote.{Reply}

-- A TCP connection, which the SSH client takes over and closes with itself, the SFTP session on it, a
-- file on the server, and the session of a command.
pub data Resource : Type 0 where
  connection sftp_session remote_file session : Resource

-- What `Run` does with the command in its session.
pub data Step : Type 0 where
  started : String → Step
  killed waited : Step

pub record Network : Type 0 where
  pub known_hosts : String → Option String
  pub read_key : String → Option String
  pub parse_key : String → Option String
  pub address : String → ℤ → String
  pub dial : String → Option String
  pub handshake : String → String → Option String
  pub sftp : String → Option String

pub data DialError : Type 0 where
  not_pinned : String → DialError
  bad_known_hosts bad_key_file bad_key : String → DialError
  unreachable bad_handshake : String → String → DialError
  no_sftp : String → DialError

abbrev pub ssh_port : ServerConfig → ℤ
ssh_port srv = if is_zero srv.port then pos 22 else srv.port

module _ (net : Network) where
  -- each step on the error of its call
  start_sftp : Option String → Outcome Resource Step DialError
  start_sftp (some e) = (opened connection ∷ closed connection ∷ [], some (no_sftp e))
  start_sftp none = (opened connection ∷ opened sftp_session ∷ [], none)

  shake_hands : String → Option String → Outcome Resource Step DialError
  unfolding start_sftp
  shake_hands addr (some e) =
      (opened connection ∷ closed connection ∷ [], some (bad_handshake addr e))
  shake_hands addr none = start_sftp (net.sftp addr)

  connect : ServerConfig → String → Option String → Outcome Resource Step DialError
  unfolding shake_hands
  connect srv addr (some e) = ([], some (unreachable addr e))
  connect srv addr none = shake_hands addr (net.handshake addr srv.user)

  parse_key : ServerConfig → Option String → Outcome Resource Step DialError
  unfolding connect
  parse_key srv (some e) = ([], some (bad_key e))
  parse_key srv none =
      let addr = net.address srv.host (ssh_port srv) in connect srv addr (net.dial addr)

  read_key : ServerConfig → Option String → Outcome Resource Step DialError
  unfolding parse_key
  read_key srv (some e) = ([], some (bad_key_file e))
  read_key srv none = parse_key srv (net.parse_key srv.ssh_key)

  pin_hosts : ServerConfig → Option String → Outcome Resource Step DialError
  unfolding read_key
  pin_hosts srv (some e) = ([], some (bad_known_hosts e))
  pin_hosts srv none = read_key srv (net.read_key srv.ssh_key)

  unfoldable pub dial_ssh : ServerConfig → Outcome Resource Step DialError
  unfolding pin_hosts
  dial_ssh srv =
      if srv.known_hosts == ""
      then ([], some (not_pinned srv.host))
      else pin_hosts srv (net.known_hosts srv.known_hosts)

-- `Close` of a connection that `dialSSH` returned
abbrev pub close_conn : List (Act Resource Step)
close_conn = closed sftp_session ∷ closed connection ∷ []

-- the errors of the four calls of `Upload`
pub record Transfer : Type 0 where
  pub open_file : Option String
  pub write : Option String
  pub close : Option String
  pub chmod : Option String

unfoldable pub upload : Transfer → Outcome Resource Step String
upload t = elim t.open_file [
  | some e ↦ ([], some e)
  | none ↦ elim t.write [
    | some e ↦ (opened remote_file ∷ closed remote_file ∷ [], some e)
    | none ↦ (
      opened remote_file ∷ closed remote_file ∷ [],
      elim t.close [ some e ↦ some e | none ↦ t.chmod ],
    )
  ]
]

-- How a command ends: the context is done first, with its error, or the command is, with the error of
-- its exit.
pub data Ending : Type 0 where
  cancelled : String → Ending
  exited : Option String → Ending

-- the errors of `NewSession` and `Start`, the end of the command, and what it wrote until then
pub record Command : Type 0 where
  pub new_session : Option String
  pub start : Option String
  pub ending : Ending
  pub written : String

ended : Command → List (Act Resource Step) × Reply
ended k = elim k.ending [
  | cancelled e ↦ (
    did killed ∷ closed session ∷ did waited ∷ [],
    record { output = k.written; failure = some e },
  )
  | exited e ↦ (did waited ∷ [], record { output = k.written; failure = e })
]

-- `Run`, with the deferred `session.Close()`
unfoldable pub run_command : Command → String → List (Act Resource Step) × Reply
unfolding ended
run_command k cmd = elim k.new_session [
  | some e ↦ ([], record { output = ""; failure = some e })
  | none ↦ elim k.start [
    | some e ↦ (opened session ∷ closed session ∷ [], record { output = ""; failure = some e })
    | none ↦
        let (as', reply) = ended k in
        (opened session ∷ did (started cmd) ∷ (as' ++ closed session ∷ []), reply)
  ]
]

-- `dnsVerifySerial`, on the records of the answer; `none` is an error
module _ (d : Dns) where
  unfoldable pub dns_verify_serial : Option (List d.Rr) → Option ℕ
  dns_verify_serial none = none
  dns_verify_serial (some answer) = elim (first_soa d answer) [
    | none ↦ none
    | some s ↦ some s.serial
  ]
