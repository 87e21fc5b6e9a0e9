-- ===== src/Deploy/Pipeline.antt =====
-- internal/deploy/pipeline.go: the two-phase deploy. Each goroutine works on the slot of its own
-- target, so a phase is a list of slots; the order in which the goroutines of a phase act on the
-- servers is left open by `Trace` of Deploy/Pipeline/Trace.
pub mod Trace
pub mod Phases
pub mod Outcome
pub mod Verdict
pub mod Closing
use Prim.Native.String.{◌++◌}
use mrdns.Prelude.{
  ℕ, ◌+◌, String, Bool, true, false, not, ◌&&◌, ◌||◌, Option, none, some, List, [], ◌∷◌, map, all,
  any, ◌==◌, eqb, if◌then◌else◌,
}
use mrdns.Text.{trim_space}
use mrdns.Text.Paths.{replace_all}
use mrdns.Dns.{Dns}
use mrdns.Deploy.{Status, success, partial, failed, ServerResult, DeployResult}
use mrdns.Deploy.Remote.{
  DeployError, Event, LocalCheck, Purpose, Remote, Reply, Request, Slot, accepted, checking, closed,
  dialled, local_rejected, moving, no_targets, ran, rejected, reloading, removing, unavailable,
  uploaded,
}
use mrdns.Deploy.Quote.{Server, shell_quote, remote_final_path, remote_tmp_path}

abbrev pub fresh_result : String → ServerResult
fresh_result name = record {
  name = name;
  staged = false;
  checked = false;
  moved = false;
  reloaded = false;
  verified = false;
  output = "";
  err_text = "";
}

abbrev pub untouched : String → String → Slot
untouched name e = record {
  result = record (fresh_result name) { err_text = e };
  connected = false;
  tmp_path = "";
  events = [];
}

-- `Server{}`, what a map gives for a missing key
abbrev pub zero_server : Server
zero_server = record { host = ""; remote_zone_dir = ""; checkzone_cmd = ""; reload_cmd = "" }

abbrev pub server_or_zero : Option Server → Server
server_or_zero none = zero_server
server_or_zero (some s) = s

abbrev pub remote_file : String → String
remote_file zone = zone ++ ".zone"

-- `f` on each element with its place in the list
abbrev pub indexed {ℓ κ} : {A : Type ℓ} {B : Type κ} → (ℕ → A → B) → ℕ → List A → List B
indexed f i [] = []
indexed f i (x ∷ xs) = f i x ∷ indexed f (i + 1) xs

-- `cleanup`, for one target
unfoldable pub cleanup_events : ℕ → Slot → List Event
cleanup_events i slot =
    if not slot.connected || slot.tmp_path == ""
    then []
    else ran i removing ("rm -f -- " ++ shell_quote slot.tmp_path) ∷ []

-- `closeAll`, for one target
unfoldable pub close_events : ℕ → Slot → List Event
close_events i slot = if slot.connected then closed i ∷ [] else []

-- the loop that looks for a target that was not checked, negated
abbrev pub all_checked : List Slot → Bool
all_checked slots = all (λ s. s.result.checked) slots

abbrev pub final_status : List Slot → Status
final_status slots =
    if any (λ s. not s.result.moved || not s.result.reloaded) slots then partial else success

module _ (d : Dns) (rem : Remote) (req : Request) where
  abbrev pub tmp_of : ℕ → Server → String
  tmp_of i srv = remote_tmp_path srv (remote_file req.zone) (rem.suffix i)

  abbrev pub check_cmd : ℕ → Server → String
  check_cmd i srv =
      srv.checkzone_cmd
      ++ (" " ++ (shell_quote (d.fqdn req.zone) ++ (" " ++ shell_quote (tmp_of i srv))))

  -- the check of the staged file, by its reply
  checked_slot : ℕ → String → Server → Reply → Slot
  checked_slot i name srv reply = record {
    result = record (fresh_result name) {
      staged = true;
      checked = elim reply.failure [ none ↦ true | some e ↦ false ];
      output = trim_space reply.output;
      err_text = elim reply.failure [ none ↦ "" | some e ↦ "checkzone: " ++ e ];
    };
    connected = true;
    tmp_path = tmp_of i srv;
    events =
        dialled i ∷ uploaded i (tmp_of i srv) req.content ∷ ran i checking (check_cmd i srv) ∷ [];
  }

  uploaded_slot : ℕ → String → Server → Option String → Slot
  unfolding checked_slot
  uploaded_slot i name srv none = checked_slot i name srv (rem.run i checking (check_cmd i srv))
  uploaded_slot i name srv (some e) = record {
    result = record (fresh_result name) { err_text = "upload: " ++ e };
    connected = true;
    tmp_path = tmp_of i srv;
    events = dialled i ∷ uploaded i (tmp_of i srv) req.content ∷ [];
  }

  dialled_slot : ℕ → String → Server → Option String → Slot
  unfolding uploaded_slot
  dialled_slot i name srv none = uploaded_slot i name srv (rem.upload i (tmp_of i srv) req.content)
  dialled_slot i name srv (some e) = untouched name ("connect: " ++ e)

  known_slot : ℕ → String → Option Server → Slot
  unfolding dialled_slot
  known_slot i name none = untouched name "unknown server in config"
  known_slot i name (some srv) = dialled_slot i name srv (rem.dial i srv)

  -- the goroutine of phase 1
  unfoldable pub stage : ℕ → String → Slot
  unfolding known_slot
  stage i name = known_slot i name (rem.servers name)

  abbrev pub move_cmd : String → Server → String
  move_cmd tmp srv =
      "mv -f -- "
      ++ (shell_quote tmp ++ (" " ++ shell_quote (remote_final_path srv (remote_file req.zone))))

  abbrev pub reload_cmd_of : Server → String
  reload_cmd_of srv = replace_all srv.reload_cmd "{zone}" (shell_quote req.zone)

  reloaded_result : ServerResult → Reply → ServerResult
  reloaded_result r reply = record r {
    moved = true;
    reloaded = elim reply.failure [ none ↦ true | some e ↦ r.reloaded ];
    output = trim_space reply.output;
    err_text = elim reply.failure [ none ↦ r.err_text | some e ↦ "reload: " ++ e ];
  }

  moved_slot : ℕ → Slot → Server → Reply → Slot
  unfolding reloaded_result
  moved_slot i slot srv reply = elim reply.failure [
    | some e ↦ record slot {
      result = record slot.result { output = trim_space reply.output; err_text = "move: " ++ e };
      events = ran i moving (move_cmd slot.tmp_path srv) ∷ [];
    }
    | none ↦ record slot {
      result = reloaded_result slot.result (rem.run i reloading (reload_cmd_of srv));
      events = ran i moving (move_cmd slot.tmp_path srv) ∷ ran i reloading (reload_cmd_of srv) ∷ [];
    }
  ]

  -- the goroutine of phase 2
  unfoldable pub commit : ℕ → Slot → Slot
  unfolding moved_slot
  commit i slot =
      let srv = server_or_zero (rem.servers slot.result.name) in
      moved_slot i slot srv (rem.run i moving (move_cmd slot.tmp_path srv))

  confirmed : Option ℕ → Bool
  confirmed none = false
  confirmed (some got) = eqb got req.new_serial

  -- the goroutine of phase 3, for a reloaded target
  unfoldable pub verify_slot : ℕ → Slot → Slot
  unfolding confirmed
  verify_slot i slot =
      let srv = server_or_zero (rem.servers slot.result.name) in
      if slot.result.reloaded
      then record slot {
        result = record slot.result {
          verified = confirmed (rem.verify i srv.host req.zone) || slot.result.verified;
        };
        events = [];
      }
      else record slot { events = [] }

  abbrev pub result_of : Status → List ServerResult → DeployResult
  result_of status servers = record {
    zone = req.zone;
    old_serial = req.old_serial;
    new_serial = req.new_serial;
    status = status;
    promoted = false;
    servers = servers;
  }

  -- The slots after each phase.
  unfoldable pub staged : List Slot
  unfolding stage
  staged = indexed stage 0 req.targets

  unfoldable pub committed : List Slot
  unfolding commit staged
  committed = indexed commit 0 staged

  unfoldable pub finished : List Slot
  unfolding verify_slot committed
  finished = indexed verify_slot 0 committed

  -- the two phases and the verification
  roll_out : DeployResult
  unfolding staged finished
  roll_out =
      if all_checked staged
      then result_of (final_status finished) (map (λ s. s.result) finished)
      else result_of failed (map (λ s. s.result) staged)

  -- the local check, which only a rejection stops
  after_check : LocalCheck → DeployResult × Option DeployError
  unfolding roll_out
  after_check accepted = (roll_out, none)
  after_check unavailable = (roll_out, none)
  after_check (rejected out) = (result_of failed [], some (local_rejected (trim_space out)))

  for_targets : List String → DeployResult × Option DeployError
  unfolding after_check
  for_targets [] = (result_of failed [], some no_targets)
  for_targets (t ∷ ts) = after_check (rem.check req.zone req.content)

  unfoldable pub deploy : DeployResult × Option DeployError
  unfolding for_targets
  deploy = for_targets req.targets
