-- ===== src/Audit.antt =====
-- internal/audit/audit.go: the trail of security- and change-relevant actions. `encoding/json` and the
-- writer are not part of the repository: the trail is the list of the events that are handed to them,
-- and a write that fails is not seen by the caller.
pub mod File
use Prim.Native.String.{String}
use mrdns.Prelude.{ℕ, List, [], ◌∷◌, ◌++◌, ◌==◌, if◌then◌else◌}

-- Empty fields are omitted from the line; "" is the zero time.
pub record Event : Type 0 where
  pub time : String
  pub action : String
  pub actor : String
  pub zone : String
  pub status : String
  pub old_serial : ℕ
  pub new_serial : ℕ
  pub servers : List String
  pub detail : String

abbrev pub Trail : Type 0
Trail = List Event

-- `Event{Action: …, Actor: …, Zone: …}`
abbrev pub event : String → String → String → Event
event action actor zone = record {
  time = "";
  action = action;
  actor = actor;
  zone = zone;
  status = "";
  old_serial = 0;
  new_serial = 0;
  servers = [];
  detail = "";
}

-- `Log`, on a logger that is not nil; `now` is the text of the current time.
unfoldable pub log : String → Event → Trail → Trail
log now e trail = trail ++ (if e.time == "" then record e { time = now } else e) ∷ []
