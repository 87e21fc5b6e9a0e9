-- ===== src/Deploy.antt =====
-- internal/deploy/result.go: how far each target of a deploy came, and its outcome.
pub mod Quote
pub mod Remote
pub mod Ssh
pub mod Pipeline
use mrdns.Prelude.{ℕ, String, Bool, true, false, List, [], ◌∷◌, all}

pub data Status : Type 0 where
  success partial failed : Status

pub record ServerResult : Type 0 where
  pub name : String
  pub staged : Bool
  pub checked : Bool
  pub moved : Bool
  pub reloaded : Bool
  pub verified : Bool
  pub output : String
  pub err_text : String

-- The time stamps of the result are left out.
pub record DeployResult : Type 0 where
  pub zone : String
  pub old_serial : ℕ
  pub new_serial : ℕ
  pub status : Status
  pub promoted : Bool
  pub servers : List ServerResult

unfoldable pub all_moved : DeployResult → Bool
all_moved r = elim r.servers [ [] ↦ false | s ∷ ss ↦ all (λ x. x.moved) (s ∷ ss) ]
