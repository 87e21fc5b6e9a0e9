-- ===== src/Zone/Check.antt =====
-- `Checker.Check` of internal/zone/check.go, and how internal/deploy/pipeline.go and
-- internal/web/zones.go read its error. The files, named-checkzone and `dns.Fqdn` are not part of the
-- repository: what their calls give is the record `Tool`.
pub mod Released
use mrdns.Prelude.{
  String, Bool, true, false, Option, none, some, List, [], ◌∷◌, ◌++◌, ◌==◌, if◌then◌else◌,
}
use mrdns.Resources.{Act, opened, closed, did, Outcome}
use mrdns.Deploy.Remote.{LocalCheck, accepted, rejected, unavailable}

-- The temporary file by its name, which `os.Remove` takes away, and by its handle.
pub data Resource : Type 0 where
  temp_file handle : Resource

-- The content is written, and a program is run on an origin and the file.
pub data Step : Type 0 where
  wrote : String → Step
  checked : String → String → Step

-- How the program ends: with status 0, with another one, or it cannot be run.
pub data Exit : Type 0 where
  passed : Exit
  nonzero : String → Exit
  not_run : String → Exit

-- the errors of `CreateTemp`, `Write` and `Close`, the end of the program, and what it wrote
pub record Tool : Type 0 where
  pub create : Option String
  pub write : Option String
  pub close : Option String
  pub exit : Exit
  pub output : String
  pub fqdn : String → String

-- An error of a file, an `exec.ExitError`, or another error of the program, the two with their prefix
-- "named-checkzone: ".
pub data CheckError : Type 0 where
  file_error : String → CheckError
  exit_error : String → CheckError
  run_error : String → CheckError

abbrev pub Checked : Type 0
Checked = List (Act Resource Step) × String × Option CheckError

abbrev pub program : String → String
program bin = if bin == "" then "named-checkzone" else bin

abbrev pub exit_failure : Exit → Option CheckError
exit_failure passed = none
exit_failure (nonzero e) = some (exit_error e)
exit_failure (not_run e) = some (run_error e)

-- the outcomes of the calls that stand behind the two `defer`s, with the output first
module _ (t : Tool) where
  -- the part after `f.Close()`
  abbrev pub ran : String → String → Outcome Resource Step CheckError
  ran bin origin = (did (checked (program bin) (t.fqdn origin)) ∷ [], exit_failure t.exit)

  -- the part after `os.CreateTemp`: an explicit `f.Close()` on each path
  abbrev pub filled : String → String → String → Outcome Resource Step CheckError
  filled bin origin content = elim t.write [
    | some e ↦ (closed handle ∷ [], some (file_error e))
    | none ↦ elim t.close [
      | some e ↦ (did (wrote content) ∷ closed handle ∷ [], some (file_error e))
      | none ↦ let (as', e) = ran bin origin in (did (wrote content) ∷ closed handle ∷ as', e)
    ]
  ]

  -- The output is that of the program, and "" where the program is not reached.
  abbrev pub output_of : String
  output_of = elim t.write [ some e ↦ "" | none ↦ elim t.close [ some e ↦ "" | none ↦ t.output ] ]

  unfoldable pub check : String → String → String → Checked
  check bin origin content = elim t.create [
    | some e ↦ ([], "", some (file_error e))
    | none ↦
        let (as', e) = filled bin origin content in
        (opened handle ∷ opened temp_file ∷ (as' ++ closed temp_file ∷ []), output_of, e)
  ]

-- `errors.As(err, &exitErr)`
abbrev pub is_checkzone_failure : CheckError → Bool
is_checkzone_failure (exit_error e) = true
is_checkzone_failure _ = false

-- what the error means to a deploy and to the page of a validation
unfoldable pub verdict : Checked → LocalCheck
verdict (as', output, none) = accepted
verdict (as', output, some e) = if is_checkzone_failure e then rejected output else unavailable
