-- ===== src/Audit/File.antt =====
-- The loggers of internal/audit/audit.go and the file that one of them appends to. The calls of `os`,
-- `filepath.Dir` and `json.Marshal` are not part of the repository.
use mrdns.Prelude.{
  String, Option, none, some, List, [], ◌∷◌, ◌++◌, ◌==◌, if◌then◌else◌, ◌≡◌, refl, ap, sym, ◌∙◌,
}
use mathlib.Core.List.{append_assoc, append-nil}
use mrdns.Resources.{Act, opened, closed, Outcome}
use mrdns.Audit.{Event, Trail, log}

-- A nil logger, one on `io.Discard`, and one on a file.
pub data Logger : Type 0 where
  nil_logger discards : Logger
  appends_to : String → Logger

-- the directory of a path, and the errors of `MkdirAll` and of `OpenFile`
pub record Files : Type 0 where
  pub dir_of : String → String
  pub make_dir : String → Option String
  pub open_append : String → Option String

abbrev pub make_parent : Files → String → Option String
make_parent fs dir = if dir == "" then none else fs.make_dir dir

-- the logger that `New` returns beside no error
abbrev pub logger_for : String → Logger
logger_for path = if path == "" then discards else appends_to path

-- `file` names the handle of the file.
module _ {R S : Type 0} (file : R) where
  unfoldable pub new_logger : Files → String → Outcome R S String
  new_logger fs path = if path == "" then ([], none) else elim (make_parent fs (fs.dir_of path)) [
    | some e ↦ ([], some e)
    | none ↦ elim (fs.open_append path) [ some e ↦ ([], some e) | none ↦ (opened file ∷ [], none) ]
  ]

  -- `Close`
  unfoldable pub close_logger : Logger → List (Act R S)
  close_logger nil_logger = []
  close_logger discards = []
  close_logger (appends_to path) = closed file ∷ []

-- `json.Marshal` of an event, `none` where it gives an error; a line is written with its newline.
module _ (marshal : Event → Option String) where
  abbrev pub line_of : Event → List String
  line_of e = elim (marshal e) [ none ↦ [] | some line ↦ line ∷ [] ]

  -- the lines of the file after `Log`, with the text of the current time
  unfoldable pub log_line : Logger → String → Event → List String → List String
  log_line nil_logger now e lines = lines
  log_line discards now e lines = lines
  log_line (appends_to path) now e lines =
      lines ++ line_of (if e.time == "" then record e { time = now } else e)

  -- the lines of a trail
  unfoldable pub lines_of : Trail → List String
  lines_of [] = []
  lines_of (e ∷ trail) = line_of e ++ lines_of trail

  lines_of-append : (t u : Trail) → lines_of (t ++ u) ≡ lines_of t ++ lines_of u
  unfolding lines_of
  lines_of-append [] u = refl
  lines_of-append (e ∷ t) u =
      ap (λ l. line_of e ++ l) (lines_of-append t u) ∙ sym (append_assoc (line_of e) _ _)

  -- The file of a logger holds the lines of the trail, in the order of the events: `Log` adds to the
  -- file what it adds to the trail, leaves the lines before it as they are, and skips an event that
  -- cannot be marshalled.
  pub log_line-refines :
      (path now : String) (e : Event) (t : Trail)
      → log_line (appends_to path) now e (lines_of t) ≡ lines_of (log now e t)
  unfolding log_line log lines_of
  log_line-refines path now e t =
      sym (lines_of-append t _ ∙ ap (λ l. lines_of t ++ l) (append-nil _))
