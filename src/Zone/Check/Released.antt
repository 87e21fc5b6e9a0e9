-- ===== src/Zone/Check/Released.antt =====
-- What a check leaves behind, and what its three verdicts mean.
use mrdns.Prelude.{String, Bool, true, false, none, List, [], ◌∷◌, ◌≡◌, ◌↔◌, arith}
use mrdns.Resources.{Act, opened, closed, did, open_after}
use mrdns.Deploy.Remote.{accepted, rejected}
use mrdns.Zone.Check.{
  Resource, temp_file, handle, Step, wrote, checked, Tool, passed, nonzero, check, verdict,
}

abbrev pub same : Resource → Resource → Bool
same temp_file temp_file = true
same handle handle = true
same _ _ = false

-- The state of the temporary file: not written, being written, or written and closed.
pub data File : Type 0 where
  absent empty full ready : File

-- Whether each run of the program finds a file that is written and closed.
unfoldable pub runs_on_ready : File → List (Act Resource Step) → Bool
runs_on_ready f [] = true
runs_on_ready f (opened r ∷ as') = runs_on_ready empty as'
runs_on_ready full (closed handle ∷ as') = runs_on_ready ready as'
runs_on_ready f (closed r ∷ as') = runs_on_ready absent as'
runs_on_ready f (did (wrote content) ∷ as') = runs_on_ready full as'
runs_on_ready ready (did (checked bin origin) ∷ as') = runs_on_ready ready as'
runs_on_ready f (did (checked bin origin) ∷ as') = false

-- On every path, `Check` closes the temporary file and removes it, and it runs named-checkzone only
-- on a file that is written and closed. The zone is accepted exactly when the file could be written
-- and named-checkzone exits with status 0, and rejected, with its output, exactly when the file
-- could be written and it exits with another status; in every other case the check is unavailable.
pub check_lem :
    (t : Tool) (bin origin content : String)
    → (open_after same [] (check t bin origin content).0 ≡ [])
      × (runs_on_ready absent (check t bin origin content).0 ≡ true)
      × ((verdict (check t bin origin content) ≡ accepted)
          ↔ ((t.create ≡ none) × (t.write ≡ none) × (t.close ≡ none) × (t.exit ≡ passed)))
      × ((out : String)
          → (verdict (check t bin origin content) ≡ rejected out) ↔ (
              (t.create ≡ none)
              × (t.write ≡ none)
              × (t.close ≡ none)
              × ((e : String) × (t.exit ≡ nonzero e))
              × (t.output ≡ out)))
unfolding check verdict open_after runs_on_ready
check_lem t bin origin content = ground arith
