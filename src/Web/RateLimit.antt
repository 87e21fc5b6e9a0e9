-- ===== src/Web/RateLimit.antt =====
-- internal/web/ratelimit.go: the limiter of login attempts by source address. The mutex makes the
-- calls a sequence.
pub mod Window
use mrdns.Prelude.{
  ℕ, ◌+◌, String, Bool, true, false, List, [], ◌∷◌, ◌++◌, ◌==◌, ltb, leb, if◌then◌else◌, length,
  select,
}

-- The map `hits`; a missing key is an empty list. Times count in the unit of `time.Duration`.
abbrev pub Hits : Type 0
Hits = String → List ℕ

abbrev pub no_hits : Hits
no_hits key = []

abbrev pub store : Hits → String → List ℕ → Hits
store hits key times k = if key == k then times else hits k

-- `t.After(now.Add(-window))`
abbrev pub recent : ℕ → ℕ → ℕ → Bool
recent window now t = ltb now (t + window)

module _ (max window : ℕ) where
  -- whether the attempt is within the limit, and the map after the call
  unfoldable pub allow : Hits → String → ℕ → Bool × Hits
  allow hits key now =
      let kept = select (recent window now) (hits key) in
      if leb max (length kept)
      then (false, store hits key kept)
      else (true, store hits key (kept ++ now ∷ []))
