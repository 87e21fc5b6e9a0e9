-- ===== src/Deploy/Pipeline/Outcome.antt =====
-- What the result of a deploy says of its targets.
use mrdns.Prelude.{
  Option, refl, ℕ, ◌+◌, String, true, false, List, [], ◌∷◌, map, All, ◌≡◌, inl, inr, arith,
  Bool-cases,
}
use mrdns.Dns.{Dns}
use mrdns.Deploy.{ServerResult, DeployResult}
use mrdns.Deploy.Remote.{
  DeployError, Remote, Request, Slot, LocalCheck, accepted, rejected, unavailable,
}
use mrdns.Deploy.Pipeline.{
  staged, committed, finished, deploy, indexed, all_checked, stage, commit, verify_slot, roll_out,
  after_check, for_targets,
}

-- Each step of a target was reached through the steps before it.
pub record IsChain (r : ServerResult) : Type 0 where
  pub check_staged : r.checked ≡ true → r.staged ≡ true
  pub move_checked : r.moved ≡ true → r.checked ≡ true
  pub reload_moved : r.reloaded ≡ true → r.moved ≡ true
  pub verify_reloaded : r.verified ≡ true → r.reloaded ≡ true

module _ (d : Dns) (rem : Remote) (req : Request) where
  -- A slot after phase 1.
  abbrev pub Unmoved : ServerResult → Type 0
  Unmoved r =
      (r.moved ≡ false)
      × (r.reloaded ≡ false)
      × (r.verified ≡ false)
      × (r.checked ≡ true → r.staged ≡ true)

  stage-Unmoved : (i : ℕ) (name : String) → Unmoved (stage d rem req i name).result
  unfolding stage
  stage-Unmoved i name = ground arith

  abbrev Committed : ServerResult → Type 0
  Committed r =
      (r.checked ≡ true)
      × (r.staged ≡ true)
      × (r.verified ≡ false)
      × (r.reloaded ≡ true → r.moved ≡ true)

  commit-Committed :
      (i : ℕ) (s : Slot)
      → Unmoved s.result
      → s.result.checked ≡ true
      → Committed (commit d rem req i s).result
  unfolding commit
  commit-Committed i s (m, r, v, st) c = ground arith

  verify-IsChain :
      (i : ℕ) (s : Slot) → Committed s.result → IsChain (verify_slot d rem req i s).result
  unfolding verify_slot
  verify-IsChain i s (c, st, v, m) = ground arith

  Unmoved-IsChain : (r : ServerResult) → Unmoved r → IsChain r
  Unmoved-IsChain r (m, re, v, st) = ground arith

pub All-indexed :
    {A B : Type 0} (P : A → Type 0) (Q : B → Type 0) (f : ℕ → A → B)
    → ((i : ℕ) (x : A) → P x → Q (f i x))
    → (i : ℕ) (xs : List A) → All P xs
    → All Q (indexed f i xs)
All-indexed P Q f k i [] h = tt
All-indexed P Q f k i (x ∷ xs) (p, h) = (k i x p, All-indexed P Q f k (i + 1) xs h)

pub All-map :
    {A B : Type 0} (P : B → Type 0) (f : A → B) (xs : List A)
    → All (λ x. P (f x)) xs
    → All P (map f xs)
All-map P f [] h = tt
All-map P f (x ∷ xs) (p, h) = (p, All-map P f xs h)

pub All-weaken :
    {A : Type 0} (P Q : A → Type 0) (xs : List A) → ((x : A) → P x → Q x) → All P xs → All Q xs
All-weaken P Q [] k h = tt
All-weaken P Q (x ∷ xs) k (p, h) = (k x p, All-weaken P Q xs k h)

All-const : {A : Type 0} (xs : List A) → All (λ x. Unit {0}) xs
All-const [] = tt
All-const (x ∷ xs) = (tt, All-const xs)

module _ (d : Dns) (rem : Remote) (req : Request) where
  pub staged-Unmoved : All (λ s. Unmoved d rem req s.result) (staged d rem req)
  unfolding staged
  staged-Unmoved =
      All-indexed (λ n. Unit {0}) (λ s. Unmoved d rem req s.result) (stage d rem req)
        (λ i n u. stage-Unmoved d rem req i n) 0 req.targets (All-const req.targets)

  with_checks :
      (slots : List Slot)
      → all_checked slots ≡ true
      → All (λ s. Unmoved d rem req s.result) slots
      → All (λ s. Unmoved d rem req s.result × (s.result.checked ≡ true)) slots
  with_checks [] c h = tt
  with_checks (s ∷ slots) c (p, h) = ((p, ground arith), with_checks slots (ground arith) h)

  committed-Committed :
      all_checked (staged d rem req) ≡ true
      → All (λ s. Committed d rem req s.result) (committed d rem req)
  unfolding committed
  committed-Committed c =
      All-indexed (λ s. Unmoved d rem req s.result × (s.result.checked ≡ true))
        (λ s. Committed d rem req s.result) (commit d rem req)
        (λ i s u. commit-Committed d rem req i s u.0 u.1) 0 (staged d rem req)
        (with_checks (staged d rem req) c staged-Unmoved)

  abbrev pub Settled : Slot → Type 0
  Settled s = IsChain s.result × (s.result.checked ≡ true)

  verify-Settled :
      (i : ℕ) (s : Slot) → Committed d rem req s.result → Settled (verify_slot d rem req i s)
  unfolding verify_slot
  verify-Settled i s h = (verify-IsChain d rem req i s h, ground arith)

  pub finished-Settled : all_checked (staged d rem req) ≡ true → All Settled (finished d rem req)
  unfolding finished
  finished-Settled c =
      All-indexed (λ s. Committed d rem req s.result) Settled (verify_slot d rem req) verify-Settled
        0 (committed d rem req) (committed-Committed c)

  roll_out-IsChain : All IsChain (roll_out d rem req).servers
  unfolding roll_out
  roll_out-IsChain = elim (Bool-cases (all_checked (staged d rem req))) [
    | inl c ↦ rw c (
        All-map IsChain (λ s. s.result) (finished d rem req)
          (All-weaken Settled (λ s. IsChain s.result) (finished d rem req) (λ s h. h.0)
            (finished-Settled c)))
    | inr c ↦ rw c (
        All-map IsChain (λ s. s.result) (staged d rem req)
          (All-weaken (λ s. Unmoved d rem req s.result) (λ s. IsChain s.result) (staged d rem req)
            (λ s h. Unmoved-IsChain d rem req s.result h) staged-Unmoved))
  ]

  -- In the result of a deploy every target that was verified was reloaded, every target that was
  -- reloaded was moved, every target that was moved was checked, and every target that was checked
  -- was staged.
  pub deploy-IsChain : All IsChain (deploy d rem req).0.servers
  unfolding deploy
  deploy-IsChain = chain req.targets
    where
      by_check : (c : LocalCheck) → All IsChain (after_check d rem req c).0.servers
      by_check accepted = unfold after_check in roll_out-IsChain
      by_check unavailable = roll_out-IsChain
      by_check (rejected out) = tt

      chain : (ts : List String) → All IsChain (for_targets d rem req ts).0.servers
      chain [] = tt
      chain (t ∷ ts) = by_check (rem.check req.zone req.content)

  roll_out_fields :
      ((roll_out d rem req).promoted ≡ false)
      × ((roll_out d rem req).new_serial ≡ req.new_serial)
      × ((roll_out d rem req).old_serial ≡ req.old_serial)
  unfolding roll_out
  roll_out_fields = ground arith

  -- The pipeline hands back the serials that it was given, and never marks a result as promoted.
  pub deploy_fields :
      ((deploy d rem req).0.promoted ≡ false)
      × ((deploy d rem req).0.new_serial ≡ req.new_serial)
      × ((deploy d rem req).0.old_serial ≡ req.old_serial)
  unfolding deploy
  deploy_fields = by_targets req.targets
    where
      Fields : DeployResult × Option DeployError → Type 0
      Fields r =
          (r.0.promoted ≡ false)
          × (r.0.new_serial ≡ req.new_serial)
          × (r.0.old_serial ≡ req.old_serial)

      by_check : (c : LocalCheck) → Fields (after_check d rem req c)
      by_check accepted = unfold after_check in roll_out_fields
      by_check unavailable = roll_out_fields
      by_check (rejected out) = (refl, refl, refl)

      by_targets : (ts : List String) → Fields (for_targets d rem req ts)
      by_targets [] = (refl, refl, refl)
      by_targets (t ∷ ts) = by_check (rem.check req.zone req.content)
