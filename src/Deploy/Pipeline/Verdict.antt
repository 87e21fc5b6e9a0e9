-- ===== src/Deploy/Pipeline/Verdict.antt =====
-- What the status of a deploy says of its targets.
use mrdns.Prelude.{
  String, Bool, true, false, not, ◌||◌, Option, none, List, [], ◌∷◌, map, any, All, ◌≡◌, ◌≢◌, refl,
  ap, ◌∙◌, ◌⊎◌, inl, inr, arith, Bool-cases,
}
use mrdns.Dns.{Dns}
use mrdns.Deploy.{Status, success, partial, failed, ServerResult}
use mrdns.Deploy.Remote.{
  Remote, Request, Slot, DeployError, LocalCheck, accepted, rejected, unavailable,
}
use mrdns.Deploy.Pipeline.{
  staged, finished, deploy, all_checked, final_status, roll_out, after_check, for_targets,
}
use mrdns.Deploy.Pipeline.Outcome.{
  All-map, All-weaken, Unmoved, staged-Unmoved, Settled, finished-Settled,
}

-- What a status says of the targets and of the error beside it.
abbrev pub Means : Status → List ServerResult → Option DeployError → Type 0
Means failed rs e =
    All (λ r. r.moved ≡ false) rs × ((e ≢ none) ⊎ (any (λ r. not r.checked) rs ≡ true))
Means partial rs e =
    All (λ r. r.checked ≡ true) rs
    × (any (λ r. not r.moved || not r.reloaded) rs ≡ true)
    × (e ≡ none)
Means success rs e =
    All (λ r. (r.checked ≡ true) × (r.moved ≡ true) × (r.reloaded ≡ true)) rs × (e ≡ none)

module _ (d : Dns) (rem : Remote) (req : Request) where
  some_unchecked :
      (slots : List Slot)
      → all_checked slots ≡ false
      → any (λ r. not r.checked) (map (λ s. s.result) slots) ≡ true
  some_unchecked [] c = ground arith
  some_unchecked (s ∷ slots) c = elim (Bool-cases s.result.checked) [
    | inl k ↦ (let rest = some_unchecked slots (ground arith) in ground arith)
    | inr k ↦ ground arith
  ]

  any-map :
      {A B : Type 0} (p : B → Bool) (f : A → B) (xs : List A)
      → any p (map f xs) ≡ any (λ x. p (f x)) xs
  any-map p f [] = refl
  any-map p f (x ∷ xs) = ap (λ b. p (f x) || b) (any-map p f xs)

  All-done :
      (slots : List Slot)
      → any (λ s. not s.result.moved || not s.result.reloaded) slots ≡ false
      → All (Settled d rem req) slots
      → All
          (λ s. (s.result.checked ≡ true) × (s.result.moved ≡ true) × (s.result.reloaded ≡ true))
          slots
  All-done [] a h = tt
  All-done (s ∷ slots) a ((ch, c), h) =
      ((c, ground arith, ground arith), All-done slots (ground arith) h)

  committed_status :
      (slots : List Slot)
      → All (Settled d rem req) slots
      → Means (final_status slots) (map (λ s. s.result) slots) none
  committed_status slots h =
      elim (Bool-cases (any (λ s. not s.result.moved || not s.result.reloaded) slots)) [
        | inl a ↦ rw a (
          All-map (λ r. r.checked ≡ true) (λ s. s.result) slots
              (All-weaken (Settled d rem req) (λ s. s.result.checked ≡ true) slots (λ s k. k.1) h),
          any-map (λ r. not r.moved || not r.reloaded) (λ s. s.result) slots ∙ a,
          refl,
        )
        | inr a ↦ rw a (
          All-map (λ r. (r.checked ≡ true) × (r.moved ≡ true) × (r.reloaded ≡ true)) (λ s. s.result)
              slots (All-done slots a h),
          refl,
        )
      ]

  roll_out_status : Means (roll_out d rem req).status (roll_out d rem req).servers none
  unfolding roll_out
  roll_out_status = elim (Bool-cases (all_checked (staged d rem req))) [
    | inl c ↦ rw c (committed_status (finished d rem req) (finished-Settled d rem req c))
    | inr c ↦ rw c (
      All-map (λ r. r.moved ≡ false) (λ s. s.result) (staged d rem req)
          (All-weaken (λ s. Unmoved d rem req s.result) (λ s. s.result.moved ≡ false)
            (staged d rem req) (λ s h. h.0) (staged-Unmoved d rem req)),
      inr (some_unchecked (staged d rem req) c),
    )
  ]

  -- A deploy with status `failed` moved no target, and it returned an error or a target was not
  -- checked; with status `partial` it checked every target, returned no error, and a target was not
  -- moved or not reloaded; with status `success` it returned no error, and it checked, moved and
  -- reloaded every target.
  pub deploy_status :
      Means (deploy d rem req).0.status (deploy d rem req).0.servers (deploy d rem req).1
  unfolding deploy
  deploy_status = by_targets req.targets
    where
      by_check :
          (c : LocalCheck)
          → Means
              (after_check d rem req c).0.status
              (after_check d rem req c).0.servers
              (after_check d rem req c).1
      by_check accepted = unfold after_check in roll_out_status
      by_check unavailable = roll_out_status
      by_check (rejected out) = (tt, inl (ground arith))

      by_targets :
          (ts : List String)
          → Means
              (for_targets d rem req ts).0.status
              (for_targets d rem req ts).0.servers
              (for_targets d rem req ts).1
      by_targets [] = (tt, inl (ground arith))
      by_targets (t ∷ ts) = by_check (rem.check req.zone req.content)
