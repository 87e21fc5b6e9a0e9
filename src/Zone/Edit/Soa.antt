-- ===== src/Zone/Edit/Soa.antt =====
-- The edits of internal/zone/edit.go leave the SOA record of the zone alone.
use mrdns.Prelude.{
  String, Bool, true, false, none, some, List, [], ◌∷◌, ◌++◌, Result, ok, err, ◌≡◌, refl, ◌∙◌,
  arith, Option-cases, Bool-cases, inl, inr,
}
use mrdns.Dns.{Dns, IsLawful}
use mrdns.Zone.{Zone, first_soa, soa}
use mrdns.Zone.Edit.{
  add, remove, replace, append, editable, new_rr_with_origin, is_soa, kept, replaced, hit,
  remove_first, replace_first,
}

-- One call of a method that edits, and a sequence of calls.
pub data Edit (d : Dns) : Zone d → Zone d → Type 0 where
  added : (z z' : Zone d) (line : String) → add d z line ≡ ok z' → Edit d z z'
  removed : (z : Zone d) (name rtype rd : String) → Edit d z (remove d z name rtype rd).0
  swapped : (z : Zone d) (name rtype rd line : String) → Edit d z (replace d z name rtype rd line).0

pub data Edits (d : Dns) (z : Zone d) : Zone d → Type 0 where
  none_made : Edits d z z
  one_more : {x y : Zone d} → Edits d z x → Edit d x y → Edits d z y

module _ (d : Dns) (lawful : IsLawful d) where
  -- A record that is not typed SOA is skipped by the search for the SOA record.
  pub plain : (r : d.Rr) → is_soa d r ≡ false → d.as_soa r ≡ none
  plain r h = elim (Option-cases (d.as_soa r)) [
    | inl e ↦ e
    | inr (s, e) ↦ absurd (ground (arith, lawful.soa_typed r e))
  ]

  first_soa_append :
      (rs : List d.Rr) (r : d.Rr) → d.as_soa r ≡ none → first_soa d (rs ++ r ∷ []) ≡ first_soa d rs
  unfolding first_soa
  first_soa_append [] r h = rw h
  first_soa_append (x ∷ rs) r h = ground (arith, first_soa_append rs r h)

  module _ (p : d.Rr → Bool) (misses : (r : d.Rr) → p r ≡ true → d.as_soa r ≡ none) where
    remove_first-soa :
        (rs l : List d.Rr) → remove_first d p rs ≡ some l → first_soa d l ≡ first_soa d rs
    unfolding remove_first first_soa
    remove_first-soa [] l h = cc
    remove_first-soa (r ∷ rs) l h = elim (Option-cases (remove_first d p rs)) [
      | inl e ↦ ground (arith, misses r)
      | inr (k, e) ↦ ground (arith, misses r, remove_first-soa rs k e)
    ]

    replace_first-soa :
        (new : d.Rr) (rs l : List d.Rr)
        → d.as_soa new ≡ none
        → replace_first d p new rs ≡ some l
        → first_soa d l ≡ first_soa d rs
    unfolding replace_first first_soa
    replace_first-soa new [] l n h = cc
    replace_first-soa new (r ∷ rs) l n h = elim (Option-cases (replace_first d p new rs)) [
      | inl e ↦ ground (arith, misses r)
      | inr (k, e) ↦ ground (arith, misses r, replace_first-soa new rs k n e)
    ]

  hit-soa : (name rtype rd : String) (r : d.Rr) → hit d name rtype rd r ≡ true → d.as_soa r ≡ none
  unfolding hit
  hit-soa name rtype rd r h = plain r (ground arith)

  editable-soa : (x : Result d.Rr) (r : d.Rr) → editable d x ≡ ok r → d.as_soa r ≡ none
  unfolding editable
  editable-soa (err e) r h = cc
  editable-soa (ok x) r h = elim (Bool-cases (is_soa d x)) [
    | inl e ↦ ground arith
    | inr e ↦ ground (arith, plain x e)
  ]

  append-soa :
      (z z' : Zone d) (x : Result d.Rr)
      → ((r : d.Rr) → x ≡ ok r → d.as_soa r ≡ none)
      → append d z x ≡ ok z'
      → soa d z' ≡ soa d z
  unfolding append soa
  append-soa z z' (err e) h k = cc
  append-soa z z' (ok r) h k = ground (arith, first_soa_append z.records r (h r refl))

  replaced-soa :
      (z : Zone d) (p : d.Rr → Bool) (x : Result d.Rr)
      → ((r : d.Rr) → p r ≡ true → d.as_soa r ≡ none)
      → ((r : d.Rr) → x ≡ ok r → d.as_soa r ≡ none)
      → soa d (replaced d z p x).0 ≡ soa d z
  unfolding replaced kept soa
  replaced-soa z p (err e) h k = refl
  replaced-soa z p (ok new) h k = elim (Option-cases (replace_first d p new z.records)) [
    | inl e ↦ rw e
    | inr (l, e) ↦ rw (e, replace_first-soa p h new z.records l (k new refl) e)
  ]

  remove-soa : (z : Zone d) (name rtype rd : String) → soa d (remove d z name rtype rd).0 ≡ soa d z
  unfolding remove kept soa
  remove-soa z name rtype rd =
      let p = hit d name rtype rd in
      elim (Option-cases (remove_first d p z.records)) [
        | inl e ↦ rw e
        | inr (l, e) ↦ rw (e, remove_first-soa p (hit-soa name rtype rd) z.records l e)
      ]

  Edit-soa : {z z' : Zone d} → Edit d z z' → soa d z' ≡ soa d z
  unfolding add replace
  Edit-soa (added z z' line h) =
      append-soa z z' (editable d (new_rr_with_origin d line z.origin)) (editable-soa _) h
  Edit-soa (removed z name rtype rd) = remove-soa z name rtype rd
  Edit-soa (swapped z name rtype rd line) =
      replaced-soa z (hit d name rtype rd) _ (hit-soa name rtype rd)
        (editable-soa (new_rr_with_origin d line z.origin))

  -- However many calls of `Add`, `Remove` and `Replace` are made on a zone, accepted lines or not,
  -- the SOA record that it has, or that it has none, stays as it was.
  pub Edits-soa : {z z' : Zone d} → Edits d z z' → soa d z' ≡ soa d z
  Edits-soa none_made = refl
  Edits-soa (one_more es e) = Edit-soa e ∙ Edits-soa es
