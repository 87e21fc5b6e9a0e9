-- ===== src/Zone/Edit/Change.antt =====
-- What a single call of `Remove` or `Replace` of internal/zone/edit.go does to the list of records.
use mrdns.Prelude.{
  String, ok, ◌↔◌, Bool, true, false, Option, none, some, List, [], ◌∷◌, ◌++◌, ◌≡◌, refl, ap, ◌⊎◌,
  inl, inr, arith, Option-cases, Bool-cases, All,
}
use mrdns.Dns.{Dns}
use mrdns.Zone.{Zone}
use mrdns.Zone.Edit.{remove, kept, hit, remove_first, one_record, new_rr_with_origin, line_text}

module _ (d : Dns) where
  one_record-ok_iff :
      (found : List d.Rr × Option String) (r : d.Rr)
      → (one_record d found ≡ ok r) ↔ (found.0 ≡ r ∷ [])
  unfolding one_record
  one_record-ok_iff ([], some e) r = ground arith
  one_record-ok_iff ([], none) r = ground arith
  one_record-ok_iff (x ∷ [], e) r = ground arith
  one_record-ok_iff (x ∷ y ∷ l, e) r = ground arith

  -- The list around its first element that passes a test.
  pub record SplitAt (p : d.Rr → Bool) (rs : List d.Rr) : Type 0 where
    pub before : List d.Rr
    pub found : d.Rr
    pub after : List d.Rr
    pub whole : rs ≡ before ++ found ∷ after
    pub passes : p found ≡ true
    pub first : All (λ r. p r ≡ false) before

  pub record RemovedFirst (p : d.Rr → Bool) (rs l : List d.Rr) : Type 0 where
    pub split : SplitAt p rs
    pub left : l ≡ split.before ++ split.after

  remove_first-none :
      (p : d.Rr → Bool) (rs : List d.Rr) → remove_first d p rs ≡ none → All (λ r. p r ≡ false) rs
  unfolding remove_first
  remove_first-none p [] h = tt
  remove_first-none p (r ∷ rs) h = elim (Bool-cases (p r)) [
    | inl e ↦ ground arith
    | inr e ↦ elim (Option-cases (remove_first d p rs)) [
      | inl n ↦ (e, remove_first-none p rs n)
      | inr (k, n) ↦ ground arith
    ]
  ]

  remove_first-some :
      (p : d.Rr → Bool) (rs l : List d.Rr) → remove_first d p rs ≡ some l → RemovedFirst p rs l
  unfolding remove_first
  remove_first-some p [] l h = cc
  remove_first-some p (r ∷ rs) l h = elim (Bool-cases (p r)) [
    | inl e ↦ record {
      split = record { before = []; found = r; after = rs; whole = refl; passes = e; first = tt };
      left = ground arith;
    }
    | inr e ↦ elim (Option-cases (remove_first d p rs)) [
      | inl n ↦ absurd (ground arith)
      | inr (k, n) ↦
          let s = remove_first-some p rs k n in
          record {
            split = record {
              before = r ∷ s.split.before;
              found = s.split.found;
              after = s.split.after;
              whole = ap (λ (xs : List d.Rr). r ∷ xs) s.split.whole;
              passes = s.split.passes;
              first = (e, s.split.first);
            };
            left = ground (arith, s.left);
          }
    ]
  ]

  -- `Remove` either reports true and takes out the first record that is not the SOA record and
  -- matches name, type and rdata, and only that one, or reports false, and then the zone is
  -- unchanged and holds no such record.
  pub remove_first_match :
      (z : Zone d) (name rtype rd : String)
      → (((remove d z name rtype rd).1 ≡ true)
          × RemovedFirst (hit d name rtype rd) z.records (remove d z name rtype rd).0.records)
        ⊎ (((remove d z name rtype rd).1 ≡ false)
            × ((remove d z name rtype rd).0 ≡ z)
            × All (λ r. hit d name rtype rd r ≡ false) z.records)
  unfolding remove kept
  remove_first_match z name rtype rd =
      elim (Option-cases (remove_first d (hit d name rtype rd) z.records)) [
        | inl e ↦ inr (rw e, rw e, remove_first-none (hit d name rtype rd) z.records e)
        | inr (l, e) ↦ inl (rw e, rw e (remove_first-some (hit d name rtype rd) z.records l e))
      ]

  -- A line is accepted as a record exactly when the parser finds that record in it and no other,
  -- whatever error the parser reports after the record.
  pub new_rr_with_origin-ok_iff :
      (line origin : String) (r : d.Rr)
      → (new_rr_with_origin d line origin ≡ ok r)
        ↔ ((d.parse (line_text d line origin) (d.fqdn origin)).0 ≡ r ∷ [])
  unfolding new_rr_with_origin
  new_rr_with_origin-ok_iff line origin r =
      one_record-ok_iff (d.parse (line_text d line origin) (d.fqdn origin)) r
