-- ===== src/Zone/Build/Rows.antt =====
-- Which records become editable rows, and what the bump of a serial leaves as it was.
use mrdns.Prelude.{
  ℕ, String, true, false, not, none, some, List, [], ◌∷◌, map, Result, ok, err, ◌≡◌, refl, ap, ◌==◌,
  eq_iff, arith, select, Option-cases, Bool-cases, inl, inr,
}
use mrdns.Dns.{Dns, Soa, IsLawful}
use mrdns.Zone.{Record, Zone, soa, first_soa, view, records}
use mrdns.Zone.Serial.{Time, bump_serial, assign_serial, next_serial}
use mrdns.Zone.Edit.{new_rr_with_origin, is_soa}
use mrdns.Zone.Edit.Soa.{plain}
use mrdns.Zone.Build.{data_records, normalize_record, canonical, normal_line}

module _ (d : Dns) where
  -- The records of a zone that are no `*dns.SOA`.
  unfoldable pub plain_records : List d.Rr → List d.Rr
  plain_records [] = []
  plain_records (r ∷ rs) =
      let rest = plain_records rs in elim (d.as_soa r) [ none ↦ r ∷ rest | some s ↦ rest ]

module _ (d : Dns) (lawful : IsLawful d) where
  soa_name : (r : d.Rr) {s : Soa} → d.as_soa r ≡ some s → (d.type_name (d.rrtype r) == "SOA") ≡ true
  soa_name r e = (eq_iff _ _).1 (rw (lawful.soa_typed r e) lawful.soa_named)

  plain_name : (r : d.Rr) → d.as_soa r ≡ none → (d.type_name (d.rrtype r) == "SOA") ≡ false
  plain_name r e = elim (Bool-cases (d.type_name (d.rrtype r) == "SOA")) [
    | inl t ↦ absurd (lawful.typed_soa r e (lawful.named_soa _ ((eq_iff _ _).0 t)))
    | inr f ↦ f
  ]

  select-view :
      (rs : List d.Rr)
      → select (λ r. not (r.type == "SOA")) (map (view d) rs) ≡ map (view d) (plain_records d rs)
  unfolding view plain_records
  select-view [] = refl
  select-view (r ∷ rs) = elim (Option-cases (d.as_soa r)) [
    | inl e ↦ ground (arith, plain_name r e, select-view rs)
    | inr (s, e) ↦ ground (arith, soa_name r e, select-view rs)
  ]

  -- The editable rows of a zone, chosen by the name of their type, are the views of exactly those
  -- records that are no SOA records, in their order.
  pub data_records-eq-map :
      (z : Zone d) → data_records d z ≡ map (view d) (plain_records d z.records)
  unfolding data_records records
  data_records-eq-map z = select-view z.records

  assign_serial-plain :
      (n : ℕ) (rs : List d.Rr) → plain_records d (assign_serial d n rs) ≡ plain_records d rs
  unfolding assign_serial plain_records
  assign_serial-plain n [] = refl
  assign_serial-plain n (r ∷ rs) = elim (Option-cases (d.as_soa r)) [
    | inl e ↦ ground (arith, assign_serial-plain n rs)
    | inr (s, e) ↦ ground (arith, lawful.serial_set n r s e)
  ]

  assign_serial-soa :
      (n : ℕ) (rs : List d.Rr) (s : Soa)
      → first_soa d rs ≡ some s
      → first_soa d (assign_serial d n rs) ≡ some (record s { serial = n })
  unfolding assign_serial first_soa
  assign_serial-soa n [] s h = cc
  assign_serial-soa n (r ∷ rs) s h = elim (Option-cases (d.as_soa r)) [
    | inl e ↦ ground (arith, assign_serial-soa n rs s)
    | inr (t, e) ↦ ground (arith, lawful.serial_set n r t e)
  ]

  bump_serial-records :
      (z : Zone d) (policy : String) (now : Time) (s : Soa)
      → soa d z ≡ ok s
      → (bump_serial d z policy now).1.records
        ≡ assign_serial d (next_serial policy s.serial now) z.records
  unfolding bump_serial
  bump_serial-records z policy now s h = rw h

  bump_serial-rows :
      (z : Zone d) (policy : String) (now : Time) (s : Soa)
      → soa d z ≡ ok s
      → data_records d (bump_serial d z policy now).1 ≡ data_records d z
  bump_serial-rows z policy now s h =
      rw (data_records-eq-map, data_records-eq-map, bump_serial-records z policy now s h)
        (ap (map (view d)) (assign_serial-plain _ z.records))

  -- `BumpSerial` on a zone with an SOA record returns its serial and the next one by the policy,
  -- stores the next one in that record, whose other fields stay, and leaves the editable rows.
  pub bump_serial_effect :
      (z : Zone d) (policy : String) (now : Time) (s : Soa)
      → soa d z ≡ ok s
      → ((bump_serial d z policy now).0 ≡ ok (s.serial, next_serial policy s.serial now))
        × (soa d (bump_serial d z policy now).1
            ≡ ok (record s { serial = next_serial policy s.serial now }))
        × (data_records d (bump_serial d z policy now).1 ≡ data_records d z)
  unfolding bump_serial soa
  bump_serial_effect z policy now s h =
      let n = next_serial policy s.serial now in
      elim (Option-cases (first_soa d z.records)) [
        | inl e ↦ absurd (ground arith)
        | inr (t, e) ↦ (
          ground arith,
          ground (arith, assign_serial-soa n z.records s),
          bump_serial-rows z policy now s h,
        )
      ]

  canonical_sound :
      (x : Result d.Rr) (row : Record)
      → canonical d x ≡ ok row
      → (r : d.Rr) × (x ≡ ok r) × (d.as_soa r ≡ none) × (row ≡ record (view d r) { class = "IN" })
  unfolding canonical view
  canonical_sound (err e) row h = cc
  canonical_sound (ok r) row h = elim (Bool-cases (is_soa d r)) [
    | inl e ↦ absurd (ground arith)
    | inr e ↦ (r, refl, plain d lawful r e, ground arith)
  ]

  -- A row that `NormalizeRecord` accepts comes from the only record that the parser found in its
  -- line, which is no SOA record; the row has that record's owner, TTL and rdata, class IN, and
  -- the name of its type, which is not SOA.
  pub normalize_record_sound :
      (to_upper : String → String) (origin name : String) (ttl : ℕ) (rtype rd : String)
      (row : Record)
      → normalize_record d to_upper origin name ttl rtype rd ≡ ok row
      → (r : d.Rr) × (new_rr_with_origin d (normal_line to_upper name ttl rtype rd) origin ≡ ok r)
        × (d.as_soa r ≡ none)
        × (row ≡ record (view d r) { class = "IN" })
        × ((row.type == "SOA") ≡ false)
  unfolding normalize_record
  normalize_record_sound to_upper origin name ttl rtype rd row h =
      let (r, e, p, v) =
        canonical_sound (new_rr_with_origin d (normal_line to_upper name ttl rtype rd) origin) row
          h in
      (r, e, p, v, rw v (unfold view in plain_name r p))
