-- ===== src/Zone/Serial.antt =====
-- internal/zone/serial.go: how the SOA serial advances on each deploy.
pub mod Order
use mrdns.Prelude.{
  ℕ, ◌+◌, ◌*◌, ◌%◌, ◌^◌, String, List, [], ◌∷◌, none, some, Result, ok, err, ◌==◌, leb, ltb,
  if◌then◌else◌,
}
use mrdns.Dns.{Dns, Soa}
use mrdns.Zone.{Zone, soa}

-- What the code reads of a `time.Time`, from 1970 on: `Unix()` and `Date()`.
pub record Time : Type 0 where
  pub unix : ℕ
  pub year : ℕ
  pub month : ℕ
  pub day : ℕ

-- the values of a uint32
abbrev pub u32 : ℕ
u32 = 2 ^ 32

unfoldable pub date_serial : Time → ℕ
date_serial now =
    (((now.year % u32) * 1_000_000 % u32 + now.month * 10_000 % u32) % u32 + now.day * 100 % u32)
    % u32

-- `current + 1` on a uint32
abbrev pub increment : ℕ → ℕ
increment current = (current + 1) % u32

unfoldable pub next_serial : String → ℕ → Time → ℕ
next_serial policy current now =
    let n = now.unix % u32 in
    let base = date_serial now in
    if policy == "unixtime"
    then (if leb n current then increment current else n)
    else if policy == "increment"
    then increment current
    else if ltb current base
    then base
    else increment current

module _ (d : Dns) where
  -- `soa.Serial = n` through the pointer to the first SOA record
  unfoldable pub assign_serial : ℕ → List d.Rr → List d.Rr
  assign_serial n [] = []
  assign_serial n (r ∷ rs) = elim (d.as_soa r) [
    | none ↦ r ∷ assign_serial n rs
    | some s ↦ d.set_serial n r ∷ rs
  ]

  bump : String → Time → Zone d → Result Soa → Result (ℕ × ℕ) × Zone d
  bump policy now z (err e) = (err e, z)
  bump policy now z (ok s) =
      let n = next_serial policy s.serial now in
      (ok (s.serial, n), record z { records = assign_serial n z.records })

  -- the old and the new serial, and the zone after the call
  unfoldable pub bump_serial : Zone d → String → Time → Result (ℕ × ℕ) × Zone d
  unfolding bump assign_serial
  bump_serial z policy now = bump policy now z (soa d z)
