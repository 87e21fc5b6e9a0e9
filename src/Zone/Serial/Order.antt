-- ===== src/Zone/Serial/Order.antt =====
-- Bounds and order of the serials that `next_serial` and `date_serial` give.
use mrdns.Prelude.{
  ℕ, ◌+◌, ◌*◌, ◌-◌, ◌%◌, ◌^◌, ◌≤◌, ◌<◌, ◌≡◌, ◌⊎◌, String, arith, ◌==◌, if◌then◌else◌,
}
use mrdns.Zone.Serial.{Time, u32, date_serial, next_serial}

-- RFC 1982's order on serials of 32 bits: `b` comes after `a`.
abbrev pub SerialLt : ℕ → ℕ → Type 0
SerialLt a b = ((a < b) × (b - a < 2 ^ 31)) ⊎ ((b < a) × (2 ^ 31 < a - b))

-- The serial that the clock suggests to a policy.
abbrev pub clock_serial : String → Time → ℕ
clock_serial policy now =
    if policy == "unixtime"
    then now.unix % u32
    else if policy == "increment"
    then 0
    else date_serial now

-- Under every policy and at every time, a serial is followed by one that fits a uint32: a strictly
-- larger one below the largest uint32, 0 after it, and in the order of RFC 1982 a later one, also
-- where it wraps, if the clock's serial is less than 2 ^ 31 ahead.
pub next_serial_lem :
    (policy : String) (current : ℕ) (now : Time)
    → current < u32
    → (next_serial policy current now < u32)
      × (current < u32 - 1 → current < next_serial policy current now)
      × (current ≡ u32 - 1 → next_serial policy current now ≡ 0)
      × (clock_serial policy now < current + 2 ^ 31
          → SerialLt current (next_serial policy current now))
unfolding next_serial date_serial
next_serial_lem policy current now h = ground arith

-- A day of the calendar, in the years whose serials fit a uint32.
pub record IsDay (t : Time) : Type 0 where
  pub year_fits : t.year < 4294
  pub month_fits : t.month ≤ 12
  pub day_fits : t.day ≤ 31

abbrev pub IsEarlierDay : Time → Time → Type 0
IsEarlierDay a b =
    (a.year < b.year)
    ⊎ (((a.year ≡ b.year) × (a.month < b.month))
        ⊎ ((a.year ≡ b.year) × (a.month ≡ b.month) × (a.day < b.day)))

date_serial-eq :
    (t : Time) → IsDay t → date_serial t ≡ t.year * 1_000_000 + t.month * 10_000 + t.day * 100
unfolding date_serial
date_serial-eq t h = omega arith

-- The hundred serials from a day's own lie below the serial of every later day.
pub date_serial_later :
    (a b : Time) → IsDay a → IsDay b → IsEarlierDay a b → date_serial a + 99 < date_serial b
date_serial_later a b ha hb h = omega (arith, date_serial-eq a ha, date_serial-eq b hb)
