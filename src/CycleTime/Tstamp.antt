-- ===== src/CycleTime/Tstamp.antt =====
-- `hinawa_cycle_time_compute_tstamp`: completing the 3 bits of seconds in a time stamp by the
-- register's 7 bits.
use Prim.Native.Nat.{bit_or}
use libhinawa.Base.{ℕ, ◌+◌, ◌-◌, ◌*◌, ◌/◌, ◌%◌, ◌^◌, ◌<◌, ◌≡◌, ◌↔◌, refl, arith, ltb, if◌then◌else◌}
use libhinawa.Bits.{bit_and-low_mask, bit_or-zero, bit_or-lt, bit_or_split}
use libhinawa.CycleTime.{CycleTime, cycle_time_to_sec, get_fields, parse_tstamp, compute_tstamp}
use libhinawa.CycleTime.Fields.{to_sec_lem, tstamp_sec_lem}

-- The first second, counted modulo 128, from `sec` on whose three low bits are `low`.
abbrev pub first_sec_from : ℕ → ℕ → ℕ
first_sec_from sec low = (sec + (low + 8 - sec % 8) % 8) % 128

or_low_three : (a b : ℕ) → b < 8 → bit_or a b ≡ a / 8 * 8 + bit_or (a % 8) b
or_low_three a b h = rw (bit_or_split 3 a b, high, low) (omega (arith, bit_or-zero (a / 8)))
  where
    high : b / 8 ≡ 0
    high = omega arith

    low : b % 8 ≡ b
    low = omega arith

-- The second of the register, and the three bits of seconds in the time stamp.
abbrev pub register_sec : CycleTime → ℕ
register_sec self = (get_fields self).0

abbrev pub low_sec : ℕ → ℕ
low_sec tstamp = (parse_tstamp tstamp).0

-- The arithmetic of the function on a second `sec` and the time stamp's three bits.
completed : ℕ → ℕ → ℕ
completed sec low = bit_or (if ltb low (sec % 8) then sec + 8 else sec) low % 128

completed_lem :
    (sec low : ℕ)
    → low < 8
    → completed sec low
      ≡ ((if ltb low (sec % 8) then sec + 8 else sec) / 8 * 8 + bit_or (sec % 8) low) % 128
unfolding completed
completed_lem sec low h =
    rw (or_low_three (if ltb low (sec % 8) then sec + 8 else sec) low h) (ground arith)

completed_fields :
    (sec low : ℕ)
    → low < 8
    → (completed sec low < 128) × (completed sec low % 8 ≡ bit_or (sec % 8) low)
completed_fields sec low h =
    omega (arith, completed_lem sec low h, bit_or-lt 3 (sec % 8) low (omega arith) h)

completed_exact_iff :
    (sec low : ℕ)
    → low < 8
    → (completed sec low ≡ first_sec_from sec low) ↔ (bit_or (sec % 8) low ≡ low)
completed_exact_iff sec low h = (
  λ e. ground (arith, completed_lem sec low h, bit_or-lt 3 (sec % 8) low, e),
  λ e. ground (arith, completed_lem sec low h, e),
)

compute_tstamp_eq :
    (self : CycleTime) (tstamp : ℕ)
    → compute_tstamp self tstamp
      ≡ (completed (register_sec self) (low_sec tstamp), (parse_tstamp tstamp).1)
unfolding compute_tstamp parse_tstamp completed get_fields
compute_tstamp_eq self tstamp = rw (small, small_sum, bit_and-low_mask 3 sec) refl
  where
    sec : ℕ
    sec = cycle_time_to_sec self.cycle_timer

    small : sec % 2 ^ 16 ≡ sec
    small = omega (arith, to_sec_lem self.cycle_timer)

    small_sum : (sec + 8) % 2 ^ 32 ≡ sec + 8
    small_sum = omega (arith, to_sec_lem self.cycle_timer)

low_sec-lt : (tstamp : ℕ) → low_sec tstamp < 8
unfolding parse_tstamp
low_sec-lt tstamp = omega (arith, tstamp_sec_lem tstamp)

-- What `hinawa_cycle_time_compute_tstamp` stores: a second below 128 whose three low bits are
-- those of the time stamp or-ed with those of the register, and the time stamp's cycle.
compute_tstamp_lem :
    (self : CycleTime) (tstamp : ℕ)
    → let (sec, cycle) = compute_tstamp self tstamp in
      (sec < 128)
      × (sec % 8 ≡ bit_or (register_sec self % 8) (low_sec tstamp))
      × (cycle ≡ (parse_tstamp tstamp).1)
compute_tstamp_lem self tstamp =
    let fields = completed_fields (register_sec self) (low_sec tstamp) (low_sec-lt tstamp) in
    rw (compute_tstamp_eq self tstamp) (fields.0, fields.1, refl)

-- The second is the first one from the register's on that ends in the time stamp's bits exactly
-- when the time stamp has all bits that the register's three low bits have.
pub compute_tstamp_exact_iff :
    (self : CycleTime) (tstamp : ℕ)
    → ((compute_tstamp self tstamp).0 ≡ first_sec_from (register_sec self) (low_sec tstamp))
      ↔ (bit_or (register_sec self % 8) (low_sec tstamp) ≡ low_sec tstamp)
compute_tstamp_exact_iff self tstamp =
    rw (compute_tstamp_eq self tstamp)
      (completed_exact_iff (register_sec self) (low_sec tstamp) (low_sec-lt tstamp))
