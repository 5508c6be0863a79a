-- ===== src/CycleTime/Fields.antt =====
-- The register's fields as quotients and remainders.
use Prim.Native.Nat.{bit_and}
use libhinawa.Base.{ℕ, ◌+◌, ◌*◌, ◌/◌, ◌%◌, ◌^◌, ◌<◌, ◌≡◌, arith}
use native.Mathlib.Nat.{div-one}
use libhinawa.Bits.{◌>>>◌, bit_and-low_mask, bit_and-shr}
use libhinawa.CycleTime.{
  CycleTime, cycle_time_to_sec, cycle_time_to_cycle, cycle_time_to_offset, get_fields, parse_tstamp,
  get_raw, tstamp_sec, tstamp_cycle,
}

pub to_sec_lem : (t : ℕ) → cycle_time_to_sec t ≡ t / 2 ^ 25 % 128
unfolding cycle_time_to_sec
to_sec_lem t = omega (arith, bit_and-shr 25 t 0xfe000000, bit_and-low_mask 7 (t >>> 25))

pub to_cycle_lem : (t : ℕ) → cycle_time_to_cycle t ≡ t / 2 ^ 12 % 2 ^ 13
unfolding cycle_time_to_cycle
to_cycle_lem t = omega (arith, bit_and-shr 12 t 0x01fff000, bit_and-low_mask 13 (t >>> 12))

pub to_offset_lem : (t : ℕ) → cycle_time_to_offset t ≡ t % 2 ^ 12
unfolding cycle_time_to_offset
to_offset_lem t = bit_and-low_mask 12 t

-- The three fields that `hinawa_cycle_time_get_fields` stores stay below 128, 8192 and 4096, no
-- cast to `guint16` cuts one off, and together they hold all of a 32 bit register: shifted back to
-- their places they add up to what `hinawa_cycle_time_get_raw` stores.
pub get_fields-get_raw :
    (self : CycleTime)
    → self.cycle_timer < 2 ^ 32
    → let (sec, cycle, offset) = get_fields self in
      (sec < 128)
      × (cycle < 8192)
      × (offset < 4096)
      × (sec * 2 ^ 25 + cycle * 2 ^ 12 + offset ≡ get_raw self)
unfolding get_fields get_raw
get_fields-get_raw self h =
    rw (to_sec_lem self.cycle_timer, to_cycle_lem self.cycle_timer, to_offset_lem self.cycle_timer)
      (omega arith)

pub tstamp_sec_lem : (t : ℕ) → tstamp_sec t ≡ t / 2 ^ 13 % 8
tstamp_sec_lem t = omega (arith, bit_and-shr 13 t 0xe000, bit_and-low_mask 3 (t >>> 13))

pub tstamp_cycle_lem : (t : ℕ) → tstamp_cycle t ≡ t % 2 ^ 13
tstamp_cycle_lem t = omega (arith, bit_and-low_mask 13 t, div-one (bit_and t 0x1fff))

-- `hinawa_cycle_time_parse_tstamp` splits a 16 bit time stamp into 3 bits of seconds and 13 bits of
-- cycles, and loses nothing.
parse_tstamp_lem :
    (tstamp : ℕ)
    → tstamp < 2 ^ 16
    → let (sec, cycle) = parse_tstamp tstamp in
      (sec < 8) × (cycle < 8192) × (sec * 2 ^ 13 + cycle ≡ tstamp)
unfolding parse_tstamp
parse_tstamp_lem tstamp h = rw (tstamp_sec_lem tstamp, tstamp_cycle_lem tstamp) (omega arith)
