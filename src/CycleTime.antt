-- ===== src/CycleTime.antt =====
-- src/cycle_time.c: the fields of the CYCLE_TIME register and the time stamps of the 1394 OHCI
-- contexts. All arithmetic is on `guint`, 32 bits wide.
pub mod Fields
pub mod Tstamp
mod Tests
use Prim.Native.Nat.{bit_and, bit_or}
use libhinawa.Base.{ℕ, ◌+◌, ◌%◌, ◌^◌, ltb, if◌then◌else◌}
use libhinawa.Bits.{◌>>>◌}

-- `HinawaCycleTime`, which is `struct fw_cdev_get_cycle_timer2`. The signed times are only copied,
-- never computed with, so they stand here as bit patterns.
pub record CycleTime : Type 0 where
  pub tv_sec : ℕ
  pub tv_nsec : ℕ
  pub clk_id : ℕ
  pub cycle_timer : ℕ

-- `g_malloc0` of the structure.
unfoldable pub new : CycleTime
new = record { tv_sec = 0; tv_nsec = 0; clk_id = 0; cycle_timer = 0 }

unfoldable pub copy : CycleTime → CycleTime
copy self = record {
  tv_sec = self.tv_sec;
  tv_nsec = self.tv_nsec;
  clk_id = self.clk_id;
  cycle_timer = self.cycle_timer;
}

unfoldable pub get_system_time : CycleTime → ℕ × ℕ
get_system_time self = (self.tv_sec, self.tv_nsec)

unfoldable pub get_clock_id : CycleTime → ℕ
get_clock_id self = self.clk_id

unfoldable pub get_raw : CycleTime → ℕ
get_raw self = self.cycle_timer

unfoldable pub cycle_time_to_sec : ℕ → ℕ
cycle_time_to_sec cycle_time = bit_and cycle_time 0xfe000000 >>> 25

unfoldable pub cycle_time_to_cycle : ℕ → ℕ
cycle_time_to_cycle cycle_time = bit_and cycle_time 0x01fff000 >>> 12

unfoldable pub cycle_time_to_offset : ℕ → ℕ
cycle_time_to_offset cycle_time = bit_and cycle_time 0x00000fff

-- The elements of the array are `guint16`.
unfoldable pub get_fields : CycleTime → ℕ × ℕ × ℕ
get_fields self = (
  cycle_time_to_sec self.cycle_timer % 2 ^ 16,
  cycle_time_to_cycle self.cycle_timer % 2 ^ 16,
  cycle_time_to_offset self.cycle_timer % 2 ^ 16,
)

-- `(tstamp & OHCI1394_TSTAMP_SEC_MASK) >> OHCI1394_TSTAMP_SEC_SHIFT`
abbrev pub tstamp_sec : ℕ → ℕ
tstamp_sec tstamp = bit_and tstamp 0x0000e000 >>> 13

-- `(tstamp & OHCI1394_TSTAMP_CYCLE_MASK) >> OHCI1394_TSTAMP_CYCLE_SHIFT`
abbrev pub tstamp_cycle : ℕ → ℕ
tstamp_cycle tstamp = bit_and tstamp 0x00001fff >>> 0

unfoldable pub parse_tstamp : ℕ → ℕ × ℕ
parse_tstamp tstamp = (tstamp_sec tstamp, tstamp_cycle tstamp)

unfoldable pub compute_tstamp : CycleTime → ℕ → ℕ × ℕ
compute_tstamp self tstamp =
    let tstamp_sec_low = tstamp_sec tstamp in
    let curr_sec_low = bit_and (cycle_time_to_sec self.cycle_timer) 0x7 in
    let sec = cycle_time_to_sec self.cycle_timer in
    let rounded = if ltb tstamp_sec_low curr_sec_low then (sec + 8) % 2 ^ 32 else sec in
    (bit_or rounded tstamp_sec_low % 128, tstamp_cycle tstamp)
