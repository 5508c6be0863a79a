-- ===== src/CycleTime/Tests.antt =====
-- Runs of the theorems on the CYCLE_TIME register.
use Prim.Native.Nat.{bit_or}
use libhinawa.Base.{◌+◌, ◌*◌, ◌%◌, ◌^◌, ◌<◌, ◌≡◌, ◌↔◌, arith}
use libhinawa.CycleTime.{CycleTime, get_fields, get_raw, compute_tstamp}
use libhinawa.CycleTime.Fields.{get_fields-get_raw}
use libhinawa.CycleTime.Tstamp.{compute_tstamp_exact_iff, first_sec_from, register_sec, low_sec}

-- Second 5, cycle 1000, offset 7.
abbrev sample : CycleTime
sample = record { tv_sec = 9; tv_nsec = 8; clk_id = 1; cycle_timer = 0x0a3e8007 }

get_fields-get_raw_example :
    let (sec, cycle, offset) = get_fields sample in
    (sec < 128)
    × (cycle < 8192)
    × (offset < 4096)
    × (sec * 2 ^ 25 + cycle * 2 ^ 12 + offset ≡ get_raw sample)
get_fields-get_raw_example = get_fields-get_raw sample (omega arith)

compute_tstamp_exact_iff_example :
    ((compute_tstamp sample 0xc3e8).0 ≡ first_sec_from (register_sec sample) (low_sec 0xc3e8))
    ↔ (bit_or (register_sec sample % 8) (low_sec 0xc3e8) ≡ low_sec 0xc3e8)
compute_tstamp_exact_iff_example = compute_tstamp_exact_iff sample 0xc3e8
