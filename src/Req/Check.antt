-- ===== src/Req/Check.antt =====
-- Which requests the guards of `hinawa_fw_req_request` let pass.
use libhinawa.Base.{ℕ, ◌+◌, ◌*◌, ◌%◌, ◌^◌, ◌≤◌, ◌<◌, ◌≡◌, ◌↔◌, some, arith}
use libhinawa.Bits.{bit_and-low_mask}
use libhinawa.Enums.{Tcode}
use libhinawa.Req.{is_aligned, is_read_or_write, is_lock, check}

-- The transfers of IEEE 1394 behind the codes.
pub data Transfer : Type 0 where
  quadlet block lock unsupported : Transfer

abbrev pub transfer_of : Tcode → Transfer
transfer_of Tcode.write_quadlet_request = quadlet
transfer_of Tcode.read_quadlet_request = quadlet
transfer_of Tcode.write_block_request = block
transfer_of Tcode.read_block_request = block
transfer_of Tcode.lock_mask_swap = lock
transfer_of Tcode.lock_compare_swap = lock
transfer_of Tcode.lock_fetch_add = lock
transfer_of Tcode.lock_little_add = lock
transfer_of Tcode.lock_bounded_add = lock
transfer_of Tcode.lock_wrap_add = lock
transfer_of Tcode.lock_vendor_dependent = lock
transfer_of _ = unsupported

-- A quadlet transfer is aligned, a lock is aligned and carries two operands, and the buffer holds
-- what is sent.
abbrev pub Fits : Transfer → ℕ → ℕ → ℕ → ℕ → Type 0
Fits quadlet addr length frame_size sent =
    (addr % 4 ≡ 0) × (length % 4 ≡ 0) × (length ≤ frame_size) × (sent ≡ length)
Fits block addr length frame_size sent = (length ≤ frame_size) × (sent ≡ length)
Fits lock addr length frame_size sent =
    (addr % 4 ≡ 0) × (length % 4 ≡ 0) × (2 * length ≤ frame_size) × (sent ≡ 2 * length)
Fits unsupported addr length frame_size sent = ⊥

-- For a length below 2 ^ 63, the guards pass exactly the requests of a supported code with a length
-- and a buffer that are not empty, that are aligned as their transfer wants it and whose buffer
-- holds what is sent; and they pass the number of bytes to send.
pub check_iff :
    (tcode : Tcode) (addr length frame_size sent : ℕ)
    → length < 2 ^ 63
    → (check tcode addr length frame_size ≡ some sent)
      ↔ ((0 < length) × (0 < frame_size) × Fits (transfer_of tcode) addr length frame_size sent)
unfolding check is_aligned is_read_or_write is_lock
check_iff Tcode.write_quadlet_request addr length frame_size sent h = (
  λ e. ground (arith, bit_and-low_mask 2 addr, bit_and-low_mask 2 length),
  λ f. ground (arith, bit_and-low_mask 2 addr, bit_and-low_mask 2 length),
)
check_iff t addr length frame_size sent h = (
  λ e. ground (arith, bit_and-low_mask 2 addr, bit_and-low_mask 2 length),
  λ f. ground (arith, bit_and-low_mask 2 addr, bit_and-low_mask 2 length),
)

-- Of an aligned lock of 2 ^ 63 + 4 * k bytes, whose operands no buffer holds, the guards pass only
-- 8 * k bytes: the doubled length wraps, and a buffer of that size is enough.
check_wraps :
    (addr k frame_size : ℕ)
    → addr % 4 ≡ 0
    → 8 * k < 2 ^ 63
    → 8 * k ≤ frame_size
    → 0 < frame_size
    → check Tcode.lock_compare_swap addr (2 ^ 63 + 4 * k) frame_size ≡ some (8 * k)
unfolding check is_aligned is_read_or_write is_lock
check_wraps addr k frame_size a b c d =
    ground (arith, bit_and-low_mask 2 addr, bit_and-low_mask 2 (2 ^ 63 + 4 * k))
