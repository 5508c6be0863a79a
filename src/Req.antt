-- ===== src/Req.antt =====
-- src/fw_req.c: the executor of transactions. Pointer arguments to buffers and sizes are not null
-- here; the pointers to objects and to errors may be.
pub mod Check
pub mod Execute
pub mod Send
pub mod Wait
pub mod Transaction
pub mod Threads
mod Tests
use Prim.Native.Nat.{bit_and}
use libhinawa.Base.{
  ℕ, ◌+◌, ◌*◌, ◌%◌, ◌^◌, min, List, [], ◌∷◌, ◌++◌, Option, none, some, Bool, true, false, not, ◌&&◌,
  ◌==◌, ltb, leb, if◌then◌else◌, take, drop, length, ◌>>=◌,
}
use libhinawa.Enums.{Tcode, Rcode, ReqError}
use libhinawa.Abi.{SendRequest, EventResponse, EventResponse2}
use libhinawa.Env.{ErrorSlot}
use libhinawa.Node.{World}
use libhinawa.Resp.{max_uint}

-- The codes whose address and length should be aligned to a quadlet.
unfoldable pub is_aligned : Tcode → Bool
is_aligned Tcode.write_quadlet_request = true
is_aligned Tcode.read_quadlet_request = true
is_aligned Tcode.lock_mask_swap = true
is_aligned Tcode.lock_compare_swap = true
is_aligned Tcode.lock_fetch_add = true
is_aligned Tcode.lock_little_add = true
is_aligned Tcode.lock_bounded_add = true
is_aligned Tcode.lock_wrap_add = true
is_aligned Tcode.lock_vendor_dependent = true
is_aligned _ = false

unfoldable pub is_read_or_write : Tcode → Bool
is_read_or_write Tcode.read_quadlet_request = true
is_read_or_write Tcode.read_block_request = true
is_read_or_write Tcode.write_quadlet_request = true
is_read_or_write Tcode.write_block_request = true
is_read_or_write _ = false

unfoldable pub is_lock : Tcode → Bool
is_lock Tcode.lock_mask_swap = true
is_lock Tcode.lock_compare_swap = true
is_lock Tcode.lock_fetch_add = true
is_lock Tcode.lock_little_add = true
is_lock Tcode.lock_bounded_add = true
is_lock Tcode.lock_wrap_add = true
is_lock Tcode.lock_vendor_dependent = true
is_lock _ = false

unfoldable pub is_read : Tcode → Bool
is_read Tcode.read_quadlet_request = true
is_read Tcode.read_block_request = true
is_read _ = false

-- The guards of `hinawa_fw_req_request` on the code, the address and the sizes, which are `gsize`:
-- the length to send, or a return of `FALSE`.
unfoldable pub check : Tcode → ℕ → ℕ → ℕ → Option ℕ
check tcode addr length frame_size =
    if not (ltb 0 length && ltb 0 frame_size)
    then none
    else if is_aligned tcode && not (bit_and addr 0x3 == 0 && bit_and length 0x3 == 0)
    then none
    else if is_read_or_write tcode
    then if leb length frame_size then some length else none
    else if is_lock tcode
    then if leb (length * 2 % 2 ^ 64) frame_size then some (length * 2 % 2 ^ 64) else none
    else none

-- The structure for `FW_CDEV_IOC_SEND_REQUEST`; its `length` is a `__u32`. Data goes along with all
-- but the reading codes.
unfoldable pub request_of : ℕ → Tcode → ℕ → ℕ → List ℕ → ℕ → SendRequest
request_of self tcode addr length frame generation = record {
  tcode = tcode;
  length = length % 2 ^ 32;
  offset = addr;
  closure = self;
  payload = if is_read tcode then none else some frame;
  generation = generation;
}

-- `struct waiter`, whose frame is the caller's buffer.
pub record Waiter : Type 0 where
  pub rcode : Rcode
  pub request_tstamp : ℕ
  pub response_tstamp : ℕ
  pub frame : List ℕ
  pub length : ℕ

-- The arguments of the signal `responded`
pub record Responded : Type 0 where
  pub rcode : Rcode
  pub request_tstamp : ℕ
  pub response_tstamp : ℕ
  pub frame : List ℕ
  pub frame_size : ℕ

-- `hinawa_fw_req_handle_response`: the signal that it emits.
unfoldable pub handle_response : EventResponse → Responded
handle_response event = record {
  rcode = event.rcode;
  request_tstamp = max_uint;
  response_tstamp = max_uint;
  frame = event.payload;
  frame_size = event.length;
}

-- `hinawa_fw_req_handle_response2`
unfoldable pub handle_response2 : EventResponse2 → Responded
handle_response2 event = record {
  rcode = event.rcode;
  request_tstamp = event.request_tstamp;
  response_tstamp = event.response_tstamp;
  frame = event.payload;
  frame_size = event.length;
}

-- The structure with a response, of which as much is copied as fits.
abbrev pub filled : Waiter → Responded → Waiter
filled w r = record {
  rcode = r.rcode;
  request_tstamp = r.request_tstamp;
  response_tstamp = r.response_tstamp;
  frame = take (min w.length r.frame_size) r.frame ++ drop (min w.length r.frame_size) w.frame;
  length = min w.length r.frame_size;
}

-- `handle_responded_signal`; no result is a read beyond the response.
unfoldable pub handle_responded_signal : Waiter → Responded → Option Waiter
handle_responded_signal w r =
    if leb (min w.length r.frame_size) (length r.frame) then some (filled w r) else none

unfoldable pub handle_signals : Waiter → List Responded → Option Waiter
handle_signals w [] = some w
handle_signals w (r ∷ rs) = handle_responded_signal w r >>= (λ w'. handle_signals w' rs)

-- `w.rcode == G_MAXUINT`; no code of the enumeration has that number.
unfoldable pub is_pending : Rcode → Bool
is_pending (Rcode.unknown n) = n == max_uint
is_pending _ = false

-- One call of `g_cond_wait_until`: the signals that the dispatcher's thread emits until it returns,
-- because the thread is woken (with no cause, if there are none), or because the time is over.
pub data Wake : Type 0 where
  woken expired : List Responded → Wake

-- The loop of `hinawa_fw_req_transaction_with_tstamp`. At the end of the schedule the time is over
-- and nothing more has happened.
unfoldable pub wait : Waiter → List Wake → Option Waiter
wait w [] = some w
wait w (woken rs ∷ wakes) =
    if is_pending w.rcode then handle_signals w rs >>= (λ w'. wait w' wakes) else some w
wait w (expired rs ∷ wakes) = if is_pending w.rcode then handle_signals w rs else some w

-- `(HinawaFwReqError)w.rcode` and the `default` of the switch; no error for a completed transaction.
unfoldable pub error_of : Rcode → Option ReqError
error_of Rcode.complete = none
error_of Rcode.conflict_error = some ReqError.conflict_error
error_of Rcode.data_error = some ReqError.data_error
error_of Rcode.type_error = some ReqError.type_error
error_of Rcode.address_error = some ReqError.address_error
error_of Rcode.send_error = some ReqError.send_error
error_of Rcode.cancelled = some ReqError.cancelled
error_of Rcode.busy = some ReqError.busy
error_of Rcode.generation = some ReqError.generation
error_of Rcode.no_ack = some ReqError.no_ack
error_of Rcode.invalid = some ReqError.invalid
error_of (Rcode.unknown n) = some ReqError.invalid

-- What a transaction returns and leaves in the memory of the caller; `tstamp` is `none` where the
-- array is not written.
pub record Result : Type 0 where
  pub value : Bool
  pub error : ErrorSlot
  pub world : World
  pub frame : List ℕ
  pub frame_size : ℕ
  pub tstamp : Option (ℕ × ℕ)

-- `struct waiter` before the request.
abbrev pub fresh_waiter : List ℕ → ℕ → Waiter
fresh_waiter frame frame_size = record {
  rcode = Rcode.unknown max_uint;
  request_tstamp = max_uint;
  response_tstamp = max_uint;
  frame = frame;
  length = frame_size;
}
