-- ===== src/Enums.antt =====
-- src/hinawa_enum_types.h: the enumerations of the public interface. The numbers behind the
-- transaction and response codes stand in linux/firewire-constants.h, which the repository does not
-- hold: the models use only that the codes differ. `unknown` is any other number.
use libhinawa.Base.{ℕ}

-- `HinawaFwTcode`
pub data Tcode : Type 0 where
  write_quadlet_request write_block_request write_response : Tcode
  read_quadlet_request read_block_request read_quadlet_response read_block_response : Tcode
  cycle_start lock_request stream_data lock_response : Tcode
  lock_mask_swap lock_compare_swap lock_fetch_add lock_little_add : Tcode
  lock_bounded_add lock_wrap_add lock_vendor_dependent : Tcode
  unknown : ℕ → Tcode

-- `HinawaFwRcode`
pub data Rcode : Type 0 where
  complete conflict_error data_error type_error address_error : Rcode
  send_error cancelled busy generation no_ack invalid : Rcode
  unknown : ℕ → Rcode

-- `HinawaFwReqError`
pub data ReqError : Type 0 where
  conflict_error data_error type_error address_error : ReqError
  send_error cancelled busy generation no_ack invalid : ReqError

-- `HinawaFwNodeError`
pub data NodeError : Type 0 where
  disconnected opened not_opened failed : NodeError

-- `HinawaFwRespError`
pub data RespError : Type 0 where
  failed reserved addr_space_used : RespError

-- `HinawaFwFcpError`
pub data FcpError : Type 0 where
  timeout large_resp aborted : FcpError
