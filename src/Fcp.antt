-- ===== src/Fcp.antt =====
-- src/fw_fcp.c: transactions of the Function Control Protocol, over the classes of requests and of
-- responses.
pub mod History
pub mod Waiters
pub mod Requested
pub mod Bind
pub mod Avc
pub mod Receive
pub mod Threads
mod Tests
use libhinawa.Base.{ℕ, List, [], Option, none, some, Bool, true, false, replicate}
use libhinawa.Fcp.History.{NodeHistory, record_count, zero_record}

-- `FCP_MAXIMUM_FRAME_BYTES`, `FCP_REQUEST_ADDR` and `FCP_RESPOND_ADDR`
abbrev pub maximum_frame_bytes : ℕ
maximum_frame_bytes = 0x200

abbrev pub request_addr : ℕ
request_addr = 0xfffff0000b00

abbrev pub respond_addr : ℕ
respond_addr = 0xfffff0000d00

-- `AVC_STATUS_INTERIM`
abbrev pub interim : ℕ
interim = 0x0f

-- `HinawaFwFcpPrivate`; the list holds the addresses of `struct waiter`.
pub record FwFcp : Type 0 where
  pub node : Option ℕ
  pub card_id : ℕ
  pub transactions : List ℕ
  pub history : NodeHistory

-- `hinawa_fw_fcp_init` on zeroed memory; the cursor is a null pointer there until `reset`, and it is
-- not read before.
unfoldable pub init : FwFcp
init = record {
  node = none;
  card_id = 0;
  transactions = [];
  history = record { records = replicate record_count zero_record; cursor = 0 };
}

unfoldable pub is_bound : FwFcp → Bool
is_bound priv = elim priv.node [ none ↦ false | some node ↦ true ]
