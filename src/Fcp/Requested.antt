-- ===== src/Fcp/Requested.antt =====
-- src/fw_fcp.c: `handle_requested_signal`, which tells the responses of the bound node from the other
-- requests to the reserved range.
pub mod Laws
use libhinawa.Base.{Option, none, some, Bool, true, false, ◌&&◌, ◌==◌, if◌then◌else◌}
use libhinawa.Enums.{Tcode}
use libhinawa.Node.{FwNode, Property, get_property}
use libhinawa.Resp
use libhinawa.Fcp.{FwFcp, respond_addr}
use libhinawa.Fcp.History.{NodeRecord, NodeHistory, same_record, detect_record, insert_record}
use libhinawa.Fcp.Waiters.{Responded}

unfoldable pub is_write_block : Tcode → Bool
is_write_block Tcode.write_block_request = true
is_write_block _ = false

-- The record of the node's properties.
abbrev pub current_record : FwNode → NodeRecord
current_record n = record {
  generation = get_property n Property.generation;
  src_node_id = get_property n Property.node_id;
}

-- The part under the history's mutex: whether the sender is the bound node, whose properties are
-- those of `n`.
unfoldable pub identify : NodeHistory → FwNode → NodeRecord → NodeHistory × Bool
identify history n sender = if detect_record history sender then (history, true) else (
  if n.generation.generation == sender.generation
      then history
      else insert_record history (current_record n),
  same_record sender (current_record n),
)

abbrev pub sender_of : Resp.Requested → NodeRecord
sender_of signal = record { generation = signal.generation; src_node_id = signal.src_node_id }

-- The arguments of the signal `responded`
abbrev pub signal_of : Resp.Requested → Responded
signal_of signal = record {
  generation = signal.generation;
  tstamp = signal.tstamp;
  frame = signal.frame;
  frame_size = signal.length;
}

-- The test of the address, the code and the card.
unfoldable pub is_response : FwFcp → Resp.Requested → Bool
is_response priv signal =
    signal.offset == respond_addr && is_write_block signal.tcode && signal.card_id == priv.card_id

-- `handle_requested_signal`: the new history, and the signal `responded` if it is emitted. The
-- response code is that for completion always.
unfoldable pub handle_requested_signal : FwFcp → FwNode → Resp.Requested → FwFcp × Option Responded
handle_requested_signal priv n signal =
    let known = identify priv.history n (sender_of signal) in
    if is_response priv signal
    then (record priv { history = known.0 }, if known.1 then some (signal_of signal) else none)
    else (priv, none)
