-- ===== src/Resp/Handle.antt =====
-- src/fw_resp.c: the handlers of the events for requests to the range.
use libhinawa.Base.{ℕ, List, [], ◌∷◌, none, not, ◌||◌, ltb, if◌then◌else◌}
use libhinawa.Enums.{Rcode}
use libhinawa.Abi.{SendResponse, send_response, EventRequest, EventRequest2, EventRequest3}
use libhinawa.Env.{Env, empty, overrun}
use libhinawa.Node.{World, emit}
use libhinawa.Node.Ioctl.{node_ioctl}
use libhinawa.Resp.{FwResp, is_reserved, cleared, has_width, set_resp_frame, Requested, max_uint}
use libhinawa.Resp.Region.{release}

-- What the handlers of the signal do to the object that emits it.
pub data Action : Type 0 where
  answer : List ℕ → Action
  leave : Action

abbrev pub signal_of : EventRequest → Requested
signal_of event = record {
  tcode = event.tcode;
  offset = event.offset;
  src_node_id = max_uint;
  dst_node_id = max_uint;
  card_id = max_uint;
  generation = max_uint;
  tstamp = max_uint;
  frame = event.payload;
  length = event.length;
}

abbrev pub signal_of2 : EventRequest2 → Requested
signal_of2 event = record {
  tcode = event.tcode;
  offset = event.offset;
  src_node_id = event.source_node_id;
  dst_node_id = event.destination_node_id;
  card_id = event.card;
  generation = event.generation;
  tstamp = max_uint;
  frame = event.payload;
  length = event.length;
}

abbrev pub signal_of3 : EventRequest3 → Requested
signal_of3 event = record {
  tcode = event.tcode;
  offset = event.offset;
  src_node_id = event.source_node_id;
  dst_node_id = event.destination_node_id;
  card_id = event.card;
  generation = event.generation;
  tstamp = event.tstamp;
  frame = event.payload;
  length = event.length;
}

-- The structure for `FW_CDEV_IOC_SEND_RESPONSE`: no data unless a handler has set a frame.
abbrev pub response : FwResp → Rcode → ℕ → SendResponse
response priv rcode handle =
    if ltb 0 priv.resp_length
    then record {
      rcode = rcode;
      length = priv.resp_length;
      payload = priv.resp_frame;
      handle = handle;
    }
    else record { rcode = rcode; length = 0; payload = none; handle = handle }

-- The `memset` of the frame: one beyond its memory is an effect.
abbrev pub wiped : World → FwResp → World
wiped w priv = if has_width priv.resp_frame priv.width then w else emit w overrun

module _ (E : Env) where
  unfoldable pub act : World → FwResp → List Action → World × FwResp
  act w priv [] = (w, priv)
  act w priv (answer frame ∷ actions) = act w (set_resp_frame priv frame) actions
  act w priv (leave ∷ actions) = let (w', priv') = release E w priv in act w' priv' actions

  -- The emission of `requested`: the actions of its handlers, and the response code that they return.
  -- The code of the handlers is a parameter.
  module _ (handlers : Requested → List Action × Rcode) where
    unfoldable pub emit_requested : World → FwResp → Requested → World × FwResp × Rcode
    emit_requested w priv signal =
        let (actions, rcode) = handlers signal in
        let (w', priv') = act w priv actions in (w', priv', rcode)

    -- The part that the three functions share: `length` and `handle` are those of the event.
    unfoldable pub handle : World → FwResp → Requested → ℕ → World × FwResp
    handle w priv signal handle_id =
        let (w', priv', rcode) =
          if not (is_reserved (cleared priv)) || ltb priv.width signal.length
          then (wiped w priv, cleared priv, Rcode.conflict_error)
          else emit_requested (wiped w priv) (cleared priv) signal in
        let r = node_ioctl E w' priv'.node send_response (response priv' rcode handle_id) empty in
        (r.world, priv')

    -- `hinawa_fw_resp_handle_request`
    unfoldable pub handle_request : World → FwResp → EventRequest → World × FwResp
    handle_request w priv event = handle w priv (signal_of event) event.handle

    -- `hinawa_fw_resp_handle_request2`
    unfoldable pub handle_request2 : World → FwResp → EventRequest2 → World × FwResp
    handle_request2 w priv event = handle w priv (signal_of2 event) event.handle

    -- `hinawa_fw_resp_handle_request3`
    unfoldable pub handle_request3 : World → FwResp → EventRequest3 → World × FwResp
    handle_request3 w priv event = handle w priv (signal_of3 event) event.handle
