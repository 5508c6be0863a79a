-- ===== src/Dispatch.antt =====
-- src/fw_node.c: the event source of a node, which reads events from the character device and hands
-- them to the objects that they are for.
pub mod Laws
pub mod Run
pub mod Delivery
pub mod Update
pub mod Soundness
mod Tests
use libhinawa.Base.{
  ℕ, List, [], ◌∷◌, Option, none, some, Bool, true, false, not, ◌&&◌, ◌||◌, ◌==◌, if◌then◌else◌,
  update,
}
use libhinawa.Enums.{Rcode, not_opened}
use libhinawa.Abi.{Event, EventBody, bus_reset, response, response2, request, request2, request3}
use libhinawa.Env.{Env, ErrorSlot, node_error, Reply, done, failed, set_error, is_unset}
use libhinawa.Node.{FwNode, World, put_node}
use libhinawa.Node.Open.{handle_update}
use libhinawa.Resp
use libhinawa.Resp.{FwResp}
use libhinawa.Resp.Handle.{Action, handle_request, handle_request2, handle_request3}
use libhinawa.Req

-- `EAGAIN`
abbrev pub eagain : ℕ
eagain = 11

-- The objects by their addresses: those of `HinawaFwNode` in the world, those of `HinawaFwResp`, and
-- whether an address is that of a `HinawaFwReq`.
pub record Objects : Type 0 where
  pub world : World
  pub resps : ℕ → Option FwResp
  pub reqs : ℕ → Bool

-- The signals that the source emits itself or through `hinawa_fw_req_handle_response`.
pub data Signal : Type 0 where
  disconnected : ℕ → Signal
  bus_update : ℕ → Signal
  responded : ℕ → Req.Responded → Signal

-- The flags `G_IO_IN` and `G_IO_ERR` of the file descriptor.
pub record Condition : Type 0 where
  pub readable : Bool
  pub broken : Bool

-- What a call of the source returns, with the signals in their order.
pub record Dispatched : Type 0 where
  pub keep : Bool
  pub signals : List Signal
  pub objects : Objects

unfoldable pub check_src : Condition → Bool
check_src condition = condition.readable || condition.broken

abbrev pub put_resp : Objects → ℕ → World × FwResp → Objects
put_resp o instance_ (w, resp) = record o {
  world = w;
  resps = update o.resps instance_ (some resp);
}

-- The signal for an event of a request that is still kept.
unfoldable pub response_signals : ℕ → EventBody → List Signal
response_signals req (response event) = responded req (Req.handle_response event) ∷ []
response_signals req (response2 event) = responded req (Req.handle_response2 event) ∷ []
response_signals req _ = []

module _ (E : Env) (handlers : ℕ → Resp.Requested → List Action × Rcode) where
  -- The events of a `HinawaFwResp`
  unfoldable pub dispatch_resp : Objects → ℕ → FwResp → EventBody → Objects
  dispatch_resp o p resp (request event) =
      put_resp o p (handle_request E (handlers p) o.world resp event)
  dispatch_resp o p resp (request2 event) =
      put_resp o p (handle_request2 E (handlers p) o.world resp event)
  dispatch_resp o p resp (request3 event) =
      put_resp o p (handle_request3 E (handlers p) o.world resp event)
  dispatch_resp o p resp _ = o

  -- The events of a `HinawaFwReq`: a request that is not in the list has been invalidated.
  unfoldable pub dispatch_req : Objects → ℕ → FwNode → ℕ → EventBody → Objects × List Signal
  dispatch_req o self priv req body = elim (E.list_find priv.transactions req) [
    | none ↦ (o, [])
    | some entry ↦ (
      record o {
        world =
            put_node o.world self
              (record priv { transactions = E.list_delete_link priv.transactions entry });
      },
      response_signals req body,
    )
  ]

  unfoldable pub is_bus_reset : EventBody → Bool
  is_bus_reset bus_reset = true
  is_bus_reset _ = false

  unfoldable pub is_node : Objects → ℕ → Bool
  is_node o p = elim (o.world.nodes p) [ none ↦ false | some n ↦ true ]

  -- The event by the class of the object behind its closure.
  unfoldable pub dispatch_event : Objects → ℕ → FwNode → Event → Objects × List Signal
  dispatch_event o self priv event =
      if is_node o event.closure && is_bus_reset event.body
      then (record o { world = handle_update E o.world self }, bus_update self ∷ [])
      else elim (o.resps event.closure) [
        | some resp ↦ (dispatch_resp o event.closure resp event.body, [])
        | none ↦
            if o.reqs event.closure
            then dispatch_req o self priv event.closure event.body
            else (o, [])
      ]

  -- `dispatch_src` of the source of the node at `self`; `input` is what `read(2)` would give.
  unfoldable pub dispatch_src : Objects → ℕ → Condition → Reply Event → Dispatched
  dispatch_src o self condition input = elim (o.world.nodes self) [
    | none ↦ record { keep = false; signals = []; objects = o }
    | some priv ↦ elim priv.fd [
      | none ↦ record { keep = false; signals = []; objects = o }
      | some fd ↦
          if condition.broken
          then record { keep = false; signals = disconnected self ∷ []; objects = o }
          else elim input [
            | failed errno ↦ record { keep = errno == eagain; signals = []; objects = o }
            | done event ↦ record {
              keep = true;
              signals = (dispatch_event o self priv event).1;
              objects = (dispatch_event o self priv event).0;
            }
          ]
    ]
  ]

-- `hinawa_fw_node_create_source`: the descriptor that the new source watches.
unfoldable pub create_source : Env → World → Option ℕ → ErrorSlot → Option ℕ × ErrorSlot
create_source E w none error = (none, error)
create_source E w (some self) error = elim (w.nodes self) [
  | none ↦ (none, error)
  | some priv ↦ if not (is_unset error) then (none, error) else elim priv.fd [
    | none ↦ (none, set_error E error (node_error not_opened))
    | some fd ↦ (some fd, error)
  ]
]
