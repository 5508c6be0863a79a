-- ===== src/Class/Signals.antt =====
-- The signals of the classes, their emissions, and src/hinawa_sigs_marshal.list.
use Prim.Native.String.{String}
use libhinawa.Base.{ℕ, List, [], ◌∷◌}
use libhinawa.Resp
use libhinawa.Req
use libhinawa.Fcp.Waiters
use libhinawa.Class.{GType, Value}

-- The arguments that the list of marshallers names.
pub data MarshalType : Type 0 where
  void enum uint uint64 pointer : MarshalType

pub record Marshaller : Type 0 where
  pub returns : MarshalType
  pub params : List MarshalType

-- `g_cclosure_marshal_VOID__VOID`
abbrev pub void_void : Marshaller
void_void = record { returns = MarshalType.void; params = [] }

abbrev pub enum_uints : Marshaller
enum_uints = record {
  returns = MarshalType.void;
  params =
      MarshalType.enum ∷ MarshalType.uint ∷ MarshalType.uint ∷ MarshalType.pointer
      ∷ MarshalType.uint ∷ [];
}

abbrev pub uints : Marshaller
uints = record {
  returns = MarshalType.void;
  params = MarshalType.uint ∷ MarshalType.uint ∷ MarshalType.pointer ∷ MarshalType.uint ∷ [];
}

abbrev pub enum_enum : Marshaller
enum_enum = record {
  returns = MarshalType.enum;
  params =
      MarshalType.enum ∷ MarshalType.uint64 ∷ MarshalType.uint ∷ MarshalType.uint ∷ MarshalType.uint
      ∷ MarshalType.uint ∷ MarshalType.uint ∷ MarshalType.pointer ∷ MarshalType.uint ∷ [];
}

-- The three lines of src/hinawa_sigs_marshal.list.
abbrev pub hinawa_sigs_marshal : List Marshaller
hinawa_sigs_marshal = enum_uints ∷ uints ∷ enum_enum ∷ []

pub data ClassSignal : Type 0 where
  node_bus_update node_disconnected req_responded resp_requested fcp_responded : ClassSignal

-- `g_signal_new`, with the prototype of the function in the structure of the class: the types of its
-- result and of its arguments behind the first.
pub record SignalSpec : Type 0 where
  pub name : String
  pub marshaller : Marshaller
  pub return_type : GType
  pub n_params : ℕ
  pub param_types : List GType
  pub prototype : GType × List GType

-- `HinawaFwNodeClass.bus_update` and `HinawaFwNodeClass.disconnected`
abbrev node_prototype : GType × List GType
node_prototype = (GType.void, [])

-- `HinawaFwReqClass.responded`
abbrev responded_prototype : GType × List GType
responded_prototype =
    (GType.void, GType.fw_rcode ∷ GType.uint ∷ GType.uint ∷ GType.pointer ∷ GType.uint ∷ [])

-- `HinawaFwRespClass.requested`
abbrev requested_prototype : GType × List GType
requested_prototype = (
  GType.fw_rcode,
  GType.fw_tcode ∷ GType.uint64 ∷ GType.uint ∷ GType.uint ∷ GType.uint ∷ GType.uint ∷ GType.uint
      ∷ GType.pointer ∷ GType.uint ∷ [],
)

-- `HinawaFwFcpClass.responded`
abbrev fcp_prototype : GType × List GType
fcp_prototype = (GType.void, GType.uint ∷ GType.uint ∷ GType.pointer ∷ GType.uint ∷ [])

abbrev bus_update_spec : SignalSpec
bus_update_spec = record {
  name = "bus-update";
  marshaller = void_void;
  return_type = GType.void;
  n_params = 0;
  param_types = [];
  prototype = node_prototype;
}

abbrev disconnected_spec : SignalSpec
disconnected_spec = record {
  name = "disconnected";
  marshaller = void_void;
  return_type = GType.void;
  n_params = 0;
  param_types = [];
  prototype = node_prototype;
}

abbrev responded_spec : SignalSpec
responded_spec = record {
  name = "responded";
  marshaller = enum_uints;
  return_type = GType.void;
  n_params = 5;
  param_types = GType.fw_rcode ∷ GType.uint ∷ GType.uint ∷ GType.pointer ∷ GType.uint ∷ [];
  prototype = responded_prototype;
}

abbrev requested_spec : SignalSpec
requested_spec = record {
  name = "requested";
  marshaller = enum_enum;
  return_type = GType.fw_rcode;
  n_params = 9;
  param_types =
      GType.fw_tcode ∷ GType.uint64 ∷ GType.uint ∷ GType.uint ∷ GType.uint ∷ GType.uint ∷ GType.uint
      ∷ GType.pointer ∷ GType.uint ∷ [];
  prototype = requested_prototype;
}

abbrev fcp_responded_spec : SignalSpec
fcp_responded_spec = record {
  name = "responded";
  marshaller = uints;
  return_type = GType.void;
  n_params = 4;
  param_types = GType.uint ∷ GType.uint ∷ GType.pointer ∷ GType.uint ∷ [];
  prototype = fcp_prototype;
}

unfoldable pub signal_spec : ClassSignal → SignalSpec
signal_spec node_bus_update = bus_update_spec
signal_spec node_disconnected = disconnected_spec
signal_spec req_responded = responded_spec
signal_spec resp_requested = requested_spec
signal_spec fcp_responded = fcp_responded_spec

-- An emission: the arguments of `g_signal_emit` behind the detail.
pub data Emission : Type 0 where
  bus_update disconnected : Emission
  responded : Req.Responded → Emission
  requested : Resp.Requested → Emission
  fcp_responded : Waiters.Responded → Emission

unfoldable pub signal_of_emission : Emission → ClassSignal
signal_of_emission bus_update = ClassSignal.node_bus_update
signal_of_emission disconnected = ClassSignal.node_disconnected
signal_of_emission (responded r) = ClassSignal.req_responded
signal_of_emission (requested r) = ClassSignal.resp_requested
signal_of_emission (fcp_responded r) = ClassSignal.fcp_responded

abbrev responded_values : Req.Responded → List Value
responded_values r =
    Value.fw_rcode r.rcode
    ∷ Value.uint r.request_tstamp
    ∷ Value.uint r.response_tstamp
    ∷ Value.pointer r.frame
    ∷ Value.uint r.frame_size
    ∷ []

abbrev requested_values : Resp.Requested → List Value
requested_values r =
    Value.fw_tcode r.tcode
    ∷ Value.uint64 r.offset
    ∷ Value.uint r.src_node_id
    ∷ Value.uint r.dst_node_id
    ∷ Value.uint r.card_id
    ∷ Value.uint r.generation
    ∷ Value.uint r.tstamp
    ∷ Value.pointer r.frame
    ∷ Value.uint r.length
    ∷ []

abbrev fcp_responded_values : Waiters.Responded → List Value
fcp_responded_values r =
    Value.uint r.generation
    ∷ Value.uint r.tstamp
    ∷ Value.pointer r.frame
    ∷ Value.uint r.frame_size
    ∷ []

-- `handle_update` of src/fw_node.c gives a null pointer for a signal that is registered without
-- arguments.
unfoldable pub values : Emission → List Value
values bus_update = Value.null ∷ []
values disconnected = []
values (responded r) = responded_values r
values (requested r) = requested_values r
values (fcp_responded r) = fcp_responded_values r
