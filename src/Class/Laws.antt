-- ===== src/Class/Laws.antt =====
-- Properties and signals agree with their registration.
use libhinawa.Base.{ℕ, ◌^◌, ◌≤◌, ◌<◌, ◌≡◌, arith, if◌then◌else◌}
use libhinawa.Node
use libhinawa.Node.{FwNode, Property, get_property}
use libhinawa.Resp
use libhinawa.Resp.{FwResp}
use libhinawa.Fcp
use libhinawa.Fcp.{FwFcp}
use libhinawa.Class.{Value, type_of}
use libhinawa.Class.Properties.{
  ParamSpec, node_spec, resp_spec, fcp_spec, RespProperty, FcpProperty, fw_node_get_property,
  fw_resp_get_property, fw_fcp_get_property,
}

-- The number in a value.
abbrev pub number : Value → ℕ
number (Value.boolean b) = if b then 1 else 0
number (Value.uint n) = n
number (Value.uint64 n) = n
number _ = 0

-- A value of the declared type within the declared bounds.
pub record IsValid (spec : ParamSpec) (value : Value) : Type 0 where
  pub type : type_of value ≡ spec.type
  pub least : spec.minimum ≤ number value
  pub most : number value ≤ spec.maximum

-- The numbers of an object as the types of its fields bound them.
pub record NodeFits (priv : FwNode) : Type 0 where
  pub node_id : priv.generation.node_id < 2 ^ 32
  pub local_node_id : priv.generation.local_node_id < 2 ^ 32
  pub bm_node_id : priv.generation.bm_node_id < 2 ^ 32
  pub irm_node_id : priv.generation.irm_node_id < 2 ^ 32
  pub root_node_id : priv.generation.root_node_id < 2 ^ 32
  pub generation : priv.generation.generation < 2 ^ 32
  pub card_id : priv.card_id < 2 ^ 32

node_IsValid :
    (priv : FwNode)
    → NodeFits priv
    → (p : Property) → IsValid (node_spec p) (fw_node_get_property priv p)
unfolding type_of node_spec fw_node_get_property get_property
node_IsValid priv f p = record {
  type = ground arith;
  least = ground arith;
  most = ground (
    arith, f.node_id, f.local_node_id, f.bm_node_id, f.irm_node_id, f.root_node_id, f.generation,
    f.card_id,
  );
}

-- Any property of the three classes.
pub data Owned : Type 0 where
  of_node : Property → Owned
  of_resp : RespProperty → Owned
  of_fcp : FcpProperty → Owned

abbrev pub spec_of : Owned → ParamSpec
spec_of (of_node p) = node_spec p
spec_of (of_resp p) = resp_spec p
spec_of (of_fcp p) = fcp_spec p

abbrev pub value_of : FwNode → FwResp → FwFcp → Owned → Value
value_of n resp fcp (of_node p) = fw_node_get_property n p
value_of n resp fcp (of_resp p) = fw_resp_get_property resp p
value_of n resp fcp (of_fcp p) = fw_fcp_get_property fcp p

-- For objects whose numbers are those of their machine words, each property has a value of the type
-- that its registration declares, within the declared bounds; and in a new object it has the
-- declared default.
get_property-IsValid :
    (n : FwNode) (resp : FwResp) (fcp : FwFcp) (p : Owned)
    → NodeFits n
    → resp.offset < 2 ^ 64
    → resp.width < 2 ^ 32
    → IsValid (spec_of p) (value_of n resp fcp p)
      × (number (value_of Node.init Resp.init Fcp.init p) ≡ (spec_of p).default)
unfolding type_of resp_spec fw_resp_get_property fcp_spec fw_fcp_get_property Resp.init Node.init
    Fcp.init Resp.is_reserved Fcp.is_bound fw_node_get_property get_property node_spec
get_property-IsValid n resp fcp (of_node p) f o w = (node_IsValid n f p, ground arith)
get_property-IsValid n resp fcp (of_resp p) f o w =
    (record { type = ground arith; least = ground arith; most = ground arith }, ground arith)
get_property-IsValid n resp fcp (of_fcp p) f o w =
    (record { type = ground arith; least = ground arith; most = ground arith }, ground arith)
