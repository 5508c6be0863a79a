-- ===== src/Class/Properties.antt =====
-- The properties of the classes, and how they are read. Descriptions and nicks are left out.
use Prim.Native.String.{String}
use libhinawa.Base.{ℕ, ◌-◌, ◌^◌, List, [], ◌∷◌}
use libhinawa.Node.{FwNode, Property, get_property}
use libhinawa.Resp
use libhinawa.Resp.{FwResp}
use libhinawa.Fcp
use libhinawa.Fcp.{FwFcp}
use libhinawa.Class.{GType, Value, boolean, uint, uint64}

-- `g_param_spec_uint`, `g_param_spec_uint64` and `g_param_spec_boolean` of a property that is read
-- only.
pub record ParamSpec : Type 0 where
  pub name : String
  pub type : GType
  pub minimum : ℕ
  pub maximum : ℕ
  pub default : ℕ

-- `0, G_MAXUINT32, 0`
abbrev pub uint_spec : String → ParamSpec
uint_spec name = record {
  name = name;
  type = GType.uint;
  minimum = 0;
  maximum = 2 ^ 32 - 1;
  default = 0;
}

-- `FALSE`
abbrev pub boolean_spec : String → ParamSpec
boolean_spec name = record {
  name = name;
  type = GType.boolean;
  minimum = 0;
  maximum = 1;
  default = 0;
}

-- `FW_RESP_PROP_TYPE_*`
pub data RespProperty : Type 0 where
  is_reserved offset width : RespProperty

-- `FW_FCP_PROP_TYPE_*`
pub data FcpProperty : Type 0 where
  is_bound : FcpProperty

unfoldable pub node_spec : Property → ParamSpec
node_spec Property.node_id = uint_spec "node-id"
node_spec Property.local_node_id = uint_spec "local-node-id"
node_spec Property.bus_manager_node_id = uint_spec "bus-manager-node-id"
node_spec Property.ir_manager_node_id = uint_spec "ir-manager-node-id"
node_spec Property.root_node_id = uint_spec "root-node-id"
node_spec Property.generation = uint_spec "generation"
node_spec Property.card_id = uint_spec "card-id"

unfoldable pub resp_spec : RespProperty → ParamSpec
resp_spec RespProperty.is_reserved = boolean_spec "is-reserved"
resp_spec RespProperty.offset = record {
  name = "offset";
  type = GType.uint64;
  minimum = 0;
  maximum = 2 ^ 64 - 1;
  default = 0;
}
resp_spec RespProperty.width = uint_spec "width"

unfoldable pub fcp_spec : FcpProperty → ParamSpec
fcp_spec FcpProperty.is_bound = boolean_spec "is-bound"

-- `fw_node_props`, `fw_resp_props` and `fw_fcp_props` in their order.
abbrev pub fw_node_props : List Property
fw_node_props =
    Property.node_id ∷ Property.local_node_id ∷ Property.bus_manager_node_id
    ∷ Property.ir_manager_node_id ∷ Property.root_node_id ∷ Property.generation ∷ Property.card_id
    ∷ []

abbrev pub fw_resp_props : List RespProperty
fw_resp_props = RespProperty.is_reserved ∷ RespProperty.offset ∷ RespProperty.width ∷ []

abbrev pub fw_fcp_props : List FcpProperty
fw_fcp_props = FcpProperty.is_bound ∷ []

-- `fw_node_get_property`, `fw_resp_get_property` and `fw_fcp_get_property`, with the types of the
-- values.
unfoldable pub fw_node_get_property : FwNode → Property → Value
fw_node_get_property priv p = uint (get_property priv p)

unfoldable pub fw_resp_get_property : FwResp → RespProperty → Value
fw_resp_get_property priv RespProperty.is_reserved = boolean (Resp.is_reserved priv)
fw_resp_get_property priv RespProperty.offset = uint64 priv.offset
fw_resp_get_property priv RespProperty.width = uint priv.width

unfoldable pub fw_fcp_get_property : FwFcp → FcpProperty → Value
fw_fcp_get_property priv FcpProperty.is_bound = boolean (Fcp.is_bound priv)
