-- ===== src/Class.antt =====
-- src/fw_node.c, src/fw_req.c, src/fw_resp.c and src/fw_fcp.c: what their `class_init` functions
-- register with GObject: the properties and the signals. A `GValue` is a value with the type that
-- the call of GObject has put it in with.
pub mod Properties
pub mod Signals
pub mod Laws
use libhinawa.Base.{ℕ, List, Bool}
use libhinawa.Enums.{Tcode, Rcode}

-- The types of GObject that are used: `G_TYPE_*` and `HINAWA_TYPE_*`.
pub data GType : Type 0 where
  void boolean uint uint64 pointer fw_tcode fw_rcode : GType

pub data Value : Type 0 where
  boolean : Bool → Value
  uint uint64 : ℕ → Value
  pointer : List ℕ → Value
  null : Value
  fw_tcode : Tcode → Value
  fw_rcode : Rcode → Value

unfoldable pub type_of : Value → GType
type_of (boolean b) = GType.boolean
type_of (uint n) = GType.uint
type_of (uint64 n) = GType.uint64
type_of (pointer frame) = GType.pointer
type_of null = GType.pointer
type_of (fw_tcode tcode) = GType.fw_tcode
type_of (fw_rcode rcode) = GType.fw_rcode
