-- ===== src/Resp.antt =====
-- src/fw_resp.c: the responder for requests that other nodes send to a range of addresses.
pub mod Region
pub mod Handle
pub mod Invariant
pub mod Reserve
pub mod Respond
pub mod Kept
mod Tests
use libhinawa.Base.{◌==◌}
use libhinawa.Base.{
  ℕ, ◌+◌, ◌-◌, ◌^◌, List, [], ◌∷◌, ◌++◌, Option, none, some, Bool, true, false, leb, if◌then◌else◌,
  length, drop, replicate,
}
use libhinawa.Enums.{Tcode}

-- `G_MAXUINT`
abbrev pub max_uint : ℕ
max_uint = 2 ^ 32 - 1

-- `HinawaFwRespPrivate`; `none` is a null pointer. What `req_frame` points to is never read, so its
-- size stands for it; `req_length` is never used.
pub record FwResp : Type 0 where
  pub node : Option ℕ
  pub offset : ℕ
  pub width : ℕ
  pub addr_handle : ℕ
  pub req_frame : Option ℕ
  pub resp_frame : Option (List ℕ)
  pub resp_length : ℕ

-- `hinawa_fw_resp_init` on zeroed memory.
unfoldable pub init : FwResp
init = record {
  node = none;
  offset = 0;
  width = 0;
  addr_handle = 0;
  req_frame = none;
  resp_frame = none;
  resp_length = 0;
}

unfoldable pub is_reserved : FwResp → Bool
is_reserved priv = elim priv.node [ none ↦ false | some node ↦ true ]

-- `memset(priv->resp_frame, 0, priv->width)`
abbrev pub zeroed : Option (List ℕ) → ℕ → Option (List ℕ)
zeroed none width = none
zeroed (some frame) width = some (replicate width 0 ++ drop width frame)

-- Whether the memory behind the pointer has the bytes that are cleared.
abbrev pub has_width : Option (List ℕ) → ℕ → Bool
has_width none width = width == 0
has_width (some frame) width = leb width (length frame)

-- The object when the handler of an event has cleared its frame.
abbrev pub cleared : FwResp → FwResp
cleared priv = record priv { resp_frame = zeroed priv.resp_frame priv.width; resp_length = 0 }

-- `memcpy(priv->resp_frame, frame, length)` of a whole frame.
abbrev pub copied : Option (List ℕ) → List ℕ → Option (List ℕ)
copied none frame = none
copied (some old) frame = some (frame ++ drop (length frame) old)

-- `hinawa_fw_resp_set_resp_frame`; the guards on the pointer and on the length let no empty frame
-- pass.
unfoldable pub set_resp_frame : FwResp → List ℕ → FwResp
set_resp_frame priv [] = priv
set_resp_frame priv (b ∷ frame) =
    if leb (length (b ∷ frame)) priv.width
    then record priv {
      resp_frame = copied priv.resp_frame (b ∷ frame);
      resp_length = length (b ∷ frame);
    }
    else priv

-- The arguments of the signal `requested`
pub record Requested : Type 0 where
  pub tcode : Tcode
  pub offset : ℕ
  pub src_node_id : ℕ
  pub dst_node_id : ℕ
  pub card_id : ℕ
  pub generation : ℕ
  pub tstamp : ℕ
  pub frame : List ℕ
  pub length : ℕ
