-- ===== src/Node.antt =====
-- src/fw_node.c: the object of a node in the bus, which owns the file descriptor of the character
-- device, and the system calls that the other classes make through it.
pub mod Rom
pub mod Ioctl
pub mod Open
mod Tests
use libhinawa.Base.{
  ℕ, zero, suc, ◌+◌, ◌*◌, ◌/◌, List, [], ◌∷◌, Option, none, some, get_or, set, replicate, update,
}
use libhinawa.Abi.{BusReset, GetInfo, get_info}
use libhinawa.Env.{Env, ErrorSlot, Effect, closed, done, failed}

abbrev pub max_config_rom_size : ℕ
max_config_rom_size = 256

-- `HinawaFwNodePrivate`. No `fd` is -1; the configuration ROM is read as `guint32 *`; the list holds
-- the addresses of `HinawaFwReq` objects.
pub record FwNode : Type 0 where
  pub fd : Option ℕ
  pub config_rom : List ℕ
  pub config_rom_length : ℕ
  pub generation : BusReset
  pub card_id : ℕ
  pub transactions : List ℕ

-- The objects of the class by their address, and what the process has asked of the kernel.
pub record World : Type 0 where
  pub nodes : ℕ → Option FwNode
  pub trace : List Effect

-- `HINAWA_IS_FW_NODE`, with the private structure of the object; `none` is the null pointer.
abbrev pub node_at : World → Option ℕ → Option FwNode
node_at w none = none
node_at w (some p) = w.nodes p

abbrev pub put_node : World → ℕ → FwNode → World
put_node w p n = record w { nodes = update w.nodes p (some n) }

abbrev pub emit : World → Effect → World
emit w e = record w { trace = e ∷ w.trace }

-- `hinawa_fw_node_init` on zeroed memory.
unfoldable pub init : FwNode
init = record {
  fd = none;
  config_rom = replicate max_config_rom_size 0;
  config_rom_length = 0;
  generation = record {
    node_id = 0;
    local_node_id = 0;
    bm_node_id = 0;
    irm_node_id = 0;
    root_node_id = 0;
    generation = 0;
  };
  card_id = 0;
  transactions = [];
}

-- `FW_NODE_PROP_TYPE_*`
pub data Property : Type 0 where
  node_id local_node_id bus_manager_node_id ir_manager_node_id root_node_id : Property
  generation card_id : Property

unfoldable pub get_property : FwNode → Property → ℕ
get_property priv node_id = priv.generation.node_id
get_property priv local_node_id = priv.generation.local_node_id
get_property priv bus_manager_node_id = priv.generation.bm_node_id
get_property priv ir_manager_node_id = priv.generation.irm_node_id
get_property priv root_node_id = priv.generation.root_node_id
get_property priv generation = priv.generation.generation
get_property priv card_id = priv.card_id

-- `fw_node_finalize`
unfoldable pub finalize : FwNode → List Effect → List Effect
finalize priv trace = elim priv.fd [ none ↦ trace | some fd ↦ closed fd ∷ trace ]

-- What a function returns that takes a `GError **`: its value, the error and the objects.
pub record Outcome (A : Type 0) : Type 0 where
  pub value : A
  pub error : ErrorSlot
  pub world : World

-- The argument of `FW_CDEV_IOC_GET_INFO` for the object at `self`
abbrev pub info_query : ℕ → FwNode → GetInfo
info_query self priv = record {
  version = 6;
  rom_length = max_config_rom_size * 4;
  rom = priv.config_rom;
  bus_reset = priv.generation;
  bus_reset_closure = self;
  card = 0;
}

module _ (E : Env) where
  -- The loop of `update_info` from index `i` on: `rom[i] = GUINT32_TO_BE(rom[i])`. The kernel tells no
  -- more quadlets than the ROM has, 256, so that `set` has a place for each.
  unfoldable pub swap_from : ℕ → ℕ → List ℕ → List ℕ
  swap_from zero i rom = rom
  swap_from (suc left) i rom = swap_from left (i + 1) (set rom i (E.to_be (get_or rom i 0)))

  abbrev pub with_info : FwNode → GetInfo → FwNode
  with_info priv info = record priv {
    config_rom = swap_from ((info.rom_length + 3) / 4) 0 info.rom;
    config_rom_length = info.rom_length;
    generation = info.bus_reset;
    card_id = info.card;
  }

  -- `update_info`: `errno` or 0, the effects and the structure. A call that fails leaves the
  -- memory that it was given alone.
  unfoldable pub update_info : List Effect → ℕ → FwNode → ℕ × List Effect × FwNode
  update_info trace self priv =
      let trace' = Effect.ioctl priv.fd get_info (info_query self priv) ∷ trace in
      elim (E.ioctl trace priv.fd get_info (info_query self priv)) [
        | failed errno ↦ (errno, trace', priv)
        | done info ↦ (0, trace', with_info priv info)
      ]
