-- ===== src/Node/Tests.antt =====
-- Runs of the theorems on the object of a node.
use libhinawa.Base.{◌≡◌, refl, [], ◌∷◌, some, arith, take, drop, ◌++◌, flat_map}
use libhinawa.Abi.{GetInfo, Request, Args, get_info}
use libhinawa.Env.{Env, empty, Reply, done, failed}
use libhinawa.Node
use libhinawa.Node.{World, node_at}
use libhinawa.Node.Rom.{big_endian}
use libhinawa.Node.Open.{open_node, get_config_rom}
use libhinawa.Node.Open.Laws.{open_node-get_config_rom}
use libhinawa.Samples.{machine, machine-BigEndianLaw, world_sample}

-- What a kernel tells of a node with a configuration ROM of two quadlets.
abbrev info_sample : GetInfo
info_sample = record {
  version = 6;
  rom_length = 8;
  rom = 0x04041234 ∷ 0x31333934 ∷ 7 ∷ [];
  bus_reset = Node.init.generation;
  bus_reset_closure = 2;
  card = 2;
}

abbrev telling_answer : (r : Request) → Args r → Reply (Args r)
telling_answer get_info args = done info_sample
telling_answer _ args = failed 22

abbrev telling : Env
telling = machine telling_answer

open_node-get_config_rom_example :
    get_config_rom telling
      (open_node telling world_sample (some 2) (some (47 ∷ 102 ∷ [])) 0 empty).world
      (some 2)
      empty
    ≡ (
      some (
        flat_map big_endian (take 2 info_sample.rom)
            ++ flat_map telling.host_bytes (drop 2 info_sample.rom),
        8,
      ),
      empty,
    )
unfolding Node.init
open_node-get_config_rom_example =
    open_node-get_config_rom telling (machine-BigEndianLaw telling_answer) world_sample 2 3 47
      Node.init (102 ∷ []) 0 info_sample refl refl refl refl (omega arith)
      (omega arith, (omega arith, (omega arith, tt)))
