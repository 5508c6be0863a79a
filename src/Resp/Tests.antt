-- ===== src/Resp/Tests.antt =====
-- Runs of the theorems on the responder.
use libhinawa.Base.{◌+◌, ◌%◌, ◌^◌, ◌≡◌, refl, List, [], ◌∷◌, some, true, arith}
use libhinawa.Abi.{allocate, deallocate, EventRequest3}
use libhinawa.Enums.{Tcode, Rcode}
use libhinawa.Env.{empty, ioctl, ref, unref, is_unset, is_null}
use libhinawa.Resp
use libhinawa.Resp.{FwResp, is_reserved, Requested}
use libhinawa.Resp.Region.{
  allocation, reserved_by, released, release, reserve_within_region, reserve, after_allocate,
}
use libhinawa.Node.Ioctl.{node_ioctl, call_kernel}
use libhinawa.Resp.Handle.{Action, answer, leave}
use libhinawa.Resp.Invariant.{IsValid, init-IsValid, reserve_within_region-IsValid}
use libhinawa.Resp.Reserve.{Returns, reserve-release}
use libhinawa.Samples.{granting, open_sample, world_sample}

-- The object at 50 with eight bytes reserved by the node at 1.
abbrev granted : FwResp
granted = reserved_by Resp.init 1 (allocation 50 0x1000 0x1008 8)

abbrev quadlet_write : EventRequest3
quadlet_write = record {
  tcode = Tcode.write_quadlet_request;
  offset = 0x1000;
  source_node_id = 0xffc0;
  destination_node_id = 0xffc1;
  card = 2;
  generation = 6;
  handle = 77;
  length = 4;
  tstamp = 100;
  payload = 1 ∷ 2 ∷ 3 ∷ 4 ∷ [];
}

abbrev long_write : EventRequest3
long_write = record quadlet_write { length = 9 }

-- Handlers that answer, and ones that release the range after an answer.
abbrev answering : Requested → List Action × Rcode
answering signal = (answer (9 ∷ 8 ∷ []) ∷ [], Rcode.complete)

abbrev leaving : Requested → List Action × Rcode
leaving signal = (answer (9 ∷ 8 ∷ []) ∷ leave ∷ [], Rcode.complete)

reserve_within_region-IsValid_example : IsValid granted
unfolding reserve_within_region is_unset Resp.init after_allocate node_ioctl is_null call_kernel
reserve_within_region-IsValid_example =
    reserve_within_region-IsValid granting world_sample 50 Resp.init (some 1) 0x1000 0x1008 8 empty
      init-IsValid refl

reserve-release_example :
    Returns
      (λ priv' out.
        (out.value ≡ true)
        × ((release granting out.world priv').1 ≡ record (released Resp.init) { addr_handle = 0 })
        × ((release granting out.world priv').0.trace
            ≡ unref 1
              ∷ ioctl (some 3) deallocate (record { handle = 0 })
              ∷ ref 1
              ∷ ioctl (some 3) allocate (allocation 50 0x1000 ((0x1000 + 8) % 2 ^ 64) 8)
              ∷ []))
      (reserve granting world_sample 50 Resp.init (some 1) 0x1000 8 empty)
unfolding Resp.init
reserve-release_example =
    reserve-release granting world_sample 50 Resp.init 1 3 open_sample 0x1000 8
      (allocation 50 0x1000 0x1008 8) refl refl (omega arith) refl refl
