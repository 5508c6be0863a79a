-- ===== src/Resp/Region.antt =====
-- src/fw_resp.c: reserving a range of addresses and giving it back.
use libhinawa.Base.{
  ℕ, ◌+◌, ◌%◌, ◌^◌, Option, none, some, Bool, true, false, not, ◌&&◌, ◌==◌, ltb, if◌then◌else◌,
  replicate,
}
use libhinawa.Enums.{RespError}
use libhinawa.Abi.{Allocate, allocate, deallocate}
use libhinawa.Env.{
  Env, ErrorSlot, GError, resp_error, resp_failed, empty, ref, unref, set_error, is_unset,
}
use libhinawa.Node.{World, emit, Outcome}
use libhinawa.Node.Ioctl.{Ioctl, node_ioctl}
use libhinawa.Resp.{FwResp}

abbrev pub ebusy : ℕ
ebusy = 16

-- The structure for `FW_CDEV_IOC_ALLOCATE`; `self` is the object's address.
abbrev pub allocation : ℕ → ℕ → ℕ → ℕ → Allocate
allocation self region_start region_end width = record {
  offset = region_start;
  closure = self;
  length = width;
  handle = 0;
  region_end = region_end;
}

-- The error for a call of `FW_CDEV_IOC_ALLOCATE` that the node did not report itself.
unfoldable pub allocate_error : ℕ → GError
allocate_error err = if err == ebusy then resp_error RespError.addr_space_used else resp_failed err

-- What the object holds once the kernel has allocated the range.
abbrev pub reserved_by : FwResp → ℕ → Allocate → FwResp
reserved_by priv node allocated = record priv {
  node = some node;
  req_frame = some allocated.length;
  resp_frame = some (replicate allocated.length 0);
  offset = allocated.offset;
  width = allocated.length;
  addr_handle = allocated.handle;
}

-- What the object holds after `hinawa_fw_resp_release`.
abbrev pub released : FwResp → FwResp
released priv = record priv {
  node = none;
  req_frame = none;
  resp_frame = none;
  resp_length = 0;
  offset = 0;
  width = 0;
}

module _ (E : Env) where
  -- `hinawa_fw_resp_release`; an error of the call is ignored.
  unfoldable pub release : World → FwResp → World × FwResp
  release w priv = elim priv.node [
    | none ↦ (w, priv)
    | some node ↦
        let r =
          node_ioctl E w (some node) deallocate (record { handle = priv.addr_handle }) empty in
        (emit r.world (unref node), released priv)
  ]

  -- After the call of `FW_CDEV_IOC_ALLOCATE`.
  unfoldable pub after_allocate :
      FwResp → Option ℕ → Ioctl allocate → Option (FwResp × Outcome Bool)
  after_allocate priv node r = elim r.error [
    | ErrorSlot.null ↦ none
    | ErrorSlot.holds e ↦ some (priv, record { value = false; error = r.error; world = r.world })
    | ErrorSlot.empty ↦
        if ltb 0 r.err
        then some (
          priv,
          record {
            value = false;
            error = set_error E r.error (allocate_error r.err);
            world = r.world;
          },
        )
        else elim node [
          | none ↦ none
          | some p ↦ some (
            reserved_by priv p r.args,
            record { value = true; error = r.error; world = emit r.world (ref p) },
          )
        ]
  ]

  -- `hinawa_fw_resp_reserve_within_region` of the object at `self`. No result is a crash: the
  -- function reads `*error` though its guards let a null pointer pass.
  unfoldable pub reserve_within_region :
      World → ℕ → FwResp → Option ℕ → ℕ → ℕ → ℕ → ErrorSlot → Option (FwResp × Outcome Bool)
  reserve_within_region w self priv node region_start region_end width error =
      if not (ltb 0 width && is_unset error)
      then some (priv, record { value = false; error = error; world = w })
      else elim priv.node [
        | some n ↦ some (
          priv,
          record {
            value = false;
            error = set_error E error (resp_error RespError.reserved);
            world = w;
          },
        )
        | none ↦
            after_allocate priv node
              (node_ioctl E w node allocate (allocation self region_start region_end width) error)
      ]

  -- `hinawa_fw_resp_reserve`; the sum is a `guint64`.
  unfoldable pub reserve :
      World → ℕ → FwResp → Option ℕ → ℕ → ℕ → ErrorSlot → Option (FwResp × Outcome Bool)
  reserve w self priv node addr width error =
      reserve_within_region w self priv node addr ((addr + width) % 2 ^ 64) width error

  -- `fw_resp_finalize`: what is left when the object is gone.
  unfoldable pub finalize : World → FwResp → World
  finalize w priv = (release w priv).0
