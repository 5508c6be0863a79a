-- ===== src/Resp/Reserve.antt =====
-- Reserving a range of addresses and giving it back.
use libhinawa.Base.{
  ℕ, ◌+◌, ◌%◌, ◌^◌, ◌<◌, ◌≡◌, ◌∷◌, Option, none, some, Bool, true, false, ◌&&◌, ◌||◌, arith,
}
use libhinawa.Abi.{allocate, Allocate, deallocate}
use libhinawa.Env.{Env, null, empty, ioctl, ref, unref, done, set_error, is_null, is_unset}
use libhinawa.Node.{FwNode, World, Outcome}
use libhinawa.Node.Ioctl.{node_ioctl, call_kernel, keep_transaction, ioctl_error}
use libhinawa.Resp.{FwResp, is_reserved}
use libhinawa.Resp.Region.{
  allocation, released, release, after_allocate, reserve_within_region, reserve,
}

-- The result of a call that does not crash.
abbrev pub Returns : (FwResp → Outcome Bool → Type 0) → Option (FwResp × Outcome Bool) → Type 0
Returns P none = ⊥
Returns P (some (priv, out)) = P priv out

module _ (E : Env) where
  -- On an existing node, with a width of one byte at least and an empty variable for the error:
  -- `hinawa_fw_resp_reserve_within_region` returns, it returns `FALSE` exactly when it sets the
  -- error, the object is reserved afterwards exactly if it was before or the result is `TRUE`, and
  -- these two never hold at once.
  reserve_within_region-Returns :
      (w : World) (self : ℕ) (priv : FwResp) (p : ℕ) (n : FwNode) (start end_ width : ℕ)
      → w.nodes p ≡ some n
      → 0 < width
      → Returns
          (λ priv' out.
            (is_unset out.error ≡ out.value)
            × (is_reserved priv' ≡ (is_reserved priv || out.value))
            × ((is_reserved priv && out.value) ≡ false))
          (reserve_within_region E w self priv (some p) start end_ width empty)
  unfolding reserve_within_region after_allocate node_ioctl call_kernel ioctl_error is_unset is_null
      set_error is_reserved
  reserve_within_region-Returns w self priv p n start end_ width a h = ground arith

  -- Reserving changes nothing in the node's object, and returns.
  pub reserve-nodes :
      (w : World) (self : ℕ) (priv : FwResp) (p : ℕ) (n : FwNode) (addr width : ℕ)
      → w.nodes p ≡ some n
      → 0 < width
      → Returns
          (λ priv' out. out.world.nodes p ≡ some n)
          (reserve E w self priv (some p) addr width empty)
  unfolding reserve reserve_within_region after_allocate node_ioctl call_kernel ioctl_error
      keep_transaction is_unset is_null set_error
  reserve-nodes w self priv p n addr width a h = ground arith

  -- On an existing node, with a width of one byte at least and an object that is not reserved: a
  -- null pointer for the error, which the guards let pass, makes
  -- `hinawa_fw_resp_reserve_within_region` read through it.
  reserve_within_region_null :
      (w : World) (self : ℕ) (priv : FwResp) (p : ℕ) (n : FwNode) (start end_ width : ℕ)
      → w.nodes p ≡ some n
      → 0 < width
      → priv.node ≡ none
      → reserve_within_region E w self priv (some p) start end_ width null ≡ none
  unfolding reserve_within_region after_allocate node_ioctl is_unset is_null
  reserve_within_region_null w self priv p n start end_ width a h b = ground arith

  -- On an open node, with a width of one byte at least, an empty variable for the error and an
  -- object that is not reserved: `hinawa_fw_resp_reserve` returns `TRUE` if the kernel grants the
  -- range. `hinawa_fw_resp_release` then hands back the handle that the kernel gave and drops the
  -- one reference to the node that was taken, and the object is as if it had only been cleared,
  -- but for the stale handle.
  pub reserve-release :
      (w : World) (self : ℕ) (priv : FwResp) (p fd : ℕ) (n : FwNode) (addr width : ℕ)
      (given : Allocate)
      → w.nodes p ≡ some n
      → n.fd ≡ some fd
      → 0 < width
      → priv.node ≡ none
      → E.ioctl w.trace (some fd) allocate (allocation self addr ((addr + width) % 2 ^ 64) width)
        ≡ done given
      → Returns
          (λ priv' out.
            (out.value ≡ true)
            × ((release E out.world priv').1
                ≡ record (released priv) { addr_handle = given.handle })
            × ((release E out.world priv').0.trace
                ≡ unref p
                  ∷ ioctl (some fd) deallocate (record { handle = given.handle })
                  ∷ ref p
                  ∷ ioctl (some fd) allocate (allocation self addr ((addr + width) % 2 ^ 64) width)
                  ∷ w.trace))
          (reserve E w self priv (some p) addr width empty)
  unfolding reserve reserve_within_region after_allocate node_ioctl call_kernel keep_transaction
      is_unset is_null release
  reserve-release w self priv p fd n addr width given a b h c k = ground arith
