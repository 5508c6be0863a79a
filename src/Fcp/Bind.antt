-- ===== src/Fcp/Bind.antt =====
-- src/fw_fcp.c: binding the protocol to a node.
pub mod Laws
pub mod Unbind
use libhinawa.Base.{ℕ, [], Option, none, some, Bool, true, false, not, if◌then◌else◌, ◌>>=◌}
use libhinawa.Env.{Env, ErrorSlot, ref, unref, is_unset}
use libhinawa.Node.{FwNode, World, emit, Outcome, Property, get_property}
use libhinawa.Resp.{FwResp}
use libhinawa.Resp.Region
use libhinawa.Resp.Region.{reserve, release}
use libhinawa.Fcp.{FwFcp, maximum_frame_bytes, respond_addr}
use libhinawa.Fcp.History.{insert_record, reset}
use libhinawa.Fcp.Requested.{current_record}
use libhinawa.Fcp.Waiters.{Waiters, abort_all}

-- The object with what is read from the node `n` at `p`.
abbrev pub bound_to : FwFcp → ℕ → FwNode → FwFcp
bound_to priv p n = record priv {
  node = some p;
  card_id = get_property n Property.card_id;
  transactions = [];
  history = insert_record (reset priv.history) (current_record n);
}

-- What follows the reservation of the response address.
abbrev pub bind_after : FwFcp → ℕ → FwResp × Outcome Bool → Option (FwFcp × FwResp × Outcome Bool)
bind_after priv p (resp, out) =
    if not out.value
    then some (record priv { transactions = [] }, resp, out)
    else elim (out.world.nodes p) [
      | none ↦ none
      | some n ↦ some (
        bound_to priv p n,
        resp,
        record { value = true; error = out.error; world = emit out.world (ref p) },
      )
    ]

module _ (E : Env) where
  -- `hinawa_fw_fcp_bind` of the object at `self` to the node at `p`. No result is a fault.
  unfoldable pub bind :
      World → ℕ → FwFcp → FwResp → ℕ → ErrorSlot → Option (FwFcp × FwResp × Outcome Bool)
  bind w self priv resp p error =
      if not (is_unset error)
      then some (priv, resp, record { value = false; error = error; world = w })
      else elim priv.node [
        | some bound ↦ some (priv, resp, record { value = true; error = error; world = w })
        | none ↦
            reserve E w self resp (some p) respond_addr maximum_frame_bytes error
            >>= bind_after priv p
      ]

  -- The first half of `hinawa_fw_fcp_unbind`, if the object is bound.
  unfoldable pub stop_listening : World → FwFcp → FwResp → World × FwFcp × FwResp
  stop_listening w priv resp = elim priv.node [
    | none ↦ (w, priv, resp)
    | some p ↦
        let (w', resp') = release E w resp in
        (emit w' (unref p), record priv { node = none }, resp')
  ]

  -- `hinawa_fw_fcp_unbind`; the waiting transactions are aborted.
  unfoldable pub unbind :
      World → FwFcp → FwResp → Waiters → Option (World × FwFcp × FwResp × Waiters)
  unbind w priv resp waiters =
      let (w', priv', resp') = stop_listening w priv resp in
      abort_all waiters priv.transactions >>= (λ s. some (w', priv', resp', s))

  -- `fw_fcp_finalize` and then that of the parent class: what is left when the object is gone.
  unfoldable pub finalize : World → FwFcp → FwResp → Waiters → Option (World × Waiters)
  finalize w priv resp waiters =
      unbind w priv resp waiters >>= (λ (w', priv', resp', s). some (Region.finalize E w' resp', s))
