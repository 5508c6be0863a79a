-- ===== src/Node/Ioctl.antt =====
-- src/fw_node.c: `hinawa_fw_node_ioctl` and what is built on it.
pub mod Laws
use libhinawa.Base.{ℕ, Option, none, some, Bool, ◌==◌, if◌then◌else◌}
use libhinawa.CycleTime.{CycleTime}
use libhinawa.Enums.{disconnected, not_opened}
use libhinawa.Abi.{Request, Args, send_request, get_cycle_timer2}
use libhinawa.Env.{Env, ErrorSlot, node_error, Effect, done, failed, set_error, is_null}
use libhinawa.Node.{FwNode, World, put_node, emit, Outcome}

abbrev pub enodev : ℕ
enodev = 19

abbrev pub enxio : ℕ
enxio = 6

abbrev pub einval : ℕ
einval = 22

-- What `hinawa_fw_node_ioctl` returns, with the memory behind its arguments.
pub record Ioctl (r : Request) : Type 0 where
  pub err : ℕ
  pub args : Args r
  pub error : ErrorSlot
  pub world : World

module _ (E : Env) where
  -- A request to send is kept in the list, so that it can be invalidated when it times out.
  unfoldable pub keep_transaction : (r : Request) → Args r → FwNode → FwNode
  keep_transaction send_request args priv = record priv {
    transactions = E.list_prepend priv.transactions args.closure;
  }
  keep_transaction _ args priv = priv

  -- `DISCONNECTED` where the node is gone; other errors are for the caller.
  unfoldable pub ioctl_error : ErrorSlot → ℕ → ErrorSlot
  ioctl_error error errno =
      if errno == enodev then set_error E error (node_error disconnected) else error

  unfoldable pub call_kernel : World → ℕ → (r : Request) → Args r → ErrorSlot → Ioctl r
  call_kernel w fd r args error =
      let w' = emit w (Effect.ioctl (some fd) r args) in
      elim (E.ioctl w.trace (some fd) r args) [
        | failed errno ↦ record {
          err = errno;
          args = args;
          error = ioctl_error error errno;
          world = w';
        }
        | done written ↦ record { err = 0; args = written; error = error; world = w' }
      ]

  unfoldable pub node_ioctl : World → Option ℕ → (r : Request) → Args r → ErrorSlot → Ioctl r
  node_ioctl w none r args error = record { err = enxio; args = args; error = error; world = w }
  node_ioctl w (some self) r args error = elim (w.nodes self) [
    | none ↦ record { err = enxio; args = args; error = error; world = w }
    | some priv ↦
        if is_null error
        then record { err = einval; args = args; error = error; world = w }
        else elim priv.fd [
          | none ↦ record {
            err = enxio;
            args = args;
            error = set_error E error (node_error not_opened);
            world = w;
          }
          | some fd ↦ call_kernel (put_node w self (keep_transaction r args priv)) fd r args error
        ]
  ]

  -- The list without the request, if it holds it.
  unfoldable pub drop_transaction : ℕ → FwNode → FwNode
  drop_transaction req priv = elim (E.list_find priv.transactions req) [
    | none ↦ priv
    | some entry ↦ record priv { transactions = E.list_delete_link priv.transactions entry }
  ]

  -- `hinawa_fw_node_invalidate_transaction`
  unfoldable pub invalidate_transaction : World → Option ℕ → ℕ → World
  invalidate_transaction w none req = w
  invalidate_transaction w (some self) req = elim (w.nodes self) [
    | none ↦ w
    | some priv ↦ put_node w self (drop_transaction req priv)
  ]

  -- `hinawa_fw_node_read_cycle_time`; the structure is that of the caller. `err` is never negative,
  -- so the branch that reports other errors than `ENODEV` is not reached.
  unfoldable pub read_cycle_time :
      World → Option ℕ → ℕ → CycleTime → ErrorSlot → CycleTime × Outcome Bool
  read_cycle_time w self clock_id cycle_time error =
      let asked = record cycle_time { clk_id = clock_id } in
      let r = node_ioctl w self get_cycle_timer2 asked error in
      (r.args, record { value = r.err == 0; error = r.error; world = r.world })
