-- ===== src/Node/Ioctl/Laws.antt =====
-- What a caller of `hinawa_fw_node_ioctl` may rely on.
use libhinawa.Base.{
  ℕ, ◌≡◌, ◌≢◌, ◌⊎◌, refl, inl, inr, ◌∷◌, Option, none, some, false, arith, Bool-cases, Option-cases,
}
use libhinawa.CycleTime.{CycleTime}
use libhinawa.Abi.{Request, Args, get_cycle_timer2}
use libhinawa.Env.{
  Env, ErrorSlot, empty, Effect, failed, is_null, ListLaws, contains, remove_first,
  remove_first-missing,
}
use libhinawa.Node.{FwNode, World, node_at, put_node}
use libhinawa.Node.Ioctl.{
  enodev, keep_transaction, ioctl_error, call_kernel, node_ioctl, drop_transaction,
  invalidate_transaction, read_cycle_time,
}

module _ (E : Env) where
  -- On an open node: the request reaches the kernel, and its answer the caller.
  pub node_ioctl_open :
      (w : World) (self fd : ℕ) (priv : FwNode) (r : Request) (args : Args r) (error : ErrorSlot)
      → w.nodes self ≡ some priv
      → priv.fd ≡ some fd
      → is_null error ≡ false
      → node_ioctl E w (some self) r args error
        ≡ call_kernel E (put_node w self (keep_transaction E r args priv)) fd r args error
  unfolding node_ioctl
  node_ioctl_open w self fd priv r args error a b c = ground arith

  call_kernel-trace :
      (w : World) (fd : ℕ) (r : Request) (args : Args r) (error : ErrorSlot)
      → (call_kernel E w fd r args error).world.trace ≡ Effect.ioctl (some fd) r args ∷ w.trace
  unfolding call_kernel
  call_kernel-trace w fd r args error = ground arith

  -- Whatever is passed to `hinawa_fw_node_ioctl`, it makes no system call, or the one that it is
  -- asked for with the arguments as they are.
  pub node_ioctl-trace :
      (w : World) (self : Option ℕ) (r : Request) (args : Args r) (error : ErrorSlot)
      → ((node_ioctl E w self r args error).world.trace ≡ w.trace)
        ⊎ ((fd : ℕ) × ((node_ioctl E w self r args error).world.trace
              ≡ Effect.ioctl (some fd) r args ∷ w.trace))
  unfolding node_ioctl
  node_ioctl-trace w none r args error = inl refl
  node_ioctl-trace w (some self) r args error = elim (Option-cases (w.nodes self)) [
    | inl e ↦ inl (ground arith)
    | inr (priv, e) ↦ elim (Bool-cases (is_null error)) [
      | inl h ↦ inl (ground arith)
      | inr h ↦ elim (Option-cases priv.fd) [
        | inl f ↦ inl (ground arith)
        | inr (fd, f) ↦
            let called = put_node w self (keep_transaction E r args priv) in
            inr (fd, ground (arith, call_kernel-trace called fd r args error))
      ]
    ]
  ]

  -- On an open node with an empty variable for the error, where the kernel refuses the request
  -- with an `errno` other than `ENODEV`: `hinawa_fw_node_read_cycle_time` returns `FALSE` and
  -- leaves the error unset.
  read_cycle_time_silent :
      (w : World) (self fd clock_id errno : ℕ) (priv : FwNode) (cycle_time : CycleTime)
      → w.nodes self ≡ some priv
      → priv.fd ≡ some fd
      → E.ioctl w.trace (some fd) get_cycle_timer2 (record cycle_time { clk_id = clock_id })
        ≡ failed errno
      → errno ≢ 0
      → errno ≢ enodev
      → ((read_cycle_time E w (some self) clock_id cycle_time empty).1.value ≡ false)
        × ((read_cycle_time E w (some self) clock_id cycle_time empty).1.error ≡ empty)
  unfolding read_cycle_time node_ioctl call_kernel ioctl_error keep_transaction is_null
  read_cycle_time_silent w self fd clock_id errno priv cycle_time a b k nz ne = ground arith

  pub drop_transaction_lem :
      (laws : ListLaws E) (priv : FwNode) (req : ℕ)
      → drop_transaction E req priv
        ≡ record priv { transactions = remove_first req priv.transactions }
  unfolding drop_transaction
  drop_transaction_lem laws priv req = elim (Bool-cases (contains req priv.transactions)) [
    | inl h ↦ ground (arith, laws.found priv.transactions req h)
    | inr h ↦
        ground (
          arith,
          laws.missing priv.transactions req h,
          remove_first-missing req priv.transactions h,
        )
  ]

  -- With the laws of the lists, on an existing node: `hinawa_fw_node_invalidate_transaction` takes
  -- the first link to the request out of the list, if there is one, and changes nothing else of
  -- the node.
  invalidate_transaction_lem :
      (laws : ListLaws E) (w : World) (self req : ℕ) (priv : FwNode)
      → w.nodes self ≡ some priv
      → node_at (invalidate_transaction E w (some self) req) (some self)
        ≡ some (record priv { transactions = remove_first req priv.transactions })
  unfolding invalidate_transaction
  invalidate_transaction_lem laws w self req priv a =
      ground (arith, drop_transaction_lem laws priv req)
