-- ===== src/Fcp/Avc/Failure.antt =====
-- A command that fails, and a buffer that is too small.
use libhinawa.Base.{ℕ, ◌≤◌, ◌<◌, ◌≡◌, List, Option, none, some, false, arith, length}
use libhinawa.Env.{Env, empty, is_unset}
use libhinawa.Node.{FwNode, World}
use libhinawa.Req
use libhinawa.Req.Execute.{Schedule}
use libhinawa.Fcp.{FwFcp, maximum_frame_bytes}
use libhinawa.Fcp.Waiters.{Responded, Waiters, handle_responded_signal}
use libhinawa.Fcp.Avc.{Wake, prepare, Result, command_with_tstamp, avc_transaction_with_tstamp}

abbrev pub Ends : (Result → Type 0) → Option Result → Type 0
Ends P none = ⊥
Ends P (some r) = P r

module _ (E : Env) (s : Schedule) (wakes : List Wake) (others : List ℕ → List ℕ) (w : World)
    (priv : FwFcp) (p req self : ℕ) (cmd : List ℕ) (cmd_size : ℕ) (resp : List ℕ) (resp_size : ℕ)
    (long : 2 < cmd_size) (short : cmd_size < maximum_frame_bytes) (room : 0 < resp_size) where
  -- A transaction that passes the guards with a buffer of three bytes at least, on an existing
  -- node, and whose command fails: it returns `FALSE` and leaves the address of its structure, a
  -- variable of the function, in the object's list; once the variable is gone, the next run of the
  -- handler of responses reads through that address.
  pub avc_failed_dangling :
      (n : FwNode) (r : Req.Result) (store : Waiters) (signal : Responded)
      → w.nodes p ≡ some n
      → 3 ≤ length resp
      → command_with_tstamp E s w priv req cmd cmd_size empty ≡ some r
      → r.value ≡ false
      → store self ≡ none
      → Ends
          (λ out.
            (out.value ≡ false) × (handle_responded_signal store out.transactions signal ≡ none))
          (avc_transaction_with_tstamp E s wakes others w priv p req self cmd cmd_size resp
            resp_size empty)
  unfolding avc_transaction_with_tstamp is_unset prepare handle_responded_signal
  avc_failed_dangling n r store signal a l c f d = ground arith

  -- A buffer of one or two bytes passes the guards of the transaction, which then writes beyond
  -- its end.
  avc_small_buffer :
      length resp < 3
      → avc_transaction_with_tstamp E s wakes others w priv p req self cmd cmd_size resp resp_size
          empty
        ≡ none
  unfolding avc_transaction_with_tstamp is_unset prepare
  avc_small_buffer h = ground arith
