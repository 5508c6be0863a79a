-- ===== src/Fcp/Receive.antt =====
-- src/fw_fcp.c and src/fw_resp.c: an event of the kernel for the response address, from the
-- responder to the transaction that waits. `hinawa_fw_fcp_class_init` makes
-- `handle_requested_signal` the handler of the responder's signal; no other handler is connected
-- here.
pub mod Answer
pub mod Exchange
pub mod Source
mod Tests
use libhinawa.Base.{
  ℕ, ◌≤◌, ◌≡◌, List, [], ◌∷◌, Option, none, some, Bool, not, ◌&&◌, ◌||◌, arith, ltb, if◌then◌else◌,
  length, replicate,
}
use libhinawa.Enums.{Rcode}
use libhinawa.Abi.{EventRequest3, send_response}
use libhinawa.Env.{Env, ioctl, is_null}
use libhinawa.Node.{FwNode, World, node_at}
use libhinawa.Node.Ioctl.{node_ioctl, call_kernel, keep_transaction}
use libhinawa.Resp
use libhinawa.Resp.Invariant
use libhinawa.Resp.{FwResp, is_reserved}
use libhinawa.Resp.Handle.{Action, act, emit_requested, handle, handle_request3, signal_of3}
use libhinawa.Req
use libhinawa.Fcp.{FwFcp}
use libhinawa.Fcp.History.{same_record}
use libhinawa.Fcp.History.Find.{holds_record}
use libhinawa.Fcp.History.Ring.{IsValid, latest}
use libhinawa.Fcp.Waiters.{Responded}
use libhinawa.Fcp.Requested.{
  current_record, sender_of, signal_of, is_response, handle_requested_signal,
}
use libhinawa.Fcp.Requested.Laws.{handle_requested_signal_lem}
use libhinawa.Fcp.Avc.{Notice, signalled}

-- What the class's handler of `requested` does to the responder: it sets no frame.
abbrev pub class_handler : Resp.Requested → List Action × Rcode
class_handler signal = ([], Rcode.complete)

-- Whether the responder emits `requested` for an event.
abbrev pub is_emitted : FwResp → EventRequest3 → Bool
is_emitted resp event = is_reserved resp && not (ltb resp.width event.length)

-- What follows the emission in the object of the protocol; one without a node has reserved no range.
abbrev pub heard_by : World → FwFcp → EventRequest3 → FwFcp × Option Responded
heard_by w fcp event = elim (node_at w fcp.node) [
  | none ↦ (fcp, none)
  | some n ↦ handle_requested_signal fcp n (signal_of3 event)
]

-- What the threads that wait are told, where `handlers` of them have connected theirs.
abbrev pub notices : ℕ → Option Responded → List Notice
notices handlers none = []
notices handlers (some r) = replicate handlers (signalled r)

-- What an event leaves: the responder with what was asked of the kernel, the protocol's object, and
-- the signal `responded` if it is emitted.
pub record Received : Type 0 where
  pub world : World
  pub resp : FwResp
  pub fcp : FwFcp
  pub signal : Option Responded

module _ (E : Env) where
  unfoldable pub receive : World → FwFcp → FwResp → EventRequest3 → Received
  receive w fcp resp event =
      let (w', resp') = handle_request3 E class_handler w resp event in
      let (fcp', signal) = if is_emitted resp event then heard_by w fcp event else (fcp, none) in
      record { world = w'; resp = resp'; fcp = fcp'; signal = signal }

  -- On a valid and reserved responder of an open node, for an event that is not longer than the
  -- range, of a protocol that is bound to an existing node with a valid history: the kernel is
  -- answered once, with the code for completion and no data; the signal `responded` is emitted with
  -- the event's generation, time stamp and data exactly if the event is a block write to the
  -- response address on the bound card whose sender is among the latest ten records or is the node
  -- as it is known now; and the history stays valid.
  pub receive_lem :
      (w : World) (fcp : FwFcp) (resp : FwResp) (event : EventRequest3) (p q fd : ℕ) (n m : FwNode)
      → Invariant.IsValid resp
      → resp.node ≡ some q
      → w.nodes q ≡ some m
      → m.fd ≡ some fd
      → event.length ≤ resp.width
      → fcp.node ≡ some p
      → w.nodes p ≡ some n
      → IsValid fcp.history
      → let r = receive w fcp resp event in
        let sender = sender_of (signal_of3 event) in
        (r.world.trace
          ≡ ioctl
              (some fd)
              send_response
              (record { rcode = Rcode.complete; length = 0; payload = none; handle = event.handle })
            ∷ w.trace)
        × (r.signal ≡ (
            if is_response fcp (signal_of3 event)
              && (holds_record sender (latest fcp.history) || same_record sender (current_record n))
            then some (signal_of (signal_of3 event))
            else none))
        × IsValid r.fcp.history
  unfolding receive handle_request3 handle emit_requested act is_reserved node_ioctl call_kernel
      keep_transaction is_null
  receive_lem w fcp resp event p q fd n m valid a b c d e f v =
      let known = handle_requested_signal_lem fcp n (signal_of3 event) v in
      (
        ground (arith, Invariant.has_width_valid resp valid),
        ground (arith, known.0),
        ground (arith, known.1),
      )
