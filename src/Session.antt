-- ===== src/Session.antt =====
-- Sequences of calls: what a program and its main loop make of the objects of src/fw_node.c,
-- src/fw_resp.c, src/fw_fcp.c and src/fw_req.c, one call after the other. A transaction is two calls,
-- so that others come between its request and its end.
pub mod References
pub mod Classes
pub mod Nodes
pub mod Closed
pub mod Preserve
pub mod Files
pub mod Opening
pub mod Holders
pub mod Balance
mod Tests
use libhinawa.Base.{
  ℕ, List, [], ◌∷◌, ◌++◌, Option, none, some, ◌==◌, if◌then◌else◌, set, update, get_elem?, ◌>>=◌,
}
use libhinawa.CycleTime.{CycleTime}
use libhinawa.Enums.{Tcode, Rcode}
use libhinawa.Env.{Env, ErrorSlot, ref, unref}
use libhinawa.Node
use libhinawa.Node.{World, put_node, emit}
use libhinawa.Node.Ioctl.{invalidate_transaction, read_cycle_time}
use libhinawa.Node.Open.{open_node, handle_update}
use libhinawa.Node.Open.Laws.{fd_at}
use libhinawa.Resp
use libhinawa.Resp.{FwResp}
use libhinawa.Resp.Region
use libhinawa.Resp.Region.{release, reserve_within_region}
use libhinawa.Resp.Handle.{Action, handle}
use libhinawa.Req.{Responded, Wake}
use libhinawa.Req.Execute.{Schedule, request, await}
use libhinawa.Fcp
use libhinawa.Fcp.{FwFcp}
use libhinawa.Fcp.History.{NodeHistory}
use libhinawa.Fcp.Waiters.{Waiters}
use libhinawa.Fcp.Bind
use libhinawa.Fcp.Bind.{bind, unbind}
use libhinawa.Session.References.{refs, unrefs}

-- What holds references to nodes: a `HinawaFwResp`, a `HinawaFwFcp` with the responder that it is, a
-- call of `hinawa_fw_req_transaction_with_tstamp` that waits (with the request and the node), and
-- nothing, where an object is gone or a call has returned.
pub data Holder : Type 0 where
  responder : FwResp → Holder
  protocol : FwFcp → FwResp → Holder
  transaction : ℕ → ℕ → Holder
  gone : Holder

pub record Session : Type 0 where
  pub world : World
  pub holders : List Holder
  pub waiters : Waiters

-- The calls on one holder. `exchanging` stands for all that commands and responses do to the object
-- of a protocol and to the structures of the transactions.
pub data HolderCall : Type 0 where
  reserving : Option ℕ → ℕ → ℕ → ℕ → ErrorSlot → HolderCall
  releasing : HolderCall
  receiving : (Resp.Requested → List Action × Rcode) → Resp.Requested → ℕ → HolderCall
  binding : ℕ → ErrorSlot → HolderCall
  unbinding : HolderCall
  exchanging : List ℕ → NodeHistory → Waiters → HolderCall
  returning : List Responded → List Wake → List ℕ → ℕ → ErrorSlot → HolderCall
  finalizing : HolderCall

-- All calls: on a holder, new objects, the first half of a transaction, and those on the node at an
-- address. `collecting` is the end of the program's own references to the node.
pub data Call : Type 0 where
  on : ℕ → HolderCall → Call
  new_responder new_protocol : Call
  beginning : ℕ → Option ℕ → Tcode → ℕ → ℕ → List ℕ → ℕ → ErrorSlot → Call
  new_node : ℕ → Call
  opening : ℕ → Option (List ℕ) → ℕ → ErrorSlot → Call
  updating : ℕ → Call
  reading : ℕ → ℕ → CycleTime → ErrorSlot → Call
  invalidating : ℕ → ℕ → Call
  collecting : ℕ → Call

-- `g_object_unref` of a node: GObject runs `fw_node_finalize` when no other reference is left.
unfoldable pub collect : World → ℕ → World
collect w p = elim (w.nodes p) [
  | none ↦ w
  | some n ↦
      if refs p w.trace == unrefs p w.trace
      then record { nodes = update w.nodes p none; trace = Node.finalize n w.trace }
      else w
]

-- `dispatch_src` of a node's source for a bus reset, which it reads only where the node is open.
unfoldable pub handle_reset : Env → World → ℕ → World
handle_reset E w p = elim (fd_at w p) [ none ↦ w | some fd ↦ handle_update E w p ]

-- `g_object_new` of a node, where no object is.
unfoldable pub create_node : World → ℕ → World
create_node w p = elim (w.nodes p) [ none ↦ put_node w p Node.init | some n ↦ w ]

module _ (E : Env) where
  -- The calls on a responder; others do not reach its part of an object.
  unfoldable pub on_responder : World → ℕ → FwResp → HolderCall → Option (World × FwResp)
  on_responder w self priv (reserving node start end_ width error) =
      reserve_within_region E w self priv node start end_ width error
      >>= (λ (priv', out). some (out.world, priv'))
  on_responder w self priv releasing = some (release E w priv)
  on_responder w self priv (receiving handlers signal handle_id) =
      some (handle E handlers w priv signal handle_id)
  on_responder w self priv _ = some (w, priv)

  unfoldable pub on_protocol :
      World → Waiters → ℕ → FwFcp → FwResp → HolderCall → Option (World × Waiters × Holder)
  on_protocol w s self fcp resp (binding q error) =
      bind E w self fcp resp q error
      >>= (λ (fcp', resp', out). some (out.world, s, protocol fcp' resp'))
  on_protocol w s self fcp resp unbinding =
      unbind E w fcp resp s >>= (λ (w', fcp', resp', s'). some (w', s', protocol fcp' resp'))
  on_protocol w s self fcp resp (exchanging transactions history s') =
      some (w, s', protocol (record fcp { transactions = transactions; history = history }) resp)
  on_protocol w s self fcp resp finalizing =
      Bind.finalize E w fcp resp s >>= (λ (w', s'). some (w', s', gone))
  on_protocol w s self fcp resp call =
      on_responder w self resp call >>= (λ (w', resp'). some (w', s, protocol fcp resp'))

  -- A call on a holder at the address `self`; no result is a fault, which a call on an object that is
  -- gone is too.
  unfoldable pub on_holder :
      World → Waiters → ℕ → Holder → HolderCall → Option (World × Waiters × Holder)
  on_holder w s self (responder priv) finalizing = some (Region.finalize E w priv, s, gone)
  on_holder w s self (responder priv) call =
      on_responder w self priv call >>= (λ (w', priv'). some (w', s, responder priv'))
  on_holder w s self (protocol fcp resp) call = on_protocol w s self fcp resp call
  on_holder w s self (transaction req p) (returning early wakes frame frame_size error) =
      let schedule : Schedule = record { early = early; wakes = wakes; elapse = λ w. w } in
      await E schedule req (some p) p w frame frame_size error >>= (λ r. some (r.world, s, gone))
  on_holder w s self (transaction req p) call = some (w, s, transaction req p)
  on_holder w s self gone call = none

  -- `hinawa_fw_req_transaction_with_tstamp` until it waits, or returns because of its guards or of
  -- the error of the request.
  unfoldable pub begin :
      World → ℕ → Option ℕ → Tcode → ℕ → ℕ → List ℕ → ℕ → ErrorSlot → Option (World × Holder)
  begin w self none tcode addr length frame frame_size error = some (w, gone)
  begin w self (some p) tcode addr length frame frame_size error = elim (w.nodes p) [
    | none ↦ some (w, gone)
    | some n ↦
        request E (emit w (ref p)) self (some p) tcode addr length frame frame_size error >>= λ r.
        if r.value then some (r.world, transaction self p) else some (emit r.world (unref p), gone)
  ]

  unfoldable pub step : Session → Call → Option Session
  step s (on i call) = get_elem? s.holders i >>= λ h.
      on_holder s.world s.waiters i h call >>= λ (w, waiters, h').
      some (record { world = w; holders = set s.holders i h'; waiters = waiters })
  step s new_responder = some (record s { holders = s.holders ++ (responder Resp.init ∷ []) })
  step s new_protocol =
      some (record s { holders = s.holders ++ (protocol Fcp.init Resp.init ∷ []) })
  step s (beginning self node tcode addr length frame frame_size error) =
      begin s.world self node tcode addr length frame frame_size error
      >>= (λ (w, h). some (record s { world = w; holders = s.holders ++ (h ∷ []) }))
  step s (new_node p) = some (record s { world = create_node s.world p })
  step s (opening p path flag error) =
      some (record s { world = (open_node E s.world (some p) path flag error).world })
  step s (updating p) = some (record s { world = handle_reset E s.world p })
  step s (reading p clock cycle_time error) =
      some
        (record s { world = (read_cycle_time E s.world (some p) clock cycle_time error).1.world })
  step s (invalidating p req) =
      some (record s { world = invalidate_transaction E s.world (some p) req })
  step s (collecting p) = some (record s { world = collect s.world p })

  unfoldable pub run : Session → List Call → Option Session
  run s [] = some s
  run s (call ∷ calls) = step s call >>= (λ s'. run s' calls)
