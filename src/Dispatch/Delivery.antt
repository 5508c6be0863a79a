-- ===== src/Dispatch/Delivery.antt =====
-- A transaction whose response is read by the event source of its node.
use libhinawa.Base.{
  ℕ, ◌≤◌, ◌≡◌, ◌↔◌, refl, ap, ◌∙◌, min, List, [], ◌∷◌, ◌++◌, length, take, drop, none, some, true,
  false, arith, ◌==◌, ==_self, if◌then◌else◌,
}
use libhinawa.Enums.{Tcode, Rcode}
use libhinawa.Abi.{send_request, SendRequest, Event, response2, EventResponse2}
use libhinawa.Env.{
  Env, empty, ref, unref, ioctl, done, ListLaws, contains, remove_first, remove_first-missing,
  is_unset,
}
use libhinawa.Node.{World, FwNode, put_node, emit}
use libhinawa.Resp
use libhinawa.Resp.{FwResp}
use libhinawa.Resp.Handle.{Action}
use libhinawa.Req.{
  filled, is_pending, Responded, handle_response2, handle_responded_signal, handle_signals, Wake,
  woken, wait, is_pending, fresh_waiter, check, request_of,
}
use libhinawa.Req.Execute.{Schedule, transaction_with_tstamp}
use libhinawa.Req.Transaction.{
  Ends, final_waiter, transaction_eq, finish-value, finish_keeps, finish_complete,
}
use libhinawa.Dispatch.{
  Objects, Signal, disconnected, bus_update, responded, response_signals, dispatch_src,
}
use libhinawa.Dispatch.Laws.{dispatch_src_responded}

-- What the handlers that a request has connected are told by the signals of the source.
abbrev pub told : ℕ → List Signal → List Responded
told req [] = []
told req (responded p r ∷ signals) = if p == req then r ∷ told req signals else told req signals
told req (disconnected p ∷ signals) = told req signals
told req (bus_update p ∷ signals) = told req signals

module _ (E : Env) (handlers : ℕ → Resp.Requested → List Action × Rcode) where
  -- One call of the source of the node at `p` between the request of `req` and its wait's end: `o`
  -- are the objects when the request has been sent.
  abbrev pub delivered : Objects → ℕ → ℕ → Event → Schedule
  delivered o p req event =
      let r =
        dispatch_src E handlers o p (record { readable = true; broken = false }) (done event) in
      record { early = []; wakes = woken (told req r.signals) ∷ []; elapse = λ w. r.objects.world }

module _ (E : Env) (laws : ListLaws E) (handlers : ℕ → Resp.Requested → List Action × Rcode)
    (o : Objects) (req p fd : ℕ) (priv : FwNode) (reply : EventResponse2)
    (at : o.world.nodes p ≡ some priv) (is_open : priv.fd ≡ some fd)
    (not_node : o.world.nodes req ≡ none) (not_resp : o.resps req ≡ none)
    (is_req : o.reqs req ≡ true) where
  -- The event with the response to the request.
  abbrev pub answer_event : Event
  answer_event = record { closure = req; body = response2 reply }

  -- The objects when the request `r` has been sent.
  abbrev pub sent_objects : SendRequest → Objects
  sent_objects r = record o {
    world =
        emit
          (put_node (emit o.world (ref p)) p
            (record priv { transactions = req ∷ priv.transactions }))
          (ioctl (some fd) send_request r);
  }

  -- What the kernel is asked.
  abbrev pub asked : Tcode → ℕ → ℕ → List ℕ → SendRequest
  asked tcode addr sent frame = request_of req tcode addr sent frame priv.generation.generation

  delivered_lem :
      (r : SendRequest)
      → let s = delivered E handlers (sent_objects r) p req answer_event in
        (s.wakes ≡ woken (handle_response2 reply ∷ []) ∷ [])
        × ((s.elapse (sent_objects r).world).nodes p ≡ some priv)
        × ((s.elapse (sent_objects r).world).trace ≡ (sent_objects r).world.trace)
  unfolding response_signals contains remove_first
  delivered_lem r =
      let n = record priv { transactions = req ∷ priv.transactions } in
      let d =
        dispatch_src_responded E handlers laws (sent_objects r) p fd n
          (record { readable = true; broken = false }) answer_event (rw (==_self p) refl) is_open
          refl (ground (arith, at, not_node)) not_resp is_req (ground arith) in
      ground (arith, d.1, d.2, d.3)

  -- The buffer and its size after the response.
  abbrev pub copied : List ℕ → ℕ → List ℕ
  copied frame size = let k = min size reply.length in take k reply.payload ++ drop k frame

  delivered_waiter :
      (r : SendRequest) (frame : List ℕ) (size : ℕ)
      → reply.length ≤ length reply.payload
      → final_waiter (delivered E handlers (sent_objects r) p req answer_event) frame size
        ≡ some (filled (fresh_waiter frame size) (handle_response2 reply))
  unfolding wait handle_signals handle_responded_signal handle_response2 is_pending
  delivered_waiter r frame size held =
      ap (λ (ws : List Wake). wait (fresh_waiter frame size) ws) (delivered_lem r).0 ∙ ground arith

  -- With the laws of the lists, for a request at an address that is no node and no responder and
  -- that its node does not keep yet, on an open node with an empty variable for the error: if it
  -- passes the guards, the kernel takes it, and the source of the node reads the response to it
  -- while the thread waits, whose code is not the one that marks a waiter without a response and
  -- which has all the data that its length tells, then the transaction returns, with `TRUE` exactly
  -- for the code of completion, and it sets the error exactly when it returns `FALSE`. The buffer
  -- holds as much of the response as fits, followed by what it held behind; for `TRUE` the size is
  -- that of what was copied; the time stamps are those of the event; the node is as it was before;
  -- and the one system call of the whole is the request, between taking a reference to the node and
  -- dropping it.
  pub transaction_delivered :
      (tcode : Tcode) (addr len : ℕ) (frame : List ℕ) (size sent : ℕ) (written : SendRequest)
      → contains req priv.transactions ≡ false
      → is_pending reply.rcode ≡ false
      → reply.length ≤ length reply.payload
      → check tcode addr len size ≡ some sent
      → E.ioctl (ref p ∷ o.world.trace) (some fd) send_request (asked tcode addr sent frame)
        ≡ done written
      → Ends
          (λ out.
            ((out.value ≡ true) ↔ (reply.rcode ≡ Rcode.complete))
            × (is_unset out.error ≡ out.value)
            × (out.frame ≡ copied frame size)
            × (out.frame_size ≡ (if out.value then min size reply.length else size))
            × (out.tstamp ≡ some (reply.request_tstamp, reply.response_tstamp))
            × (out.world.nodes p ≡ some priv)
            × (out.world.trace
                ≡ unref p
                  ∷ ioctl (some fd) send_request (asked tcode addr sent frame)
                  ∷ ref p
                  ∷ o.world.trace))
          (transaction_with_tstamp E
            (delivered E handlers (sent_objects (asked tcode addr sent frame)) p req answer_event)
            o.world
            req
            (some p)
            tcode
            addr
            len
            frame
            size
            empty)
  unfolding handle_response2
  transaction_delivered tcode addr len frame size sent written new code held passes k =
      let r = request_of req tcode addr sent frame priv.generation.generation in
      let s = delivered E handlers (sent_objects r) p req answer_event in
      let d = delivered_lem r in
      let after =
        emit
          (put_node (s.elapse (sent_objects r).world) p
            (record priv { transactions = remove_first req priv.transactions }))
          (unref p) in
      let waiter = filled (fresh_waiter frame size) (handle_response2 reply) in
      let value = finish-value E waiter after size in
      let kept = finish_keeps E waiter after empty size in
      rw
        (transaction_eq E laws s o.world req p fd priv tcode addr len frame size sent at is_open
          passes priv written waiter (delivered_waiter r frame size held) k d.1)
        (
          value.0,
          value.1,
          kept.0,
          kept.2,
          kept.3 ∙ rw code refl,
          rw (kept.1, ==_self p, remove_first-missing req priv.transactions new) refl,
          rw (kept.1, d.2) refl,
        )

  -- The world at the end of the transaction.
  abbrev pub final_world : SendRequest → World
  final_world r =
      emit
        (put_node
          ((delivered E handlers (sent_objects r) p req answer_event).elapse (sent_objects r).world)
          p (record priv { transactions = remove_first req priv.transactions }))
        (unref p)

  pub final_world_lem :
      (r : SendRequest)
      → contains req priv.transactions ≡ false
      → ((final_world r).nodes p ≡ some priv)
        × ((final_world r).trace ≡ unref p ∷ ioctl (some fd) send_request r ∷ ref p ∷ o.world.trace)
  final_world_lem r new = (
    rw (==_self p, remove_first-missing req priv.transactions new) refl,
    rw (delivered_lem r).2 refl,
  )

  pub transaction_completed :
      (tcode : Tcode) (addr len : ℕ) (frame : List ℕ) (size sent : ℕ) (written : SendRequest)
      → reply.rcode ≡ Rcode.complete
      → reply.length ≤ length reply.payload
      → check tcode addr len size ≡ some sent
      → E.ioctl (ref p ∷ o.world.trace) (some fd) send_request (asked tcode addr sent frame)
        ≡ done written
      → transaction_with_tstamp E
          (delivered E handlers (sent_objects (asked tcode addr sent frame)) p req answer_event)
          o.world
          req
          (some p)
          tcode
          addr
          len
          frame
          size
          empty
        ≡ some (record {
          value = true;
          error = empty;
          world = final_world (asked tcode addr sent frame);
          frame = copied frame size;
          frame_size = min size reply.length;
          tstamp = some (reply.request_tstamp, reply.response_tstamp);
        })
  unfolding handle_response2
  transaction_completed tcode addr len frame size sent written complete held passes k =
      let r = asked tcode addr sent frame in
      let s = delivered E handlers (sent_objects r) p req answer_event in
      let waiter = filled (fresh_waiter frame size) (handle_response2 reply) in
      transaction_eq E laws s o.world req p fd priv tcode addr len frame size sent at is_open passes
        priv written waiter (delivered_waiter r frame size held) k (delivered_lem r).1
      ∙ ap some (finish_complete E waiter (final_world r) empty size complete)
