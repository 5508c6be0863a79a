-- ===== src/Fcp/Receive/Source.antt =====
-- The event source of the responder's node, which reads the event.
use libhinawa.Base.{
  ℕ, ◌≤◌, ◌≡◌, refl, List, [], ◌∷◌, none, some, true, false, ◌&&◌, ◌||◌, ◌==◌, arith, ap, ◌∙◌,
}
use libhinawa.Base.{if◌then◌else◌}
use libhinawa.Enums.{Rcode}
use libhinawa.Abi.{EventRequest3, request3, send_response}
use libhinawa.Env.{Env, ioctl, done}
use libhinawa.Node.{FwNode, get_property, World}
use libhinawa.Resp
use libhinawa.Resp.Invariant
use libhinawa.Resp.{FwResp}
use libhinawa.Resp.Handle.{Action, signal_of3, handle_request3}
use libhinawa.Dispatch.{
  Objects, Condition, dispatch_src, dispatch_event, dispatch_resp, is_bus_reset, put_resp,
  Dispatched,
}
use libhinawa.Fcp.{FwFcp}
use libhinawa.Fcp.History.{NodeRecord, same_record}
use libhinawa.Fcp.History.Find.{holds_record}
use libhinawa.Fcp.History.Ring.{IsValid, latest}
use libhinawa.Fcp.Requested.{current_record, sender_of, signal_of}
use libhinawa.Fcp.Requested.Laws.{is_reply, is_response-reply}
use libhinawa.Fcp.Receive.{class_handler, receive, receive_lem}

module _ (E : Env) (handlers : ℕ → Resp.Requested → List Action × Rcode) (o : Objects)
    (self fd c : ℕ) (priv : FwNode) (condition : Condition) (fcp : FwFcp) (resp : FwResp)
    (event : EventRequest3) where
  dispatch_src-put_resp :
      o.world.nodes self ≡ some priv
      → priv.fd ≡ some fd
      → condition.broken ≡ false
      → o.resps c ≡ some resp
      → dispatch_src E handlers o self condition
          (done (record { closure = c; body = request3 event }))
        ≡ record {
          keep = true;
          signals = [];
          objects = put_resp o c (handle_request3 E (handlers c) o.world resp event);
        }
  unfolding dispatch_src dispatch_event dispatch_resp is_bus_reset
  dispatch_src-put_resp at is_open whole found = ground arith

  receive-put_resp :
      let r = receive E o.world fcp resp event in
      (handle_request3 E class_handler o.world resp event) ≡ (r.world, r.resp)
  unfolding receive
  receive-put_resp = refl

  receive-IsValid :
      Invariant.IsValid resp → Invariant.IsValid (receive E o.world fcp resp event).resp
  unfolding receive handle_request3
  receive-IsValid v =
      Invariant.handle-IsValid E class_handler o.world resp (signal_of3 event) event.handle v

  -- On an open node whose source reads a request without an error of the device, for a responder
  -- that is the protocol's object with no other handler connected, that is valid and reserved on an
  -- open node, for a range no shorter than the request, while the protocol is bound to an existing
  -- node with a valid history: the source emits no signal of the node or of a request and goes on;
  -- the kernel is answered once, with the code for completion and no data; the signal `responded`
  -- is emitted with the event's generation, time stamp and data exactly if the event is a block
  -- write to the response address on the bound card whose sender is among the latest ten records or
  -- is the bound node as it is known now; and the history and the responder stay valid.
  pub dispatch_src-receive :
      (p q fd' : ℕ) (n m : FwNode)
      → o.world.nodes self ≡ some priv
      → priv.fd ≡ some fd
      → condition.broken ≡ false
      → o.resps c ≡ some resp
      → handlers c ≡ class_handler
      → Invariant.IsValid resp
      → resp.node ≡ some q
      → o.world.nodes q ≡ some m
      → m.fd ≡ some fd'
      → event.length ≤ resp.width
      → fcp.node ≡ some p
      → o.world.nodes p ≡ some n
      → IsValid fcp.history
      → let d =
          dispatch_src E handlers o self condition
            (done (record { closure = c; body = request3 event })) in
        let r = receive E o.world fcp resp event in
        let sender : NodeRecord = record {
          generation = event.generation;
          src_node_id = event.source_node_id;
        } in
        (d ≡ record { keep = true; signals = []; objects = put_resp o c (r.world, r.resp) })
        × (d.objects.world.trace
            ≡ ioctl (some fd') send_response (record {
              rcode = Rcode.complete;
              length = 0;
              payload = none;
              handle = event.handle;
            })
              ∷ o.world.trace)
        × (r.signal ≡ (
            if is_reply fcp.card_id (signal_of3 event)
              && (holds_record sender (latest fcp.history)
                  || event.generation == n.generation.generation
                    && event.source_node_id == n.generation.node_id)
            then some (record {
              generation = event.generation;
              tstamp = event.tstamp;
              frame = event.payload;
              frame_size = event.length;
            })
            else none))
        × IsValid r.fcp.history
        × Invariant.IsValid r.resp
  unfolding same_record get_property
  dispatch_src-receive p q fd' n m at is_open whole found own w a b e f g h v =
      let known = receive_lem E o.world fcp resp event p q fd' n m w a b e f g h v in
      let d : dispatch_src E handlers o self condition
            (done (record { closure = c; body = request3 event }))
          ≡ record {
            keep = true;
            signals = [];
            objects =
                put_resp o c (
                  (receive E o.world fcp resp event).world,
                  (receive E o.world fcp resp event).resp,
                );
          } =
        dispatch_src-put_resp at is_open whole found
        ∙ ap
            (λ (h : Resp.Requested → List Action × Rcode). record {
              keep = true;
              signals = [];
              objects = put_resp o c (handle_request3 E h o.world resp event);
            })
            own
        ∙ ap
            (λ (x : World × FwResp). record { keep = true; signals = []; objects = put_resp o c x })
            receive-put_resp in
      (
        d,
        ap (λ (x : Dispatched). x.objects.world.trace) d ∙ known.0,
        known.1
            ∙ ap
                (λ reply.
                  if reply
                    && (holds_record (sender_of (signal_of3 event)) (latest fcp.history)
                        || same_record (sender_of (signal_of3 event)) (current_record n))
                  then some (signal_of (signal_of3 event))
                  else none)
                (is_response-reply fcp (signal_of3 event)),
        known.2,
        receive-IsValid w,
      )
