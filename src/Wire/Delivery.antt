-- ===== src/Wire/Delivery.antt =====
-- The bytes of a response, from the kernel to the caller of the transaction that waits.
use libhinawa.Base.{
  ℕ, ◌+◌, ◌-◌, ◌≤◌, ◌≡◌, ◌↔◌, ap, ◌∙◌, List, ◌∷◌, ◌++◌, Option, some, none, true, false, arith,
  length, take, drop, min, take_enough, if◌then◌else◌,
}
use libhinawa.Enums.{Rcode, Tcode}
use libhinawa.Abi.{Event, EventResponse2, response2, SendRequest, send_request}
use libhinawa.Env.{Env, empty, ref, unref, ioctl, done, ListLaws, contains, is_unset}
use libhinawa.Node.{FwNode}
use libhinawa.Resp
use libhinawa.Resp.Handle.{Action}
use libhinawa.Req
use libhinawa.Req.{check, is_pending}
use libhinawa.Req.Execute.{transaction_with_tstamp}
use libhinawa.Req.Transaction.{Ends}
use libhinawa.Dispatch.{Objects}
use libhinawa.Dispatch.Delivery
use libhinawa.Dispatch.Delivery.{delivered, transaction_delivered}
use libhinawa.Wire.{ByteOrder, Codes, get_event}
use libhinawa.Wire.RoundTrip.{put_event, Fits}
use libhinawa.Wire.Page.{read_into, read_into-put_event}

-- The event for a request, with the response that the kernel has for it.
abbrev pub event_for : ℕ → EventResponse2 → Event
event_for req e = record { closure = req; body = response2 e }

-- What the caller finds, from a buffer that is large enough for the data.
abbrev pub Delivers : EventResponse2 → List ℕ → ℕ → Option Req.Result → Type 0
Delivers e frame size = Ends (λ out.
    ((out.value ≡ true) ↔ (e.rcode ≡ Rcode.complete))
    × (is_unset out.error ≡ out.value)
    × (out.frame ≡ e.payload ++ drop e.length frame)
    × (out.frame_size ≡ (if out.value then e.length else size))
    × (out.tstamp ≡ some (e.request_tstamp, e.response_tstamp)))

-- With a buffer that is large enough, what fits is all of the data.
all_delivered :
    (Same Traced : Req.Result → Type 0) (e : EventResponse2) (bytes frame : List ℕ) (size : ℕ)
    (r : Option Req.Result)
    → min size e.length ≡ e.length
    → take e.length bytes ≡ e.payload
    → Ends
        (λ out.
          ((out.value ≡ true) ↔ (e.rcode ≡ Rcode.complete))
          × (is_unset out.error ≡ out.value)
          × (out.frame ≡ take (min size e.length) bytes ++ drop (min size e.length) frame)
          × (out.frame_size ≡ (if out.value then min size e.length else size))
          × (out.tstamp ≡ some (e.request_tstamp, e.response_tstamp))
          × Same out
          × Traced out)
        r
    → Delivers e frame size r
all_delivered Same Traced e bytes frame size none fits kept ends = ends
all_delivered Same Traced e bytes frame size (some out) fits kept
      (value, error, copied, sized, stamps, same, traced) =
    (
      value,
      error,
      copied
          ∙ ap (λ n. take n bytes ++ drop n frame) fits
          ∙ ap (λ xs. xs ++ drop e.length frame) kept,
      sized ∙ ap (λ n. if out.value then n else size) fits,
      stamps,
    )

module _ (E : Env) (laws : ListLaws E) (handlers : ℕ → Resp.Requested → List Action × Rcode)
    (o : Objects) (req p fd : ℕ) (priv : FwNode) (at : o.world.nodes p ≡ some priv)
    (is_open : priv.fd ≡ some fd) (not_node : o.world.nodes req ≡ none)
    (not_resp : o.resps req ≡ none) (is_req : o.reqs req ≡ true) where
  -- The objects when the request has been sent, and what the kernel was asked.
  abbrev pub sent_with : EventResponse2 → SendRequest → Objects
  sent_with e =
      Delivery.sent_objects E laws handlers o req p fd priv e at is_open not_node not_resp is_req

  abbrev pub asked_with : EventResponse2 → Tcode → ℕ → ℕ → List ℕ → SendRequest
  asked_with e =
      Delivery.asked E laws handlers o req p fd priv e at is_open not_node not_resp is_req

  -- With the laws of the lists, for a request at an address that is no node and no responder and
  -- that its node does not keep yet, on an open node with an empty variable for the error: if it
  -- passes the guards and the kernel takes it, and if the numbers of a response whose code is not
  -- the one that marks a waiter without a response fit their members, with data as long as its
  -- member tells, that fit the buffer of the event source behind the members and the buffer of the
  -- caller, then the dispatcher reads some event from what the kernel writes into the buffer of the
  -- source for that response. When the dispatcher reads that event while the thread waits, the
  -- transaction returns, with `TRUE` exactly for the code of completion, and it sets the error
  -- exactly when it returns `FALSE`. The caller's buffer holds all of the data, followed by what it
  -- held behind; for `TRUE` the size is that of the data; the time stamps are those of the response.
  pub transaction-put_event :
      (codes : Codes) (order : ByteOrder) (page : List ℕ) (e : EventResponse2) (tcode : Tcode)
      (addr len : ℕ) (frame : List ℕ) (size sent : ℕ) (written : SendRequest)
      → Fits codes order (event_for req e)
      → length e.payload ≡ e.length
      → 32 + e.length ≤ length page
      → e.length ≤ size
      → contains req priv.transactions ≡ false
      → is_pending e.rcode ≡ false
      → check tcode addr len size ≡ some sent
      → E.ioctl (ref p ∷ o.world.trace) (some fd) send_request (asked_with e tcode addr sent frame)
        ≡ done written
      → (event : Event) × (get_event codes order
            (read_into page (put_event codes order (event_for req e)))
          ≡ some event)
        × Delivers e frame size (
            transaction_with_tstamp E
              (delivered E handlers (sent_with e (asked_with e tcode addr sent frame)) p req event)
              o.world
              req
              (some p)
              tcode
              addr
              len
              frame
              size
              empty)
  transaction-put_event codes order page e tcode addr len frame size sent written fits l room large
        new code passes k =
      let (bytes, got, extent, within, start_of) =
        read_into-put_event codes order (event_for req e) page fits tt (omega arith) l in
      let reply = record e { payload = bytes } in
      let data_kept : take e.length bytes ≡ e.payload =
        start_of ∙ take_enough (length page - 32) e.payload (omega (arith, l)) in
      let all_fits : min size e.length ≡ e.length = omega arith in
      let ends =
        transaction_delivered E laws handlers o req p fd priv reply at is_open not_node not_resp
          is_req tcode addr len frame size sent written new code (omega (arith, extent)) passes k in
      (
        event_for req reply,
        got,
        all_delivered (λ out. out.world.nodes p ≡ some priv)
            (λ out.
              out.world.trace
              ≡ unref p
                ∷ ioctl (some fd) send_request (asked_with e tcode addr sent frame)
                ∷ ref p
                ∷ o.world.trace)
            e bytes frame size _ all_fits data_kept ends,
      )
