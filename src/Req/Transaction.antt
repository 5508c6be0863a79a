-- ===== src/Req/Transaction.antt =====
-- `hinawa_fw_req_transaction_with_tstamp` as a whole.
use libhinawa.Base.{if◌then◌else◌, ap, ◌∙◌, ◌>>=◌}
use libhinawa.Base.{
  ℕ, ◌≡◌, ◌≢◌, ◌↔◌, refl, List, [], ◌∷◌, Option, none, some, true, false, arith, ==_self,
}
use libhinawa.Enums.{Tcode, Rcode, ReqError}
use libhinawa.Abi.{send_request, SendRequest}
use libhinawa.Env.{
  Env, ErrorSlot, empty, holds, ref, unref, ioctl, done, failed, req_error, req_error_errno,
  set_error, is_unset, is_null, ListLaws, remove_first,
}
use libhinawa.Node.{FwNode, World, put_node, emit, get_property}
use libhinawa.Node.Ioctl.{
  node_ioctl, call_kernel, keep_transaction, ioctl_error, enodev, invalidate_transaction,
}
use libhinawa.Node.Ioctl.Laws.{drop_transaction_lem}
use libhinawa.Req.{
  Waiter, handle_signals, Wake, woken, expired, wait, is_pending, error_of, Result, fresh_waiter,
  check, request_of,
}
use libhinawa.Req.Wait.{AreWhole, AreWakesWhole, handle_signals_keeps, wait_keeps}
use libhinawa.Req.Execute.{
  Schedule, after_send, request, finish, end_wait, await, transaction_with_tstamp,
}

-- The waiter at the end of the loop.
abbrev pub final_waiter : Schedule → List ℕ → ℕ → Option Waiter
final_waiter s frame frame_size =
    handle_signals (fresh_waiter frame frame_size) s.early >>= (λ waiter. wait waiter s.wakes)

-- Nothing but spurious wakes.
abbrev pub AreSilent : List Wake → Type 0
AreSilent [] = Unit {0}
AreSilent (woken [] ∷ wakes) = AreSilent wakes
AreSilent (woken (r ∷ rs) ∷ wakes) = ⊥
AreSilent (expired [] ∷ wakes) = AreSilent wakes
AreSilent (expired (r ∷ rs) ∷ wakes) = ⊥

wait_silent : (w : Waiter) (wakes : List Wake) → AreSilent wakes → wait w wakes ≡ some w
unfolding wait handle_signals
wait_silent w [] h = refl
wait_silent w (woken [] ∷ wakes) h = ground (arith, wait_silent w wakes h)
wait_silent w (woken (r ∷ rs) ∷ wakes) h = absurd h
wait_silent w (expired [] ∷ wakes) h = ground arith
wait_silent w (expired (r ∷ rs) ∷ wakes) h = absurd h

final_waiter_whole :
    (s : Schedule) (frame : List ℕ) (frame_size : ℕ)
    → AreWhole s.early
    → AreWakesWhole s.wakes
    → (waiter : Waiter) × (final_waiter s frame frame_size ≡ some waiter)
final_waiter_whole s frame frame_size early late =
    let P : Waiter → Type 0 = (λ w. Unit {0}) in
    let (v, run, _) =
      handle_signals_keeps P (λ w r h e. tt) (fresh_waiter frame frame_size) s.early tt early in
    let (v', run', _) = wait_keeps P (λ w r h e. tt) v s.wakes tt late in
    (v', ap (λ x. x >>= λ w. wait w s.wakes) run ∙ run')

abbrev pub Ends : (Result → Type 0) → Option Result → Type 0
Ends P none = ⊥
Ends P (some r) = P r

pub finish-value :
    (E : Env) (waiter : Waiter) (w : World) (frame_size : ℕ)
    → let r = finish E waiter w empty frame_size in
      ((r.value ≡ true) ↔ (waiter.rcode ≡ Rcode.complete)) × (is_unset r.error ≡ r.value)
unfolding finish error_of is_pending set_error is_unset
finish-value E waiter w frame_size = ((λ e. ground arith, λ e. ground arith), ground arith)

pub finish_keeps :
    (E : Env) (waiter : Waiter) (w : World) (error : ErrorSlot) (frame_size : ℕ)
    → let r = finish E waiter w error frame_size in
      (r.frame ≡ waiter.frame)
      × (r.world ≡ w)
      × (r.frame_size ≡ (if r.value then waiter.length else frame_size))
      × (r.tstamp ≡ (
          if is_pending waiter.rcode
          then none
          else some (waiter.request_tstamp, waiter.response_tstamp)))
unfolding finish
finish_keeps E waiter w error frame_size = (ground arith, ground arith, ground arith, ground arith)

pub finish_complete :
    (E : Env) (waiter : Waiter) (w : World) (error : ErrorSlot) (frame_size : ℕ)
    → waiter.rcode ≡ Rcode.complete
    → finish E waiter w error frame_size ≡ record {
      value = true;
      error = error;
      world = w;
      frame = waiter.frame;
      frame_size = waiter.length;
      tstamp = some (waiter.request_tstamp, waiter.response_tstamp);
    }
unfolding finish is_pending error_of
finish_complete E waiter w error frame_size e = ground arith

module _ (E : Env) (laws : ListLaws E) (s : Schedule) (w : World) (self p fd : ℕ) (priv : FwNode)
    (tcode : Tcode) (addr len : ℕ) (frame : List ℕ) (frame_size sent : ℕ)
    (at : w.nodes p ≡ some priv) (is_open : priv.fd ≡ some fd)
    (passes : check tcode addr len frame_size ≡ some sent) where
  abbrev pub sent_request : SendRequest
  sent_request = request_of self tcode addr sent frame priv.generation.generation

  -- The world when the request has been sent.
  abbrev pub sent_world : World
  sent_world =
      emit (put_node (emit w (ref p)) p (record priv { transactions = self ∷ priv.transactions }))
        (ioctl (some fd) send_request sent_request)

  request_done :
      (written : SendRequest)
      → E.ioctl (ref p ∷ w.trace) (some fd) send_request sent_request ≡ done written
      → request E (emit w (ref p)) self (some p) tcode addr len frame frame_size empty
        ≡ some (record { value = true; error = empty; world = sent_world })
  unfolding request after_send node_ioctl call_kernel keep_transaction is_unset is_null get_property
      request_of
  request_done written k = ground (arith, laws.prepend priv.transactions self)

  request_failed :
      (errno : ℕ)
      → E.ioctl (ref p ∷ w.trace) (some fd) send_request sent_request ≡ failed errno
      → errno ≢ 0
      → errno ≢ enodev
      → request E (emit w (ref p)) self (some p) tcode addr len frame frame_size empty
        ≡ some (record {
          value = true;
          error = holds (req_error_errno ReqError.send_error errno);
          world = sent_world;
        })
  unfolding request after_send node_ioctl call_kernel keep_transaction is_unset is_null get_property
      request_of ioctl_error set_error
  request_failed errno k nz ne = ground (arith, laws.prepend priv.transactions self)

  await_lem :
      (n : FwNode) (error : ErrorSlot) (waiter : Waiter)
      → final_waiter s frame frame_size ≡ some waiter
      → (s.elapse sent_world).nodes p ≡ some n
      → await E s self (some p) p sent_world frame frame_size error
        ≡ some (
            finish E waiter
              (emit
                (put_node
                  (s.elapse sent_world)
                  p
                  (record n { transactions = remove_first self n.transactions }))
                (unref p))
              error
              frame_size)
  unfolding await end_wait invalidate_transaction
  await_lem n error waiter f e =
      ap (λ x. x >>= λ v. some (end_wait E s self (some p) p sent_world frame_size error v)) f
      ∙ ground (arith, e, drop_transaction_lem E laws n self)

  pub transaction_eq :
      (n : FwNode) (written : SendRequest) (waiter : Waiter)
      → final_waiter s frame frame_size ≡ some waiter
      → E.ioctl (ref p ∷ w.trace) (some fd) send_request sent_request ≡ done written
      → (s.elapse sent_world).nodes p ≡ some n
      → transaction_with_tstamp E s w self (some p) tcode addr len frame frame_size empty
        ≡ some (
            finish E waiter
              (emit
                (put_node
                  (s.elapse sent_world)
                  p
                  (record n { transactions = remove_first self n.transactions }))
                (unref p))
              empty
              frame_size)
  unfolding transaction_with_tstamp
  transaction_eq n written waiter f k e =
      rw (at, transaction_with_tstamp, request_done written k, await_lem n empty waiter f e) refl

  -- With the laws of the lists, on an open node with an empty variable for the error, for a request
  -- that passes the guards and that the kernel takes, while the node's object stays and each signal
  -- has the data that it tells: the wait ends without a fault, and the transaction returns, with
  -- `TRUE` exactly when the waiter ends with the code for completion; it sets the error exactly
  -- when it returns `FALSE`; the buffer is the waiter's, and so is the size if it returns `TRUE`;
  -- the time stamps are stored unless the time was over; the request is taken out of the node's
  -- list, and the reference to the node is dropped.
  pub transaction_done :
      (n : FwNode) (written : SendRequest)
      → E.ioctl (ref p ∷ w.trace) (some fd) send_request sent_request ≡ done written
      → (s.elapse sent_world).nodes p ≡ some n
      → AreWhole s.early
      → AreWakesWhole s.wakes
      → (waiter : Waiter) × (final_waiter s frame frame_size ≡ some waiter)
        × Ends
            (λ r.
              ((r.value ≡ true) ↔ (waiter.rcode ≡ Rcode.complete))
              × (is_unset r.error ≡ r.value)
              × (r.frame ≡ waiter.frame)
              × (r.frame_size ≡ (if r.value then waiter.length else frame_size))
              × (r.tstamp ≡ (
                  if is_pending waiter.rcode
                  then none
                  else some (waiter.request_tstamp, waiter.response_tstamp)))
              × (r.world.nodes p
                  ≡ some (record n { transactions = remove_first self n.transactions }))
              × (r.world.trace ≡ unref p ∷ (s.elapse sent_world).trace))
            (transaction_with_tstamp E s w self (some p) tcode addr len frame frame_size empty)
  transaction_done n written k e early late =
      let (waiter, f) = final_waiter_whole s frame frame_size early late in
      let after =
        put_node (s.elapse sent_world) p
          (record n { transactions = remove_first self n.transactions }) in
      let value = finish-value E waiter (emit after (unref p)) frame_size in
      let kept = finish_keeps E waiter (emit after (unref p)) empty frame_size in
      (
        waiter,
        f,
        rw (transaction_eq n written waiter f k e)
            (value.0, value.1, kept.0, kept.2, kept.3, rw (kept.1, ==_self p) refl, rw kept.1 refl),
      )

  -- With the laws of the lists, on an open node with an empty variable for the error, for a
  -- request that passes the guards and that the kernel refuses with an `errno` other than
  -- `ENODEV`, where nothing but spurious wakes comes and the node's object stays: the transaction
  -- waits until the time is over and returns `FALSE` with the error for the timeout set over the
  -- one for the refusal; the buffer is unchanged and no time stamps are stored.
  pub transaction_refused :
      (n : FwNode) (errno : ℕ)
      → E.ioctl (ref p ∷ w.trace) (some fd) send_request sent_request ≡ failed errno
      → errno ≢ 0
      → errno ≢ enodev
      → s.early ≡ []
      → AreSilent s.wakes
      → (s.elapse sent_world).nodes p ≡ some n
      → Ends
          (λ r.
            (r.value ≡ false)
            × (r.error
                ≡ holds (
                    E.overwrite
                      (req_error_errno ReqError.send_error errno)
                      (req_error ReqError.cancelled)))
            × (r.frame ≡ frame)
            × (r.tstamp ≡ none))
          (transaction_with_tstamp E s w self (some p) tcode addr len frame frame_size empty)
  unfolding transaction_with_tstamp finish is_pending set_error handle_signals
  transaction_refused n errno k nz ne early silent e =
      let refusal = holds (req_error_errno ReqError.send_error errno) in
      let waiter = fresh_waiter frame frame_size in
      let f : final_waiter s frame frame_size ≡ some waiter =
        rw (early, handle_signals) (wait_silent waiter s.wakes silent) in
      rw (at, transaction_with_tstamp, request_failed errno k nz ne, await_lem n refusal waiter f e)
        (ground arith)
