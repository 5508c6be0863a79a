-- ===== src/Req/Execute.antt =====
-- src/fw_req.c: the request and the transaction, over the node's system calls.
use libhinawa.Base.{ℕ, List, Option, none, some, Bool, true, false, not, ltb, ◌>>=◌, if◌then◌else◌}
use libhinawa.Enums.{Tcode, ReqError}
use libhinawa.Abi.{send_request}
use libhinawa.Env.{
  Env, ErrorSlot, null, empty, holds, req_error, req_error_errno, ref, unref, set_error, is_unset,
}
use libhinawa.Node.{World, node_at, emit, Outcome, generation, get_property}
use libhinawa.Node.Ioctl.{Ioctl, node_ioctl, invalidate_transaction}
use libhinawa.Req.{
  check, request_of, Waiter, Responded, handle_signals, Wake, wait, is_pending, error_of, Result,
  fresh_waiter,
}

-- What happens around the waiting thread: the signals before it takes the mutex, the schedule of the
-- loop, and what the other threads do to the objects until the loop ends.
pub record Schedule : Type 0 where
  pub early : List Responded
  pub wakes : List Wake
  pub elapse : World → World

-- A return of `FALSE` that leaves the memory of the caller as it is.
abbrev pub refused : World → List ℕ → ℕ → ErrorSlot → Result
refused w frame frame_size error = record {
  value = false;
  error = error;
  world = w;
  frame = frame;
  frame_size = frame_size;
  tstamp = none;
}

module _ (E : Env) where
  -- After the call of `FW_CDEV_IOC_SEND_REQUEST`: `err >= 0` holds for each `errno`. No result is a
  -- crash: the function reads `*error`.
  unfoldable pub after_send : Ioctl send_request → Option (Outcome Bool)
  after_send r = elim r.error [
    | null ↦ none
    | holds e ↦ some (record { value = true; error = r.error; world = r.world })
    | empty ↦ some (record {
      value = true;
      error =
          if ltb 0 r.err
          then set_error E r.error (req_error_errno ReqError.send_error r.err)
          else r.error;
      world = r.world;
    })
  ]

  -- `hinawa_fw_req_request` of the object at `self`
  unfoldable pub request :
      World → ℕ → Option ℕ → Tcode → ℕ → ℕ → List ℕ → ℕ → ErrorSlot → Option (Outcome Bool)
  request w self node tcode addr length frame frame_size error = elim (node_at w node) [
    | none ↦ some (record { value = false; error = error; world = w })
    | some priv ↦
        if not (is_unset error)
        then some (record { value = false; error = error; world = w })
        else elim (check tcode addr length frame_size) [
          | none ↦ some (record { value = false; error = error; world = w })
          | some sent ↦ after_send (
              node_ioctl E w node send_request
                (request_of self tcode addr sent frame (get_property priv generation)) error)
        ]
  ]

  -- The end of `hinawa_fw_req_transaction_with_tstamp`, after the loop.
  unfoldable pub finish : Waiter → World → ErrorSlot → ℕ → Result
  finish waiter w error frame_size =
      if is_pending waiter.rcode
      then record {
        value = false;
        error = set_error E error (req_error ReqError.cancelled);
        world = w;
        frame = waiter.frame;
        frame_size = frame_size;
        tstamp = none;
      }
      else elim (error_of waiter.rcode) [
        | none ↦ record {
          value = true;
          error = error;
          world = w;
          frame = waiter.frame;
          frame_size = waiter.length;
          tstamp = some (waiter.request_tstamp, waiter.response_tstamp);
        }
        | some code ↦ record {
          value = false;
          error = set_error E error (req_error code);
          world = w;
          frame = waiter.frame;
          frame_size = frame_size;
          tstamp = some (waiter.request_tstamp, waiter.response_tstamp);
        }
      ]

  -- After the loop: the request's invalidation.
  unfoldable pub end_wait : Schedule → ℕ → Option ℕ → ℕ → World → ℕ → ErrorSlot → Waiter → Result
  end_wait s self node p w frame_size error waiter =
      let w' = invalidate_transaction E (s.elapse w) node self in
      finish waiter (emit w' (unref p)) error frame_size

  -- After a request that returned `TRUE`.
  unfoldable pub await :
      Schedule → ℕ → Option ℕ → ℕ → World → List ℕ → ℕ → ErrorSlot → Option Result
  await s self node p w frame frame_size error =
      (handle_signals (fresh_waiter frame frame_size) s.early >>= (λ waiter. wait waiter s.wakes))
      >>= (λ waiter. some (end_wait s self node p w frame_size error waiter))

  -- `hinawa_fw_req_transaction_with_tstamp` of the object at `self`
  unfoldable pub transaction_with_tstamp :
      Schedule → World → ℕ → Option ℕ → Tcode → ℕ → ℕ → List ℕ → ℕ → ErrorSlot → Option Result
  transaction_with_tstamp s w self none tcode addr length frame frame_size error =
      some (refused w frame frame_size error)
  transaction_with_tstamp s w self (some p) tcode addr length frame frame_size error =
      elim (w.nodes p) [
        | none ↦ some (refused w frame frame_size error)
        | some priv ↦
            elim (request (emit w (ref p)) self (some p) tcode addr length frame frame_size error) [
              | none ↦ none
              | some r ↦
                  if r.value
                  then await s self (some p) p r.world frame frame_size r.error
                  else some (refused (emit r.world (unref p)) frame frame_size r.error)
            ]
      ]

  -- `hinawa_fw_req_transaction`: the same without the time stamps.
  unfoldable pub transaction :
      Schedule → World → ℕ → Option ℕ → Tcode → ℕ → ℕ → List ℕ → ℕ → ErrorSlot → Option Result
  transaction s w self node tcode addr length frame frame_size error =
      elim (transaction_with_tstamp s w self node tcode addr length frame frame_size error) [
        | none ↦ none
        | some r ↦ some (record r { tstamp = none })
      ]
