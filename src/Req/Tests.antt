-- ===== src/Req/Tests.antt =====
-- Runs of the theorems on requests and transactions.
use libhinawa.Base.{◌<◌, ◌≡◌, ◌↔◌, refl, List, [], ◌∷◌, none, some, true, false, arith}
use libhinawa.Enums.{Tcode, Rcode, ReqError}
use libhinawa.Abi.{send_request, SendRequest}
use libhinawa.Env.{
  empty, holds, ioctl, ref, unref, done, failed, is_unset, req_error, req_error_errno, remove_first,
}
use libhinawa.Base.{if◌then◌else◌}
use libhinawa.Req.{
  is_pending, check, Waiter, Responded, Wake, woken, expired, wait, fresh_waiter, is_aligned,
  is_read_or_write,
}
use libhinawa.Req.Execute.{Schedule, request, transaction_with_tstamp}
use libhinawa.Req.Check.{Fits, lock, check_iff}
use libhinawa.Req.Send.{is_taken, Sends, demanded, request-Sends}
use libhinawa.Req.Wait.{IsBounded, wait-IsBounded}
use libhinawa.Req.Transaction.{final_waiter, Ends, transaction_done, transaction_refused}
use libhinawa.Samples.{granting, failing, machine-ListLaws, open_sample, world_sample}

check_iff_example :
    (check Tcode.lock_compare_swap 0x1000 4 8 ≡ some 8)
    ↔ ((0 < 4) × (0 < 8) × Fits lock 0x1000 4 8 8)
check_iff_example = check_iff Tcode.lock_compare_swap 0x1000 4 8 8 (omega arith)

-- A read of four bytes.
abbrev read_sample : SendRequest
read_sample =
    demanded 30 Tcode.read_quadlet_request 0x1000 4 (0 ∷ 0 ∷ 0 ∷ 0 ∷ [])
      open_sample.generation.generation

request-Sends_example :
    Sends
      (λ out.
        (out.value ≡ true)
        × (out.world.trace ≡ ioctl (some 3) send_request read_sample ∷ world_sample.trace)
        × (out.world.nodes 1
            ≡ some (record open_sample { transactions = 30 ∷ open_sample.transactions }))
        × (is_unset out.error
            ≡ is_taken (failing.ioctl world_sample.trace (some 3) send_request read_sample)))
      (request failing world_sample 30
        (some 1)
        Tcode.read_quadlet_request
        0x1000
        4
        (0 ∷ 0 ∷ 0 ∷ 0 ∷ [])
        4
        empty)
unfolding check is_aligned is_read_or_write
request-Sends_example =
    request-Sends failing (machine-ListLaws (λ r args. failed 5)) world_sample 30 1 3 open_sample
      Tcode.read_quadlet_request 0x1000 4 (0 ∷ 0 ∷ 0 ∷ 0 ∷ []) 4 4 refl refl refl

abbrev response_sample : Responded
response_sample = record {
  rcode = Rcode.complete;
  request_tstamp = 100;
  response_tstamp = 200;
  frame = 1 ∷ 2 ∷ 3 ∷ 4 ∷ [];
  frame_size = 4;
}

-- One spurious wake before the response.
abbrev wakes_sample : List Wake
wakes_sample = woken [] ∷ woken (response_sample ∷ []) ∷ []

abbrev waiter_sample : Waiter
waiter_sample = fresh_waiter (0 ∷ 0 ∷ 0 ∷ 0 ∷ []) 4

wait-IsBounded_example : (w : Waiter) × (wait waiter_sample wakes_sample ≡ some w) × IsBounded 4 w
wait-IsBounded_example =
    wait-IsBounded 4 waiter_sample wakes_sample (record { same_size = refl; within = omega arith })
      (tt, ((omega arith, tt), tt))

abbrev schedule_sample : Schedule
schedule_sample = record { early = []; wakes = wakes_sample; elapse = λ w. w }

abbrev silent_sample : Schedule
silent_sample = record { early = []; wakes = woken [] ∷ expired [] ∷ []; elapse = λ w. w }

transaction_done_example :
    (waiter : Waiter) × (final_waiter schedule_sample (0 ∷ 0 ∷ 0 ∷ 0 ∷ []) 4 ≡ some waiter)
    × Ends
        (λ r.
          ((r.value ≡ true) ↔ (waiter.rcode ≡ Rcode.complete))
          × (is_unset r.error ≡ r.value)
          × (r.frame ≡ waiter.frame)
          × (r.frame_size ≡ (if r.value then waiter.length else 4))
          × (r.tstamp ≡ (
              if is_pending waiter.rcode
              then none
              else some (waiter.request_tstamp, waiter.response_tstamp)))
          × (r.world.nodes 1
              ≡ some (record open_sample { transactions = remove_first 30 (30 ∷ 20 ∷ 21 ∷ []) }))
          × (r.world.trace ≡ unref 1 ∷ ioctl (some 3) send_request read_sample ∷ ref 1 ∷ []))
        (transaction_with_tstamp granting schedule_sample world_sample 30
          (some 1)
          Tcode.read_quadlet_request
          0x1000
          4
          (0 ∷ 0 ∷ 0 ∷ 0 ∷ [])
          4
          empty)
unfolding check is_aligned is_read_or_write libhinawa.Req.request_of libhinawa.Req.is_read
transaction_done_example =
    transaction_done granting (machine-ListLaws (λ r args. done args)) schedule_sample world_sample
      30 1 3 open_sample Tcode.read_quadlet_request 0x1000 4 (0 ∷ 0 ∷ 0 ∷ 0 ∷ []) 4 4 refl refl refl
      (record open_sample { transactions = 30 ∷ 20 ∷ 21 ∷ [] }) read_sample refl refl tt
      (tt, ((omega arith, tt), tt))

transaction_refused_example :
    Ends
      (λ r.
        (r.value ≡ false)
        × (r.error
            ≡ holds (
                failing.overwrite
                  (req_error_errno ReqError.send_error 5)
                  (req_error ReqError.cancelled)))
        × (r.frame ≡ 0 ∷ 0 ∷ 0 ∷ 0 ∷ [])
        × (r.tstamp ≡ none))
      (transaction_with_tstamp failing silent_sample world_sample 30
        (some 1)
        Tcode.read_quadlet_request
        0x1000
        4
        (0 ∷ 0 ∷ 0 ∷ 0 ∷ [])
        4
        empty)
unfolding check is_aligned is_read_or_write
transaction_refused_example =
    transaction_refused failing (machine-ListLaws (λ r args. failed 5)) silent_sample world_sample
      30 1 3 open_sample Tcode.read_quadlet_request 0x1000 4 (0 ∷ 0 ∷ 0 ∷ 0 ∷ []) 4 4 refl refl refl
      (record open_sample { transactions = 30 ∷ 20 ∷ 21 ∷ [] }) 5 refl (omega arith) (omega arith)
      refl tt refl
