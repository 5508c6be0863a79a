-- ===== src/Dispatch/Tests.antt =====
-- Runs of the theorems on the event source.
use libhinawa.Resp.{FwResp}
use libhinawa.Base.{
  ℕ, ◌+◌, ◌≤◌, ◌≡◌, ◌↔◌, refl, List, [], ◌∷◌, none, some, true, false, arith, min, if◌then◌else◌,
}
use libhinawa.Enums.{Tcode, Rcode}
use libhinawa.Abi.{Event, response, EventResponse2, SendRequest, send_request, GetInfo, get_info}
use libhinawa.Env.{Reply, done, failed, empty, is_unset, ioctl, ref, unref, contains}
use libhinawa.Resp
use libhinawa.Resp.Handle.{Action}
use libhinawa.Req.{is_pending, check, request_of, is_aligned, is_read_or_write}
use libhinawa.Req.Execute.{request, transaction_with_tstamp}
use libhinawa.Req.Send.{Sends, demanded}
use libhinawa.Req.Transaction.{Ends}
use libhinawa.Resp.Kept.{transactions_at}
use libhinawa.Node.{info_query, with_info}
use libhinawa.Dispatch.{Objects, Condition, bus_update}
use libhinawa.Dispatch.Run.{count, heard, run, run-heard}
use libhinawa.Dispatch.Delivery.{
  delivered, answer_event, sent_objects, copied, transaction_delivered,
}
use libhinawa.Dispatch.Update.{after_reset, request-dispatch_src}
use libhinawa.Samples.{granting, machine-ListLaws, open_sample, world_sample}

abbrev objects_sample : Objects
objects_sample = record { world = world_sample; resps = λ p. none; reqs = λ p. true }

abbrev readable_sample : Condition
readable_sample = record { readable = true; broken = false }

abbrev event_for : ℕ → Event
event_for req = record {
  closure = req;
  body = response (record { rcode = Rcode.complete; length = 0; payload = [] });
}

abbrev quiet : ℕ → Resp.Requested → List Action × Rcode
quiet p signal = ([], Rcode.complete)

-- Two responses for one request, and the end of the file.
abbrev inputs_sample : List (Condition × Reply Event)
inputs_sample =
    (readable_sample, done (event_for 21))
    ∷ (readable_sample, done (event_for 21))
    ∷ (readable_sample, failed 19)
    ∷ []

run-heard_example :
    let r = run granting quiet objects_sample 1 inputs_sample in
    heard 21 r.1 + count 21 (transactions_at r.0.world 1)
    ≤ count 21 (transactions_at objects_sample.world 1)
run-heard_example =
    run-heard granting quiet (machine-ListLaws (λ r args. done args)) 21 1 objects_sample
      inputs_sample

abbrev reply_sample : EventResponse2
reply_sample = record {
  rcode = Rcode.complete;
  length = 4;
  request_tstamp = 100;
  response_tstamp = 200;
  payload = 1 ∷ 2 ∷ 3 ∷ 4 ∷ [];
}

abbrev zeros : List ℕ
zeros = 0 ∷ 0 ∷ 0 ∷ 0 ∷ []

abbrev read_sample : SendRequest
read_sample =
    request_of 30 Tcode.read_quadlet_request 0x1000 4 zeros open_sample.generation.generation

transaction_delivered_example :
    Ends
      (λ out.
        ((out.value ≡ true) ↔ (reply_sample.rcode ≡ Rcode.complete))
        × (is_unset out.error ≡ out.value)
        × (out.frame
            ≡ copied granting
                (machine-ListLaws (λ r args. done args))
                quiet
                objects_sample
                30
                1
                3
                open_sample
                reply_sample
                refl
                refl
                refl
                refl
                refl
                zeros
                4)
        × (out.frame_size ≡ (if out.value then min 4 reply_sample.length else 4))
        × (out.tstamp ≡ some (100, 200))
        × (out.world.nodes 1 ≡ some open_sample)
        × (out.world.trace
            ≡ unref 1
              ∷ ioctl (some 3) send_request read_sample
              ∷ ref 1
              ∷ objects_sample.world.trace))
      (transaction_with_tstamp granting
        (delivered granting quiet
          (sent_objects granting
            (machine-ListLaws (λ r args. done args))
            quiet
            objects_sample
            30
            1
            3
            open_sample
            reply_sample
            refl
            refl
            refl
            refl
            refl
            read_sample)
          1
          30
          (answer_event granting
            (machine-ListLaws (λ r args. done args))
            quiet
            objects_sample
            30
            1
            3
            open_sample
            reply_sample
            refl
            refl
            refl
            refl
            refl))
        objects_sample.world
        30
        (some 1)
        Tcode.read_quadlet_request
        0x1000
        4
        zeros
        4
        empty)
unfolding check is_aligned is_read_or_write contains is_pending
transaction_delivered_example =
    transaction_delivered granting (machine-ListLaws (λ r args. done args)) quiet objects_sample 30
      1 3 open_sample reply_sample refl refl refl refl refl Tcode.read_quadlet_request 0x1000 4
      zeros 4 4 read_sample refl refl (omega arith) refl refl

-- The kernel's answer after a bus reset.
abbrev info_sample : GetInfo
info_sample = info_query 1 open_sample

request-dispatch_src_example :
    let after =
      after_reset granting quiet objects_sample 1 3 1 open_sample open_sample info_sample refl refl
        refl refl in
    (after.signals ≡ bus_update 1 ∷ [])
    × Sends
        (λ out.
          (out.value ≡ true)
          × (out.world.trace
              ≡ ioctl (some 3) send_request (
                  demanded 30 Tcode.read_quadlet_request 0x1000 4 zeros
                    info_sample.bus_reset.generation)
                ∷ ioctl (some 3) get_info (info_query 1 open_sample)
                ∷ objects_sample.world.trace)
          × (out.world.nodes 1
              ≡ some (record (with_info granting open_sample info_sample) {
                transactions = 30 ∷ open_sample.transactions;
              })))
        (request granting after.objects.world 30
          (some 1)
          Tcode.read_quadlet_request
          0x1000
          4
          zeros
          4
          empty)
unfolding check is_aligned is_read_or_write
request-dispatch_src_example =
    request-dispatch_src granting quiet objects_sample 1 3 1 open_sample open_sample info_sample
      refl refl refl refl (machine-ListLaws (λ r args. done args)) 30 Tcode.read_quadlet_request
      0x1000 4 zeros 4 4 refl
