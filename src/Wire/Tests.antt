-- ===== src/Wire/Tests.antt =====
-- Runs of the theorems on the bytes of events.
use libhinawa.Base.{
  ℕ, ◌+◌, ◌-◌, ◌^◌, ◌≤◌, ◌≡◌, ◌↔◌, refl, List, [], ◌∷◌, some, none, true, ◌↔◌, arith, ◌==◌,
  if◌then◌else◌, length, take, replicate,
}
use libhinawa.Enums.{Tcode, Rcode}
use libhinawa.Abi.{Event, request3, EventResponse2, SendRequest}
use libhinawa.Env.{done, empty, contains}
use libhinawa.Resp
use libhinawa.Resp.Handle.{Action}
use libhinawa.Req.{check, is_pending, request_of, is_aligned, is_read_or_write}
use libhinawa.Req.Execute.{transaction_with_tstamp}
use libhinawa.Dispatch.{Objects}
use libhinawa.Dispatch.Delivery.{delivered}
use libhinawa.Wire.Delivery.{event_for, Delivers, sent_with, transaction-put_event}
use libhinawa.Samples.{granting, machine-ListLaws, open_sample, world_sample}
use libhinawa.Wire.{Codes, little, big, get_event}
use libhinawa.Wire.RoundTrip.{put_event, get_event-put_event}
use libhinawa.Wire.Page.{read_into, with_payload, read_into-put_event}

-- Numbers for the codes that the samples have.
abbrev numbers : Codes
numbers = record {
  tcode_of = λ n. if n == 1 then Tcode.write_block_request else Tcode.unknown n;
  tcode_number = λ t. elim t [ Tcode.write_block_request ↦ 1 | Tcode.unknown n ↦ n | _ ↦ 100 ];
  rcode_of = λ n. if n == 0 then Rcode.complete else Rcode.unknown n;
  rcode_number = λ r. elim r [ Rcode.complete ↦ 0 | Rcode.unknown n ↦ n | _ ↦ 100 ];
}

abbrev write : Event
write = record {
  closure = 2 ^ 40 + 5;
  body = request3 (record {
    tcode = Tcode.write_block_request;
    offset = 0xfffff0000d00;
    source_node_id = 0xffc0;
    destination_node_id = 0xffc1;
    card = 2;
    generation = 6;
    handle = 77;
    length = 8;
    tstamp = 100;
    payload = 1 ∷ 2 ∷ 3 ∷ 4 ∷ 5 ∷ 6 ∷ 7 ∷ 8 ∷ [];
  });
}

-- A buffer with room for the members of the structure and four bytes.
abbrev small : List ℕ
small = replicate 60 0

get_event-put_event_example : get_event numbers big (put_event numbers big write) ≡ some write
get_event-put_event_example = get_event-put_event numbers big write (
  omega arith,
  (
    (omega arith, refl),
    omega arith,
    omega arith,
    omega arith,
    omega arith,
    omega arith,
    omega arith,
    omega arith,
    omega arith,
  ),
)

read_into-put_event_example :
    (bytes : List ℕ) × (get_event numbers little (read_into small (put_event numbers little write))
      ≡ some (record write { body = with_payload bytes write.body }))
    × (length bytes ≡ 60 - 56)
    × ((8 ≤ length bytes) ↔ (56 + 8 ≤ 60))
    × (take 8 bytes ≡ take (60 - 56) (1 ∷ 2 ∷ 3 ∷ 4 ∷ 5 ∷ 6 ∷ 7 ∷ 8 ∷ []))
read_into-put_event_example =
    read_into-put_event numbers little write small
      (
        omega arith,
        (
          (omega arith, refl),
          omega arith,
          omega arith,
          omega arith,
          omega arith,
          omega arith,
          omega arith,
          omega arith,
          omega arith,
        ),
      )
      tt (omega arith) refl

abbrev objects_sample : Objects
objects_sample = record { world = world_sample; resps = λ p. none; reqs = λ p. true }

abbrev quiet : ℕ → Resp.Requested → List Action × Rcode
quiet p signal = ([], Rcode.complete)

abbrev reply_sample : EventResponse2
reply_sample = record {
  rcode = Rcode.complete;
  length = 4;
  request_tstamp = 100;
  response_tstamp = 200;
  payload = 1 ∷ 2 ∷ 3 ∷ 4 ∷ [];
}

abbrev zeros : List ℕ
zeros = replicate 6 0

abbrev read_sample : SendRequest
read_sample =
    request_of 30 Tcode.read_quadlet_request 0x1000 4 zeros open_sample.generation.generation

transaction-put_event_example :
    (event : Event) × (get_event numbers little
        (read_into small (put_event numbers little (event_for 30 reply_sample)))
      ≡ some event)
    × Delivers reply_sample zeros 6 (
        transaction_with_tstamp granting
          (delivered granting quiet
            (sent_with granting
              (machine-ListLaws (λ r args. done args))
              quiet
              objects_sample
              30
              1
              3
              open_sample
              refl
              refl
              refl
              refl
              refl
              reply_sample
              read_sample)
            1
            30
            event)
          objects_sample.world
          30
          (some 1)
          Tcode.read_quadlet_request
          0x1000
          4
          zeros
          6
          empty)
unfolding check is_aligned is_read_or_write contains is_pending
transaction-put_event_example =
    transaction-put_event granting (machine-ListLaws (λ r args. done args)) quiet objects_sample 30
      1 3 open_sample refl refl refl refl refl numbers little small reply_sample
      Tcode.read_quadlet_request 0x1000 4 zeros 6 4 read_sample
      (omega arith, ((omega arith, refl), omega arith, omega arith, omega arith)) refl (omega arith)
      (omega arith) refl refl refl refl
