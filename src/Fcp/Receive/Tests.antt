-- ===== src/Fcp/Receive/Tests.antt =====
-- Runs of the theorems on events of the response address.
use libhinawa.Base.{false, ◌==◌, replicate}
use libhinawa.Abi.{request3}
use libhinawa.Dispatch.{Condition, dispatch_src, put_resp}
use libhinawa.Fcp.Receive.{class_handler}
use libhinawa.Fcp.Requested.Laws.{is_reply}
use libhinawa.Resp.Invariant
use libhinawa.Fcp.Receive.Source.{dispatch_src-receive}
use libhinawa.Abi.{SendRequest, EventResponse2}
use libhinawa.Env.{done, ListLaws}
use libhinawa.Resp.Handle.{Action}
use libhinawa.Dispatch.{Objects}
use libhinawa.Fcp.Receive.Exchange.{commanded, command_schedule, command_world}
use libhinawa.Samples.{machine-ListLaws}
use libhinawa.Node.{World}
use libhinawa.Req.Execute.{Schedule}
use libhinawa.Fcp.{request_addr}
use libhinawa.Base.{ℕ, ◌≡◌, refl, List, [], ◌∷◌, none, some, true, ◌&&◌, ◌||◌, arith, if◌then◌else◌}
use libhinawa.Enums.{Rcode}
use libhinawa.Abi.{EventRequest3, send_response}
use libhinawa.Env.{ioctl}
use libhinawa.Resp
use libhinawa.Resp.{FwResp}
use libhinawa.Resp.Handle.{signal_of3}
use libhinawa.Fcp
use libhinawa.Fcp.{FwFcp}
use libhinawa.Fcp.History.{NodeRecord}
use libhinawa.Fcp.History.Find.{holds_record}
use libhinawa.Fcp.History.Ring.{IsValid, latest}
use libhinawa.Fcp.Receive.{receive}
use libhinawa.Fcp.Receive.Answer.{response_event}
use libhinawa.Samples.{granting, open_sample, world_sample}

abbrev bound_sample : FwFcp
bound_sample = record Fcp.init { node = some 1; transactions = 0 ∷ 1 ∷ [] }

abbrev resp_sample : FwResp
resp_sample = record Resp.init {
  node = some 1;
  req_frame = some 0x200;
  resp_frame = some (replicate 0x200 0);
  offset = 0xfffff0000d00;
  width = 0x200;
}

abbrev event_sample : EventRequest3
event_sample = response_event bound_sample open_sample 0 5 300 (9 ∷ 8 ∷ 7 ∷ 6 ∷ [])

valid : IsValid bound_sample.history
unfolding Fcp.init
valid = record { ten = refl; inside = omega arith }

-- The protocol's object at the address 60.
abbrev responders : Objects
responders = record {
  world = world_sample;
  resps = λ p. if p == 60 then some resp_sample else none;
  reqs = λ p. false;
}

abbrev own_handlers : ℕ → Resp.Requested → List Action × Rcode
own_handlers p = class_handler

abbrev readable_sample : Condition
readable_sample = record { readable = true; broken = false }

dispatch_src-receive_example :
    let d =
      dispatch_src granting own_handlers responders 1 readable_sample
        (done (record { closure = 60; body = request3 event_sample })) in
    let r = receive granting world_sample bound_sample resp_sample event_sample in
    let sender : NodeRecord = record {
      generation = event_sample.generation;
      src_node_id = event_sample.source_node_id;
    } in
    (d ≡ record { keep = true; signals = []; objects = put_resp responders 60 (r.world, r.resp) })
    × (d.objects.world.trace
        ≡ ioctl
            (some 3)
            send_response
            (record { rcode = Rcode.complete; length = 0; payload = none; handle = 5 })
          ∷ world_sample.trace)
    × (r.signal ≡ (
        if is_reply bound_sample.card_id (signal_of3 event_sample)
          && (holds_record sender (latest bound_sample.history)
              || event_sample.generation == open_sample.generation.generation
                && event_sample.source_node_id == open_sample.generation.node_id)
        then some (record {
          generation = event_sample.generation;
          tstamp = event_sample.tstamp;
          frame = event_sample.payload;
          frame_size = event_sample.length;
        })
        else none))
    × IsValid r.fcp.history
    × Invariant.IsValid r.resp
unfolding Fcp.init Resp.init
dispatch_src-receive_example =
    dispatch_src-receive granting own_handlers responders 1 3 60 open_sample readable_sample
      bound_sample resp_sample event_sample 1 1 3 open_sample open_sample refl refl refl refl refl
      (refl, omega arith) refl refl refl (omega arith) refl refl valid

abbrev command_sample : List ℕ
command_sample = 5 ∷ []

abbrev objects_sample : Objects
objects_sample = record { world = world_sample; resps = λ p. none; reqs = λ p. true }

abbrev ack_sample : EventResponse2
ack_sample = record {
  rcode = Rcode.complete;
  length = 0;
  request_tstamp = 1;
  response_tstamp = 2;
  payload = [];
}

abbrev quiet : ℕ → Resp.Requested → List Action × Rcode
quiet p signal = ([], Rcode.complete)

abbrev granted : ListLaws granting
granted = machine-ListLaws (λ r args. done args)

-- What is sent, the schedule of its wait, and the world after it.
abbrev sent_sample : SendRequest
sent_sample =
    commanded granting granted quiet objects_sample 70 1 3 open_sample ack_sample refl refl refl
      refl refl bound_sample refl 0 8 7 command_sample

abbrev schedule_sample : Schedule
schedule_sample =
    command_schedule granting granted quiet objects_sample 70 1 3 open_sample ack_sample refl refl
      refl refl refl bound_sample refl 0 8 7 command_sample

abbrev world_after : World
world_after =
    command_world granting granted quiet objects_sample 70 1 3 open_sample ack_sample refl refl refl
      refl refl bound_sample refl 0 8 7 command_sample
