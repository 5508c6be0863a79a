-- ===== src/Dispatch/Soundness/Tests.antt =====
-- A run of the theorem on all responders.
use libhinawa.Base.{subst, arith, ◌==◌}
use libhinawa.Abi.{EventRequest, EventBody}
use libhinawa.Resp.{FwResp}
use libhinawa.Resp.Invariant.{IsValid}
use libhinawa.Dispatch.Soundness.{IsSound, Handlers, run_with, run_with-IsSound}
use libhinawa.Base.{ℕ, ◌≡◌, refl, List, [], ◌∷◌, none, some, true, false, if◌then◌else◌}
use libhinawa.Enums.{Tcode, Rcode}
use libhinawa.Abi.{Event}
use libhinawa.Env.{Reply, done}
use libhinawa.Resp
use libhinawa.Resp.Handle.{Action}
use libhinawa.Dispatch.{Objects, Condition}
use libhinawa.Samples.{granting, world_sample}

abbrev readable_sample : Condition
readable_sample = record { readable = true; broken = false }

abbrev request_sample : EventRequest
request_sample = record {
  tcode = Tcode.read_quadlet_request;
  offset = 0x1000;
  handle = 7;
  length = 4;
  payload = [];
}

abbrev resp_sample : FwResp
resp_sample = record Resp.init { node = some 1; width = 4; resp_frame = some (0 ∷ 0 ∷ 0 ∷ 0 ∷ []) }

-- Its handler sets a frame.
abbrev answering : ℕ → Resp.Requested → List Action × Rcode
answering p signal = (Action.answer (1 ∷ 2 ∷ []) ∷ [], Rcode.complete)

-- A later one gives the range back.
abbrev leaving : Handlers
leaving p signal = (Action.leave ∷ [], Rcode.complete)

abbrev requests_sample : List (Handlers × Condition × Reply Event)
requests_sample =
    (
      answering,
      readable_sample,
      done (record { closure = 60; body = EventBody.request request_sample }),
    )
    ∷ (answering, readable_sample, done (record { closure = 21; body = EventBody.bus_reset }))
    ∷ (
      leaving,
      readable_sample,
      done (record { closure = 60; body = EventBody.request request_sample }),
    )
    ∷ []

-- A reserved responder at the address 60.
abbrev responders : Objects
responders = record {
  world = world_sample;
  resps = λ p. if p == 60 then some resp_sample else none;
  reqs = λ p. true;
}

found : (c : ℕ) (resp : FwResp) → responders.resps c ≡ some resp → resp_sample ≡ resp
found c resp e = ground arith

is_sound : IsSound responders
unfolding Resp.init
is_sound = record {
  responders = λ c resp e. subst IsValid (found c resp e) (refl, omega arith);
  safe = tt;
}

run_with-IsSound_example : IsSound (run_with granting responders 1 requests_sample)
run_with-IsSound_example = run_with-IsSound granting responders 1 requests_sample is_sound
