-- ===== src/Dispatch/Soundness.antt =====
-- All responders that a source serves.
mod Tests
use libhinawa.Base.{
  ℕ, ◌≡◌, ◌⊎◌, inl, inr, sym, subst, List, [], ◌∷◌, Option, none, some, true, ◌&&◌, arith, ◌==◌,
  Option-cases, Bool-cases, update, if◌then◌else◌,
}
use libhinawa.Enums.{Rcode}
use libhinawa.Abi.{
  Event, EventBody, get_info, bus_reset, response, response2, request, request2, request3, other,
}
use libhinawa.Env.{Env, Reply, done, failed, ioctl}
use libhinawa.Node.{FwNode, World, update_info, info_query}
use libhinawa.Node.Open.{handle_update}
use libhinawa.Resp
use libhinawa.Resp.{FwResp}
use libhinawa.Resp.Handle.{
  Action, handle, handle_request, handle_request2, handle_request3, signal_of, signal_of2,
  signal_of3,
}
use libhinawa.Resp.Invariant.{IsValid, handle-IsValid}
use libhinawa.Resp.Respond.{AreSafe, handle-AreSafe}
use libhinawa.Dispatch.{
  Objects, Condition, put_resp, dispatch_resp, dispatch_req, is_node, is_bus_reset, dispatch_event,
  dispatch_src,
}

-- Each responder is valid, no frame was cleared beyond its memory, and no call made the kernel read
-- beyond the memory behind a pointer.
pub record IsSound (o : Objects) : Type 0 where
  pub responders : (c : ℕ) (resp : FwResp) → o.resps c ≡ some resp → IsValid resp
  pub safe : AreSafe o.world.trace

update-same :
    (f : ℕ → Option FwResp) (c c' : ℕ) (resp resp' : FwResp)
    → (c == c') ≡ true
    → update f c (some resp) c' ≡ some resp'
    → resp ≡ resp'
update-same f c c' resp resp' same e = ground arith

put_resp-IsSound :
    (o : Objects) (c : ℕ) (w : World) (resp : FwResp)
    → IsSound o
    → IsValid resp
    → AreSafe w.trace
    → IsSound (put_resp o c (w, resp))
put_resp-IsSound o c w resp s v safe = record {
  responders = λ c' resp' e. elim (Bool-cases (c == c')) [
    | inl same ↦ subst IsValid (update-same o.resps c c' resp resp' same e) v
    | inr differ ↦ s.responders c' resp' (ground (arith, e))
  ];
  safe = safe;
}

handle_update-trace :
    (E : Env) (w : World) (self : ℕ) (priv : FwNode)
    → w.nodes self ≡ some priv
    → (handle_update E w self).trace ≡ ioctl priv.fd get_info (info_query self priv) ∷ w.trace
unfolding handle_update update_info
handle_update-trace E w self priv e = ground arith

handle_update-missing :
    (E : Env) (w : World) (self : ℕ) → w.nodes self ≡ none → handle_update E w self ≡ w
unfolding handle_update
handle_update-missing E w self e = ground arith

handle_update-AreSafe :
    (E : Env) (w : World) (self : ℕ) → AreSafe w.trace → AreSafe (handle_update E w self).trace
handle_update-AreSafe E w self safe = elim (Option-cases (w.nodes self)) [
  | inl e ↦ rw (handle_update-missing E w self e) safe
  | inr (priv, e) ↦ rw (handle_update-trace E w self priv e) (tt, safe)
]

module _ (E : Env) (handlers : ℕ → Resp.Requested → List Action × Rcode) where
  handled-IsSound :
      (o : Objects) (c : ℕ) (resp : FwResp) (signal : Resp.Requested) (handle_id : ℕ)
      → IsSound o
      → o.resps c ≡ some resp
      → IsSound (put_resp o c (handle E (handlers c) o.world resp signal handle_id))
  handled-IsSound o c resp signal handle_id s e =
      let v = s.responders c resp e in
      put_resp-IsSound o c _ _ s (handle-IsValid E (handlers c) o.world resp signal handle_id v)
        (handle-AreSafe E (handlers c) o.world resp signal handle_id v s.safe)

  dispatch_resp-IsSound :
      (o : Objects) (c : ℕ) (resp : FwResp) (body : EventBody)
      → IsSound o
      → o.resps c ≡ some resp
      → IsSound (dispatch_resp E handlers o c resp body)
  unfolding dispatch_resp handle_request handle_request2 handle_request3
  dispatch_resp-IsSound o c resp (request e) s a =
      handled-IsSound o c resp (signal_of e) e.handle s a
  dispatch_resp-IsSound o c resp (request2 e) s a =
      handled-IsSound o c resp (signal_of2 e) e.handle s a
  dispatch_resp-IsSound o c resp (request3 e) s a =
      handled-IsSound o c resp (signal_of3 e) e.handle s a
  dispatch_resp-IsSound o c resp bus_reset s a = s
  dispatch_resp-IsSound o c resp (response e) s a = s
  dispatch_resp-IsSound o c resp (response2 e) s a = s
  dispatch_resp-IsSound o c resp (other n) s a = s

  dispatch_req-IsSound :
      (o : Objects) (self : ℕ) (priv : FwNode) (req : ℕ) (body : EventBody)
      → IsSound o
      → IsSound (dispatch_req E handlers o self priv req body).0
  unfolding dispatch_req
  dispatch_req-IsSound o self priv req body s =
      elim (Option-cases (E.list_find priv.transactions req)) [
        | inl e ↦ rw (e, dispatch_req) s
        | inr (entry, e) ↦
            rw (e, dispatch_req) (record { responders = s.responders; safe = s.safe })
      ]

  dispatch_event-IsSound :
      (o : Objects) (self : ℕ) (priv : FwNode) (event : Event)
      → IsSound o
      → IsSound (dispatch_event E handlers o self priv event).0
  unfolding dispatch_event
  dispatch_event-IsSound o self priv event s =
      elim (Bool-cases (is_node E handlers o event.closure && is_bus_reset E handlers event.body)) [
        | inl reset ↦ rw reset (record {
          responders = s.responders;
          safe = handle_update-AreSafe E o.world self s.safe;
        })
        | inr plain ↦ elim (Option-cases (o.resps event.closure)) [
          | inr (resp, e) ↦
              rw (plain, e) (dispatch_resp-IsSound o event.closure resp event.body s e)
          | inl e ↦ elim (Bool-cases (o.reqs event.closure)) [
            | inl is_req ↦
                rw (plain, e, is_req) (dispatch_req-IsSound o self priv event.closure event.body s)
            | inr unknown ↦ rw (plain, e, unknown) s
          ]
        ]
      ]

  -- A call of the source handles an event, or leaves the objects alone.
  dispatch_src_objects :
      (o : Objects) (self : ℕ) (condition : Condition) (input : Reply Event)
      → let objects = (dispatch_src E handlers o self condition input).objects in
        (objects ≡ o)
        ⊎ ((priv : FwNode) × (event : Event) × (objects
              ≡ (dispatch_event E handlers o self priv event).0))
  unfolding dispatch_src
  dispatch_src_objects o self condition (failed errno) = inl (ground arith)
  dispatch_src_objects o self condition (done event) = elim (Option-cases (o.world.nodes self)) [
    | inl e ↦ inl (ground arith)
    | inr (priv, e) ↦ elim (Option-cases priv.fd) [
      | inl closed ↦ inl (ground arith)
      | inr (fd, is_open) ↦ elim (Bool-cases condition.broken) [
        | inl broken ↦ inl (ground arith)
        | inr whole ↦ inr (priv, event, ground arith)
      ]
    ]
  ]

  dispatch_src-IsSound :
      (o : Objects) (self : ℕ) (condition : Condition) (input : Reply Event)
      → IsSound o
      → IsSound (dispatch_src E handlers o self condition input).objects
  dispatch_src-IsSound o self condition input s =
      elim (dispatch_src_objects o self condition input) [
        | inl e ↦ subst IsSound (sym e) s
        | inr (priv, event, e) ↦ subst IsSound (sym e) (dispatch_event-IsSound o self priv event s)
      ]

-- The handlers that are connected when an event is read: what they do to the responder that emits
-- the signal, and the response code.
abbrev pub Handlers : Type 0
Handlers = ℕ → Resp.Requested → List Action × Rcode

module _ (E : Env) where
  -- The calls of the source of a node until it is removed, each with the handlers of that time.
  unfoldable pub run_with : Objects → ℕ → List (Handlers × Condition × Reply Event) → Objects
  run_with o self [] = o
  run_with o self ((handlers, condition, input) ∷ inputs) =
      let r = dispatch_src E handlers o self condition input in
      let rest = run_with r.objects self inputs in if r.keep then rest else r.objects

  -- However often the source of a node is called, whatever it reads, and whatever frames the
  -- handlers of the signals set and whether they release the responder that emits, each time in
  -- another way: if each responder is valid, no frame was cleared beyond its memory, and no
  -- response sent before made the kernel read beyond the memory behind its pointer, the same holds
  -- at the end.
  pub run_with-IsSound :
      (o : Objects) (self : ℕ) (inputs : List (Handlers × Condition × Reply Event))
      → IsSound o
      → IsSound (run_with o self inputs)
  unfolding run_with
  run_with-IsSound o self [] s = s
  run_with-IsSound o self ((handlers, condition, input) ∷ inputs) s =
      let r = dispatch_src E handlers o self condition input in
      let s' = dispatch_src-IsSound E handlers o self condition input s in
      elim (Bool-cases r.keep) [
        | inl kept ↦ rw kept (run_with-IsSound r.objects self inputs s')
        | inr left ↦ rw left s'
      ]
