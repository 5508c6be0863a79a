-- ===== src/Dispatch/Run.antt =====
-- A source that is called again and again, and the signals that a request gets from it.
use libhinawa.Base.{
  ℕ, ◌+◌, ◌≤◌, ◌≡◌, inl, inr, refl, ap, List, [], ◌∷◌, ◌++◌, some, true, ◌&&◌, arith, ◌==◌,
  if◌then◌else◌, Bool-cases, Option-cases,
}
use libhinawa.Enums.{Rcode}
use libhinawa.Abi.{
  Event, EventBody, bus_reset, response, response2, request, request2, request3, other,
}
use libhinawa.Env.{Env, Reply, done, failed, ListLaws, contains, remove_first}
use libhinawa.Node.{FwNode, World, update_info}
use libhinawa.Node.Open.{handle_update}
use libhinawa.Resp
use libhinawa.Resp.{FwResp}
use libhinawa.Resp.Kept.{transactions_at, handle_kept}
use libhinawa.Resp.Handle.{
  Action, handle_request, handle_request2, handle_request3, signal_of, signal_of2, signal_of3,
}
use libhinawa.Dispatch.{
  Objects, Signal, disconnected, bus_update, responded, Condition, response_signals, dispatch_resp,
  dispatch_req, is_node, is_bus_reset, dispatch_event, dispatch_src,
}

-- How often an address stands in a list.
abbrev pub count : ℕ → List ℕ → ℕ
count x [] = 0
count x (y ∷ ys) = if y == x then count x ys + 1 else count x ys

-- How many of the signals tell a request its response.
abbrev pub heard : ℕ → List Signal → ℕ
heard req [] = 0
heard req (responded p r ∷ signals) = if p == req then heard req signals + 1 else heard req signals
heard req (disconnected p ∷ signals) = heard req signals
heard req (bus_update p ∷ signals) = heard req signals

heard-append : (req : ℕ) (a b : List Signal) → heard req (a ++ b) ≡ heard req a + heard req b
heard-append req [] b = omega arith
heard-append req (responded p r ∷ a) b = ground (arith, heard-append req a b)
heard-append req (disconnected p ∷ a) b = heard-append req a b
heard-append req (bus_update p ∷ a) b = heard-append req a b

count-remove_first :
    (x y : ℕ) (l : List ℕ)
    → contains y l ≡ true
    → count x (remove_first y l) + (if y == x then 1 else 0) ≡ count x l
unfolding contains remove_first
count-remove_first x y [] h = ground arith
count-remove_first x y (z ∷ l) h = ground (arith, count-remove_first x y l)

heard-response_signals :
    (req p : ℕ) (body : EventBody)
    → heard req (response_signals p body) ≤ (if p == req then 1 else 0)
unfolding response_signals
heard-response_signals req p body = ground arith

module _ (E : Env) (handlers : ℕ → Resp.Requested → List Action × Rcode) where
  -- The calls of a source while it asks to be kept: the objects and the signals of all of them.
  unfoldable pub run : Objects → ℕ → List (Condition × Reply Event) → Objects × List Signal
  run o self [] = (o, [])
  run o self ((condition, input) ∷ inputs) =
      let r = dispatch_src E handlers o self condition input in
      let rest = run r.objects self inputs in
      if r.keep then (rest.0, r.signals ++ rest.1) else (r.objects, r.signals)

  dispatch_resp_kept :
      (o : Objects) (p : ℕ) (resp : FwResp) (body : EventBody) (self : ℕ)
      → transactions_at (dispatch_resp E handlers o p resp body).world self
        ≡ transactions_at o.world self
  unfolding dispatch_resp handle_request handle_request2 handle_request3
  dispatch_resp_kept o p resp (request e) self =
      handle_kept E self (handlers p) o.world resp (signal_of e) e.handle
  dispatch_resp_kept o p resp (request2 e) self =
      handle_kept E self (handlers p) o.world resp (signal_of2 e) e.handle
  dispatch_resp_kept o p resp (request3 e) self =
      handle_kept E self (handlers p) o.world resp (signal_of3 e) e.handle
  dispatch_resp_kept o p resp bus_reset self = refl
  dispatch_resp_kept o p resp (response e) self = refl
  dispatch_resp_kept o p resp (response2 e) self = refl
  dispatch_resp_kept o p resp (other n) self = refl

  handle_update_kept :
      (w : World) (self : ℕ)
      → transactions_at (handle_update E w self) self ≡ transactions_at w self
  unfolding handle_update update_info
  handle_update_kept w self = ground arith

  module _ (laws : ListLaws E) (req self : ℕ) where
    dispatch_req-heard :
        (o : Objects) (priv : FwNode) (p : ℕ) (body : EventBody)
        → o.world.nodes self ≡ some priv
        → let r = dispatch_req E handlers o self priv p body in
          heard req r.1 + count req (transactions_at r.0.world self)
          ≤ count req (transactions_at o.world self)
    unfolding dispatch_req
    dispatch_req-heard o priv p body a = elim (Bool-cases (contains p priv.transactions)) [
      | inl held ↦
          let (entry, found, deleted) = laws.found priv.transactions p held in
          ground (
            arith,
            found,
            deleted,
            count-remove_first req p priv.transactions,
            heard-response_signals req p body,
          )
      | inr missing ↦ ground (arith, laws.missing priv.transactions p missing)
    ]

    dispatch_event-heard :
        (o : Objects) (priv : FwNode) (event : Event)
        → o.world.nodes self ≡ some priv
        → let r = dispatch_event E handlers o self priv event in
          heard req r.1 + count req (transactions_at r.0.world self)
          ≤ count req (transactions_at o.world self)
    unfolding dispatch_event
    dispatch_event-heard o priv event a =
        elim (Bool-cases
          (is_node E handlers o event.closure && is_bus_reset E handlers event.body)) [
            | inl reset ↦ rw reset (omega (arith, ap (count req) (handle_update_kept o.world self)))
            | inr plain ↦ elim (Option-cases (o.resps event.closure)) [
              | inr (resp, e) ↦
                  rw (plain, e)
                    (omega (
                      arith,
                      ap (count req) (dispatch_resp_kept o event.closure resp event.body self),
                    ))
              | inl e ↦ elim (Bool-cases (o.reqs event.closure)) [
                | inl is_req ↦
                    rw (plain, e, is_req) (dispatch_req-heard o priv event.closure event.body a)
                | inr unknown ↦ rw (plain, e, unknown) (omega arith)
              ]
            ]
          ]

    dispatch_src-heard :
        (o : Objects) (condition : Condition) (input : Reply Event)
        → let r = dispatch_src E handlers o self condition input in
          heard req r.signals + count req (transactions_at r.objects.world self)
          ≤ count req (transactions_at o.world self)
    unfolding dispatch_src
    dispatch_src-heard o condition (failed errno) = ground arith
    dispatch_src-heard o condition (done event) = elim (Option-cases (o.world.nodes self)) [
      | inl e ↦ ground arith
      | inr (priv, e) ↦ ground (arith, dispatch_event-heard o priv event e)
    ]

    -- With the laws of the lists: however often the source of a node is called, and whatever it
    -- reads, a request gets no more signals for a response than it stands in the node's list at the
    -- start, less what is left of it in the list at the end.
    pub run-heard :
        (o : Objects) (inputs : List (Condition × Reply Event))
        → let r = run o self inputs in
          heard req r.1 + count req (transactions_at r.0.world self)
          ≤ count req (transactions_at o.world self)
    unfolding run
    run-heard o [] = omega arith
    run-heard o ((condition, input) ∷ inputs) =
        let r = dispatch_src E handlers o self condition input in
        ground (
          arith,
          dispatch_src-heard o condition input,
          run-heard r.objects inputs,
          heard-append req r.signals (run r.objects self inputs).1,
        )
