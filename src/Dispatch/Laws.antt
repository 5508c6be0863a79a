-- ===== src/Dispatch/Laws.antt =====
-- Which events reach a request, and when a source goes on.
use libhinawa.Base.{ℕ, ◌≡◌, List, [], none, some, true, false, arith}
use libhinawa.Abi.{Event}
use libhinawa.Env.{Env, done, ListLaws, contains, remove_first}
use libhinawa.Node.{FwNode}
use libhinawa.Resp
use libhinawa.Resp.{FwResp}
use libhinawa.Resp.Handle.{Action}
use libhinawa.Enums.{Rcode}
use libhinawa.Dispatch.{
  Objects, Condition, response_signals, dispatch_req, is_node, dispatch_event, dispatch_src,
}

module _ (E : Env) (handlers : ℕ → Resp.Requested → List Action × Rcode) where
  -- With the laws of the lists, on an open node without an error of the device: an event whose
  -- closure is no node, no responder and not in the node's list, as that of a request which was
  -- invalidated or has had its response, changes no object and emits no signal; the source goes
  -- on.
  pub dispatch_src_invalidated :
      ListLaws E
      → (o : Objects) (self fd : ℕ) (priv : FwNode) (condition : Condition) (event : Event)
      → o.world.nodes self ≡ some priv
      → priv.fd ≡ some fd
      → condition.broken ≡ false
      → o.world.nodes event.closure ≡ none
      → o.resps event.closure ≡ none
      → contains event.closure priv.transactions ≡ false
      → dispatch_src E handlers o self condition (done event)
        ≡ record { keep = true; signals = []; objects = o }
  unfolding dispatch_src dispatch_event dispatch_req is_node
  dispatch_src_invalidated laws o self fd priv condition event a b c d e f =
      ground (arith, laws.missing priv.transactions event.closure f)

  -- With the laws of the lists, on an open node without an error of the device: an event for a
  -- request that the node keeps emits the signal for a response, if it is one, and no other; the
  -- request is taken out of the node's list, nothing is asked of the kernel, and the source goes
  -- on.
  pub dispatch_src_responded :
      ListLaws E
      → (o : Objects) (self fd : ℕ) (priv : FwNode) (condition : Condition) (event : Event)
      → o.world.nodes self ≡ some priv
      → priv.fd ≡ some fd
      → condition.broken ≡ false
      → o.world.nodes event.closure ≡ none
      → o.resps event.closure ≡ none
      → o.reqs event.closure ≡ true
      → contains event.closure priv.transactions ≡ true
      → let r = dispatch_src E handlers o self condition (done event) in
        (r.keep ≡ true)
        × (r.signals ≡ response_signals event.closure event.body)
        × (r.objects.world.nodes self
            ≡ some (record priv { transactions = remove_first event.closure priv.transactions }))
        × (r.objects.world.trace ≡ o.world.trace)
  unfolding dispatch_src dispatch_event dispatch_req is_node
  dispatch_src_responded laws o self fd priv condition event a b c d e f g =
      let (entry, found, deleted) = laws.found priv.transactions event.closure g in
      ground (arith, found, deleted)
