-- ===== src/Session/Holders.antt =====
-- What the calls on one holder do to the references.
use libhinawa.Base.{
  ℕ, ◌+◌, ◌≡◌, inl, inr, refl, ap, Option, none, some, Bool, arith, Option-cases, ◌>>=◌,
}
use libhinawa.Env.{Env}
use libhinawa.Node
use libhinawa.Node.{FwNode, World}
use libhinawa.Resp.{FwResp}
use libhinawa.Resp.Region
use libhinawa.Resp.Region.{release}
use libhinawa.Fcp.{FwFcp}
use libhinawa.Fcp.Waiters.{Waiters, abort_all}
use libhinawa.Fcp.Bind
use libhinawa.Fcp.Bind.{unbind, stop_listening}
use libhinawa.Session.{
  Holder, responder, protocol, transaction, gone, HolderCall, reserving, releasing, receiving,
  binding, unbinding, exchanging, returning, finalizing, on_responder, on_protocol, on_holder,
}
use libhinawa.Session.References.{
  held, Accounts, Accounts-refl, Accounts-trans, Accounts-subst, Accounts-frame,
}
use libhinawa.Session.Classes.{
  Holds, Holds-bind, bound, release-Accounts, reserve_within_region-Accounts, handle-Accounts,
  bind-Accounts, stop_listening-Accounts,
}
use libhinawa.Req.Execute.{await}
use libhinawa.Session.Nodes.{count, await-Accounts}

module _ (E : Env) (p : ℕ) where
  -- The result of a call on a holder.
  abbrev pub Accounted : World → ℕ → Option (World × Waiters × Holder) → Type 0
  Accounted w a = Holds (λ (w', s', h'). Accounts p w a w' (count p h'))

  on_responder-Accounts :
      (w : World) (self : ℕ) (priv : FwResp) (call : HolderCall)
      → Holds
          (λ (w', priv'). Accounts p w (held p priv.node) w' (held p priv'.node))
          (on_responder E w self priv call)
  unfolding on_responder
  on_responder-Accounts w self priv (reserving q start end_ width error) =
      after _ (reserve_within_region-Accounts E p w self priv q start end_ width error)
    where
      after :
          (r : Option (FwResp × Node.Outcome Bool))
          → Holds (λ (priv', out). Accounts p w (held p priv.node) out.world (held p priv'.node)) r
          → Holds
              (λ (w', priv'). Accounts p w (held p priv.node) w' (held p priv'.node))
              (r >>= (λ (priv', out). some (out.world, priv')))
      after none h = h
      after (some (priv', out)) h = h
  on_responder-Accounts w self priv releasing = release-Accounts E p w priv
  on_responder-Accounts w self priv (receiving handlers signal handle_id) =
      handle-Accounts E p handlers w priv signal handle_id
  on_responder-Accounts w self priv (binding q error) = Accounts-refl p w _
  on_responder-Accounts w self priv unbinding = Accounts-refl p w _
  on_responder-Accounts w self priv (exchanging ts h s) = Accounts-refl p w _
  on_responder-Accounts w self priv (returning early wakes frame size error) = Accounts-refl p w _
  on_responder-Accounts w self priv finalizing = Accounts-refl p w _

  inherited :
      (w : World) (s : Waiters) (fcp : FwFcp) (resp : FwResp) (r : Option (World × FwResp))
      → Holds (λ (w', resp'). Accounts p w (held p resp.node) w' (held p resp'.node)) r
      → Accounted w (bound p fcp resp) (r >>= (λ (w', resp'). some (w', s, protocol fcp resp')))
  inherited w s fcp resp none h = h
  inherited w s fcp resp (some (w', resp')) h = Accounts-frame (held p fcp.node) h

  -- Nothing is held by an object that is finalized.
  release_empty : (w : World) (priv : FwResp) → (release E w priv).1.node ≡ none
  unfolding release
  release_empty w priv = ground arith

  stop_listening_empty :
      (w : World) (fcp : FwFcp) (resp : FwResp) → (stop_listening E w fcp resp).1.node ≡ none
  unfolding stop_listening
  stop_listening_empty w fcp resp = ground arith

  finalize-Accounts :
      (w : World) (priv : FwResp) → Accounts p w (held p priv.node) (Region.finalize E w priv) 0
  unfolding Region.finalize
  finalize-Accounts w priv =
      Accounts-subst refl (ap (held p) (release_empty w priv)) (release-Accounts E p w priv)

  unbind-Accounts :
      (w : World) (s : Waiters) (fcp : FwFcp) (resp : FwResp)
      → Holds
          (λ (w', fcp', resp', s').
            Accounts p w (bound p fcp resp) w' (bound p fcp' resp') × (fcp'.node ≡ none))
          (unbind E w fcp resp s)
  unfolding unbind
  unbind-Accounts w s fcp resp = elim (Option-cases (abort_all s fcp.transactions)) [
    | inl e ↦ rw e tt
    | inr (s', e) ↦ rw e (stop_listening-Accounts E p w fcp resp, stop_listening_empty w fcp resp)
  ]

  on_protocol-Accounts :
      (w : World) (s : Waiters) (self : ℕ) (fcp : FwFcp) (resp : FwResp) (call : HolderCall)
      → Accounted w (bound p fcp resp) (on_protocol E w s self fcp resp call)
  unfolding on_protocol on_responder Bind.finalize
  on_protocol-Accounts w s self fcp resp (binding q error) =
      after _ (bind-Accounts E p w self fcp resp q error)
    where
      after :
          (r : Option (FwFcp × FwResp × Node.Outcome Bool))
          → Holds
              (λ (fcp', resp', out). Accounts p w (bound p fcp resp) out.world (bound p fcp' resp'))
              r
          → Accounted w
              (bound p fcp resp)
              (r >>= (λ (fcp', resp', out). some (out.world, s, protocol fcp' resp')))
      after none h = h
      after (some (fcp', resp', out)) h = h
  on_protocol-Accounts w s self fcp resp unbinding = after _ (unbind-Accounts w s fcp resp)
    where
      after :
          (r : Option (World × FwFcp × FwResp × Waiters))
          → Holds
              (λ (w', fcp', resp', s').
                Accounts p w (bound p fcp resp) w' (bound p fcp' resp') × (fcp'.node ≡ none))
              r
          → Accounted w
              (bound p fcp resp)
              (r >>= (λ (w', fcp', resp', s'). some (w', s', protocol fcp' resp')))
      after none h = h
      after (some (w', fcp', resp', s')) h = h.0
  on_protocol-Accounts w s self fcp resp (exchanging ts h s') = Accounts-refl p w _
  on_protocol-Accounts w s self fcp resp finalizing = after _ (unbind-Accounts w s fcp resp)
    where
      after :
          (r : Option (World × FwFcp × FwResp × Waiters))
          → Holds
              (λ (w', fcp', resp', s').
                Accounts p w (bound p fcp resp) w' (bound p fcp' resp') × (fcp'.node ≡ none))
              r
          → Accounted w (bound p fcp resp) (
              r
              >>= (λ (w', fcp', resp', s'). some (Region.finalize E w' resp', s'))
              >>= (λ (w', s'). some (w', s', gone)))
      after none h = h
      after (some (w', fcp', resp', s')) h =
          Accounts-trans (Accounts-subst refl (ap (λ n. held p n + held p resp'.node) h.1) h.0)
            (Accounts-subst (omega arith) refl (finalize-Accounts w' resp'))
  on_protocol-Accounts w s self fcp resp (reserving q start end_ width error) =
      inherited w s fcp resp _
        (on_responder-Accounts w self resp (reserving q start end_ width error))
  on_protocol-Accounts w s self fcp resp releasing =
      inherited w s fcp resp (on_responder E w self resp releasing)
        (on_responder-Accounts w self resp releasing)
  on_protocol-Accounts w s self fcp resp (receiving handlers signal handle_id) =
      inherited w s fcp resp (on_responder E w self resp (receiving handlers signal handle_id))
        (on_responder-Accounts w self resp (receiving handlers signal handle_id))
  on_protocol-Accounts w s self fcp resp (returning early wakes frame size error) =
      Accounts-refl p w _

  alone :
      (w : World) (s : Waiters) (priv : FwResp) (r : Option (World × FwResp))
      → Holds (λ (w', priv'). Accounts p w (held p priv.node) w' (held p priv'.node)) r
      → Accounted w (held p priv.node) (r >>= (λ (w', priv'). some (w', s, responder priv')))
  alone w s priv none h = h
  alone w s priv (some (w', priv')) h = h

  pub on_holder-Accounts :
      (w : World) (s : Waiters) (self : ℕ) (h : Holder) (call : HolderCall)
      → Accounted w (count p h) (on_holder E w s self h call)
  unfolding on_holder
  on_holder-Accounts w s self (responder priv) finalizing = finalize-Accounts w priv
  on_holder-Accounts w s self (responder priv) (reserving q start end_ width error) =
      alone w s priv (on_responder E w self priv (reserving q start end_ width error))
        (on_responder-Accounts w self priv (reserving q start end_ width error))
  on_holder-Accounts w s self (responder priv) releasing =
      alone w s priv (on_responder E w self priv releasing)
        (on_responder-Accounts w self priv releasing)
  on_holder-Accounts w s self (responder priv) (receiving hs signal id) =
      alone w s priv (on_responder E w self priv (receiving hs signal id))
        (on_responder-Accounts w self priv (receiving hs signal id))
  on_holder-Accounts w s self (responder priv) (binding q error) =
      alone w s priv (on_responder E w self priv (binding q error))
        (on_responder-Accounts w self priv (binding q error))
  on_holder-Accounts w s self (responder priv) unbinding =
      alone w s priv (on_responder E w self priv unbinding)
        (on_responder-Accounts w self priv unbinding)
  on_holder-Accounts w s self (responder priv) (exchanging ts h s') =
      alone w s priv (on_responder E w self priv (exchanging ts h s'))
        (on_responder-Accounts w self priv (exchanging ts h s'))
  on_holder-Accounts w s self (responder priv) (returning early wakes frame size error) =
      alone w s priv (on_responder E w self priv (returning early wakes frame size error))
        (on_responder-Accounts w self priv (returning early wakes frame size error))
  on_holder-Accounts w s self (protocol fcp resp) call = on_protocol-Accounts w s self fcp resp call
  on_holder-Accounts w s self (transaction req q) (returning early wakes frame size error) =
      Holds-bind (λ r. Accounts p w (held p (some q)) r.world 0)
        (λ (w', s', h'). Accounts p w (held p (some q)) w' (count p h'))
        (await E (record { early = early; wakes = wakes; elapse = λ x. x }) req (some q) q w frame
          size error)
        _ (await-Accounts E p _ req q w frame size error refl) (λ r g. g)
  on_holder-Accounts w s self (transaction req q) (reserving q' start end_ width error) =
      Accounts-refl p w _
  on_holder-Accounts w s self (transaction req q) releasing = Accounts-refl p w _
  on_holder-Accounts w s self (transaction req q) (receiving hs signal id) = Accounts-refl p w _
  on_holder-Accounts w s self (transaction req q) (binding q' error) = Accounts-refl p w _
  on_holder-Accounts w s self (transaction req q) unbinding = Accounts-refl p w _
  on_holder-Accounts w s self (transaction req q) (exchanging ts h s') = Accounts-refl p w _
  on_holder-Accounts w s self (transaction req q) finalizing = Accounts-refl p w _
  on_holder-Accounts w s self gone call = tt
