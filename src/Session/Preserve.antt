-- ===== src/Session/Preserve.antt =====
-- Whole sessions, over what each elementary step keeps.
use libhinawa.Base.{
  ℕ, ◌≡◌, inl, inr, refl, List, [], ◌∷◌, Option, none, some, not, get_elem?, Option-cases,
  Bool-cases, ◌>>=◌, if◌then◌else◌,
}
use libhinawa.Enums.{Tcode}
use libhinawa.Abi.{send_request, get_cycle_timer2}
use libhinawa.Env.{Env, ErrorSlot, ref, unref, is_unset}
use libhinawa.Node.{World, node_at, emit}
use libhinawa.Node.Ioctl.{Ioctl, read_cycle_time}
use libhinawa.Resp.{FwResp}
use libhinawa.Resp.Region
use libhinawa.Resp.Region.{release, reserve_within_region}
use libhinawa.Resp.Invariant.{ErrorSlot-cases}
use libhinawa.Req.{check, Waiter}
use libhinawa.Req.Execute.{Schedule, request, after_send, end_wait, await}
use libhinawa.Req.Transaction.{final_waiter, finish_keeps}
use libhinawa.Fcp.Waiters.{Waiters}
use libhinawa.Fcp.Bind
use libhinawa.Fcp.Bind.{bind, unbind}
use libhinawa.Session
use libhinawa.Session.{
  Holder, responder, protocol, transaction, gone, HolderCall, reserving, releasing, receiving,
  binding, unbinding, exchanging, returning, finalizing, Call, on, new_responder, new_protocol,
  beginning, new_node, opening, updating, reading, invalidating, collecting, on_responder,
  on_protocol, on_holder, begin, step, run,
}
use libhinawa.Session.Classes.{Holds-bind}
use libhinawa.Session.Closed.{
  IsClosed, Leaves, handle_keeps, release_keeps, reserve_keeps, bind_keeps, unbind_keeps,
}

module _ (E : Env) (P : World → Type 0) (keeps : IsClosed E P) where
  after_send_keeps :
      (r : Ioctl send_request) → P r.world → Leaves E P keeps (λ out. out.world) (after_send E r)
  unfolding after_send
  after_send_keeps r g = elim (ErrorSlot-cases r.error) [
    | inl e ↦ rw (e, after_send) tt
    | inr (inl e) ↦ rw (e, after_send) g
    | inr (inr (d, e)) ↦ rw (e, after_send) g
  ]

  request_keeps :
      (w : World) (self : ℕ) (q : Option ℕ) (tcode : Tcode) (addr len : ℕ) (frame : List ℕ)
      (frame_size : ℕ) (error : ErrorSlot)
      → P w
      → Leaves E P keeps
          (λ out. out.world)
          (request E w self q tcode addr len frame frame_size error)
  unfolding request
  request_keeps w self q tcode addr len frame frame_size error h =
      elim (Option-cases (node_at w q)) [
        | inl none_there ↦ rw (none_there, request) h
        | inr (n, there) ↦ elim (Bool-cases (not (is_unset error))) [
          | inl refused ↦ rw (there, request, refused) h
          | inr passed ↦ elim (Option-cases (check tcode addr len frame_size)) [
            | inl e ↦ rw (there, request, passed, e) h
            | inr (sent, e) ↦
                rw (there, request, passed, e)
                  (after_send_keeps _ (keeps.calls w q send_request _ error h))
          ]
        ]
      ]

  begin_keeps :
      (w : World) (self : ℕ) (q : Option ℕ) (tcode : Tcode) (addr len : ℕ) (frame : List ℕ)
      (frame_size : ℕ) (error : ErrorSlot)
      → P w
      → Leaves E P keeps (λ (w', x). w') (begin E w self q tcode addr len frame frame_size error)
  unfolding begin
  begin_keeps w self none tcode addr len frame frame_size error h = h
  begin_keeps w self (some q) tcode addr len frame frame_size error h =
      elim (Option-cases (w.nodes q)) [
        | inl e ↦ rw (e, begin) h
        | inr (n, e) ↦
            rw (e, begin)
              (Holds-bind (λ out. P out.world) (λ (w', x). P w')
                (request E (emit w (ref q)) self (some q) tcode addr len frame frame_size error)
                (λ r.
                  if r.value
                  then some (r.world, transaction self q)
                  else some (emit r.world (unref q), gone))
                (request_keeps (emit w (ref q)) self (some q) tcode addr len frame frame_size error
                  (keeps.takes w q h))
                (λ r g. elim (Bool-cases r.value) [
                  | inl good ↦ rw good g
                  | inr bad ↦ rw bad (keeps.drops r.world q g)
                ]))
      ]

  end_wait_keeps :
      (s : Schedule) (req q : ℕ) (w : World) (frame_size : ℕ) (error : ErrorSlot) (waiter : Waiter)
      → s.elapse w ≡ w
      → P w
      → P (end_wait E s req (some q) q w frame_size error waiter).world
  unfolding end_wait
  end_wait_keeps s req q w frame_size error waiter e h =
      rw (e, (finish_keeps E _ _ error frame_size).1)
        (keeps.drops _ q (keeps.invalidates w q req h))

  await_keeps :
      (s : Schedule) (req q : ℕ) (w : World) (frame : List ℕ) (frame_size : ℕ) (error : ErrorSlot)
      → s.elapse w ≡ w
      → P w
      → Leaves E P keeps (λ r. r.world) (await E s req (some q) q w frame frame_size error)
  unfolding await
  await_keeps s req q w frame frame_size error e h =
      elim (Option-cases (final_waiter s frame frame_size)) [
        | inl fault ↦ rw (fault, await) tt
        | inr (waiter, ends) ↦
            rw (ends, await) (end_wait_keeps s req q w frame_size error waiter e h)
      ]

  on_responder_keeps :
      (w : World) (self : ℕ) (priv : FwResp) (call : HolderCall)
      → P w
      → Leaves E P keeps (λ (w', priv'). w') (on_responder E w self priv call)
  unfolding on_responder
  on_responder_keeps w self priv (reserving q start end_ width error) h =
      Holds-bind (λ (priv', out). P out.world) (λ (w', priv'). P w')
        (reserve_within_region E w self priv q start end_ width error) _
        (reserve_keeps E P keeps w self priv q start end_ width error h) (λ r g. g)
  on_responder_keeps w self priv releasing h = release_keeps E P keeps w priv h
  on_responder_keeps w self priv (receiving hs signal id) h =
      handle_keeps E P keeps hs w priv signal id h
  on_responder_keeps w self priv (binding q error) h = h
  on_responder_keeps w self priv unbinding h = h
  on_responder_keeps w self priv (exchanging ts hist s') h = h
  on_responder_keeps w self priv (returning early wakes frame size error) h = h
  on_responder_keeps w self priv finalizing h = h

  -- A call that reaches the part of an object that is a responder.
  as_responder :
      (w : World) (s : Waiters) (self : ℕ) (priv : FwResp) (call : HolderCall)
      (wrap : FwResp → Holder)
      → P w
      → Leaves E P keeps
          (λ (w', s', x). w')
          (on_responder E w self priv call >>= (λ (w', priv'). some (w', s, wrap priv')))
  as_responder w s self priv call wrap h =
      Holds-bind (λ (w', priv'). P w') (λ (w', s', x). P w') (on_responder E w self priv call) _
        (on_responder_keeps w self priv call h) (λ r g. g)

  on_holder_keeps :
      (w : World) (s : Waiters) (self : ℕ) (x : Holder) (call : HolderCall)
      → P w
      → Leaves E P keeps (λ (w', s', x'). w') (on_holder E w s self x call)
  unfolding on_holder on_protocol Bind.finalize Region.finalize
  on_holder_keeps w s self (responder priv) finalizing h = release_keeps E P keeps w priv h
  on_holder_keeps w s self (responder priv) (reserving q start end_ width error) h =
      as_responder w s self priv (reserving q start end_ width error) responder h
  on_holder_keeps w s self (responder priv) releasing h =
      as_responder w s self priv releasing responder h
  on_holder_keeps w s self (responder priv) (receiving hs signal id) h =
      as_responder w s self priv (receiving hs signal id) responder h
  on_holder_keeps w s self (responder priv) (binding q error) h =
      as_responder w s self priv (binding q error) responder h
  on_holder_keeps w s self (responder priv) unbinding h =
      as_responder w s self priv unbinding responder h
  on_holder_keeps w s self (responder priv) (exchanging ts hist s') h =
      as_responder w s self priv (exchanging ts hist s') responder h
  on_holder_keeps w s self (responder priv) (returning early wakes frame size error) h =
      as_responder w s self priv (returning early wakes frame size error) responder h
  on_holder_keeps w s self (protocol fcp resp) (binding q error) h =
      Holds-bind (λ (fcp', resp', out). P out.world) (λ (w', s', x). P w')
        (bind E w self fcp resp q error) _ (bind_keeps E P keeps w self fcp resp q error h)
        (λ r g. g)
  on_holder_keeps w s self (protocol fcp resp) unbinding h =
      Holds-bind (λ (w', fcp', resp', s'). P w') (λ (w', s', x). P w') (unbind E w fcp resp s) _
        (unbind_keeps E P keeps w fcp resp s h) (λ r g. g)
  on_holder_keeps w s self (protocol fcp resp) finalizing h =
      Holds-bind (λ (w', s'). P w') (λ (w', s', x). P w')
        (unbind E w fcp resp s >>= (λ (w', fcp', resp', s'). some (Region.finalize E w' resp', s')))
        _
        (Holds-bind (λ (w', fcp', resp', s'). P w') (λ (w', s'). P w') (unbind E w fcp resp s) _
          (unbind_keeps E P keeps w fcp resp s h)
          (λ (w', fcp', resp', s') g. release_keeps E P keeps w' resp' g))
        (λ r g. g)
  on_holder_keeps w s self (protocol fcp resp) (exchanging ts hist s') h = h
  on_holder_keeps w s self (protocol fcp resp) (reserving q start end_ width error) h =
      as_responder w s self resp (reserving q start end_ width error) (protocol fcp) h
  on_holder_keeps w s self (protocol fcp resp) releasing h =
      as_responder w s self resp releasing (protocol fcp) h
  on_holder_keeps w s self (protocol fcp resp) (receiving hs signal id) h =
      as_responder w s self resp (receiving hs signal id) (protocol fcp) h
  on_holder_keeps w s self (protocol fcp resp) (returning early wakes frame size error) h =
      as_responder w s self resp (returning early wakes frame size error) (protocol fcp) h
  on_holder_keeps w s self (transaction req q) (returning early wakes frame size error) h =
      Holds-bind (λ r. P r.world) (λ (w', s', x'). P w')
        (await E (record { early = early; wakes = wakes; elapse = λ x. x }) req (some q) q w frame
          size error)
        _ (await_keeps _ req q w frame size error refl h) (λ r g. g)
  on_holder_keeps w s self (transaction req q) (reserving q' start end_ width error) h = h
  on_holder_keeps w s self (transaction req q) releasing h = h
  on_holder_keeps w s self (transaction req q) (receiving hs signal id) h = h
  on_holder_keeps w s self (transaction req q) (binding q' error) h = h
  on_holder_keeps w s self (transaction req q) unbinding h = h
  on_holder_keeps w s self (transaction req q) (exchanging ts hist s') h = h
  on_holder_keeps w s self (transaction req q) finalizing h = h
  on_holder_keeps w s self gone call h = tt

  step_keeps :
      (s : Session.Session) (call : Call)
      → P s.world
      → Leaves E P keeps (λ s'. s'.world) (step E s call)
  unfolding step read_cycle_time
  step_keeps s (on i call) h = elim (Option-cases (get_elem? s.holders i)) [
    | inl e ↦ rw e tt
    | inr (x, e) ↦ rw e (
        Holds-bind (λ (w', s', x'). P w') (λ s'. P s'.world)
          (on_holder E s.world s.waiters i x call) _ (on_holder_keeps s.world s.waiters i x call h)
          (λ r g. g))
  ]
  step_keeps s new_responder h = h
  step_keeps s new_protocol h = h
  step_keeps s (beginning self q tcode addr length frame size error) h =
      Holds-bind (λ (w', x). P w') (λ s'. P s'.world)
        (begin E s.world self q tcode addr length frame size error) _
        (begin_keeps s.world self q tcode addr length frame size error h) (λ r g. g)
  step_keeps s (new_node q) h = keeps.creates s.world q h
  step_keeps s (opening q path flag error) h = keeps.opens s.world q path flag error h
  step_keeps s (updating q) h = keeps.resets s.world q h
  step_keeps s (reading q clock cycle_time error) h =
      keeps.calls s.world (some q) get_cycle_timer2 _ error h
  step_keeps s (invalidating q req) h = keeps.invalidates s.world q req h
  step_keeps s (collecting q) h = keeps.collects s.world q h

  pub run_keeps :
      (s : Session.Session) (calls : List Call)
      → P s.world
      → Leaves E P keeps (λ s'. s'.world) (run E s calls)
  unfolding run
  run_keeps s [] h = h
  run_keeps s (call ∷ calls) h =
      Holds-bind (λ s'. P s'.world) (λ s'. P s'.world) (step E s call) (λ s'. run E s' calls)
        (step_keeps s call h) (λ s' g. run_keeps s' calls g)
