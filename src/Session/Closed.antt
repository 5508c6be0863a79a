-- ===== src/Session/Closed.antt =====
-- What all calls of a session keep true of the nodes and of the trace: whatever each elementary step
-- keeps.
use libhinawa.Env.{overrun}
use libhinawa.Base.{
  ℕ, inl, inr, List, [], ◌∷◌, Option, some, Bool, not, ◌&&◌, ◌||◌, ltb, Option-cases, Bool-cases,
}
use libhinawa.Enums.{Rcode}
use libhinawa.Abi.{Request, Args, allocate, deallocate, send_response}
use libhinawa.Env.{Env, ErrorSlot, empty, ref, unref, is_unset}
use libhinawa.Node.{World, Outcome, emit}
use libhinawa.Node.Ioctl.{Ioctl, node_ioctl, invalidate_transaction}
use libhinawa.Node.Open.{open_node}
use libhinawa.Resp.{FwResp, Requested, cleared, is_reserved, has_width, set_resp_frame}
use libhinawa.Resp.Region.{release, after_allocate, reserve_within_region, reserve}
use libhinawa.Resp.Handle.{Action, answer, leave, act, emit_requested, wiped, handle}
use libhinawa.Resp.Invariant.{ErrorSlot-cases}
use libhinawa.Fcp.{FwFcp}
use libhinawa.Fcp.Waiters.{Waiters, abort_all}
use libhinawa.Fcp.Bind.{bind_after, bind, stop_listening, unbind}
use libhinawa.Session.{collect, create_node, handle_reset}
use libhinawa.Session.Classes.{Holds, Holds-bind}

-- The elementary steps keep `P`.
pub record IsClosed (E : Env) (P : World → Type 0) : Type 0 where
  pub calls :
      (w : World) (q : Option ℕ) (r : Request) (args : Args r) (error : ErrorSlot)
      → P w
      → P (node_ioctl E w q r args error).world
  pub takes : (w : World) (q : ℕ) → P w → P (emit w (ref q))
  pub overruns : (w : World) → P w → P (emit w overrun)
  pub drops : (w : World) (q : ℕ) → P w → P (emit w (unref q))
  pub invalidates : (w : World) (q req : ℕ) → P w → P (invalidate_transaction E w (some q) req)
  pub creates : (w : World) (q : ℕ) → P w → P (create_node w q)
  pub opens :
      (w : World) (q : ℕ) (path : Option (List ℕ)) (flag : ℕ) (error : ErrorSlot)
      → P w
      → P (open_node E w (some q) path flag error).world
  pub resets : (w : World) (q : ℕ) → P w → P (handle_reset E w q)
  pub collects : (w : World) (q : ℕ) → P w → P (collect w q)

module _ (E : Env) (P : World → Type 0) (keeps : IsClosed E P) where
  -- The world of a result.
  abbrev pub Leaves : {A : Type 0} → (A → World) → Option A → Type 0
  Leaves world_of o = Holds (λ a. P (world_of a)) o

  pub release_keeps : (w : World) (priv : FwResp) → P w → P (release E w priv).0
  unfolding release
  release_keeps w priv h = elim (Option-cases priv.node) [
    | inl e ↦ rw (e, release) h
    | inr (q, e) ↦ rw (e, release) (keeps.drops _ q (keeps.calls w (some q) deallocate _ empty h))
  ]

  after_allocate_keeps :
      (priv : FwResp) (q : Option ℕ) (r : Ioctl allocate)
      → P r.world
      → Leaves (λ (priv', out). out.world) (after_allocate E priv q r)
  unfolding after_allocate
  after_allocate_keeps priv q r h = elim (ErrorSlot-cases r.error) [
    | inl unset ↦ rw (unset, after_allocate) tt
    | inr (inr (e, set)) ↦ rw (set, after_allocate) h
    | inr (inl clear) ↦ elim (Bool-cases (ltb 0 r.err)) [
      | inl bad ↦ rw (clear, after_allocate, bad) h
      | inr good ↦ elim (Option-cases q) [
        | inl e ↦ rw (clear, after_allocate, good, e) tt
        | inr (x, e) ↦ rw (clear, after_allocate, good, e) (keeps.takes r.world x h)
      ]
    ]
  ]

  pub reserve_keeps :
      (w : World) (self : ℕ) (priv : FwResp) (q : Option ℕ) (start end_ width : ℕ)
      (error : ErrorSlot)
      → P w
      → Leaves
          (λ (priv', out). out.world)
          (reserve_within_region E w self priv q start end_ width error)
  unfolding reserve_within_region
  reserve_keeps w self priv q start end_ width error h =
      elim (Bool-cases (not (ltb 0 width && is_unset error))) [
        | inl refused ↦ rw refused h
        | inr passed ↦ elim (Option-cases priv.node) [
          | inr (x, e) ↦ rw (passed, e) h
          | inl e ↦
              rw (passed, e) (after_allocate_keeps priv q _ (keeps.calls w q allocate _ error h))
        ]
      ]

  act_keeps : (w : World) (priv : FwResp) (actions : List Action) → P w → P (act E w priv actions).0
  unfolding act
  act_keeps w priv [] h = h
  act_keeps w priv (answer frame ∷ actions) h = act_keeps w (set_resp_frame priv frame) actions h
  act_keeps w priv (leave ∷ actions) h =
      act_keeps (release E w priv).0 (release E w priv).1 actions (release_keeps w priv h)

  wiped_keeps : (w : World) (priv : FwResp) → P w → P (wiped w priv)
  wiped_keeps w priv h = elim (Bool-cases (has_width priv.resp_frame priv.width)) [
    | inl enough ↦ rw enough h
    | inr short ↦ rw short (keeps.overruns w h)
  ]

  pub handle_keeps :
      (handlers : Requested → List Action × Rcode) (w : World) (priv : FwResp) (signal : Requested)
      (handle_id : ℕ)
      → P w
      → P (handle E handlers w priv signal handle_id).0
  unfolding handle emit_requested
  handle_keeps handlers w priv signal handle_id h =
      elim (Bool-cases (not (is_reserved (cleared priv)) || ltb priv.width signal.length)) [
        | inl refused ↦
            rw refused (keeps.calls _ priv.node send_response _ empty (wiped_keeps w priv h))
        | inr passed ↦ rw passed (
            keeps.calls _ _ send_response _ empty
              (act_keeps (wiped w priv) (cleared priv) (handlers signal).0 (wiped_keeps w priv h)))
      ]

  bind_after_keeps :
      (fcp : FwFcp) (q : ℕ) (resp : FwResp) (out : Outcome Bool)
      → P out.world
      → Leaves (λ (fcp', resp', out'). out'.world) (bind_after fcp q (resp, out))
  bind_after_keeps fcp q resp out h = elim (Bool-cases out.value) [
    | inr bad ↦ rw bad h
    | inl good ↦ elim (Option-cases (out.world.nodes q)) [
      | inl e ↦ rw (good, e) tt
      | inr (n, e) ↦ rw (good, e) (keeps.takes out.world q h)
    ]
  ]

  pub bind_keeps :
      (w : World) (self : ℕ) (fcp : FwFcp) (resp : FwResp) (q : ℕ) (error : ErrorSlot)
      → P w
      → Leaves (λ (fcp', resp', out). out.world) (bind E w self fcp resp q error)
  unfolding bind reserve
  bind_keeps w self fcp resp q error h = elim (Bool-cases (not (is_unset error))) [
    | inl refused ↦ rw refused h
    | inr passed ↦ elim (Option-cases fcp.node) [
      | inr (x, e) ↦ rw (passed, e) h
      | inl e ↦
          rw (passed, e)
            (Holds-bind (λ (resp', out). P out.world) _ _ _
              (reserve_keeps w self resp (some q) _ _ _ error h)
              (λ (resp', out) g. bind_after_keeps fcp q resp' out g))
    ]
  ]

  pub unbind_keeps :
      (w : World) (fcp : FwFcp) (resp : FwResp) (s : Waiters)
      → P w
      → Leaves (λ (w', fcp', resp', s'). w') (unbind E w fcp resp s)
  unfolding unbind stop_listening
  unbind_keeps w fcp resp s h = elim (Option-cases (abort_all s fcp.transactions)) [
    | inl e ↦ rw e tt
    | inr (s', e) ↦ elim (Option-cases fcp.node) [
      | inl f ↦ rw (e, f) h
      | inr (q, f) ↦ rw (e, f) (keeps.drops _ q (release_keeps w resp h))
    ]
  ]
