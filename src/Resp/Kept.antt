-- ===== src/Resp/Kept.antt =====
-- The responder leaves the requests under way of every node alone.
use libhinawa.Resp.Handle.{wiped}
use libhinawa.Resp.{has_width}
use libhinawa.Base.{
  ℕ, ◌≡◌, inl, inr, refl, ◌∙◌, List, [], ◌∷◌, Option, none, some, not, ◌||◌, arith, ltb, Bool-cases,
  Option-cases,
}
use libhinawa.Enums.{Rcode}
use libhinawa.Abi.{Deallocate, deallocate, SendResponse, send_response}
use libhinawa.Env.{Env, empty}
use libhinawa.Node.{World}
use libhinawa.Node.Ioctl.{node_ioctl, call_kernel, keep_transaction}
use libhinawa.Resp.{FwResp, Requested, is_reserved, cleared, set_resp_frame}
use libhinawa.Resp.Region.{release}
use libhinawa.Resp.Handle.{Action, answer, leave, response, act, emit_requested, handle}

-- The list of requests under way of the node at an address.
abbrev pub transactions_at : World → ℕ → List ℕ
transactions_at w p = elim (w.nodes p) [ none ↦ [] | some n ↦ n.transactions ]

module _ (E : Env) (p : ℕ) where
  deallocate_kept :
      (w : World) (self : Option ℕ) (args : Deallocate)
      → transactions_at (node_ioctl E w self deallocate args empty).world p ≡ transactions_at w p
  unfolding node_ioctl call_kernel keep_transaction
  deallocate_kept w self args = ground arith

  send_response_kept :
      (w : World) (self : Option ℕ) (args : SendResponse)
      → transactions_at (node_ioctl E w self send_response args empty).world p ≡ transactions_at w p
  unfolding node_ioctl call_kernel keep_transaction
  send_response_kept w self args = ground arith

  release_kept :
      (w : World) (priv : FwResp) → transactions_at (release E w priv).0 p ≡ transactions_at w p
  unfolding release
  release_kept w priv = elim (Option-cases priv.node) [
    | inl e ↦ rw (e, release) refl
    | inr (n, e) ↦
        rw (e, release) (deallocate_kept w (some n) (record { handle = priv.addr_handle }))
  ]

  act_kept :
      (w : World) (priv : FwResp) (actions : List Action)
      → transactions_at (act E w priv actions).0 p ≡ transactions_at w p
  unfolding act
  act_kept w priv [] = refl
  act_kept w priv (answer frame ∷ actions) = act_kept w (set_resp_frame priv frame) actions
  act_kept w priv (leave ∷ actions) =
      act_kept (release E w priv).0 (release E w priv).1 actions ∙ release_kept w priv

  wiped_kept : (w : World) (priv : FwResp) → transactions_at (wiped w priv) p ≡ transactions_at w p
  wiped_kept w priv = elim (Bool-cases (has_width priv.resp_frame priv.width)) [
    | inl enough ↦ rw enough refl
    | inr short ↦ rw short refl
  ]

  pub handle_kept :
      (handlers : Requested → List Action × Rcode) (w : World) (priv : FwResp) (signal : Requested)
      (handle_id : ℕ)
      → transactions_at (handle E handlers w priv signal handle_id).0 p ≡ transactions_at w p
  unfolding handle emit_requested
  handle_kept handlers w priv signal handle_id =
      let same : transactions_at (wiped w priv) p ≡ transactions_at w p = wiped_kept w priv in
      elim (Bool-cases (not (is_reserved (cleared priv)) || ltb priv.width signal.length)) [
        | inl refused ↦ rw refused (
            send_response_kept (wiped w priv) priv.node
              (response (cleared priv) Rcode.conflict_error handle_id)
            ∙ same)
        | inr passed ↦
            let (actions, rcode) = handlers signal in
            let r = act E (wiped w priv) (cleared priv) actions in
            rw passed (
              send_response_kept r.0 r.1.node (response r.1 rcode handle_id)
              ∙ act_kept (wiped w priv) (cleared priv) actions
              ∙ same)
      ]
