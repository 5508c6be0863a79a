-- ===== src/Resp/Respond.antt =====
-- Answering a request: what goes to the kernel.
use libhinawa.Env.{overrun}
use libhinawa.Base.{subst, sym}
use libhinawa.Resp.Handle.{wiped}
use mathlib.Core.List.{append-nil}
use libhinawa.Node.Ioctl.Laws.{node_ioctl-trace}
use libhinawa.Base.{
  ℕ, zero, suc, ◌-◌, ◌≤◌, ◌<◌, ◌≡◌, inl, inr, refl, ap, ◌∙◌, List, [], ◌∷◌, ◌++◌, Option, none,
  some, not, ◌||◌, arith, ltb, length, drop, replicate, Option-cases, Bool-cases,
}
use libhinawa.Enums.{Rcode}
use libhinawa.Abi.{Request, Args, send_response, deallocate, EventRequest3}
use libhinawa.Env.{Env, ErrorSlot, empty, Effect, ioctl, is_null}
use libhinawa.Node.{FwNode, World}
use libhinawa.Node.Ioctl.{node_ioctl, call_kernel}
use libhinawa.Resp.{FwResp, is_reserved, cleared, set_resp_frame, Requested}
use libhinawa.Resp.Region.{release}
use libhinawa.Resp.Handle.{
  response, Action, answer, leave, act, emit_requested, handle, signal_of3, handle_request3,
}
use libhinawa.Resp.Invariant.{
  wiped_same, has_width_valid, Buffer, IsValid, cleared-IsValid, act-IsValid,
}

-- The kernel reads no more bytes than the memory behind the pointer has.
abbrev pub InBounds : Option (List ℕ) → ℕ → Type 0
InBounds none n = n ≡ 0
InBounds (some frame) n = n ≤ length frame

abbrev pub IsSafe : Effect → Type 0
IsSafe (ioctl fd Request.send_response args) = InBounds args.payload args.length
IsSafe overrun = ⊥
IsSafe _ = Unit {0}

abbrev pub AreSafe : List Effect → Type 0
AreSafe [] = Unit {0}
AreSafe (e ∷ es) = IsSafe e × AreSafe es

used_InBounds :
    (node : Option ℕ) (frame : Option (List ℕ)) (width used : ℕ)
    → Buffer node frame width used
    → InBounds frame used
used_InBounds none none width used v = v.1
used_InBounds none (some frame) width used v = absurd v
used_InBounds (some n) none width used v = absurd v
used_InBounds (some n) (some frame) width used v = omega arith

response-InBounds :
    (priv : FwResp) (rcode : Rcode) (handle_id : ℕ)
    → IsValid priv
    → InBounds (response priv rcode handle_id).payload (response priv rcode handle_id).length
response-InBounds priv rcode handle_id v = elim (Bool-cases (ltb 0 priv.resp_length)) [
  | inl set ↦ rw set (used_InBounds priv.node priv.resp_frame priv.width priv.resp_length v)
  | inr unset ↦ rw unset refl
]

drop-replicate : (k n : ℕ) → drop {A = ℕ} k (replicate n 0) ≡ replicate (n - k) 0
drop-replicate zero n = ap (λ m. replicate m 0) (omega arith)
drop-replicate (suc k) zero =
    let e : 0 ≡ 0 - suc k = omega arith in ap (λ m. replicate {A = ℕ} m 0) e
drop-replicate (suc k) (suc n) =
    let e : n - k ≡ suc n - suc k = omega arith in
    drop-replicate k n ∙ ap (λ m. replicate {A = ℕ} m 0) e

drop_self : (xs : List ℕ) → drop (length xs) xs ≡ []
drop_self [] = refl
drop_self (x ∷ xs) = drop_self xs

-- What lies behind a frame in a buffer that was cleared before.
answer_frame :
    (k width : ℕ) (old : List ℕ)
    → length old ≡ width
    → drop (suc k) (replicate width 0 ++ drop width old) ≡ replicate (width - suc k) 0
answer_frame k width old e =
    let nothing : drop width old ≡ [] = rw (← e) (drop_self old) in
    rw (nothing, append-nil) (drop-replicate (suc k) width)

module _ (E : Env) where
  node_ioctl-AreSafe :
      (w : World) (self : Option ℕ) (r : Request) (args : Args r) (error : ErrorSlot)
      → AreSafe w.trace
      → ((fd : Option ℕ) → IsSafe (ioctl fd r args))
      → AreSafe (node_ioctl E w self r args error).world.trace
  node_ioctl-AreSafe w self r args error safe s = elim (node_ioctl-trace E w self r args error) [
    | inl e ↦ rw e safe
    | inr (fd, e) ↦ rw e (s (some fd), safe)
  ]

  release-AreSafe :
      (w : World) (priv : FwResp) → AreSafe w.trace → AreSafe (release E w priv).0.trace
  unfolding release
  release-AreSafe w priv safe = elim (Option-cases priv.node) [
    | inl e ↦ rw (e, release) safe
    | inr (n, e) ↦
        rw (e, release) (tt, node_ioctl-AreSafe w (some n) deallocate _ empty safe (λ fd. tt))
  ]

  act-AreSafe :
      (w : World) (priv : FwResp) (actions : List Action)
      → AreSafe w.trace
      → AreSafe (act E w priv actions).0.trace
  unfolding act
  act-AreSafe w priv [] safe = safe
  act-AreSafe w priv (answer frame ∷ actions) safe =
      act-AreSafe w (set_resp_frame priv frame) actions safe
  act-AreSafe w priv (leave ∷ actions) safe =
      act-AreSafe (release E w priv).0 (release E w priv).1 actions (release-AreSafe w priv safe)

  module _ (handlers : Requested → List Action × Rcode) where
    -- From a valid object, whatever the handlers of the signal do to it: if no response sent
    -- before made the kernel read beyond the memory behind its pointer, or through a null pointer,
    -- none does after the part that the three handlers of events share.
    pub handle-AreSafe :
        (w : World) (priv : FwResp) (signal : Requested) (handle_id : ℕ)
        → IsValid priv
        → AreSafe w.trace
        → AreSafe (handle E handlers w priv signal handle_id).0.trace
    unfolding handle emit_requested
    handle-AreSafe w priv signal handle_id v safe =
        let kept : AreSafe (wiped w priv).trace =
          subst (λ x. AreSafe x.trace) (sym (wiped_same w priv v)) safe in
        elim (Bool-cases (not (is_reserved (cleared priv)) || ltb priv.width signal.length)) [
          | inl refused ↦ rw refused (
              node_ioctl-AreSafe (wiped w priv) priv.node send_response _ empty kept (λ fd.
                response-InBounds (cleared priv) Rcode.conflict_error handle_id
                  (cleared-IsValid priv v)))
          | inr passed ↦ rw passed (
              node_ioctl-AreSafe _ _ send_response _ empty
                (act-AreSafe (wiped w priv) (cleared priv) (handlers signal).0 kept)
                (λ fd.
                  response-InBounds (act E (wiped w priv) (cleared priv) (handlers signal).0).1
                    (handlers signal).1 handle_id
                    (act-IsValid E (wiped w priv) (cleared priv) (handlers signal).0
                      (cleared-IsValid priv v))))
        ]

    -- On a reserved object of an open node, a request of the third kind that is longer than the
    -- reserved range is refused: the one system call is a response with the code for a conflict,
    -- the event's handle and no data.
    handle_conflict :
        (w : World) (priv : FwResp) (n : FwNode) (p fd : ℕ) (event : EventRequest3)
        → IsValid priv
        → priv.node ≡ some p
        → w.nodes p ≡ some n
        → n.fd ≡ some fd
        → priv.width < event.length
        → (handle_request3 E handlers w priv event).0.trace
          ≡ ioctl (some fd) send_response (record {
            rcode = Rcode.conflict_error;
            length = 0;
            payload = none;
            handle = event.handle;
          })
            ∷ w.trace
    unfolding handle_request3 handle is_reserved node_ioctl call_kernel is_null
    handle_conflict w priv n p fd event v a b c h = ground (arith, has_width_valid priv v)

    -- On a reserved object of an open node, with a buffer of the reserved width and a request of
    -- the third kind that is not longer: if the handlers set one frame that is not empty and not
    -- longer either, that frame is sent, followed in memory by zeros up to the width, with the
    -- response code of the handlers and the event's handle.
    handle_answer :
        (w : World) (priv : FwResp) (n : FwNode) (p fd : ℕ) (event : EventRequest3) (b : ℕ)
        (frame old : List ℕ) (rcode : Rcode)
        → priv.node ≡ some p
        → w.nodes p ≡ some n
        → n.fd ≡ some fd
        → priv.resp_frame ≡ some old
        → length old ≡ priv.width
        → event.length ≤ priv.width
        → length (b ∷ frame) ≤ priv.width
        → handlers (signal_of3 event) ≡ (answer (b ∷ frame) ∷ [], rcode)
        → (handle_request3 E handlers w priv event).0.trace
          ≡ ioctl (some fd) send_response (record {
            rcode = rcode;
            length = length (b ∷ frame);
            payload = some ((b ∷ frame) ++ replicate (priv.width - length (b ∷ frame)) 0);
            handle = event.handle;
          })
            ∷ w.trace
    unfolding handle_request3 handle is_reserved node_ioctl call_kernel is_null emit_requested act
        set_resp_frame
    handle_answer w priv n p fd event b frame old rcode a bb c d e f g h =
        ground (arith, answer_frame (length frame) priv.width old e)
