-- ===== src/Session/Classes.antt =====
-- What the functions of `HinawaFwResp`, `HinawaFwFcp` and `HinawaFwReq` do to the references.
use libhinawa.Session.References.{Accounts-files}
use libhinawa.Env.{overrun}
use libhinawa.Resp.Handle.{wiped}
use libhinawa.Base.{
  ℕ, ◌+◌, ◌≡◌, inl, inr, refl, List, [], ◌∷◌, Option, none, some, Bool, true, not, ◌&&◌, ◌||◌,
  arith, ltb, Option-cases, Bool-cases, ◌>>=◌, ap,
}
use libhinawa.Enums.{Rcode}
use libhinawa.Abi.{allocate, deallocate, send_response}
use libhinawa.Env.{Env, ErrorSlot, empty, is_unset}
use libhinawa.Node.{World, Outcome}
use libhinawa.Node.Ioctl.{Ioctl}
use libhinawa.Resp.{FwResp, Requested, cleared, is_reserved, has_width, set_resp_frame}
use libhinawa.Resp.Region.{release, after_allocate, reserve_within_region, reserve}
use libhinawa.Resp.Handle.{Action, answer, leave, act, emit_requested, handle}
use libhinawa.Fcp.{FwFcp}
use libhinawa.Fcp.Bind.{bind_after, bind, stop_listening}
use libhinawa.Resp.Invariant.{ErrorSlot-cases}
use libhinawa.Session.References.{
  held, lives, Accounts, Accounts-refl, Accounts-trans, Accounts-frame, Accounts-unref,
  Accounts-ref, Accounts-subst, node_ioctl-Accounts, node_ioctl_live,
}

-- What holds of the results of a call that has no fault.
abbrev pub Holds : {A : Type 0} → (A → Type 0) → Option A → Type 0
Holds P none = Unit {0}
Holds P (some a) = P a

pub Holds-bind :
    {A B : Type 0} (P : A → Type 0) (Q : B → Type 0) (o : Option A) (f : A → Option B)
    → Holds P o
    → ((a : A) → P a → Holds Q (f a))
    → Holds Q (o >>= f)
Holds-bind P Q none f h k = tt
Holds-bind P Q (some a) f h k = k a h

-- The references of a `HinawaFwFcp`: its own, and those of the responder that it is.
abbrev pub bound : ℕ → FwFcp → FwResp → ℕ
bound p fcp resp = held p fcp.node + held p resp.node

set_resp_frame-node :
    (priv : FwResp) (frame : List ℕ) → (set_resp_frame priv frame).node ≡ priv.node
unfolding set_resp_frame
set_resp_frame-node priv [] = refl
set_resp_frame-node priv (b ∷ frame) = ground arith

module _ (E : Env) (p : ℕ) where
  pub release-Accounts :
      (w : World) (priv : FwResp)
      → let r = release E w priv in Accounts p w (held p priv.node) r.0 (held p r.1.node)
  unfolding release
  release-Accounts w priv = elim (Option-cases priv.node) [
    | inl e ↦ rw (e, release, e) (Accounts-refl p w 0)
    | inr (q, e) ↦
        rw (e, release)
          (Accounts-trans (node_ioctl-Accounts E p (held p (some q)) w (some q) deallocate _ empty)
            (Accounts-unref p q _))
  ]

  after_allocate-Accounts :
      (w : World) (priv : FwResp) (p' : Option ℕ) (r : Ioctl allocate)
      → priv.node ≡ none
      → Accounts p w 0 r.world 0
      → ((q : ℕ) → p' ≡ some q → r.err ≡ 0 → lives r.world q ≡ true)
      → Holds
          (λ (priv', out). Accounts p w 0 out.world (held p priv'.node))
          (after_allocate E priv p' r)
  unfolding after_allocate
  after_allocate-Accounts w priv p' r a h l = elim (ErrorSlot-cases r.error) [
    | inl unset ↦ rw (unset, after_allocate) tt
    | inr (inr (e, set)) ↦ rw (set, after_allocate, a) h
    | inr (inl clear) ↦ elim (Bool-cases (ltb 0 r.err)) [
      | inl bad ↦ rw (clear, after_allocate, bad, a) h
      | inr good ↦ elim (Option-cases p') [
        | inl e ↦ rw (clear, after_allocate, good, e) tt
        | inr (q, e) ↦
            rw (clear, after_allocate, good, e)
              (Accounts-trans h (Accounts-ref p q r.world (l q e (ground arith))))
      ]
    ]
  ]

  pub reserve_within_region-Accounts :
      (w : World) (self : ℕ) (priv : FwResp) (p' : Option ℕ) (start end_ width : ℕ)
      (error : ErrorSlot)
      → Holds
          (λ (priv', out). Accounts p w (held p priv.node) out.world (held p priv'.node))
          (reserve_within_region E w self priv p' start end_ width error)
  unfolding reserve_within_region
  reserve_within_region-Accounts w self priv p' start end_ width error =
      elim (Bool-cases (not (ltb 0 width && is_unset error))) [
        | inl refused ↦ rw refused (Accounts-refl p w _)
        | inr passed ↦ elim (Option-cases priv.node) [
          | inr (q, e) ↦ rw (passed, e) (Accounts-subst (ap (held p) e) refl (Accounts-refl p w _))
          | inl e ↦
              rw (passed, e)
                (after_allocate-Accounts w priv p' _ e
                  (node_ioctl-Accounts E p 0 w p' allocate _ error)
                  (λ q f. rw f (node_ioctl_live E w q allocate _ error)))
        ]
      ]

  pub act-Accounts :
      (w : World) (priv : FwResp) (actions : List Action)
      → let r = act E w priv actions in Accounts p w (held p priv.node) r.0 (held p r.1.node)
  unfolding act
  act-Accounts w priv [] = Accounts-refl p w _
  act-Accounts w priv (answer frame ∷ actions) =
      Accounts-subst (ap (held p) (set_resp_frame-node priv frame)) refl
        (act-Accounts w (set_resp_frame priv frame) actions)
  act-Accounts w priv (leave ∷ actions) =
      Accounts-trans (release-Accounts w priv)
        (act-Accounts (release E w priv).0 (release E w priv).1 actions)

  wiped-Accounts : (a : ℕ) (w : World) (priv : FwResp) → Accounts p w a (wiped w priv) a
  wiped-Accounts a w priv = elim (Bool-cases (has_width priv.resp_frame priv.width)) [
    | inl enough ↦ rw enough (Accounts-refl p w a)
    | inr short ↦ rw short (Accounts-files (overrun ∷ []) (tt, tt) refl (λ l. l))
  ]

  pub handle-Accounts :
      (handlers : Requested → List Action × Rcode) (w : World) (priv : FwResp) (signal : Requested)
      (handle_id : ℕ)
      → let r = handle E handlers w priv signal handle_id in
        Accounts p w (held p priv.node) r.0 (held p r.1.node)
  unfolding handle emit_requested
  handle-Accounts handlers w priv signal handle_id =
      elim (Bool-cases (not (is_reserved (cleared priv)) || ltb priv.width signal.length)) [
        | inl refused ↦ rw refused (
            Accounts-trans (wiped-Accounts _ w priv)
              (node_ioctl-Accounts E p _ _ priv.node send_response _ empty))
        | inr passed ↦ rw passed (
            Accounts-trans
              (Accounts-trans (wiped-Accounts _ w priv)
                (act-Accounts (wiped w priv) (cleared priv) (handlers signal).0))
              (node_ioctl-Accounts E p _ _ _ send_response _ empty))
      ]

  bind_after-Accounts :
      (w : World) (priv : FwFcp) (resp : FwResp) (q : ℕ) (r : Option (FwResp × Outcome Bool))
      → priv.node ≡ none
      → Holds (λ (resp', out). Accounts p w (held p resp.node) out.world (held p resp'.node)) r
      → Holds
          (λ (priv', resp', out).
            Accounts p w (0 + held p resp.node) out.world (bound p priv' resp'))
          (r >>= bind_after priv q)
  bind_after-Accounts w priv resp q none a h = tt
  bind_after-Accounts w priv resp q (some (resp', out)) a h = elim (Bool-cases out.value) [
    | inr bad ↦ rw (bad, a) (Accounts-subst (omega arith) (omega arith) h)
    | inl good ↦ elim (Option-cases (out.world.nodes q)) [
      | inl e ↦ rw (good, e) tt
      | inr (n, e) ↦
          rw (good, e)
            (Accounts-trans (Accounts-subst (omega arith) refl h) (
              Accounts-subst (omega arith) (omega arith) (
                Accounts-frame (held p resp'.node)
                  (Accounts-ref p q out.world (ground (arith, e))))))
    ]
  ]

  pub bind-Accounts :
      (w : World) (self : ℕ) (priv : FwFcp) (resp : FwResp) (q : ℕ) (error : ErrorSlot)
      → Holds
          (λ (priv', resp', out). Accounts p w (bound p priv resp) out.world (bound p priv' resp'))
          (bind E w self priv resp q error)
  unfolding bind reserve
  bind-Accounts w self priv resp q error = elim (Bool-cases (not (is_unset error))) [
    | inl refused ↦ rw refused (Accounts-refl p w _)
    | inr passed ↦ elim (Option-cases priv.node) [
      | inr (b, e) ↦
          let same : held p priv.node + held p resp.node ≡ held p (some b) + held p resp.node =
            ap (λ n. held p n + held p resp.node) e in
          rw (passed, e) (Accounts-subst same refl (Accounts-refl p w (bound p priv resp)))
      | inl e ↦
          rw (passed, e)
            (bind_after-Accounts w priv resp q _ e
              (reserve_within_region-Accounts w self resp (some q) _ _ _ error))
    ]
  ]

  pub stop_listening-Accounts :
      (w : World) (priv : FwFcp) (resp : FwResp)
      → let r = stop_listening E w priv resp in
        Accounts p w (bound p priv resp) r.0 (bound p r.1 r.2)
  unfolding stop_listening
  stop_listening-Accounts w priv resp = elim (Option-cases priv.node) [
    | inl e ↦ rw (e, stop_listening, e) (Accounts-refl p w _)
    | inr (q, e) ↦
        rw (e, stop_listening)
          (Accounts-trans (Accounts-frame (held p (some q)) (release-Accounts w resp)) (
            Accounts-subst (omega arith) (omega arith) (
              Accounts-frame (held p (release E w resp).1.node)
                (Accounts-unref p q (release E w resp).0))))
  ]
