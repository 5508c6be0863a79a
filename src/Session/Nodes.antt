-- ===== src/Session/Nodes.antt =====
-- What the halves of a transaction and the calls on nodes do to the references.
use libhinawa.Base.{
  ℕ, ◌≡◌, ◌⊎◌, inl, inr, refl, sym, ◌∙◌, List, [], ◌∷◌, ◌++◌, Option, none, some, Bool, true, false,
  not, if◌then◌else◌, ◌&&◌, arith, Option-cases, Bool-cases, ◌>>=◌,
}
use Prim.Native.Nat.{bit_or}
use mathlib.Core.List.{append_assoc}
use libhinawa.CycleTime.{CycleTime}
use libhinawa.Enums.{Tcode}
use libhinawa.Abi.{send_request, get_cycle_timer2, get_info}
use libhinawa.Env.{
  Env, ErrorSlot, Effect, ioctl, opened, closed, ref, unref, is_unset, Reply, done, failed,
}
use libhinawa.Node.{FwNode, World, Outcome, emit, update_info, info_query}
use libhinawa.Node.Ioctl.{Ioctl, invalidate_transaction, read_cycle_time}
use libhinawa.Node.Open.{
  o_rdonly, path_of, is_path, load_info, open_device, open_node, handle_update,
}
use libhinawa.Node.Open.Laws.{fd_at}
use libhinawa.Req.{check, Waiter}
use libhinawa.Req.Execute.{Schedule, request, after_send, end_wait, await}
use libhinawa.Req.Transaction.{final_waiter, finish_keeps}
use libhinawa.Resp.Invariant.{ErrorSlot-cases}
use libhinawa.Session.{
  Holder, responder, protocol, transaction, gone, create_node, handle_reset, begin,
}
use libhinawa.Session.References.{
  held, lives, Accounts, Accounts-refl, Accounts-trans, Accounts-unref, Accounts-ref,
  node_ioctl-Accounts, AreFiles, Accounts-files,
}
use libhinawa.Session.Classes.{Holds, bound}

pub Reply-cases : {A : Type 0} (r : Reply A) → ((n : ℕ) × (r ≡ failed n)) ⊎ ((a : A) × (r ≡ done a))
Reply-cases (failed n) = inl (n, refl)
Reply-cases (done a) = inr (a, refl)

AreFiles-append : (a b : List Effect) → AreFiles a → AreFiles b → AreFiles (a ++ b)
AreFiles-append [] b f g = g
AreFiles-append (e ∷ a) b f g = (f.0, AreFiles-append a b f.1 g)

-- The references that a holder holds.
abbrev pub count : ℕ → Holder → ℕ
count p (responder priv) = held p priv.node
count p (protocol fcp resp) = bound p fcp resp
count p (transaction req q) = held p (some q)
count p gone = 0

module _ (E : Env) (p : ℕ) where
  after_send-Accounts :
      (a : ℕ) (w : World) (r : Ioctl send_request)
      → Accounts p w a r.world a
      → Holds (λ out. Accounts p w a out.world a) (after_send E r)
  unfolding after_send
  after_send-Accounts a w r h = elim (ErrorSlot-cases r.error) [
    | inl e ↦ rw (e, after_send) tt
    | inr (inl e) ↦ rw (e, after_send) h
    | inr (inr (d, e)) ↦ rw (e, after_send) h
  ]

  request-Accounts :
      (a : ℕ) (w : World) (self : ℕ) (p' : Option ℕ) (tcode : Tcode) (addr len : ℕ) (frame : List ℕ)
      (frame_size : ℕ) (error : ErrorSlot)
      → Holds
          (λ out. Accounts p w a out.world a)
          (request E w self p' tcode addr len frame frame_size error)
  unfolding request
  request-Accounts a w self none tcode addr len frame frame_size error = Accounts-refl p w a
  request-Accounts a w self (some q) tcode addr len frame frame_size error =
      elim (Option-cases (w.nodes q)) [
        | inl none_there ↦ rw (none_there, request) (Accounts-refl p w a)
        | inr (n, there) ↦ elim (Bool-cases (not (is_unset error))) [
          | inl refused ↦ rw (there, request, refused) (Accounts-refl p w a)
          | inr passed ↦ elim (Option-cases (check tcode addr len frame_size)) [
            | inl e ↦ rw (there, request, passed, e) (Accounts-refl p w a)
            | inr (sent, e) ↦
                rw (there, request, passed, e)
                  (after_send-Accounts a w _
                    (node_ioctl-Accounts E p a w (some q) send_request _ error))
          ]
        ]
      ]

  pub invalidate-Accounts :
      (a : ℕ) (w : World) (q req : ℕ) → Accounts p w a (invalidate_transaction E w (some q) req) a
  unfolding invalidate_transaction
  invalidate-Accounts a w q req = Accounts-files [] tt (ground arith) (λ l. ground arith)

  end_wait-Accounts :
      (s : Schedule) (req q : ℕ) (w : World) (frame_size : ℕ) (error : ErrorSlot) (waiter : Waiter)
      → s.elapse w ≡ w
      → Accounts p w
          (held p (some q))
          (end_wait E s req (some q) q w frame_size error waiter).world
          0
  unfolding end_wait
  end_wait-Accounts s req q w frame_size error waiter h =
      rw (h, (finish_keeps E _ _ error frame_size).1)
        (Accounts-trans (invalidate-Accounts _ w q req) (Accounts-unref p q _))

  pub await-Accounts :
      (s : Schedule) (req q : ℕ) (w : World) (frame : List ℕ) (frame_size : ℕ) (error : ErrorSlot)
      → s.elapse w ≡ w
      → Holds
          (λ r. Accounts p w (held p (some q)) r.world 0)
          (await E s req (some q) q w frame frame_size error)
  unfolding await
  await-Accounts s req q w frame frame_size error h =
      elim (Option-cases (final_waiter s frame frame_size)) [
        | inl fault ↦ rw (fault, await) tt
        | inr (waiter, ends) ↦
            rw (ends, await) (end_wait-Accounts s req q w frame_size error waiter h)
      ]

  pub begin-Accounts :
      (w : World) (self : ℕ) (p' : Option ℕ) (tcode : Tcode) (addr len : ℕ) (frame : List ℕ)
      (frame_size : ℕ) (error : ErrorSlot)
      → Holds
          (λ (w', h). Accounts p w 0 w' (count p h))
          (begin E w self p' tcode addr len frame frame_size error)
  unfolding begin
  begin-Accounts w self none tcode addr len frame frame_size error = Accounts-refl p w 0
  begin-Accounts w self (some q) tcode addr len frame frame_size error =
      elim (Option-cases (w.nodes q)) [
        | inl e ↦ rw (e, begin) (Accounts-refl p w 0)
        | inr (n, e) ↦
            let taken = Accounts-ref p q w (ground (arith, e)) in
            rw (e, begin)
              (after _ taken (
                request-Accounts (held p (some q)) (emit w (ref q)) self (some q) tcode addr len
                  frame frame_size error))
      ]
    where
      after :
          (r : Option (Outcome Bool)) {v : World}
          → Accounts p w 0 v (held p (some q))
          → Holds (λ out. Accounts p v (held p (some q)) out.world (held p (some q))) r
          → Holds
              (λ (w', h). Accounts p w 0 w' (count p h))
              (r >>= λ out.
                if out.value
                then some (out.world, transaction self q)
                else some (emit out.world (unref q), gone))
      after none taken h = tt
      after (some out) taken h = elim (Bool-cases out.value) [
        | inl good ↦ rw good (Accounts-trans taken h)
        | inr bad ↦ rw bad (Accounts-trans taken (Accounts-trans h (Accounts-unref p q _)))
      ]

  pub create_node-Accounts : (a : ℕ) (w : World) (q : ℕ) → Accounts p w a (create_node w q) a
  unfolding create_node
  create_node-Accounts a w q = Accounts-files [] tt (ground arith) (λ l. ground arith)

  handle_update-Accounts : (a : ℕ) (w : World) (q : ℕ) → Accounts p w a (handle_update E w q) a
  unfolding handle_update update_info
  handle_update-Accounts a w q = elim (Option-cases (w.nodes q)) [
    | inl e ↦ Accounts-files [] tt (ground arith) (λ l. ground arith)
    | inr (n, e) ↦
        Accounts-files (ioctl n.fd get_info (info_query q n) ∷ []) (tt, tt) (ground arith)
          (λ l. ground arith)
  ]

  pub handle_reset-Accounts : (a : ℕ) (w : World) (q : ℕ) → Accounts p w a (handle_reset E w q) a
  unfolding handle_reset
  handle_reset-Accounts a w q = elim (Option-cases (fd_at w q)) [
    | inl e ↦ rw (e, handle_reset) (Accounts-refl p w a)
    | inr (fd, e) ↦ rw (e, handle_reset) (handle_update-Accounts a w q)
  ]

  pub read_cycle_time-Accounts :
      (a : ℕ) (w : World) (q clock : ℕ) (cycle_time : CycleTime) (error : ErrorSlot)
      → Accounts p w a (read_cycle_time E w (some q) clock cycle_time error).1.world a
  unfolding read_cycle_time
  read_cycle_time-Accounts a w q clock cycle_time error =
      node_ioctl-Accounts E p a w (some q) get_cycle_timer2 _ error

  open_node-lives :
      (w : World) (q : ℕ) (path : Option (List ℕ)) (flag : ℕ) (error : ErrorSlot)
      → lives w p ≡ true
      → lives (open_node E w (some q) path flag error).world p ≡ true
  unfolding open_node open_device load_info update_info
  open_node-lives w q path flag error l = ground arith

  load_info-trace :
      (w : World) (q : ℕ) (n : FwNode) (fd : ℕ) (error : ErrorSlot)
      → (news : List Effect) × AreFiles news
        × ((load_info E w q n fd error).world.trace ≡ news ++ w.trace)
  unfolding load_info update_info
  load_info-trace w q n fd error =
      let opening_node = record n { fd = some fd } in
      let called = ioctl (some fd) get_info (info_query q opening_node) in
      elim (Bool-cases (load_info E w q n fd error).value) [
        | inl good ↦ (called ∷ [], (tt, tt), ground arith)
        | inr bad ↦ (closed fd ∷ called ∷ [], (tt, (tt, tt)), ground arith)
      ]

  after_open :
      (w : World) (q : ℕ) (n : FwNode) (path : Option (List ℕ)) (flag : ℕ) (error : ErrorSlot)
      (fd : ℕ)
      → w.nodes q ≡ some n
      → not (is_path path && is_unset error) ≡ false
      → n.fd ≡ none
      → E.open_file w.trace (path_of path) (bit_or flag o_rdonly) ≡ done fd
      → (open_node E w (some q) path flag error).world.trace
        ≡ (load_info E
            (emit w (opened (path_of path) (bit_or flag o_rdonly)))
            q
            n
            fd
            error).world.trace
  unfolding open_node open_device
  after_open w q n path flag error fd e passed f o = ground arith

  open_node-trace :
      (w : World) (q : ℕ) (path : Option (List ℕ)) (flag : ℕ) (error : ErrorSlot)
      → (news : List Effect) × AreFiles news
        × ((open_node E w (some q) path flag error).world.trace ≡ news ++ w.trace)
  unfolding open_node open_device load_info update_info
  open_node-trace w q path flag error = elim (Option-cases (w.nodes q)) [
    | inl e ↦ ([], tt, ground arith)
    | inr (n, e) ↦ elim (Bool-cases (not (is_path path && is_unset error))) [
      | inl refused ↦ ([], tt, ground arith)
      | inr passed ↦ elim (Option-cases n.fd) [
        | inr (fd, f) ↦ ([], tt, ground arith)
        | inl f ↦
            let flags = bit_or flag o_rdonly in
            elim (Reply-cases (E.open_file w.trace (path_of path) flags)) [
              | inl (errno, o) ↦ (opened (path_of path) flags ∷ [], (tt, tt), ground arith)
              | inr (fd, o) ↦
                  let w' = emit w (opened (path_of path) flags) in
                  let (news, files, t) = load_info-trace w' q n fd error in
                  (
                    news ++ (opened (path_of path) flags ∷ []),
                    AreFiles-append news _ files (tt, tt),
                    after_open w q n path flag error fd e passed f o
                        ∙ t
                        ∙ sym (append_assoc news (opened (path_of path) flags ∷ []) w.trace),
                  )
            ]
      ]
    ]
  ]

  pub open_node-Accounts :
      (a : ℕ) (w : World) (q : ℕ) (path : Option (List ℕ)) (flag : ℕ) (error : ErrorSlot)
      → Accounts p w a (open_node E w (some q) path flag error).world a
  open_node-Accounts a w q path flag error =
      let (news, files, e) = open_node-trace w q path flag error in
      Accounts-files news files e (open_node-lives w q path flag error)
