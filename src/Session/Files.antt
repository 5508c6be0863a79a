-- ===== src/Session/Files.antt =====
-- The file descriptors of the nodes: `open(2)`, `ioctl(2)` and `close(2)` in src/fw_node.c.
use libhinawa.Env.{overrun}
use libhinawa.Base.{
  ℕ, ◌≡◌, inl, inr, refl, sym, ◌∙◌, List, [], ◌∷◌, Option, none, some, Bool, true, false, arith,
  ◌==◌, if◌then◌else◌, Option-cases, Bool-cases,
}
use libhinawa.Abi.{Request, Args, get_info}
use libhinawa.Env.{Env, ErrorSlot, Effect, ioctl, opened, closed, ref, unref, done, failed, is_null}
use libhinawa.Node
use libhinawa.Node.{FwNode, World, emit, put_node, with_info, update_info, info_query}
use libhinawa.Node.Ioctl.{
  node_ioctl, call_kernel, keep_transaction, invalidate_transaction, drop_transaction,
}
use libhinawa.Node.Open.{handle_update}
use libhinawa.Node.Open.Laws.{fd_at}
use libhinawa.Session.{create_node, handle_reset}

module _ (E : Env) where
  -- Whether a descriptor is open by what was asked of the kernel and what it answered.
  abbrev pub is_open : List Effect → ℕ → Bool
  is_open [] fd = false
  is_open (opened path flag ∷ es) fd = elim (E.open_file es path flag) [
    | failed errno ↦ is_open es fd
    | done fd' ↦ if fd' == fd then true else is_open es fd
  ]
  is_open (closed fd' ∷ es) fd = if fd' == fd then false else is_open es fd
  is_open (ioctl fd' r args ∷ es) fd = is_open es fd
  is_open (ref q ∷ es) fd = is_open es fd
  is_open (unref q ∷ es) fd = is_open es fd
  is_open (overrun ∷ es) fd = is_open es fd

  -- `open(2)`: a new descriptor is none that is open.
  abbrev pub OpenLaw : Type 0
  OpenLaw =
      (es : List Effect) (path : List ℕ) (flag fd : ℕ)
      → E.open_file es path flag ≡ done fd
      → is_open es fd ≡ false

  -- Each call was made on a descriptor that was open then, and none was closed twice.
  abbrev pub IsUsed : List Effect → Type 0
  IsUsed [] = Unit {0}
  IsUsed (ioctl none r args ∷ es) = ⊥
  IsUsed (ioctl (some fd) r args ∷ es) = (is_open es fd ≡ true) × IsUsed es
  IsUsed (closed fd ∷ es) = (is_open es fd ≡ true) × IsUsed es
  IsUsed (opened path flag ∷ es) = IsUsed es
  IsUsed (ref q ∷ es) = IsUsed es
  IsUsed (unref q ∷ es) = IsUsed es
  IsUsed (overrun ∷ es) = IsUsed es

  -- The open descriptors are those of the nodes, each that of one node.
  pub record Files (w : World) : Type 0 where
    pub owned : (p fd : ℕ) → fd_at w p ≡ some fd → is_open w.trace fd ≡ true
    pub sole : (p q fd : ℕ) → fd_at w p ≡ some fd → fd_at w q ≡ some fd → p ≡ q
    pub kept : (fd : ℕ) → is_open w.trace fd ≡ true → (p : ℕ) × (fd_at w p ≡ some fd)
    pub used : IsUsed w.trace

  -- A step that leaves the descriptors alone, and may call one that a node has.
  pub Files-same :
      (w w' : World)
      → ((p : ℕ) → fd_at w' p ≡ fd_at w p)
      → ((fd : ℕ) → is_open w'.trace fd ≡ is_open w.trace fd)
      → IsUsed w'.trace
      → Files w
      → Files w'
  Files-same w w' f o u h = record {
    owned = λ p fd e. o fd ∙ h.owned p fd (sym (f p) ∙ e);
    sole = λ p q fd e e'. h.sole p q fd (sym (f p) ∙ e) (sym (f q) ∙ e');
    kept = λ fd e. let (p, e') = h.kept fd (sym (o fd) ∙ e) in (p, f p ∙ e');
    used = u;
  }

  pub emit_overrun-Files : (w : World) → Files w → Files (emit w overrun)
  emit_overrun-Files w h = Files-same w _ (λ p. refl) (λ fd. refl) h.used h

  call_kernel_world :
      (w : World) (fd : ℕ) (r : Request) (args : Args r) (error : ErrorSlot)
      → (call_kernel E w fd r args error).world ≡ emit w (ioctl (some fd) r args)
  unfolding call_kernel
  call_kernel_world w fd r args error = ground arith

  keep_transaction-fd :
      (r : Request) (args : Args r) (n : FwNode) → (keep_transaction E r args n).fd ≡ n.fd
  unfolding keep_transaction
  keep_transaction-fd Request.send_request args n = refl
  keep_transaction-fd r args n = ground arith

  pub node_ioctl-Files :
      (w : World) (q : Option ℕ) (r : Request) (args : Args r) (error : ErrorSlot)
      → Files w
      → Files (node_ioctl E w q r args error).world
  unfolding node_ioctl
  node_ioctl-Files w none r args error h = h
  node_ioctl-Files w (some q) r args error h = elim (Option-cases (w.nodes q)) [
    | inl e ↦ rw (e, node_ioctl) h
    | inr (n, e) ↦ elim (Bool-cases (is_null error)) [
      | inl bad ↦ rw (e, node_ioctl, bad) h
      | inr good ↦ elim (Option-cases n.fd) [
        | inl f ↦ rw (e, node_ioctl, good, f) h
        | inr (fd, f) ↦
            rw (e, node_ioctl, good, f)
              (Files-same w _
                (λ p. ground (
                  arith,
                  call_kernel_world (put_node w q (keep_transaction E r args n)) fd r args error,
                  keep_transaction-fd r args n,
                ))
                (λ fd'. ground (
                  arith,
                  call_kernel_world (put_node w q (keep_transaction E r args n)) fd r args error,
                ))
                (rw (call_kernel_world (put_node w q (keep_transaction E r args n)) fd r args error)
                  (h.owned q fd (ground arith), h.used))
                h)
      ]
    ]
  ]

  pub emit_ref-Files : (w : World) (q : ℕ) → Files w → Files (emit w (ref q))
  emit_ref-Files w q h = Files-same w _ (λ p. refl) (λ fd. refl) h.used h

  pub emit_unref-Files : (w : World) (q : ℕ) → Files w → Files (emit w (unref q))
  emit_unref-Files w q h = Files-same w _ (λ p. refl) (λ fd. refl) h.used h

  -- A step that asks for nothing.
  pub Files-quiet :
      (w w' : World) → ((p : ℕ) → fd_at w' p ≡ fd_at w p) → w'.trace ≡ w.trace → Files w → Files w'
  Files-quiet w w' f e h = Files-same w w' f (λ fd. rw e refl) (rw e h.used) h

  pub invalidate-Files :
      (w : World) (q req : ℕ) → Files w → Files (invalidate_transaction E w (some q) req)
  unfolding invalidate_transaction drop_transaction
  invalidate-Files w q req h = Files-quiet w _ (λ p. ground arith) (ground arith) h

  pub create_node-Files : (w : World) (q : ℕ) → Files w → Files (create_node w q)
  unfolding create_node Node.init
  create_node-Files w q h = Files-quiet w _ (λ p. ground arith) (ground arith) h

  pub handle_reset-Files : (w : World) (q : ℕ) → Files w → Files (handle_reset E w q)
  unfolding handle_reset handle_update update_info
  handle_reset-Files w q h = elim (Option-cases (fd_at w q)) [
    | inl e ↦ rw (e, handle_reset) h
    | inr (fd, e) ↦ elim (Option-cases (w.nodes q)) [
      | inl f ↦ absurd (ground arith)
      | inr (n, f) ↦
          let after : (handle_reset E w q).trace
              ≡ ioctl (some fd) get_info (info_query q n) ∷ w.trace =
            ground arith in
          Files-same w _ (λ p. ground arith) (λ fd'. rw after refl)
            (rw after (h.owned q fd e, h.used)) h
    ]
  ]
