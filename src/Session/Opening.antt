-- ===== src/Session/Opening.antt =====
-- Opening and closing descriptors, and the descriptors of whole sessions.
use libhinawa.Base.{
  ℕ, ◌≡◌, inl, inr, refl, List, ◌∷◌, Option, none, some, not, ◌&&◌, arith, ◌==◌, Option-cases,
  Bool-cases, update,
}
use Prim.Native.Nat.{bit_or}
use libhinawa.Abi.{Args, get_info}
use libhinawa.Env.{Env, ErrorSlot, ioctl, opened, closed, done, is_unset}
use libhinawa.Node
use libhinawa.Node.{FwNode, World, emit, put_node, with_info, update_info, info_query}
use libhinawa.Node.Open.{is_path, path_of, o_rdonly, load_info, open_device, open_node}
use libhinawa.Session
use libhinawa.Session.References.{refs, unrefs}
use libhinawa.Session.Classes.{Holds}
use libhinawa.Session.Preserve.{run_keeps}
use libhinawa.Session.Nodes.{Reply-cases}
use libhinawa.Session.{run, create_node, handle_reset, collect}
use libhinawa.Session.Closed.{IsClosed}
use libhinawa.Session.Files.{
  OpenLaw, Files, Files-same, Files-quiet, node_ioctl-Files, emit_ref-Files, emit_overrun-Files,
  emit_unref-Files, invalidate-Files, create_node-Files, handle_reset-Files,
}

module _ (E : Env) where
  -- The two ends of `open(2)` followed by `update_info`, and of `fw_node_finalize`.
  module _ (law : OpenLaw E) where
    opened-Files :
        (w : World) (q : ℕ) (n n' : FwNode) (path : List ℕ) (flag fd : ℕ) (args : Args get_info)
        → w.nodes q ≡ some n
        → n.fd ≡ none
        → n'.fd ≡ some fd
        → E.open_file w.trace path flag ≡ done fd
        → Files E w
        → Files E (record (put_node w q n') {
          trace = ioctl (some fd) get_info args ∷ opened path flag ∷ w.trace;
        })
    opened-Files w q n n' path flag fd args a b c o h = record {
      owned = λ p fd' e. elim (Bool-cases (q == p)) [
        | inl same ↦ ground arith
        | inr other ↦ ground (arith, h.owned p fd')
      ];
      sole = λ p p' fd' e e'. elim (Bool-cases (q == p)) [
        | inl one ↦ elim (Bool-cases (q == p')) [
          | inl two ↦ ground arith
          | inr two ↦ absurd (ground (arith, h.owned p' fd', law w.trace path flag fd o))
        ]
        | inr one ↦ elim (Bool-cases (q == p')) [
          | inl two ↦ absurd (ground (arith, h.owned p fd', law w.trace path flag fd o))
          | inr two ↦ h.sole p p' fd' (ground arith) (ground arith)
        ]
      ];
      kept = λ fd' e. elim (Bool-cases (fd == fd')) [
        | inl same ↦ (q, ground arith)
        | inr other ↦ let (p, e') = h.kept fd' (ground arith) in (p, ground arith)
      ];
      used = (ground arith, h.used);
    }

    refused-Files :
        (w : World) (q : ℕ) (n n' : FwNode) (path : List ℕ) (flag fd : ℕ) (args : Args get_info)
        → w.nodes q ≡ some n
        → n.fd ≡ none
        → n'.fd ≡ none
        → E.open_file w.trace path flag ≡ done fd
        → Files E w
        → Files E (record (put_node w q n') {
          trace = closed fd ∷ ioctl (some fd) get_info args ∷ opened path flag ∷ w.trace;
        })
    refused-Files w q n n' path flag fd args a b c o h =
        Files-same E w _ (λ p. ground arith) (λ fd'. ground (arith, law w.trace path flag fd o))
          (ground arith, (ground arith, h.used)) h

    closed-Files :
        (w : World) (q : ℕ) (n : FwNode) (fd : ℕ)
        → w.nodes q ≡ some n
        → n.fd ≡ some fd
        → Files E w
        → Files E (record { nodes = update w.nodes q none; trace = closed fd ∷ w.trace })
    closed-Files w q n fd a b h = record {
      owned = λ p fd' e. elim (Bool-cases (fd == fd')) [
        | inl same ↦ absurd (ground (arith, h.sole p q fd))
        | inr other ↦ ground (arith, h.owned p fd')
      ];
      sole = λ p p' fd' e e'. h.sole p p' fd' (ground arith) (ground arith);
      kept = λ fd' e. let (p, e') = h.kept fd' (ground arith) in (p, ground arith);
      used = (h.owned q fd (ground arith), h.used);
    }

    collect-Files : (w : World) (q : ℕ) → Files E w → Files E (collect w q)
    unfolding collect Node.finalize
    collect-Files w q h = elim (Option-cases (w.nodes q)) [
      | inl e ↦ rw (e, collect) h
      | inr (n, e) ↦ elim (Bool-cases (refs q w.trace == unrefs q w.trace)) [
        | inr held ↦ rw (e, collect, held) h
        | inl free ↦ elim (Option-cases n.fd) [
          | inl f ↦
              rw (e, collect, free, Node.finalize, f) (Files-quiet E w _ (λ p. ground arith) refl h)
          | inr (fd, f) ↦ rw (e, collect, free, Node.finalize, f) (closed-Files w q n fd e f h)
        ]
      ]
    ]

    open_device-Files :
        (w : World) (q : ℕ) (n : FwNode) (path : List ℕ) (flag : ℕ) (error : ErrorSlot)
        → w.nodes q ≡ some n
        → n.fd ≡ none
        → Files E w
        → Files E (open_device E w q n path flag error).world
    unfolding open_device load_info update_info
    open_device-Files w q n path flag error a b h =
        elim (Reply-cases (E.open_file w.trace path (bit_or flag o_rdonly))) [
          | inl (errno, o) ↦
              rw (o, open_device) (Files-same E w _ (λ p. refl) (λ fd. rw o refl) h.used h)
          | inr (fd, o) ↦
              let flags = bit_or flag o_rdonly in
              let given = record n { fd = some fd } in
              elim (Reply-cases
                (E.ioctl (opened path flags ∷ w.trace) (some fd) get_info (info_query q given))) [
                  | inr (info, i) ↦
                      rw (o, open_device, load_info, update_info, i)
                        (opened-Files w q n (with_info E given info) path flags fd _ a b refl o h)
                  | inl (errno, i) ↦ elim (Bool-cases (errno == 0)) [
                    | inl zero ↦
                        rw (o, open_device, load_info, update_info, i, zero)
                          (opened-Files w q n given path flags fd _ a b refl o h)
                    | inr bad ↦
                        rw (o, open_device, load_info, update_info, i, bad)
                          (refused-Files w q n (record n { fd = none }) path flags fd _ a b refl o
                            h)
                  ]
                ]
        ]

    open_node-Files :
        (w : World) (q : ℕ) (path : Option (List ℕ)) (flag : ℕ) (error : ErrorSlot)
        → Files E w
        → Files E (open_node E w (some q) path flag error).world
    unfolding open_node
    open_node-Files w q path flag error h = elim (Option-cases (w.nodes q)) [
      | inl e ↦ rw (e, open_node) h
      | inr (n, e) ↦ elim (Bool-cases (not (is_path path && is_unset error))) [
        | inl refused ↦ rw (e, open_node, refused) h
        | inr passed ↦ elim (Option-cases n.fd) [
          | inr (fd, f) ↦ rw (e, open_node, passed, f) h
          | inl f ↦
              rw (e, open_node, passed, f) (open_device-Files w q n (path_of path) flag error e f h)
        ]
      ]
    ]

    Files-IsClosed : IsClosed E (Files E)
    Files-IsClosed = record {
      calls = node_ioctl-Files E;
      takes = emit_ref-Files E;
      overruns = emit_overrun-Files E;
      drops = emit_unref-Files E;
      invalidates = invalidate-Files E;
      creates = create_node-Files E;
      opens = open_node-Files;
      resets = handle_reset-Files E;
      collects = collect-Files;
    }

    -- With the law that `open(2)` gives no descriptor that is open, and from a state in which the
    -- descriptors that are open are those of the nodes, each that of one node: after any sequence of
    -- calls on responders, protocols, transactions and nodes that has no fault, whatever else the
    -- kernel answers, the same holds; every system call on a descriptor was made while it was open,
    -- and each was closed only while it was open. So no descriptor leaks when a node cannot be
    -- opened, and a finalized node has closed its own.
    pub run-Files :
        (s : Session.Session) (calls : List Session.Call)
        → Files E s.world
        → Holds (λ s'. Files E s'.world) (run E s calls)
    run-Files s calls h = run_keeps E (Files E) Files-IsClosed s calls h
