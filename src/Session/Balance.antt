-- ===== src/Session/Balance.antt =====
-- The references of a whole session.
use libhinawa.Base.{
  ℕ, zero, suc, ◌+◌, ◌≡◌, ◌⊎◌, inl, inr, List, [], ◌∷◌, ◌++◌, some, true, arith, ◌==◌, set,
  get_elem?, Option-cases, Bool-cases,
}
use libhinawa.Env.{Env, Effect, closed}
use libhinawa.Node
use libhinawa.Node.{FwNode, World}
use libhinawa.Resp
use libhinawa.Resp.{FwResp}
use libhinawa.Fcp
use libhinawa.Fcp.{FwFcp}
use libhinawa.Session
use libhinawa.Session.{
  Holder, responder, protocol, transaction, gone, HolderCall, reserving, releasing, receiving,
  binding, unbinding, exchanging, returning, finalizing, Call, on, new_responder, new_protocol,
  beginning, new_node, opening, updating, reading, invalidating, collecting, collect, on_responder,
  on_protocol, on_holder, begin, step, run,
}
use libhinawa.Session.References.{
  refs, unrefs, IsBalanced, IsBalanced-file, IsBalanced-subst, lives, Accounts, Accounts-refl,
}
use libhinawa.Session.Classes.{Holds, Holds-bind}
use libhinawa.Session.Holders.{on_holder-Accounts}
use libhinawa.Session.Nodes.{
  count, begin-Accounts, create_node-Accounts, handle_reset-Accounts, read_cycle_time-Accounts,
  open_node-Accounts, invalidate-Accounts,
}

-- The references that all holders hold.
abbrev pub total : ℕ → List Holder → ℕ
total p [] = 0
total p (h ∷ hs) = count p h + total p hs

-- The references to `p` taken and not dropped are those that the holders hold, and while there is
-- one, the node is there.
abbrev pub IsAccounted : ℕ → Session.Session → Type 0
IsAccounted p s =
    IsBalanced p (total p s.holders) s.world.trace
    × ((total p s.holders ≡ 0) ⊎ (lives s.world p ≡ true))

total-set :
    (p : ℕ) (hs : List Holder) (i : ℕ) (h : Holder)
    → get_elem? hs i ≡ some h
    → (k : ℕ) × (total p hs ≡ k + count p h)
      × ((h' : Holder) → total p (set hs i h') ≡ k + count p h')
total-set p [] i h e = absurd (ground arith)
total-set p (x ∷ hs) zero h e = (total p hs, ground arith, λ h'. omega arith)
total-set p (x ∷ hs) (suc i) h e =
    let (k, before, after) = total-set p hs i h e in
    (count p x + k, omega (arith, before), λ h'. omega (arith, after h'))

total-append : (p : ℕ) (a b : List Holder) → total p (a ++ b) ≡ total p a + total p b
total-append p [] b = omega arith
total-append p (h ∷ a) b = omega (arith, total-append p a b)

-- What a call accounts for among the other holders.
sound :
    (p k a b : ℕ) {w w' : World} {before after : ℕ}
    → Accounts p w a w' b
    → before ≡ k + a
    → after ≡ k + b
    → IsBalanced p before w.trace × ((before ≡ 0) ⊎ (lives w p ≡ true))
    → IsBalanced p after w'.trace × ((after ≡ 0) ⊎ (lives w' p ≡ true))
sound p k a b {w} {w'} {before} {after} f e e' s = (
  IsBalanced-subst p w'.trace (omega (arith, e'))
      (f.balance k (IsBalanced-subst p w.trace (omega (arith, e)) s.0)),
  elim s.1 [
    | inr l ↦ inr (f.keeps l)
    | inl z ↦ elim f.gains [ inl x ↦ inl (omega (arith, e, e', z)) | inr l ↦ inr l ]
  ],
)

module _ (E : Env) (p : ℕ) where
  finalize-IsBalanced :
      (n : FwNode) (k : ℕ) (es : List Effect)
      → IsBalanced p k es
      → IsBalanced p k (Node.finalize n es)
  unfolding Node.finalize
  finalize-IsBalanced n k es b = elim (Option-cases n.fd) [
    | inl e ↦ rw (e, Node.finalize) b
    | inr (fd, e) ↦ rw (e, Node.finalize) (IsBalanced-file p k (closed fd) es tt b)
  ]

  -- A node is finalized only while nothing holds it.
  collect-IsAccounted :
      (s : Session.Session) (q : ℕ)
      → IsAccounted p s
      → IsAccounted p (record s { world = collect s.world q })
  unfolding collect Node.finalize
  collect-IsAccounted s q h = elim (Option-cases (s.world.nodes q)) [
    | inl e ↦ rw (e, collect) h
    | inr (n, e) ↦ elim (Bool-cases (refs q s.world.trace == unrefs q s.world.trace)) [
      | inr kept ↦ rw (e, collect, kept) h
      | inl free ↦
          rw (e, collect, free)
            (
              finalize-IsBalanced n (total p s.holders) s.world.trace h.0,
              elim (Bool-cases (q == p)) [
                | inl same ↦ inl (ground (arith, h.0.0))
                | inr other ↦ elim h.1 [ inl z ↦ inl z | inr l ↦ inr (ground arith) ]
              ],
            )
    ]
  ]

  -- A call that leaves the holders alone.
  world-IsAccounted :
      (s : Session.Session) (w : World)
      → Accounts p s.world 0 w 0
      → IsAccounted p s
      → IsAccounted p (record s { world = w })
  world-IsAccounted s w f h = sound p (total p s.holders) 0 0 f (omega arith) (omega arith) h

  -- A call that adds a holder.
  new-IsAccounted :
      (s : Session.Session) (w : World) (h : Holder)
      → Accounts p s.world 0 w (count p h)
      → IsAccounted p s
      → IsAccounted p (record s { world = w; holders = s.holders ++ (h ∷ []) })
  new-IsAccounted s w h f g =
      sound p (total p s.holders) 0 (count p h) f (omega arith)
        (omega (arith, total-append p s.holders (h ∷ []))) g

  on-IsAccounted :
      (s : Session.Session) (i : ℕ) (call : HolderCall)
      → IsAccounted p s
      → Holds (IsAccounted p) (step E s (on i call))
  unfolding step
  on-IsAccounted s i call g = elim (Option-cases (get_elem? s.holders i)) [
    | inl e ↦ rw e tt
    | inr (h, e) ↦
        let (k, before, after) = total-set p s.holders i h e in
        rw e (
          Holds-bind (λ (w', s', h'). Accounts p s.world (count p h) w' (count p h'))
            (IsAccounted p) (on_holder E s.world s.waiters i h call) _
            (on_holder-Accounts E p s.world s.waiters i h call)
            (λ (w', s', h') f. sound p k (count p h) (count p h') f before (after h') g))
  ]

  step-IsAccounted :
      (s : Session.Session) (call : Call) → IsAccounted p s → Holds (IsAccounted p) (step E s call)
  unfolding step Resp.init Fcp.init
  step-IsAccounted s (on i call) h = on-IsAccounted s i call h
  step-IsAccounted s new_responder h = new-IsAccounted s s.world _ (Accounts-refl p s.world 0) h
  step-IsAccounted s new_protocol h = new-IsAccounted s s.world _ (Accounts-refl p s.world 0) h
  step-IsAccounted s (beginning self q tcode addr length frame size error) h =
      Holds-bind (λ (w', x). Accounts p s.world 0 w' (count p x)) (IsAccounted p)
        (begin E s.world self q tcode addr length frame size error) _
        (begin-Accounts E p s.world self q tcode addr length frame size error)
        (λ (w', x) f. new-IsAccounted s w' x f h)
  step-IsAccounted s (new_node q) h = world-IsAccounted s _ (create_node-Accounts E p 0 s.world q) h
  step-IsAccounted s (opening q path flag error) h =
      world-IsAccounted s _ (open_node-Accounts E p 0 s.world q path flag error) h
  step-IsAccounted s (updating q) h =
      world-IsAccounted s _ (handle_reset-Accounts E p 0 s.world q) h
  step-IsAccounted s (reading q clock cycle_time error) h =
      world-IsAccounted s _ (read_cycle_time-Accounts E p 0 s.world q clock cycle_time error) h
  step-IsAccounted s (invalidating q req) h =
      world-IsAccounted s _ (invalidate-Accounts E p 0 s.world q req) h
  step-IsAccounted s (collecting q) h = collect-IsAccounted s q h

  -- From a session in which the references to the node at `p` taken and not dropped are those of its
  -- holders, and the node is there while there is one: after any sequence of calls on responders,
  -- protocols, transactions and nodes that has no fault, whatever the kernel answers, the same
  -- holds, and no reference was ever dropped that had not been taken. So a node that is held is
  -- never finalized, and when all holders are gone, all references to it have been dropped.
  pub run-IsAccounted :
      (s : Session.Session) (calls : List Call)
      → IsAccounted p s
      → Holds (IsAccounted p) (run E s calls)
  unfolding run
  run-IsAccounted s [] h = h
  run-IsAccounted s (call ∷ calls) h =
      Holds-bind (IsAccounted p) (IsAccounted p) (step E s call) (λ s'. run E s' calls)
        (step-IsAccounted s call h) (λ s' g. run-IsAccounted s' calls g)
