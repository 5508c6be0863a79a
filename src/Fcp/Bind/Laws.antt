-- ===== src/Fcp/Bind/Laws.antt =====
-- A bound protocol knows its node.
use libhinawa.Base.{
  ℕ, ◌≡◌, ◌⊎◌, inl, inr, refl, sym, ◌∙◌, List, Option, none, some, Bool, true, false, arith,
  ==_self, if◌then◌else◌, ◌>>=◌, Bool-cases,
}
use libhinawa.Env.{Env, empty, is_unset}
use libhinawa.Node.{get_property, FwNode, World, Outcome}
use libhinawa.Resp
use libhinawa.Resp.{FwResp}
use libhinawa.Resp.Reserve.{Returns, reserve-nodes}
use libhinawa.Fcp.{FwFcp, is_bound, respond_addr, maximum_frame_bytes}
use libhinawa.Fcp.History.{
  NodeRecord, NodeHistory, same_record, detect_record, insert_record, reset,
}
use libhinawa.Fcp.History.Find.{holds_record, detect_record_lem}
use libhinawa.Fcp.History.Ring.{
  IsValid, insert_record-IsValid, reset-IsValid, latest, holds-latest, insert_record_refines,
  remember,
}
use libhinawa.Fcp.Requested.{current_record, handle_requested_signal}
use libhinawa.Fcp.Requested.Laws.{is_reply, is_response-reply, handle_requested_signal_lem}
use libhinawa.Fcp.Bind.{bound_to, bind_after, bind}

same_self : (r : NodeRecord) → same_record r r ≡ true
unfolding same_record
same_self r = rw (==_self r.generation, ==_self r.src_node_id) refl

holds-remember : (r : NodeRecord) (rs : List NodeRecord) → holds_record r (remember r rs) ≡ true
holds-remember r rs = elim (Bool-cases (holds_record r rs)) [
  | inl h ↦ rw h h
  | inr h ↦ rw (h, same_self r) refl
]

-- A record that is inserted into a valid history is found in it.
pub detect-insert :
    (h : NodeHistory) (r : NodeRecord) → IsValid h → detect_record (insert_record h r) r ≡ true
detect-insert h r v =
    detect_record_lem (insert_record h r) r (insert_record-IsValid h r v).ten
    ∙ sym (holds-latest r (insert_record h r))
    ∙ rw (insert_record_refines h r v) (holds-remember r (latest h))

-- The history that `hinawa_fw_fcp_bind` sets up is valid, and holds the node's record.
pub bound_to-IsValid :
    (priv : FwFcp) (p : ℕ) (n : FwNode)
    → IsValid (bound_to priv p n).history
      × (holds_record (current_record n) (latest (bound_to priv p n).history) ≡ true)
bound_to-IsValid priv p n =
    let v = reset-IsValid priv.history in
    (
      insert_record-IsValid (reset priv.history) (current_record n) v,
      rw (insert_record_refines (reset priv.history) (current_record n) v)
          (holds-remember (current_record n) (latest (reset priv.history))),
    )

abbrev pub Binds :
    (FwFcp → FwResp → Outcome Bool → Type 0) → Option (FwFcp × FwResp × Outcome Bool) → Type 0
Binds P none = ⊥
Binds P (some (priv, resp, out)) = P priv resp out

-- A signal with the bus generation and the node ID in `n`.
abbrev pub sent_by : FwNode → Resp.Requested → Resp.Requested
sent_by n signal = record signal {
  generation = n.generation.generation;
  src_node_id = n.generation.node_id;
}

-- As long as the bus generation and the node ID are those in `n`, a block write of the node to the
-- response address through its card is taken, with its time stamp and data, for a response,
-- whatever the properties of the node's object (`m`) are by then.
abbrev pub Hears : FwFcp → FwNode → Type 0
Hears priv n =
    (m : FwNode) (signal : Resp.Requested)
    → (handle_requested_signal priv m (sent_by n signal)).1 ≡ (
        if is_reply n.card_id signal
        then some (record {
          generation = n.generation.generation;
          tstamp = signal.tstamp;
          frame = signal.frame;
          frame_size = signal.length;
        })
        else none)

bound_to-signal : (priv : FwFcp) (p : ℕ) (n : FwNode) → Hears (bound_to priv p n) n
unfolding get_property
bound_to-signal priv p n m signal =
    let known = bound_to-IsValid priv p n in
    (handle_requested_signal_lem (bound_to priv p n) m (sent_by n signal) known.0).0
    ∙ ground (arith, known.1, is_response-reply (bound_to priv p n) (sent_by n signal))

module _ (E : Env) where
  -- On an existing node, with an empty variable for the error and an object that is not bound:
  -- `hinawa_fw_fcp_bind` returns, and the object is bound afterwards exactly if it returns `TRUE`.
  -- Then a request with the bus generation and the node ID of the node at the time of the call is
  -- taken for a response exactly if it is a block write to the response address on the node's
  -- card, whatever the properties of the node's object are when it comes.
  pub bind-Hears :
      (w : World) (self : ℕ) (priv : FwFcp) (resp : FwResp) (p : ℕ) (n : FwNode)
      → w.nodes p ≡ some n
      → priv.node ≡ none
      → Binds
          (λ priv' resp' out.
            ((out.value ≡ true) × (is_bound priv' ≡ true) × Hears priv' n)
            ⊎ ((out.value ≡ false) × (is_bound priv' ≡ false)))
          (bind E w self priv resp p empty)
  unfolding bind is_unset is_bound
  bind-Hears w self priv resp p n e a =
      rw (a, bind)
        (after _ (reserve-nodes E w self resp p n respond_addr maximum_frame_bytes e (omega arith)))
    where
      after :
          (r : Option (FwResp × Outcome Bool))
          → Returns (λ resp' out. out.world.nodes p ≡ some n) r
          → Binds
              (λ priv' resp' out.
                ((out.value ≡ true) × (is_bound priv' ≡ true) × Hears priv' n)
                ⊎ ((out.value ≡ false) × (is_bound priv' ≡ false)))
              (r >>= bind_after priv p)
      after none h = h
      after (some (resp', out)) h = elim (Bool-cases out.value) [
        | inl good ↦ rw (good, h) (inl (refl, refl, bound_to-signal priv p n))
        | inr bad ↦ rw (bad, a) (inr (refl, refl))
      ]
