-- ===== src/Resp/Invariant.antt =====
-- What an `HinawaFwResp` holds between two calls.
use libhinawa.Resp.Handle.{wiped}
use libhinawa.Base.{true}
use libhinawa.Resp.{has_width}
use libhinawa.Base.{
  ℕ, ◌≤◌, ◌<◌, ◌≡◌, ◌⊎◌, inl, inr, refl, subst, not, ◌&&◌, ◌||◌, List, [], ◌∷◌, Option, none, some,
  Bool, arith, ltb, leb, length, drop, replicate, length-append, length-drop, length-replicate,
  Option-cases, Bool-cases,
}
use libhinawa.Enums.{Rcode}
use libhinawa.Abi.{allocate}
use libhinawa.Env.{Env, ErrorSlot, null, empty, holds, GError, is_unset}
use libhinawa.Node.{World, Outcome}
use libhinawa.Node.Ioctl.{Ioctl}
use libhinawa.Resp.{FwResp, init, is_reserved, cleared, zeroed, copied, set_resp_frame, Requested}
use libhinawa.Resp.Region.{release, after_allocate, reserve_within_region}
use libhinawa.Resp.Handle.{Action, answer, leave, act, emit_requested, handle}

-- The response buffer that belongs to a width.
abbrev pub Buffer : Option ℕ → Option (List ℕ) → ℕ → ℕ → Type 0
Buffer none none width used = (width ≡ 0) × (used ≡ 0)
Buffer none (some frame) width used = ⊥
Buffer (some node) none width used = ⊥
Buffer (some node) (some frame) width used = (length frame ≡ width) × (used ≤ width)

-- The object holds a node exactly while it has a buffer, the buffer has the bytes of the reserved
-- width, and the frame that is set lies in it.
abbrev pub IsValid : FwResp → Type 0
IsValid priv = Buffer priv.node priv.resp_frame priv.width priv.resp_length

pub init-IsValid : IsValid init
unfolding init
init-IsValid = (refl, refl)

copied-Buffer :
    (node : Option ℕ) (old : Option (List ℕ)) (width used : ℕ) (frame : List ℕ)
    → 0 < length frame
    → length frame ≤ width
    → Buffer node old width used
    → Buffer node (copied old frame) width (length frame)
copied-Buffer none none width used frame p q v = absurd (omega arith)
copied-Buffer none (some old) width used frame p q v = v
copied-Buffer (some node) none width used frame p q v = v
copied-Buffer (some node) (some old) width used frame p q v = (
  omega (arith, length-append frame (drop (length frame) old), length-drop (length frame) old),
  q,
)

zeroed-Buffer :
    (node : Option ℕ) (old : Option (List ℕ)) (width used : ℕ)
    → Buffer node old width used
    → Buffer node (zeroed old width) width 0
zeroed-Buffer none none width used v = (v.0, refl)
zeroed-Buffer none (some old) width used v = v
zeroed-Buffer (some node) none width used v = v
zeroed-Buffer (some node) (some old) width used v = (
  omega (
    arith,
    length-append (replicate width 0) (drop width old),
    length-replicate {A = ℕ} width 0,
    length-drop width old,
  ),
  omega arith,
)

pub set_resp_frame-IsValid :
    (priv : FwResp) (frame : List ℕ) → IsValid priv → IsValid (set_resp_frame priv frame)
unfolding set_resp_frame
set_resp_frame-IsValid priv [] v = v
set_resp_frame-IsValid priv (b ∷ frame) v =
    elim (Bool-cases (leb (length (b ∷ frame)) priv.width)) [
      | inl fits ↦
          rw (fits, set_resp_frame)
            (copied-Buffer priv.node priv.resp_frame priv.width priv.resp_length (b ∷ frame)
              (omega arith) (ground arith) v)
      | inr large ↦ rw (large, set_resp_frame) v
    ]

has_width-Buffer :
    (node : Option ℕ) (old : Option (List ℕ)) (width used : ℕ)
    → Buffer node old width used
    → has_width old width ≡ true
has_width-Buffer none none width used v = ground (arith, v.0)
has_width-Buffer none (some old) width used v = absurd v
has_width-Buffer (some node) none width used v = absurd v
has_width-Buffer (some node) (some old) width used v = ground (arith, v.0)

pub has_width_valid : (priv : FwResp) → IsValid priv → has_width priv.resp_frame priv.width ≡ true
has_width_valid priv v = has_width-Buffer priv.node priv.resp_frame priv.width priv.resp_length v

-- In a valid object the handlers of events clear what the buffer has.
pub wiped_same : (w : World) (priv : FwResp) → IsValid priv → wiped w priv ≡ w
wiped_same w priv v = rw (has_width_valid priv v) refl

pub cleared-IsValid : (priv : FwResp) → IsValid priv → IsValid (cleared priv)
cleared-IsValid priv v = zeroed-Buffer priv.node priv.resp_frame priv.width priv.resp_length v

pub ErrorSlot-cases : (s : ErrorSlot) → (s ≡ null) ⊎ ((s ≡ empty) ⊎ ((e : GError) × (s ≡ holds e)))
ErrorSlot-cases null = inl refl
ErrorSlot-cases empty = inr (inl refl)
ErrorSlot-cases (holds e) = inr (inr (e, refl))

unused :
    (node : Option ℕ) (old : Option (List ℕ)) (width used : ℕ)
    → Buffer node old width used
    → node ≡ none
    → used ≡ 0
unused none none width used v e = v.1
unused none (some old) width used v e = absurd v
unused (some n) old width used v e = cc

abbrev Keeps : Option (FwResp × Outcome Bool) → Type 0
Keeps none = Unit {0}
Keeps (some (priv, out)) = IsValid priv

module _ (E : Env) where
  pub release-IsValid : (w : World) (priv : FwResp) → IsValid priv → IsValid (release E w priv).1
  unfolding release
  release-IsValid w priv v = elim (Option-cases priv.node) [
    | inl e ↦ rw (e, release) v
    | inr (n, e) ↦ rw (e, release) (refl, refl)
  ]

  after_allocate-Keeps :
      (priv : FwResp) (node : Option ℕ) (r : Ioctl allocate)
      → IsValid priv
      → priv.node ≡ none
      → Keeps (after_allocate E priv node r)
  unfolding after_allocate
  after_allocate-Keeps priv node r v a = elim (ErrorSlot-cases r.error) [
    | inl null_slot ↦ rw (null_slot, after_allocate) tt
    | inr (inr (e, set)) ↦ rw (set, after_allocate) v
    | inr (inl unset) ↦ elim (Bool-cases (ltb 0 r.err)) [
      | inl bad ↦ rw (unset, after_allocate, bad) v
      | inr good ↦ elim (Option-cases node) [
        | inl e ↦ rw (unset, after_allocate, good, e) tt
        | inr (p, e) ↦
            rw (unset, after_allocate, good, e)
              (
                length-replicate r.args.length 0,
                omega (arith, unused priv.node priv.resp_frame priv.width priv.resp_length v a),
              )
      ]
    ]
  ]

  reserve_within_region-Keeps :
      (w : World) (self : ℕ) (priv : FwResp) (node : Option ℕ) (start end_ width : ℕ)
      (error : ErrorSlot)
      → IsValid priv
      → Keeps (reserve_within_region E w self priv node start end_ width error)
  unfolding reserve_within_region
  reserve_within_region-Keeps w self priv node start end_ width error v =
      elim (Bool-cases (not (ltb 0 width && is_unset error))) [
        | inl refused ↦ rw refused v
        | inr passed ↦ elim (Option-cases priv.node) [
          | inl e ↦ rw (passed, e) (after_allocate-Keeps priv node _ v e)
          | inr (n, e) ↦ rw (passed, e) v
        ]
      ]

  -- A call of `hinawa_fw_resp_reserve_within_region` on a valid object that returns leaves a valid
  -- object, whatever the other arguments and the answer of the kernel are.
  pub reserve_within_region-IsValid :
      (w : World) (self : ℕ) (priv : FwResp) (node : Option ℕ) (start end_ width : ℕ)
      (error : ErrorSlot) {priv' : FwResp} {out : Outcome Bool}
      → IsValid priv
      → reserve_within_region E w self priv node start end_ width error ≡ some (priv', out)
      → IsValid priv'
  reserve_within_region-IsValid w self priv node start end_ width error v e =
      subst Keeps e (reserve_within_region-Keeps w self priv node start end_ width error v)

  pub act-IsValid :
      (w : World) (priv : FwResp) (actions : List Action)
      → IsValid priv
      → IsValid (act E w priv actions).1
  unfolding act
  act-IsValid w priv [] v = v
  act-IsValid w priv (answer frame ∷ actions) v =
      act-IsValid w (set_resp_frame priv frame) actions (set_resp_frame-IsValid priv frame v)
  act-IsValid w priv (leave ∷ actions) v =
      act-IsValid (release E w priv).0 (release E w priv).1 actions (release-IsValid w priv v)

  module _ (handlers : Requested → List Action × Rcode) where
    -- From a valid object, whatever the handlers of the signal do to it, the part that the three
    -- handlers of events share leaves a valid object.
    pub handle-IsValid :
        (w : World) (priv : FwResp) (signal : Requested) (handle_id : ℕ)
        → IsValid priv
        → IsValid (handle E handlers w priv signal handle_id).1
    unfolding handle emit_requested
    handle-IsValid w priv signal handle_id v =
        elim (Bool-cases (not (is_reserved (cleared priv)) || ltb priv.width signal.length)) [
          | inl refused ↦ rw refused (cleared-IsValid priv v)
          | inr passed ↦ rw passed (
              act-IsValid (wiped w priv) (cleared priv) (handlers signal).0
                (cleared-IsValid priv v))
        ]
