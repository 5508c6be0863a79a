-- ===== src/Req/Send.antt =====
-- `hinawa_fw_req_request` from its guards to the kernel.
use libhinawa.Base.{
  ℕ, ◌≤◌, ◌%◌, ◌^◌, refl, ◌≡◌, ◌⊎◌, inl, inr, List, ◌∷◌, length, Option, none, some, Bool, true,
  false, arith, ◌==◌, Bool-cases,
}
use libhinawa.Enums.{Tcode}
use libhinawa.Abi.{Args, send_request, SendRequest}
use libhinawa.Env.{Env, empty, ioctl, Reply, done, failed, set_error, is_unset, is_null, ListLaws}
use libhinawa.Node.{FwNode, World, Outcome, get_property}
use libhinawa.Node.Ioctl.{node_ioctl, call_kernel, keep_transaction, ioctl_error}
use libhinawa.Resp.Respond.{InBounds}
use libhinawa.Req.{check, request_of, is_read}
use libhinawa.Req.Execute.{after_send, request}

-- What the guards pass lies in the buffer.
check-le :
    (tcode : Tcode) (addr length frame_size sent : ℕ)
    → check tcode addr length frame_size ≡ some sent
    → sent ≤ frame_size
unfolding check
check-le tcode addr length frame_size sent e = ground arith

-- If a request on a buffer passes the guards, the kernel is given no pointer for a reading code,
-- and for each other code the buffer with a length that lies in it, whatever the length of the
-- call is.
request_of-InBounds :
    (self : ℕ) (tcode : Tcode) (addr len sent : ℕ) (frame : List ℕ) (gen : ℕ)
    → check tcode addr len (length frame) ≡ some sent
    → let req = request_of self tcode addr sent frame gen in
      ((is_read tcode ≡ true) × (req.payload ≡ none))
      ⊎ ((is_read tcode ≡ false) × InBounds req.payload req.length)
unfolding request_of
request_of-InBounds self tcode addr len sent frame gen e =
    let fits : sent ≤ length frame = check-le tcode addr len (length frame) sent e in
    elim (Bool-cases (is_read tcode)) [
      | inl h ↦ inl (h, ground arith)
      | inr h ↦ inr (h, rw h (omega arith))
    ]

-- Whether the kernel takes a request.
abbrev pub is_taken : Reply (Args send_request) → Bool
is_taken (done args) = true
is_taken (failed errno) = errno == 0

abbrev pub Sends : (Outcome Bool → Type 0) → Option (Outcome Bool) → Type 0
Sends P none = ⊥
Sends P (some out) = P out

-- The data that go along with a request: none for a reading one.
abbrev pub data_of : Tcode → List ℕ → Option (List ℕ)
data_of Tcode.read_quadlet_request frame = none
data_of Tcode.read_block_request frame = none
data_of _ frame = some frame

-- The structure for the kernel, member by member.
abbrev pub demanded : ℕ → Tcode → ℕ → ℕ → List ℕ → ℕ → SendRequest
demanded self tcode addr sent frame generation = record {
  tcode = tcode;
  length = sent % 2 ^ 32;
  offset = addr;
  closure = self;
  payload = data_of tcode frame;
  generation = generation;
}

request_of-demanded :
    (self : ℕ) (tcode : Tcode) (addr sent : ℕ) (frame : List ℕ) (generation : ℕ)
    → request_of self tcode addr sent frame generation
      ≡ demanded self tcode addr sent frame generation
unfolding request_of is_read
request_of-demanded self Tcode.read_quadlet_request addr sent frame generation = refl
request_of-demanded self Tcode.read_block_request addr sent frame generation = refl
request_of-demanded self _ addr sent frame generation = refl

module _ (E : Env) where
  -- With the laws of the lists, on an open node and with an empty variable for the error: a request
  -- that passes the guards makes one system call, `FW_CDEV_IOC_SEND_REQUEST` with the code, the
  -- address and the object that it is given, the length that passed as a `__u32`, the buffer unless
  -- the code is one of the two that read, and the node's current generation; and the object is put
  -- at the front of the node's list. It returns `TRUE` whatever the kernel answers, and the error
  -- is left unset exactly if the kernel takes the request.
  pub request-Sends :
      ListLaws E
      → (w : World) (self p fd : ℕ) (priv : FwNode) (tcode : Tcode) (addr len : ℕ) (frame : List ℕ)
        (frame_size sent : ℕ)
      → w.nodes p ≡ some priv
      → priv.fd ≡ some fd
      → check tcode addr len frame_size ≡ some sent
      → let req = demanded self tcode addr sent frame priv.generation.generation in
        Sends
          (λ out.
            (out.value ≡ true)
            × (out.world.trace ≡ ioctl (some fd) send_request req ∷ w.trace)
            × (out.world.nodes p ≡ some (record priv { transactions = self ∷ priv.transactions }))
            × (is_unset out.error ≡ is_taken (E.ioctl w.trace (some fd) send_request req)))
          (request E w self (some p) tcode addr len frame frame_size empty)
  unfolding request after_send node_ioctl call_kernel ioctl_error keep_transaction is_unset is_null
      set_error get_property
  request-Sends laws w self p fd priv tcode addr len frame frame_size sent a b c = ground (
    arith,
    laws.prepend priv.transactions self,
    request_of-demanded self tcode addr sent frame priv.generation.generation,
  )
