-- ===== src/Fcp/Waiters.antt =====
-- src/fw_fcp.c: the transactions that wait for a response, and the signal handler that finds theirs.
pub mod Safety
pub mod Overflow
use libhinawa.Base.{
  ℕ, ◌+◌, List, [], ◌∷◌, ◌++◌, Option, none, some, Bool, not, ◌&&◌, ◌||◌, ◌==◌, leb, if◌then◌else◌,
  length, get_or, take, drop, update, ◌>>=◌,
}

-- `enum waiter_state`
pub data WaiterState : Type 0 where
  pending responded aborted : WaiterState

-- `struct waiter`; the frame is the memory of the caller's buffer.
pub record Waiter : Type 0 where
  pub state : WaiterState
  pub generation : ℕ
  pub frame : List ℕ
  pub frame_size : ℕ
  pub tstamp : ℕ

-- The arguments of the signal `responded`; the frame is the memory behind the pointer, of which
-- `frame_size` bytes belong to the response.
pub record Responded : Type 0 where
  pub generation : ℕ
  pub tstamp : ℕ
  pub frame : List ℕ
  pub frame_size : ℕ

-- The structures by their address, which is that of a variable of a function that runs. No result
-- of a function is a fault: an access to a structure that is gone, or beyond a buffer.
abbrev pub Waiters : Type 0
Waiters = ℕ → Option Waiter

-- The two bytes that match a response with its command, where both frames have them.
unfoldable pub matches : Waiter → Responded → Bool
matches w r = get_or w.frame 1 0 == get_or r.frame 1 0 && get_or w.frame 2 0 == get_or r.frame 2 0

-- Whether the test of the bytes stays in the two frames: it reads the third byte of each only if
-- the second bytes are the same.
abbrev pub has_bytes : Waiter → Responded → Bool
has_bytes w r =
    leb 2 (length w.frame)
    && leb 2 (length r.frame)
    && (not (get_or w.frame 1 0 == get_or r.frame 1 0)
        || leb 3 (length w.frame) && leb 3 (length r.frame))

-- `if (frame_size <= w->frame_size) memcpy(w->frame, frame, frame_size)`
unfoldable pub copy_frame : Waiter → Responded → Option (List ℕ)
copy_frame w r =
    if leb r.frame_size w.frame_size
    then if leb r.frame_size (length w.frame) && leb r.frame_size (length r.frame)
      then some (take r.frame_size r.frame ++ drop r.frame_size w.frame)
      else none
    else some w.frame

-- The structure of a transaction that has its response.
abbrev pub answered : Responded → List ℕ → Waiter
answered r frame = record {
  state = responded;
  generation = r.generation;
  frame = frame;
  frame_size = r.frame_size;
  tstamp = r.tstamp;
}

-- The body of the loop of `handle_responded_signal`.
unfoldable pub respond : Waiter → Responded → Option Waiter
respond w r =
    if not (has_bytes w r)
    then none
    else if matches w r
    then copy_frame w r >>= (λ frame. some (answered r frame))
    else some w

-- `handle_responded_signal`: `LIST_FOREACH` over the transactions.
unfoldable pub handle_responded_signal : Waiters → List ℕ → Responded → Option Waiters
handle_responded_signal s [] r = some s
handle_responded_signal s (p ∷ ps) r = do
  w ← s p
  w' ← respond w r
  handle_responded_signal (update s p (some w')) ps r

-- The signal runs the handler once for each transaction that has connected it.
unfoldable pub emit_responded : ℕ → Waiters → List ℕ → Responded → Option Waiters
emit_responded ℕ.zero s ps r = some s
emit_responded (ℕ.suc handlers) s ps r = do
  s' ← handle_responded_signal s ps r
  emit_responded handlers s' ps r

unfoldable pub abort : Waiter → Waiter
abort w = elim w.state [ pending ↦ record w { state = aborted } | _ ↦ w ]

-- The loop of `hinawa_fw_fcp_unbind`.
unfoldable pub abort_all : Waiters → List ℕ → Option Waiters
abort_all s [] = some s
abort_all s (p ∷ ps) = do w ← s p; abort_all (update s p (some (abort w))) ps
