-- ===== src/Fcp/Waiters/Overflow.antt =====
-- Responses that the handler does not survive.
use libhinawa.Base.{ℕ, ◌≤◌, ◌<◌, ◌≡◌, ◌≢◌, [], ◌∷◌, none, some, true, false, arith, length}
use libhinawa.Fcp.Waiters.{
  Waiter, Responded, Waiters, matches, copy_frame, answered, respond, handle_responded_signal,
  emit_responded,
}

-- A matching response that is longer than the buffer is not copied, but its size replaces that of
-- the buffer: the next run of the handler on the same response copies it beyond the buffer's end.
pub respond_twice :
    (w : Waiter) (r : Responded)
    → w.frame_size < r.frame_size
    → length w.frame < r.frame_size
    → 3 ≤ length w.frame
    → r.frame_size ≤ length r.frame
    → matches w r ≡ true
    → (respond w r ≡ some (answered r w.frame)) × (respond (answered r w.frame) r ≡ none)
unfolding respond copy_frame matches
respond_twice w r a b c d m = (ground arith, ground arith)

respond_other :
    (w : Waiter) (r : Responded)
    → 3 ≤ length w.frame
    → 3 ≤ length r.frame
    → matches w r ≡ false
    → respond w r ≡ some w
unfolding respond matches
respond_other w r c d m = ground arith

-- While two transactions wait, with buffers of three bytes at least, each of which has connected the
-- handler to the signal: a response that has the bytes that its size tells,
-- that matches the first of them only and is longer than its buffer, and than the size told of it,
-- is written beyond the buffer's end.
pub emit_responded_overflow :
    (s : Waiters) (p q : ℕ) (w v : Waiter) (r : Responded)
    → p ≢ q
    → s p ≡ some w
    → s q ≡ some v
    → matches w r ≡ true
    → matches v r ≡ false
    → w.frame_size < r.frame_size
    → length w.frame < r.frame_size
    → 3 ≤ length w.frame
    → 3 ≤ length v.frame
    → r.frame_size ≤ length r.frame
    → emit_responded 2 s (p ∷ q ∷ []) r ≡ none
unfolding emit_responded handle_responded_signal
emit_responded_overflow s p q w v r ne a b m m' h h' c d e =
    let twice = respond_twice w r h h' c e m in
    ground (arith, twice.0, twice.1, respond_other v r d (omega arith) m')
