-- ===== src/Fcp/Waiters/Safety.antt =====
-- When the handler of responses stays inside the buffers of the transactions that wait.
use libhinawa.Base.{
  ℕ, ◌≤◌, ◌≡◌, ◌≢◌, refl, ◌∙◌, List, [], ◌∷◌, ◌++◌, ◌&&◌, ◌==◌, leb, take, drop, get_or,
  if◌then◌else◌, Option, some, arith, ==_self, length, update, ◌>>=◌,
}
use libhinawa.Fcp.Waiters.{
  Waiter, responded, Responded, Waiters, copy_frame, matches, respond, handle_responded_signal,
}

-- A transaction that waits has the size of its buffer in its structure, and the three bytes that it
-- has written there.
abbrev pub IsRoomy : Waiter → Type 0
IsRoomy w = (w.frame_size ≤ length w.frame) × (3 ≤ length w.frame)

-- The frame of a response has the bytes that its size tells, and three at least.
abbrev pub IsWhole : Responded → Type 0
IsWhole r = (r.frame_size ≤ length r.frame) × (3 ≤ length r.frame)

-- What becomes of a transaction: it has the response if its second and third byte are those of the
-- response, whose data are in the buffer if they fit it.
abbrev pub outcome : Waiter → Responded → Waiter
outcome w r =
    if get_or w.frame 1 0 == get_or r.frame 1 0 && get_or w.frame 2 0 == get_or r.frame 2 0
    then record {
      state = responded;
      generation = r.generation;
      frame =
          if leb r.frame_size w.frame_size
          then take r.frame_size r.frame ++ drop r.frame_size w.frame
          else w.frame;
      frame_size = r.frame_size;
      tstamp = r.tstamp;
    }
    else w

-- All transactions of the list are there and roomy.
abbrev pub AreLive : Waiters → List ℕ → Type 0
AreLive s [] = Unit {0}
AreLive s (p ∷ ps) = ((w : Waiter) × (s p ≡ some w) × IsRoomy w) × AreLive s ps

-- No address stands in the list twice.
abbrev pub IsFresh : ℕ → List ℕ → Type 0
IsFresh p [] = Unit {0}
IsFresh p (q ∷ qs) = (p ≢ q) × IsFresh p qs

abbrev pub AreDistinct : List ℕ → Type 0
AreDistinct [] = Unit {0}
AreDistinct (p ∷ ps) = IsFresh p ps × AreDistinct ps

pub AreLive-update :
    (s : Waiters) (p : ℕ) (w : Option Waiter) (ps : List ℕ)
    → IsFresh p ps
    → AreLive s ps
    → AreLive (update s p w) ps
AreLive-update s p w [] f l = tt
AreLive-update s p w (q ∷ qs) f l =
    ((l.0.0, ground (arith, f.0, l.0.1), l.0.2), AreLive-update s p w qs f.1 l.1)

respond-outcome :
    (w : Waiter) (r : Responded) → IsRoomy w → IsWhole r → respond w r ≡ some (outcome w r)
unfolding respond copy_frame matches
respond-outcome w r h k = ground (arith, h.0, h.1, k.0, k.1)

-- What one run of the handler does to the transactions of the list.
abbrev pub Answered : Waiters → Waiters → List ℕ → Responded → Type 0
Answered s s' [] r = Unit {0}
Answered s s' (p ∷ ps) r = (s' p ≡ (s p >>= λ w. some (outcome w r))) × Answered s s' ps r

Answered-update :
    (s s' : Waiters) (p : ℕ) (w : Option Waiter) (ps : List ℕ) (r : Responded)
    → IsFresh p ps
    → Answered (update s p w) s' ps r
    → Answered s s' ps r
Answered-update s s' p w [] r f a = tt
Answered-update s s' p w (q ∷ qs) r f a =
    (ground (arith, f.0, a.0), Answered-update s s' p w qs r f.1 a.1)

visit-cons :
    (s : Waiters) (p : ℕ) (ps : List ℕ) (r : Responded) (w w' : Waiter)
    → s p ≡ some w
    → respond w r ≡ some w'
    → handle_responded_signal s (p ∷ ps) r ≡ handle_responded_signal (update s p (some w')) ps r
unfolding handle_responded_signal
visit-cons s p ps r w w' a e = ground arith

-- While the transactions in the list are distinct, have their structures, and buffers of three bytes
-- at least and of the size that these tell, a response of three bytes at least and of the size that
-- is told brings no fault in `handle_responded_signal`: each transaction whose second and third byte
-- are those of the response has its state, generation, time stamp and size, and its data if they
-- are not longer than the size of the buffer, with the rest of the buffer as it was; every other
-- structure, in the list or not, stays as it was.
pub handle_responded_signal_lem :
    (ps : List ℕ) (s : Waiters) (r : Responded)
    → AreDistinct ps
    → AreLive s ps
    → IsWhole r
    → (s' : Waiters) × (handle_responded_signal s ps r ≡ some s')
      × Answered s s' ps r
      × ((q : ℕ) → IsFresh q ps → s' q ≡ s q)
unfolding handle_responded_signal
handle_responded_signal_lem [] s r d l whole = (s, refl, tt, λ q f. refl)
handle_responded_signal_lem (p ∷ ps) s r d l whole =
    let w' = outcome l.0.0 r in
    let (s', run, each, others) =
      handle_responded_signal_lem ps (update s p (some w')) r d.1
        (AreLive-update s p (some w') ps d.0 l.1) whole in
    (
      s',
      visit-cons s p ps r l.0.0 w' l.0.1 (respond-outcome l.0.0 r l.0.2 whole) ∙ run,
      (others p d.0 ∙ rw (==_self p, l.0.1) refl, Answered-update s s' p (some w') ps r d.0 each),
      λ q f. others q f.1 ∙ ground (arith, f.0),
    )
