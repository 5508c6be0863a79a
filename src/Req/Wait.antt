-- ===== src/Req/Wait.antt =====
-- The wait of a transaction for its response.
use libhinawa.Base.{
  ℕ, zero, suc, ◌≤◌, ◌≡◌, inl, inr, refl, sym, ap, ◌∙◌, some, ◌>>=◌, min, List, [], ◌∷◌, length,
  take, drop, length-append, length-take, length-drop, false, arith, Bool-cases,
}
use libhinawa.Req.{
  Waiter, Responded, handle_responded_signal, handle_signals, Wake, woken, expired, wait,
  is_pending, filled,
}

-- The signal's frame has the bytes that it says.
abbrev pub IsWhole : Responded → Type 0
IsWhole r = r.frame_size ≤ length r.frame

abbrev pub AreWhole : List Responded → Type 0
AreWhole [] = Unit {0}
AreWhole (r ∷ rs) = IsWhole r × AreWhole rs

abbrev pub AreWakesWhole : List Wake → Type 0
AreWakesWhole [] = Unit {0}
AreWakesWhole (woken rs ∷ wakes) = AreWhole rs × AreWakesWhole wakes
AreWakesWhole (expired rs ∷ wakes) = AreWhole rs × AreWakesWhole wakes

pub handle_responded_signal-filled :
    (w : Waiter) (r : Responded) → IsWhole r → handle_responded_signal w r ≡ some (filled w r)
unfolding handle_responded_signal
handle_responded_signal-filled w r h = ground arith

-- What holds of the structure and of each that is made of it by a response holds at the end.
module _ (P : Waiter → Type 0)
    (fills : (w : Waiter) (r : Responded) → P w → IsWhole r → P (filled w r)) where
  pub handle_signals_keeps :
      (w : Waiter) (rs : List Responded)
      → P w
      → AreWhole rs
      → (w' : Waiter) × (handle_signals w rs ≡ some w') × P w'
  unfolding handle_signals
  handle_signals_keeps w [] h e = (w, refl, h)
  handle_signals_keeps w (r ∷ rs) h e =
      let (w', run, g) = handle_signals_keeps (filled w r) rs (fills w r h e.0) e.1 in
      (
        w',
        ap (λ x. x >>= λ v. handle_signals v rs) (handle_responded_signal-filled w r e.0) ∙ run,
        g,
      )

  pub wait_keeps :
      (w : Waiter) (wakes : List Wake)
      → P w
      → AreWakesWhole wakes
      → (w' : Waiter) × (wait w wakes ≡ some w') × P w'
  unfolding wait
  wait_keeps w [] h e = (w, refl, h)
  wait_keeps w (woken rs ∷ wakes) h e =
      let (v, run, g) = handle_signals_keeps w rs h e.0 in
      let (v', run', g') = wait_keeps v wakes g e.1 in
      elim (Bool-cases (is_pending w.rcode)) [
        | inl waits ↦ (v', rw waits (ap (λ x. x >>= λ u. wait u wakes) run ∙ run'), g')
        | inr ends ↦ (w, rw ends refl, h)
      ]
  wait_keeps w (expired rs ∷ wakes) h e =
      let (v, run, g) = handle_signals_keeps w rs h e.0 in
      elim (Bool-cases (is_pending w.rcode)) [
        | inl waits ↦ (v, rw waits run, g)
        | inr ends ↦ (w, rw ends refl, h)
      ]

-- The buffer keeps its size `size`, and the length does not pass it.
pub record IsBounded (size : ℕ) (w : Waiter) : Type 0 where
  pub same_size : length w.frame ≡ size
  pub within : w.length ≤ size

-- A response of any size leaves the caller's buffer its size.
filled-IsBounded :
    (size : ℕ) (w : Waiter) (r : Responded)
    → IsBounded size w
    → IsWhole r
    → IsBounded size (filled w r)
filled-IsBounded size w r b e =
    let n = min w.length r.frame_size in
    record {
      same_size = omega (
        arith,
        length-append (take n r.frame) (drop n w.frame),
        length-take n r.frame (omega (arith, e)),
        length-drop n w.frame,
        b.same_size,
        b.within,
      );
      within = omega (arith, b.within);
    }

-- If the frames of all signals have the bytes that the signals tell, at least, the wait of a waiter
-- with a buffer of some size and a length within it brings no fault, and ends with a buffer of that
-- size and a length within it.
pub wait-IsBounded :
    (size : ℕ) (w : Waiter) (wakes : List Wake)
    → IsBounded size w
    → AreWakesWhole wakes
    → (w' : Waiter) × (wait w wakes ≡ some w') × IsBounded size w'
wait-IsBounded size w wakes b e =
    wait_keeps (λ v. IsBounded size v) (λ v r. filled-IsBounded size v r) w wakes b e

-- A waiter that has its response is not touched again: later wakes change nothing.
pub wait_done :
    (w : Waiter) (wakes : List Wake) → is_pending w.rcode ≡ false → wait w wakes ≡ some w
unfolding wait
wait_done w [] h = refl
wait_done w (woken rs ∷ wakes) h = rw h
wait_done w (expired rs ∷ wakes) h = rw h

-- A schedule with spurious wakes in front.
abbrev pub spurious : ℕ → List Wake → List Wake
spurious zero wakes = wakes
spurious (suc n) wakes = woken [] ∷ spurious n wakes

-- Spurious wakes in front of a schedule, however many, make no difference to the waiter at the end
-- of the wait.
wait-spurious : (n : ℕ) (w : Waiter) (wakes : List Wake) → wait w (spurious n wakes) ≡ wait w wakes
unfolding wait handle_signals
wait-spurious zero w wakes = refl
wait-spurious (suc n) w wakes = elim (Bool-cases (is_pending w.rcode)) [
  | inl h ↦ rw h (wait-spurious n w wakes)
  | inr h ↦ rw h (sym (wait_done w wakes h))
]
