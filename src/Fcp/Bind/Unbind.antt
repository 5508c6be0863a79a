-- ===== src/Fcp/Bind/Unbind.antt =====
-- Unbinding while transactions wait.
use libhinawa.Base.{ℕ, ◌≡◌, refl, ◌∙◌, List, [], ◌∷◌, Option, some, false, arith, ==_self, update}
use libhinawa.Env.{Env}
use libhinawa.Fcp.Waiters.{Waiter, Waiters, abort, abort_all}
use libhinawa.Fcp.Waiters.Safety.{AreLive, AreLive-update, IsFresh, AreDistinct}
use libhinawa.Fcp.Avc.{is_waiting}

-- No transaction of the list waits any more; all else in the structures that did is as before.
abbrev pub Aborted : Waiters → Waiters → List ℕ → Type 0
Aborted s s' [] = Unit {0}
Aborted s s' (p ∷ ps) =
    ((w : Waiter) × (s p ≡ some w) × (s' p ≡ some (abort w)) × (is_waiting (abort w) ≡ false))
    × Aborted s s' ps

abort-is_waiting : (w : Waiter) → is_waiting (abort w) ≡ false
unfolding abort is_waiting
abort-is_waiting w = ground arith

Aborted-update :
    (s s' : Waiters) (p : ℕ) (w : Option Waiter) (ps : List ℕ)
    → IsFresh p ps
    → Aborted (update s p w) s' ps
    → Aborted s s' ps
Aborted-update s s' p w [] f a = tt
Aborted-update s s' p w (q ∷ qs) f a =
    ((a.0.0, ground (arith, f.0, a.0.1), a.0.2, a.0.3), Aborted-update s s' p w qs f.1 a.1)

abort_all-cons :
    (s : Waiters) (p : ℕ) (ps : List ℕ) (w : Waiter)
    → s p ≡ some w
    → abort_all s (p ∷ ps) ≡ abort_all (update s p (some (abort w))) ps
unfolding abort_all
abort_all-cons s p ps w a = ground arith

pub abort_all_lem :
    (ps : List ℕ) (s : Waiters)
    → AreDistinct ps
    → AreLive s ps
    → (s' : Waiters) × (abort_all s ps ≡ some s')
      × Aborted s s' ps
      × ((q : ℕ) → IsFresh q ps → s' q ≡ s q)
unfolding abort_all
abort_all_lem [] s d l = (s, refl, tt, λ q f. refl)
abort_all_lem (p ∷ ps) s d l =
    let w = l.0.0 in
    let (s', run, each, others) =
      abort_all_lem ps (update s p (some (abort w))) d.1
        (AreLive-update s p (some (abort w)) ps d.0 l.1) in
    (
      s',
      abort_all-cons s p ps w l.0.1 ∙ run,
      (
        (w, l.0.1, others p d.0 ∙ rw (==_self p) refl, abort-is_waiting w),
        Aborted-update s s' p (some (abort w)) ps d.0 each,
      ),
      λ q f. others q f.1 ∙ ground (arith, f.0),
    )
