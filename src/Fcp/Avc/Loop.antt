-- ===== src/Fcp/Avc/Loop.antt =====
-- The wait for the response, and its outcome.
use libhinawa.Base.{ℕ, ◌≤◌, ◌≡◌, ◌↔◌, List, true, arith}
use libhinawa.Env.{Env, empty, set_error, is_unset, remove_first}
use libhinawa.Req
use libhinawa.Fcp.Waiters.{Waiter, responded}
use libhinawa.Fcp.Avc.{verdict, conclude}

-- A response in time: answered in the generation of the command, and no longer than the buffer.
abbrev pub InTime : ℕ → ℕ → Waiter → Type 0
InTime generation resp_size w =
    (w.state ≡ responded) × (w.generation ≡ generation) × (w.frame_size ≤ resp_size)

-- The end of a transaction whose command left no error: it returns `TRUE` exactly for a response
-- of the command's generation that is not longer than the buffer, sets the error exactly when it
-- returns `FALSE`, returns no size above that of the buffer, and takes the first link to the
-- structure out of the list.
conclude_lem :
    (E : Env) (generation self resp_size : ℕ) (r : Req.Result) (transactions : List ℕ) (w : Waiter)
    → r.error ≡ empty
    → let out = conclude E generation self resp_size r transactions w in
      ((out.value ≡ true) ↔ InTime generation resp_size w)
      × (is_unset out.error ≡ out.value)
      × (out.resp_size ≤ resp_size)
      × (out.transactions ≡ remove_first self transactions)
unfolding conclude verdict set_error is_unset
conclude_lem E generation self resp_size r transactions w e =
    ((λ h. ground arith, λ h. ground arith), ground arith, ground arith, ground arith)
