-- ===== src/Fcp/Avc/Tests.antt =====
-- Runs of the theorems on whole transactions and on unbinding.
use libhinawa.Base.{zero, suc, [], ◌∷◌, none, some}
use libhinawa.Resp
use libhinawa.Fcp
use libhinawa.Fcp.{FwFcp, request_addr}
use libhinawa.Fcp.Waiters.{Waiter, Waiters, pending, responded}

abbrev bound_sample : FwFcp
bound_sample = record Fcp.init { node = some 1; transactions = 0 ∷ 1 ∷ [] }

abbrev waiting_sample : Waiter
waiting_sample = record {
  state = pending;
  generation = 0;
  frame = 0xff ∷ 8 ∷ 7 ∷ [];
  frame_size = 3;
  tstamp = 0;
}

abbrev waiters_sample : Waiters
waiters_sample zero = some waiting_sample
waiters_sample (suc zero) = some (record waiting_sample { state = responded })
waiters_sample _ = none
