-- ===== src/Fcp/Threads/Tests.antt =====
-- Runs of the theorems on the two threads.
use libhinawa.Base.{◌≡◌, ◌⊎◌, refl, [], ◌∷◌, none, some, true}
use libhinawa.Fcp.Threads.{
  unbinding, abortion, response, pending, writing, source, interim, final, ack, reply, Threads,
  Step, Reach, Leads, failed, waiting, blocked,
}
use libhinawa.Fcp.Threads.Lifetime.{touches, is_over}
use libhinawa.Fcp.Threads.Progress.{IsDeadlock, avc_transaction_ends, avc_transaction-IsDeadlock}
use libhinawa.Fcp.Threads.Order.{avc_transaction-touches}

avc_transaction-IsDeadlock_example :
    (s : Threads) × Reach (ack ∷ unbinding ∷ []) s × IsDeadlock s × (s.answer ≡ pending)
avc_transaction-IsDeadlock_example = avc_transaction-IsDeadlock abortion []

-- The caller waits, and the source is about to write a deferred response.
abbrev waiting_sample : Threads
waiting_sample = record {
  caller_pc = waiting;
  source_pc = blocked (response interim);
  waiter_mutex = none;
  transactions_mutex = some source;
  events = reply final ∷ [];
  is_acked = true;
  is_listed = true;
  is_connected = true;
  answer = pending;
}

abbrev waiting_reached : Reach (ack ∷ reply interim ∷ reply final ∷ []) waiting_sample
waiting_reached =
    Reach.later
      (Reach.later
        (Reach.later
          (Reach.later
            (Reach.later (Reach.later Reach.first (Step.acknowledge refl refl))
              (Step.succeed refl refl))
            (Step.wait refl refl))
          (Step.emit refl refl refl))
        (Step.lock refl refl))
      (Step.find refl refl)

avc_transaction_ends_example :
    (t : Threads) × Leads waiting_sample t × ((is_over t.caller_pc ≡ true) ⊎ IsDeadlock t)
avc_transaction_ends_example =
    avc_transaction_ends (ack ∷ reply interim ∷ reply final ∷ []) waiting_sample waiting_reached

avc_transaction-touches_example :
    (s : Threads) × (t : Threads) × Reach (reply interim ∷ ack ∷ []) s
    × Step s t
    × (s.caller_pc ≡ failed)
    × (touches s.source_pc ≡ true)
    × (t.source_pc ≡ writing (response interim))
avc_transaction-touches_example = avc_transaction-touches interim (ack ∷ [])
