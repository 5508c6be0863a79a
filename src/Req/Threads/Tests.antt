-- ===== src/Req/Threads/Tests.antt =====
-- Runs of the theorems on the two threads.
use libhinawa.Base.{◌≡◌, refl, none, some, true, false}
use libhinawa.Req.Threads.{
  caller, source, Threads, Step, Reach, Leads, stopped, returned, idle, finding, calling,
}
use libhinawa.Base.{[], ◌∷◌, arith}
use libhinawa.Enums.{Rcode}
use libhinawa.Req.{Waiter, Responded, fresh_waiter, handle_responded_signal}
use libhinawa.Req.Threads.{start, waiting, writing, testing, leaving}
use libhinawa.Req.Threads.Stores.{SharedReach, SharedStep, after, stores-handle_responded_signal}
use libhinawa.Req.Threads.Lifetime.{touches, transaction_untouched}
use libhinawa.Req.Threads.Progress.{transaction_returns}

-- The wait ends by its timeout when the source is about to call the handler.
abbrev expired_sample : Threads
expired_sample = record {
  caller_pc = stopped;
  source_pc = calling;
  waiter_mutex = some caller;
  transactions_mutex = some source;
  is_connected = true;
  is_kept = false;
  is_answered = false;
}

abbrev expired_reached : Reach expired_sample
expired_reached =
    Reach.later
      (Reach.later
        (Reach.later
          (Reach.later
            (Reach.later (Reach.later Reach.first (Step.lock refl refl)) (Step.wait refl refl))
            (Step.read refl refl))
          (Step.find refl refl))
        (Step.emit refl refl))
      (Step.expire refl refl)

transaction_returns_example : (t : Threads) × Leads expired_sample t × (t.caller_pc ≡ returned)
transaction_returns_example = transaction_returns expired_sample expired_reached

-- The same run, when both have come to their end.
abbrev returned_sample : Threads
returned_sample = record {
  caller_pc = returned;
  source_pc = idle;
  waiter_mutex = none;
  transactions_mutex = none;
  is_connected = false;
  is_kept = false;
  is_answered = true;
}

abbrev returned_reached : Reach returned_sample
returned_reached =
    Reach.later
      (Reach.later
        (Reach.later
          (Reach.later
            (Reach.later
              (Reach.later
                (Reach.later
                  (Reach.later (Reach.later expired_reached (Step.disconnect refl))
                    (Step.unlock refl))
                  (Step.enter refl refl))
                (Step.write refl))
              (Step.exit refl))
            (Step.finish refl))
          (Step.invalidate refl refl))
        (Step.remove refl))
      (Step.leave refl)

-- The source reads one more event.
abbrev read_sample : Threads
read_sample = record returned_sample { source_pc = finding; transactions_mutex = some source }

transaction_untouched_example :
    (returned_sample.is_kept ≡ false)
    × (touches returned_sample.source_pc ≡ false)
    × (touches read_sample.source_pc ≡ false)
    × (read_sample.is_answered ≡ returned_sample.is_answered)
transaction_untouched_example =
    transaction_untouched returned_sample read_sample returned_reached refl (Step.read refl refl)

-- A response of two bytes for a buffer of four.
abbrev fresh : Waiter
fresh = fresh_waiter (0 ∷ 0 ∷ 0 ∷ 0 ∷ []) 4

abbrev answer : Responded
answer = record {
  rcode = Rcode.complete;
  request_tstamp = 10;
  response_tstamp = 20;
  frame = 7 ∷ 8 ∷ [];
  frame_size = 2;
}

-- The source is at the first store while the caller waits.
abbrev storing : Threads
storing = record start {
  caller_pc = waiting;
  source_pc = writing;
  transactions_mutex = some source;
  waiter_mutex = some source;
  is_kept = false;
}

abbrev before_stores :
    SharedReach fresh answer (record { threads = storing; waiter = fresh; stores = 0 })
before_stores =
    SharedReach.later
      (SharedReach.later
        (SharedReach.later
          (SharedReach.later
            (SharedReach.later
              (SharedReach.later (SharedReach.first) (SharedStep.move (Step.lock refl refl) tt))
              (SharedStep.move (Step.wait refl refl) tt))
            (SharedStep.move (Step.read refl refl) tt))
          (SharedStep.move (Step.find refl refl) tt))
        (SharedStep.move (Step.emit refl refl) tt))
      (SharedStep.move (Step.enter refl refl) tt)

-- The caller is woken and tests the structure, before the source goes on.
abbrev tested : Threads
tested = record storing {
  caller_pc = testing;
  source_pc = leaving;
  waiter_mutex = some caller;
  is_answered = true;
}

abbrev after_stores :
    SharedReach fresh answer
      (record { threads = tested; waiter = after fresh answer 5; stores = 0 })
after_stores =
    SharedReach.later
      (SharedReach.later
        (SharedReach.later
          (SharedReach.later
            (SharedReach.later
              (SharedReach.later
                (SharedReach.later
                  (SharedReach.later (before_stores) (SharedStep.put refl (omega arith)))
                  (SharedStep.put refl (omega arith)))
                (SharedStep.put refl (omega arith)))
              (SharedStep.put refl (omega arith)))
            (SharedStep.put refl (omega arith)))
          (SharedStep.signal refl refl))
        (SharedStep.move (Step.exit refl) tt))
      (SharedStep.move (Step.wake refl refl) tt)

stores-handle_responded_signal_example :
    Reach tested × (some (after fresh answer 5) ≡ handle_responded_signal fresh answer)
stores-handle_responded_signal_example =
    stores-handle_responded_signal fresh answer
      (record { threads = tested; waiter = after fresh answer 5; stores = 0 }) after_stores
      (omega arith) refl
