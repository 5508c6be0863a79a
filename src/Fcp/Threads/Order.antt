-- ===== src/Fcp/Threads/Order.antt =====
-- A response that comes before the acknowledgement of its command.
use libhinawa.Base.{◌≡◌, refl, List, ◌∷◌, Bool, true, false, arith}
use libhinawa.Fcp.Threads.{
  response, Status, BusEvent, reply, CallerPc, SourcePc, Threads, Step, Reach, commanding, failing,
  leaving, failed, idle, entering, searching, blocked, writing,
}
use libhinawa.Fcp.Threads.Lifetime.{touches, Inv, Reach-Inv, guard}

-- Whether the caller is within the command or on its way out after its failure.
abbrev is_failing : CallerPc → Bool
is_failing commanding = true
is_failing failing = true
is_failing leaving = true
is_failing failed = true
is_failing _ = false

-- Whether the source has not got beyond the structure's mutex.
abbrev is_early : SourcePc → Bool
is_early idle = true
is_early (entering x) = true
is_early (searching x) = true
is_early (blocked x) = true
is_early _ = false

record Before (events : List BusEvent) (s : Threads) : Type 0 where
  fails : is_failing s.caller_pc ≡ true
  unacked : s.caller_pc ≡ commanding → s.is_acked ≡ false
  listed : s.is_listed ≡ true
  connected : s.caller_pc ≡ commanding → s.is_connected ≡ true
  early : s.caller_pc ≡ commanding → is_early s.source_pc ≡ true
  unread : s.caller_pc ≡ commanding → s.source_pc ≡ idle → s.events ≡ events

module _ (x : Status) (rest : List BusEvent) where
  step-Before :
      {s t : Threads} → Inv s → Before (reply x ∷ rest) s → Step s t → Before (reply x ∷ rest) t
  step-Before v b (Step.fail a) = record {
    fails = refl;
    unacked = λ h. ground arith;
    listed = b.listed;
    connected = λ h. ground arith;
    early = λ h. ground arith;
    unread = λ h i. ground arith;
  }
  step-Before v b k = record {
    fails = ground (arith, b.fails, b.unacked, guard k);
    unacked = λ h. ground (arith, b.fails, b.unacked, b.unread, guard k);
    listed = ground (arith, b.fails, b.listed, guard k);
    connected = λ h. ground (arith, b.fails, b.connected, guard k);
    early = λ h. ground (arith, b.fails, b.early, b.listed, v.waiter, guard k);
    unread = λ h i. ground (arith, b.fails, b.early, b.connected, b.unread, guard k);
  }

  Reach-Before : {s : Threads} → Reach (reply x ∷ rest) s → Before (reply x ∷ rest) s
  Reach-Before Reach.first = record {
    fails = refl;
    unacked = λ h. refl;
    listed = refl;
    connected = λ h. refl;
    early = λ h. refl;
    unread = λ h i. refl;
  }
  Reach-Before (Reach.later r k) = step-Before (Reach-Inv r) (Reach-Before r) k

  -- Where the first event that the kernel tells is a response: in each reachable state the caller
  -- is within the command, or on its way out after the failure of the command, or has returned
  -- `FALSE`; the structure stays in the list.
  avc_transaction_overtaken :
      (s : Threads)
      → Reach (reply x ∷ rest) s
      → (is_failing s.caller_pc ≡ true) × (s.is_listed ≡ true)
  avc_transaction_overtaken s r = let b = Reach-Before r in (b.fails, b.listed)

  -- Where the first event that the kernel tells is a response: in a reachable state the caller has
  -- returned `FALSE`, its structure is gone, and the source is at the lock of the structure's
  -- mutex; its next step is into the structure.
  pub avc_transaction-touches :
      (s : Threads) × (t : Threads) × Reach (reply x ∷ rest) s
      × Step s t
      × (s.caller_pc ≡ failed)
      × (touches s.source_pc ≡ true)
      × (t.source_pc ≡ writing (response x))
  avc_transaction-touches =
      let r : Reach (reply x ∷ rest) _ =
        Reach.later
          (Reach.later
            (Reach.later
              (Reach.later
                (Reach.later (Reach.later Reach.first (Step.emit refl refl refl))
                  (Step.lock refl refl))
                (Step.find refl refl))
              (Step.fail refl))
            (Step.give_up refl))
          (Step.leave refl) in
      (_, _, r, Step.enter refl refl, refl, refl, refl)
