-- ===== src/Req/Threads/Lifetime.antt =====
-- The structure outlives the threads' use of it.
use libhinawa.Base.{◌≡◌, refl, Option, none, some, Bool, true, false, ◌&&◌, arith}
use libhinawa.Req.Threads.{
  Thread, caller, source, CallerPc, SourcePc, Threads, Step, Reach, sent, testing, waiting, stopped,
  disconnected, unlocked, invalidating, invalidated, returned, idle, finding, emitting, calling,
  writing, written, leaving,
}

-- Whether a thread has the structure's mutex, by where it stands; and the list's.
abbrev pub caller_has : CallerPc → Bool
caller_has testing = true
caller_has stopped = true
caller_has disconnected = true
caller_has _ = false

abbrev pub source_has : SourcePc → Bool
source_has writing = true
source_has written = true
source_has _ = false

abbrev pub caller_lists : CallerPc → Bool
caller_lists invalidating = true
caller_lists invalidated = true
caller_lists _ = false

abbrev pub source_lists : SourcePc → Bool
source_lists idle = false
source_lists _ = true

-- Whether the source has the address of the structure, which it reads and writes.
abbrev pub touches : SourcePc → Bool
touches calling = true
touches writing = true
touches written = true
touches _ = false

abbrev pub before_disconnect : CallerPc → Bool
before_disconnect sent = true
before_disconnect testing = true
before_disconnect waiting = true
before_disconnect stopped = true
before_disconnect _ = false

-- Whether the caller has come to the list's mutex.
abbrev pub is_late : CallerPc → Bool
is_late invalidating = true
is_late invalidated = true
is_late returned = true
is_late _ = false

-- Whether the caller has taken the request out of the list.
abbrev pub is_past : CallerPc → Bool
is_past invalidated = true
is_past returned = true
is_past _ = false

abbrev pub owner : Bool → Bool → Option Thread
owner true _ = some caller
owner false true = some source
owner false false = none

pub record Inv (s : Threads) : Type 0 where
  pub waiter : s.waiter_mutex ≡ owner (caller_has s.caller_pc) (source_has s.source_pc)
  pub waiter_one : caller_has s.caller_pc && source_has s.source_pc ≡ false
  pub list : s.transactions_mutex ≡ owner (caller_lists s.caller_pc) (source_lists s.source_pc)
  pub list_one : caller_lists s.caller_pc && source_lists s.source_pc ≡ false
  pub connected : s.is_connected ≡ before_disconnect s.caller_pc
  pub dropped : is_past s.caller_pc && s.is_kept ≡ false
  pub safe : is_late s.caller_pc && touches s.source_pc ≡ false

-- The premises of a step.
abbrev pub Guard : {s t : Threads} → Step s t → Type 0
Guard {s} (Step.lock _ _) = (s.caller_pc ≡ sent) × (s.waiter_mutex ≡ none)
Guard {s} (Step.wait _ _) = s.caller_pc ≡ testing
Guard {s} (Step.stop _ _) = s.caller_pc ≡ testing
Guard {s} (Step.wake _ _) = (s.caller_pc ≡ waiting) × (s.waiter_mutex ≡ none)
Guard {s} (Step.expire _ _) = (s.caller_pc ≡ waiting) × (s.waiter_mutex ≡ none)
Guard {s} (Step.invalidate _ _) = (s.caller_pc ≡ unlocked) × (s.transactions_mutex ≡ none)
Guard {s} (Step.read _ _) = (s.source_pc ≡ idle) × (s.transactions_mutex ≡ none)
Guard {s} (Step.find _ _) = s.source_pc ≡ finding
Guard {s} (Step.miss _ _) = s.source_pc ≡ finding
Guard {s} (Step.emit _ _) = (s.source_pc ≡ emitting) × (s.is_connected ≡ true)
Guard {s} (Step.skip _ _) = (s.source_pc ≡ emitting) × (s.is_connected ≡ false)
Guard {s} (Step.enter _ _) = (s.source_pc ≡ calling) × (s.waiter_mutex ≡ none)
Guard {s} (Step.disconnect _) = s.caller_pc ≡ stopped
Guard {s} (Step.unlock _) = s.caller_pc ≡ disconnected
Guard {s} (Step.remove _) = s.caller_pc ≡ invalidating
Guard {s} (Step.leave _) = s.caller_pc ≡ invalidated
Guard {s} (Step.write _) = s.source_pc ≡ writing
Guard {s} (Step.exit _) = s.source_pc ≡ written
Guard {s} (Step.finish _) = s.source_pc ≡ leaving

pub guard : {s t : Threads} (k : Step s t) → Guard k
guard (Step.lock a b) = (a, b)
guard (Step.wait a b) = a
guard (Step.stop a b) = a
guard (Step.wake a b) = (a, b)
guard (Step.expire a b) = (a, b)
guard (Step.invalidate a b) = (a, b)
guard (Step.read a b) = (a, b)
guard (Step.find a b) = a
guard (Step.miss a b) = a
guard (Step.emit a b) = (a, b)
guard (Step.skip a b) = (a, b)
guard (Step.enter a b) = (a, b)
guard (Step.disconnect a) = a
guard (Step.unlock a) = a
guard (Step.remove a) = a
guard (Step.leave a) = a
guard (Step.write a) = a
guard (Step.exit a) = a
guard (Step.finish a) = a

pub step-Inv : {s t : Threads} → Inv s → Step s t → Inv t
step-Inv v (Step.stop a b) = record {
  waiter = ground (arith, v.waiter);
  waiter_one = ground (arith, v.waiter_one);
  list = ground (arith, v.list);
  list_one = ground (arith, v.list_one);
  connected = ground (arith, v.connected);
  dropped = ground (arith, v.dropped);
  safe = ground (arith, v.safe);
}
step-Inv v k = record {
  waiter = ground (arith, v.waiter, v.waiter_one, guard k);
  waiter_one = ground (arith, v.waiter, v.waiter_one, guard k);
  list = ground (arith, v.list, v.list_one, guard k);
  list_one = ground (arith, v.list, v.list_one, guard k);
  connected = ground (arith, v.connected, guard k);
  dropped = ground (arith, v.dropped, guard k);
  safe = ground (arith, v.list, v.list_one, v.connected, v.safe, guard k);
}

pub Reach-Inv : {s : Threads} → Reach s → Inv s
Reach-Inv Reach.first = record {
  waiter = refl;
  waiter_one = refl;
  list = refl;
  list_one = refl;
  connected = refl;
  dropped = refl;
  safe = refl;
}
Reach-Inv (Reach.later r k) = step-Inv (Reach-Inv r) k

touched : {s t : Threads} → Inv s → Step s t → s.caller_pc ≡ returned → touches t.source_pc ≡ false
touched v (Step.stop a b) h = ground (arith, v.safe)
touched v k h = ground (arith, v.connected, v.safe, guard k)

answered :
    {s t : Threads} → Inv s → Step s t → s.caller_pc ≡ returned → t.is_answered ≡ s.is_answered
answered v (Step.write a) h = absurd (ground (arith, v.safe))
answered v k h = ground (arith, guard k)

-- In each reachable state in which the caller has returned: the list does not hold the request any
-- more, the source is at no place where it has the address of the structure, and no further step
-- brings it to one or changes whether the structure is answered.
pub transaction_untouched :
    (s t : Threads)
    → Reach s
    → s.caller_pc ≡ returned
    → Step s t
    → (s.is_kept ≡ false)
      × (touches s.source_pc ≡ false)
      × (touches t.source_pc ≡ false)
      × (t.is_answered ≡ s.is_answered)
transaction_untouched s t r h k =
    let v = Reach-Inv r in
    (ground (arith, v.dropped), ground (arith, v.safe), touched v k h, answered v k h)
