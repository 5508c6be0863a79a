-- ===== src/Fcp/Threads/Lifetime.antt =====
-- Who has which mutex, and the structure that the source does not touch once it is out of the list.
use libhinawa.Base.{◌≡◌, refl, List, ◌∷◌, Option, none, some, Bool, true, false, ◌&&◌, not, arith}
use libhinawa.Fcp.Threads.{
  unbinding, pending, aborted, responded, Thread, caller, source, interim, final, BusEvent, ack,
  reply, CallerPc, SourcePc, Threads, Step, Reach, commanding, failing, leaving, failed, testing,
  waiting, stopped, removing, unlinking, unlinked, disconnected, returned, idle, entering,
  searching, blocked, writing, written, done,
}

abbrev pub caller_has : CallerPc → Bool
caller_has waiting = false
caller_has failed = false
caller_has returned = false
caller_has _ = true

abbrev pub source_has : SourcePc → Bool
source_has (writing x) = true
source_has written = true
source_has _ = false

abbrev pub caller_lists : CallerPc → Bool
caller_lists unlinking = true
caller_lists _ = false

abbrev pub source_lists : SourcePc → Bool
source_lists idle = false
source_lists (entering x) = false
source_lists _ = true

-- Whether the source has the address of the structure.
abbrev pub touches : SourcePc → Bool
touches (blocked x) = true
touches (writing x) = true
touches written = true
touches _ = false

-- Whether the caller has taken the structure out of the list.
abbrev pub is_out : CallerPc → Bool
is_out unlinking = true
is_out unlinked = true
is_out disconnected = true
is_out returned = true
is_out _ = false

abbrev pub is_over : CallerPc → Bool
is_over failed = true
is_over returned = true
is_over _ = false

abbrev pub owner : Bool → Bool → Option Thread
owner true _ = some caller
owner false true = some source
owner false false = none

pub record Inv (s : Threads) : Type 0 where
  pub waiter : s.waiter_mutex ≡ owner (caller_has s.caller_pc) (source_has s.source_pc)
  pub waiter_one : caller_has s.caller_pc && source_has s.source_pc ≡ false
  pub list : s.transactions_mutex ≡ owner (caller_lists s.caller_pc) (source_lists s.source_pc)
  pub list_one : caller_lists s.caller_pc && source_lists s.source_pc ≡ false
  pub listed : s.is_listed ≡ not (is_out s.caller_pc)
  pub safe : is_out s.caller_pc && touches s.source_pc ≡ false

-- The premises of a step.
abbrev pub Guard : {s t : Threads} → Step s t → Type 0
Guard {s} (Step.succeed _ _) = (s.caller_pc ≡ commanding) × (s.is_acked ≡ true)
Guard {s} (Step.fail _) = s.caller_pc ≡ commanding
Guard {s} (Step.give_up _) = s.caller_pc ≡ failing
Guard {s} (Step.leave _) = s.caller_pc ≡ leaving
Guard {s} (Step.wait _ _) = (s.caller_pc ≡ testing) × (s.answer ≡ pending)
Guard {s} (Step.stop_interim _ _) = (s.caller_pc ≡ testing) × (s.answer ≡ responded interim)
Guard {s} (Step.stop_aborted _ _) = (s.caller_pc ≡ testing) × (s.answer ≡ aborted)
Guard {s} (Step.end_aborted _ _) = (s.caller_pc ≡ stopped) × (s.answer ≡ aborted)
Guard {s} (Step.unbind {rest} _ _) = (s.source_pc ≡ idle) × (s.events ≡ unbinding ∷ rest)
Guard {s} (Step.stop_final _ _) = (s.caller_pc ≡ testing) × (s.answer ≡ responded final)
Guard {s} (Step.wake _ _) = (s.caller_pc ≡ waiting) × (s.waiter_mutex ≡ none)
Guard {s} (Step.expire _ _) = (s.caller_pc ≡ waiting) × (s.waiter_mutex ≡ none)
Guard {s} (Step.defer _ _) = (s.caller_pc ≡ stopped) × (s.answer ≡ responded interim)
Guard {s} (Step.end_pending _ _) = (s.caller_pc ≡ stopped) × (s.answer ≡ pending)
Guard {s} (Step.end_final _ _) = (s.caller_pc ≡ stopped) × (s.answer ≡ responded final)
Guard {s} (Step.remove _ _) = (s.caller_pc ≡ removing) × (s.transactions_mutex ≡ none)
Guard {s} (Step.unlink _) = s.caller_pc ≡ unlinking
Guard {s} (Step.disconnect _) = s.caller_pc ≡ unlinked
Guard {s} (Step.unlock _) = s.caller_pc ≡ disconnected
Guard {s} (Step.acknowledge {rest} _ _) = (s.source_pc ≡ idle) × (s.events ≡ ack ∷ rest)
Guard {s} (Step.emit {rest} {x} _ _ _) =
    (s.source_pc ≡ idle) × (s.events ≡ reply x ∷ rest) × (s.is_connected ≡ true)
Guard {s} (Step.skip {rest} {x} _ _ _) =
    (s.source_pc ≡ idle) × (s.events ≡ reply x ∷ rest) × (s.is_connected ≡ false)
Guard {s} (Step.lock {x} _ _) = (s.source_pc ≡ entering x) × (s.transactions_mutex ≡ none)
Guard {s} (Step.find {x} _ _) = (s.source_pc ≡ searching x) × (s.is_listed ≡ true)
Guard {s} (Step.miss {x} _ _) = (s.source_pc ≡ searching x) × (s.is_listed ≡ false)
Guard {s} (Step.enter {x} _ _) = (s.source_pc ≡ blocked x) × (s.waiter_mutex ≡ none)
Guard {s} (Step.write {x} _) = s.source_pc ≡ writing x
Guard {s} (Step.exit _) = s.source_pc ≡ written
Guard {s} (Step.finish _) = s.source_pc ≡ done

pub guard : {s t : Threads} (k : Step s t) → Guard k
guard (Step.succeed a b) = (a, b)
guard (Step.fail a) = a
guard (Step.give_up a) = a
guard (Step.leave a) = a
guard (Step.wait a b) = (a, b)
guard (Step.stop_interim a b) = (a, b)
guard (Step.stop_aborted a b) = (a, b)
guard (Step.end_aborted a b) = (a, b)
guard (Step.unbind a b) = (a, b)
guard (Step.stop_final a b) = (a, b)
guard (Step.wake a b) = (a, b)
guard (Step.expire a b) = (a, b)
guard (Step.defer a b) = (a, b)
guard (Step.end_pending a b) = (a, b)
guard (Step.end_final a b) = (a, b)
guard (Step.remove a b) = (a, b)
guard (Step.unlink a) = a
guard (Step.disconnect a) = a
guard (Step.unlock a) = a
guard (Step.acknowledge a b) = (a, b)
guard (Step.emit a b c) = (a, b, c)
guard (Step.skip a b c) = (a, b, c)
guard (Step.lock a b) = (a, b)
guard (Step.find a b) = (a, b)
guard (Step.miss a b) = (a, b)
guard (Step.enter a b) = (a, b)
guard (Step.write a) = a
guard (Step.exit a) = a
guard (Step.finish a) = a

pub step-Inv : {s t : Threads} → Inv s → Step s t → Inv t
step-Inv v (Step.fail a) = record {
  waiter = ground (arith, v.waiter);
  waiter_one = ground (arith, v.waiter_one);
  list = ground (arith, v.list);
  list_one = ground (arith, v.list_one);
  listed = ground (arith, v.listed);
  safe = ground (arith, v.safe);
}
step-Inv v k = record {
  waiter = ground (arith, v.waiter, v.waiter_one, guard k);
  waiter_one = ground (arith, v.waiter, v.waiter_one, guard k);
  list = ground (arith, v.list, v.list_one, guard k);
  list_one = ground (arith, v.list, v.list_one, guard k);
  listed = ground (arith, v.listed, guard k);
  safe = ground (arith, v.list, v.list_one, v.listed, v.safe, guard k);
}

pub Reach-Inv : {events : List BusEvent} {s : Threads} → Reach events s → Inv s
Reach-Inv Reach.first = record {
  waiter = refl;
  waiter_one = refl;
  list = refl;
  list_one = refl;
  listed = refl;
  safe = refl;
}
Reach-Inv (Reach.later r k) = step-Inv (Reach-Inv r) k

-- In each reachable state in which the transaction has returned after its wait, the list does not
-- hold its structure and the source is at no place where it has its address.
pub avc_transaction_untouched :
    (events : List BusEvent) (s : Threads)
    → Reach events s
    → s.caller_pc ≡ returned
    → (s.is_listed ≡ false) × (touches s.source_pc ≡ false)
avc_transaction_untouched events s r h =
    let v = Reach-Inv r in (ground (arith, v.listed), ground (arith, v.safe))
