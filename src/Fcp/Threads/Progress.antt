-- ===== src/Fcp/Threads/Progress.antt =====
-- Where the two threads can go, and where they block each other.
use libhinawa.Base.{◌≡◌, ◌⊎◌, inl, inr, refl, List, ◌∷◌, none, true, arith}
use libhinawa.Fcp.Threads.{
  reply, ack, entering, idle, BusEvent, Visit, Answer, response, abortion, unbinding, pending,
  aborted, responded, interim, final, CallerPc, SourcePc, Threads, Step, Reach, Leads, here, step,
  commanding, failing, leaving, failed, testing, waiting, stopped, removing, unlinking, unlinked,
  disconnected, returned, searching, blocked, writing, written, done,
}
use libhinawa.Fcp.Threads.Lifetime.{Inv, step-Inv, Reach-Inv, guard, is_over}

-- Each of the threads waits for the mutex that the other has: neither can step.
pub record IsDeadlock (s : Threads) : Type 0 where
  pub caller_waits : s.caller_pc ≡ removing
  pub source_waits : (x : Visit) × (s.source_pc ≡ blocked x)
  pub stuck : (t : Threads) → ¬ Step s t

no_step :
    {s t : Threads} {x : Visit}
    → Inv s
    → s.caller_pc ≡ removing
    → s.source_pc ≡ blocked x
    → ¬ Step s t
no_step v c e (Step.fail a) = ground arith
no_step v c e k = ground (arith, v.waiter, v.list, guard k)

IsDeadlock-at :
    (s : Threads) (x : Visit)
    → Inv s
    → s.caller_pc ≡ removing
    → s.source_pc ≡ blocked x
    → IsDeadlock s
IsDeadlock-at s x v c e = record {
  caller_waits = c;
  source_waits = (x, e);
  stuck = λ t k. no_step v c e k;
}

abbrev Ends : Threads → Type 0
Ends s = (t : Threads) × Leads s t × ((is_over t.caller_pc ≡ true) ⊎ IsDeadlock t)

by_step : {s u : Threads} → Step s u → Ends u → Ends s
by_step k (t, l, e) = (t, step k l, e)

end_removed : (s : Threads) → s.caller_pc ≡ removing → s.transactions_mutex ≡ none → Ends s
end_removed s c m = (
  _,
  step (Step.remove c m)
      (step (Step.unlink refl) (step (Step.disconnect refl) (step (Step.unlock refl) here))),
  inl refl,
)

end_removing :
    (s : Threads) → Inv s → s.caller_pc ≡ removing → (pc : SourcePc) → s.source_pc ≡ pc → Ends s
end_removing s v c idle e = end_removed s c (ground (arith, v.list))
end_removing s v c (entering x) e = end_removed s c (ground (arith, v.list))
end_removing s v c (searching x) e =
    let k = Step.find e (ground (arith, v.listed)) in
    by_step k (_, here, inr (IsDeadlock-at _ x (step-Inv v k) c refl))
end_removing s v c (blocked x) e = (s, here, inr (IsDeadlock-at s x v c e))
end_removing s v c (writing x) e = absurd (ground (arith, v.waiter_one))
end_removing s v c written e = absurd (ground (arith, v.waiter_one))
end_removing s v c done e = by_step (Step.finish e) (end_removed _ c refl)

end_pending : (s : Threads) → Inv s → s.caller_pc ≡ stopped → s.answer ≡ pending → Ends s
end_pending s v c a =
    let k = Step.end_pending c a in by_step k (end_removing _ (step-Inv v k) refl s.source_pc refl)

-- At the head of the loop without a response, the wait may end at once.
end_unanswered : (s : Threads) → Inv s → s.caller_pc ≡ testing → s.answer ≡ pending → Ends s
end_unanswered s v c a =
    let k = Step.wait c a in
    let v' = step-Inv v k in
    let k' = Step.expire refl refl in by_step k (by_step k' (end_pending _ (step-Inv v' k') refl a))

end_stopped : (s : Threads) → Inv s → s.caller_pc ≡ stopped → (x : Answer) → s.answer ≡ x → Ends s
end_stopped s v c pending a = end_pending s v c a
end_stopped s v c (responded interim) a =
    let k = Step.defer c a in by_step k (end_unanswered _ (step-Inv v k) refl refl)
end_stopped s v c aborted a =
    let k = Step.end_aborted c a in by_step k (end_removing _ (step-Inv v k) refl s.source_pc refl)
end_stopped s v c (responded final) a =
    let k = Step.end_final c a in by_step k (end_removing _ (step-Inv v k) refl s.source_pc refl)

end_testing : (s : Threads) → Inv s → s.caller_pc ≡ testing → (x : Answer) → s.answer ≡ x → Ends s
end_testing s v c pending a = end_unanswered s v c a
end_testing s v c (responded interim) a =
    let k = Step.stop_interim c a in by_step k (end_stopped _ (step-Inv v k) refl _ a)
end_testing s v c aborted a =
    let k = Step.stop_aborted c a in by_step k (end_stopped _ (step-Inv v k) refl _ a)
end_testing s v c (responded final) a =
    let k = Step.stop_final c a in by_step k (end_stopped _ (step-Inv v k) refl _ a)

end_expired : (s : Threads) → Inv s → s.caller_pc ≡ waiting → s.waiter_mutex ≡ none → Ends s
end_expired s v c m =
    let k = Step.expire c m in by_step k (end_stopped _ (step-Inv v k) refl s.answer refl)

end_written : (s : Threads) → Inv s → s.caller_pc ≡ waiting → s.source_pc ≡ written → Ends s
end_written s v c e = let k = Step.exit e in by_step k (end_expired _ (step-Inv v k) c refl)

end_waiting :
    (s : Threads) → Inv s → s.caller_pc ≡ waiting → (pc : SourcePc) → s.source_pc ≡ pc → Ends s
end_waiting s v c (writing x) e =
    let k = Step.write e in by_step k (end_written _ (step-Inv v k) c refl)
end_waiting s v c written e = end_written s v c e
end_waiting s v c idle e = end_expired s v c (ground (arith, v.waiter))
end_waiting s v c (entering x) e = end_expired s v c (ground (arith, v.waiter))
end_waiting s v c (searching x) e = end_expired s v c (ground (arith, v.waiter))
end_waiting s v c (blocked x) e = end_expired s v c (ground (arith, v.waiter))
end_waiting s v c done e = end_expired s v c (ground (arith, v.waiter))

end_leaving : (s : Threads) → s.caller_pc ≡ leaving → Ends s
end_leaving s c = (_, step (Step.leave c) here, inl refl)

end_failing : (s : Threads) → s.caller_pc ≡ failing → Ends s
end_failing s c = by_step (Step.give_up c) (end_leaving _ refl)

end_disconnected : (s : Threads) → s.caller_pc ≡ disconnected → Ends s
end_disconnected s c = (_, step (Step.unlock c) here, inl refl)

end_unlinked : (s : Threads) → s.caller_pc ≡ unlinked → Ends s
end_unlinked s c = by_step (Step.disconnect c) (end_disconnected _ refl)

end_at : (s : Threads) → Inv s → (pc : CallerPc) → s.caller_pc ≡ pc → Ends s
end_at s v commanding c = by_step (Step.fail c) (end_failing _ refl)
end_at s v failing c = end_failing s c
end_at s v leaving c = end_leaving s c
end_at s v failed c = (s, here, inl (ground arith))
end_at s v testing c = end_testing s v c s.answer refl
end_at s v waiting c = end_waiting s v c s.source_pc refl
end_at s v stopped c = end_stopped s v c s.answer refl
end_at s v removing c = end_removing s v c s.source_pc refl
end_at s v unlinking c = by_step (Step.unlink c) (end_unlinked _ refl)
end_at s v unlinked c = end_unlinked s c
end_at s v disconnected c = end_disconnected s c
end_at s v returned c = (s, here, inl (ground arith))

-- From each reachable state, steps of the threads lead to one in which the transaction has
-- returned, or to the deadlock: the caller waits for the list's mutex with the structure's, the
-- source for the structure's with the list's, and no step is left.
pub avc_transaction_ends :
    (events : List BusEvent) (s : Threads)
    → Reach events s
    → (t : Threads) × Leads s t × ((is_over t.caller_pc ≡ true) ⊎ IsDeadlock t)
avc_transaction_ends events s r = end_at s (Reach-Inv r) s.caller_pc refl

-- What makes the source run over the list.
abbrev pub event_of : Visit → BusEvent
event_of (response x) = reply x
event_of abortion = unbinding

begin :
    {s : Threads} {rest : List BusEvent} (v : Visit)
    → s.source_pc ≡ idle
    → s.events ≡ event_of v ∷ rest
    → s.is_connected ≡ true
    → Step s (record s { source_pc = entering v; events = rest })
begin (response x) i e c = Step.emit i e c
begin abortion i e c = Step.unbind i e

-- Whether a response or the unbinding of the object comes next after the acknowledgement of the
-- command, and whatever follows: a reachable state is the deadlock, with the structure still
-- pending.
pub avc_transaction-IsDeadlock :
    (v : Visit) (rest : List BusEvent)
    → (s : Threads) × Reach (ack ∷ event_of v ∷ rest) s × IsDeadlock s × (s.answer ≡ pending)
avc_transaction-IsDeadlock v rest =
    let r : Reach (ack ∷ event_of v ∷ rest) _ =
      Reach.later
        (Reach.later
          (Reach.later
            (Reach.later
              (Reach.later
                (Reach.later
                  (Reach.later (Reach.later Reach.first (Step.acknowledge refl refl))
                    (Step.succeed refl refl))
                  (Step.wait refl refl))
                (begin v refl refl refl))
              (Step.expire refl refl))
            (Step.end_pending refl refl))
          (Step.lock refl refl))
        (Step.find refl refl) in
    (_, r, IsDeadlock-at _ v (Reach-Inv r) refl refl, refl)
