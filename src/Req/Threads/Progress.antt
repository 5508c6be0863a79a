-- ===== src/Req/Threads/Progress.antt =====
-- No order of the threads' steps makes them block each other.
use libhinawa.Base.{◌≡◌, refl, ◌∙◌, false, arith, Bool-cases, inl, inr}
use libhinawa.Req.Threads.{
  CallerPc, SourcePc, Threads, Step, Reach, Leads, here, step, sent, testing, waiting, stopped,
  disconnected, unlocked, invalidating, invalidated, returned, idle, finding, emitting, calling,
  writing, written, leaving,
}
use libhinawa.Req.Threads.Lifetime.{Inv, step-Inv, Reach-Inv, caller_has}

pub Leads-trans : {s t u : Threads} → Leads s t → Leads t u → Leads s u
Leads-trans here m = m
Leads-trans (step k l) m = step k (Leads-trans l m)

-- The source can come to its head while the caller stays where it stands.
abbrev Drains : Threads → Type 0
Drains s = (t : Threads) × Leads s t × Inv t × (t.source_pc ≡ idle) × (t.caller_pc ≡ s.caller_pc)

drain_step : {s u : Threads} → Step s u → u.caller_pc ≡ s.caller_pc → Drains u → Drains s
drain_step k e (t, l, v, i, c) = (t, step k l, v, i, c ∙ e)

drain_leaving : (s : Threads) → Inv s → s.source_pc ≡ leaving → Drains s
drain_leaving s v e = (_, step (Step.finish e) here, step-Inv v (Step.finish e), refl, refl)

drain_written : (s : Threads) → Inv s → s.source_pc ≡ written → Drains s
drain_written s v e =
    drain_step (Step.exit e) refl (drain_leaving _ (step-Inv v (Step.exit e)) refl)

drain_writing : (s : Threads) → Inv s → s.source_pc ≡ writing → Drains s
drain_writing s v e =
    drain_step (Step.write e) refl (drain_written _ (step-Inv v (Step.write e)) refl)

drain_calling :
    (s : Threads) → Inv s → caller_has s.caller_pc ≡ false → s.source_pc ≡ calling → Drains s
drain_calling s v h e =
    let k = Step.enter e (ground (arith, v.waiter)) in
    drain_step k refl (drain_writing _ (step-Inv v k) refl)

drain_emitting :
    (s : Threads) → Inv s → caller_has s.caller_pc ≡ false → s.source_pc ≡ emitting → Drains s
drain_emitting s v h e = elim (Bool-cases s.is_connected) [
  | inl c ↦ drain_step (Step.emit e c) refl (drain_calling _ (step-Inv v (Step.emit e c)) h refl)
  | inr c ↦ drain_step (Step.skip e c) refl (drain_leaving _ (step-Inv v (Step.skip e c)) refl)
]

drain_finding :
    (s : Threads) → Inv s → caller_has s.caller_pc ≡ false → s.source_pc ≡ finding → Drains s
drain_finding s v h e = elim (Bool-cases s.is_kept) [
  | inl c ↦ drain_step (Step.find e c) refl (drain_emitting _ (step-Inv v (Step.find e c)) h refl)
  | inr c ↦ drain_step (Step.miss e c) refl (drain_leaving _ (step-Inv v (Step.miss e c)) refl)
]

drain_at :
    (s : Threads)
    → Inv s
    → caller_has s.caller_pc ≡ false
    → (pc : SourcePc) → s.source_pc ≡ pc
    → Drains s
drain_at s v h idle e = (s, here, v, e, refl)
drain_at s v h finding e = drain_finding s v h e
drain_at s v h emitting e = drain_emitting s v h e
drain_at s v h calling e = drain_calling s v h e
drain_at s v h writing e = drain_writing s v e
drain_at s v h written e = drain_written s v e
drain_at s v h leaving e = drain_leaving s v e

drain : (s : Threads) → Inv s → caller_has s.caller_pc ≡ false → Drains s
drain s v h = drain_at s v h s.source_pc refl

abbrev Returns : Threads → Type 0
Returns s = (t : Threads) × Leads s t × (t.caller_pc ≡ returned)

by_step : {s u : Threads} → Step s u → Returns u → Returns s
by_step k (t, l, e) = (t, step k l, e)

by_steps : {s u : Threads} → Leads s u → Returns u → Returns s
by_steps m (t, l, e) = (t, Leads-trans m l, e)

return_invalidated : (s : Threads) → s.caller_pc ≡ invalidated → Returns s
return_invalidated s e = (_, step (Step.leave e) here, refl)

return_invalidating : (s : Threads) → s.caller_pc ≡ invalidating → Returns s
return_invalidating s e = by_step (Step.remove e) (return_invalidated _ refl)

return_unlocked : (s : Threads) → Inv s → s.caller_pc ≡ unlocked → Returns s
return_unlocked s v e =
    let (t, l, v', i, c) = drain s v (ground arith) in
    by_steps l
      (by_step (Step.invalidate (c ∙ e) (ground (arith, v'.list))) (return_invalidating _ refl))

return_disconnected : (s : Threads) → Inv s → s.caller_pc ≡ disconnected → Returns s
return_disconnected s v e =
    let k = Step.unlock e in by_step k (return_unlocked _ (step-Inv v k) refl)

return_stopped : (s : Threads) → Inv s → s.caller_pc ≡ stopped → Returns s
return_stopped s v e =
    let k = Step.disconnect e in by_step k (return_disconnected _ (step-Inv v k) refl)

return_waiting : (s : Threads) → Inv s → s.caller_pc ≡ waiting → Returns s
return_waiting s v e =
    let (t, l, v', i, c) = drain s v (ground arith) in
    let k = Step.expire (c ∙ e) (ground (arith, v'.waiter)) in
    by_steps l (by_step k (return_stopped _ (step-Inv v' k) refl))

return_testing : (s : Threads) → Inv s → s.caller_pc ≡ testing → Returns s
return_testing s v e = elim (Bool-cases s.is_answered) [
  | inl a ↦ by_step (Step.stop e a) (return_stopped _ (step-Inv v (Step.stop e a)) refl)
  | inr a ↦ by_step (Step.wait e a) (return_waiting _ (step-Inv v (Step.wait e a)) refl)
]

return_sent : (s : Threads) → Inv s → s.caller_pc ≡ sent → Returns s
return_sent s v e =
    let (t, l, v', i, c) = drain s v (ground arith) in
    let k = Step.lock (c ∙ e) (ground (arith, v'.waiter)) in
    by_steps l (by_step k (return_testing _ (step-Inv v' k) refl))

return_at : (s : Threads) → Inv s → (pc : CallerPc) → s.caller_pc ≡ pc → Returns s
return_at s v sent e = return_sent s v e
return_at s v testing e = return_testing s v e
return_at s v waiting e = return_waiting s v e
return_at s v stopped e = return_stopped s v e
return_at s v disconnected e = return_disconnected s v e
return_at s v unlocked e = return_unlocked s v e
return_at s v invalidating e = return_invalidating s e
return_at s v invalidated e = return_invalidated s e
return_at s v returned e = (s, here, e)

-- From each reachable state of the two threads, steps of theirs lead to one in which the caller has
-- returned: neither waits for a mutex that the other keeps.
pub transaction_returns :
    (s : Threads) → Reach s → (t : Threads) × Leads s t × (t.caller_pc ≡ returned)
transaction_returns s r = return_at s (Reach-Inv r) s.caller_pc refl
