-- ===== src/Req/Threads/Stores.antt =====
-- The stores of `handle_responded_signal` one by one, as the waiting thread may see them.
use libhinawa.Base.{
  ℕ, zero, suc, ◌<◌, ◌≡◌, refl, ap, sym, some, ◌∙◌, ◌++◌, Bool, true, false, ◌&&◌, ◌||◌, arith, min,
  take, drop, if◌then◌else◌,
}
use libhinawa.Req.{Waiter, Responded, filled, handle_responded_signal}
use libhinawa.Req.Wait
use libhinawa.Req.Wait.{handle_responded_signal-filled}
use libhinawa.Req.Threads.{
  CallerPc, SourcePc, Threads, Step, Reach, start, returned, emitting, calling, writing, written,
}
use libhinawa.Req.Threads.Lifetime.{Reach-Inv, guard, caller_has}

-- The threads with the structure that they share and the number of stores that the handler, where it
-- has the mutex, has done.
pub record Shared : Type 0 where
  pub threads : Threads
  pub waiter : Waiter
  pub stores : ℕ

-- The places of the source between finding the request and the end of the stores.
abbrev is_under_way : SourcePc → Bool
is_under_way emitting = true
is_under_way calling = true
is_under_way writing = true
is_under_way _ = false

abbrev is_writing : SourcePc → Bool
is_writing writing = true
is_writing _ = false

abbrev pub is_returned : CallerPc → Bool
is_returned returned = true
is_returned _ = false

-- All steps but the one for the handler's stores at once.
abbrev IsOther : {s t : Threads} → Step s t → Type 0
IsOther (Step.write _) = ⊥
IsOther _ = Unit {0}

-- For a request whose structure is `fresh` at first, and which gets the response `r`.
module _ (fresh : Waiter) (r : Responded) where
  -- The stores in their order: `rcode`, the two time stamps, the length, and the frame.
  unfoldable pub store : ℕ → Waiter → Waiter
  store zero w = record w { rcode = r.rcode }
  store (suc zero) w = record w { request_tstamp = r.request_tstamp }
  store (suc (suc zero)) w = record w { response_tstamp = r.response_tstamp }
  store (suc (suc (suc zero))) w = record w { length = min w.length r.frame_size }
  store _ w = record w { frame = take w.length r.frame ++ drop w.length w.frame }

  -- A step of a thread, a store, or the end of the stores.
  pub data SharedStep (s : Shared) : Shared → Type 0 where
    move :
        {t : Threads} (k : Step s.threads t) → IsOther k → SharedStep s (record s { threads = t })
    put :
        s.threads.source_pc ≡ writing
        → s.stores < 5
        → SharedStep s (record s { waiter = store s.stores s.waiter; stores = suc s.stores })
    signal :
        s.threads.source_pc ≡ writing
        → s.stores ≡ 5
        → SharedStep s (record s {
          threads = record s.threads { source_pc = written; is_answered = true };
          stores = 0;
        })

  pub data SharedReach : Shared → Type 0 where
    first : SharedReach (record { threads = start; waiter = fresh; stores = 0 })
    later : {s t : Shared} → SharedReach s → SharedStep s t → SharedReach t

  -- The structure after the first stores.
  abbrev pub after : ℕ → Waiter
  after zero = fresh
  after (suc n) = store n (after n)

  after-filled : after 5 ≡ filled fresh r
  unfolding store
  after-filled = refl

  -- One response at most is on its way, and none once the structure is answered.
  record IsOnce (s : Threads) : Type 0 where
    under_way : is_under_way s.source_pc && s.is_answered ≡ false
    kept : s.is_kept && (s.is_answered || is_under_way s.source_pc) ≡ false

  step-IsOnce : {s t : Threads} → IsOnce s → Step s t → IsOnce t
  step-IsOnce v (Step.find a b) = record { under_way = ground (arith, v.kept); kept = ground arith }
  step-IsOnce v (Step.stop a b) = record {
    under_way = ground (arith, v.under_way);
    kept = ground (arith, v.kept);
  }
  step-IsOnce v (Step.write a) = record { under_way = ground arith; kept = ground (arith, v.kept) }
  step-IsOnce v k = record {
    under_way = ground (arith, v.under_way, guard k);
    kept = ground (arith, v.kept, guard k);
  }

  record IsWhole (s : Shared) : Type 0 where
    reach : Reach s.threads
    once : IsOnce s.threads
    contents : s.waiter ≡ (if s.threads.is_answered then after 5 else after s.stores)
    quiet : is_writing s.threads.source_pc ≡ false → s.stores ≡ 0

  -- Another step touches neither the structure nor whether it is answered, and the source comes to
  -- the stores with none done.
  other_answered : {s t : Threads} (k : Step s t) → IsOther k → t.is_answered ≡ s.is_answered
  other_answered (Step.write a) o = absurd o
  other_answered k o = refl

  other_writing :
      {s t : Threads} (k : Step s t)
      → IsOther k
      → is_writing t.source_pc ≡ false
      → is_writing s.source_pc ≡ false
  other_writing (Step.write a) o e = absurd o
  other_writing (Step.stop a b) o e = e
  other_writing k o e = ground (arith, guard k, e)

  -- While the source stores, the structure is not answered.
  unanswered :
      (s : Shared)
      → IsOnce s.threads
      → s.threads.source_pc ≡ writing
      → s.threads.is_answered ≡ false
  unanswered s v a = ground (arith, v.under_way)

  so_far : (s : Shared) → IsWhole s → s.threads.source_pc ≡ writing → s.waiter ≡ after s.stores
  so_far s v a =
      v.contents ∙ ap (λ b. if b then after 5 else after s.stores) (unanswered s v.once a)

  SharedReach-IsWhole : {s : Shared} → SharedReach s → IsWhole s
  SharedReach-IsWhole first = record {
    reach = Reach.first;
    once = record { under_way = refl; kept = refl };
    contents = refl;
    quiet = λ e. refl;
  }
  SharedReach-IsWhole (later {s} p (move k o)) =
      let v = SharedReach-IsWhole p in
      record {
        reach = Reach.later v.reach k;
        once = step-IsOnce v.once k;
        contents = rw (other_answered k o) v.contents;
        quiet = λ e. v.quiet (other_writing k o e);
      }
  SharedReach-IsWhole (later {s} p (put a b)) =
      let v = SharedReach-IsWhole p in
      record {
        reach = v.reach;
        once = v.once;
        contents = rw (unanswered s v.once a) (ap (store s.stores) (so_far s v a));
        quiet = λ e. absurd (ground (arith, a, e));
      }
  SharedReach-IsWhole (later {s} p (signal a b)) =
      let v = SharedReach-IsWhole p in
      record {
        reach = Reach.later v.reach (Step.write a);
        once = step-IsOnce v.once (Step.write a);
        contents = so_far s v a ∙ ap after b;
        quiet = λ e. refl;
      }

  answered_at :
      {w : Waiter} (is_answered : Bool)
      → w ≡ (if is_answered then filled fresh r else fresh)
      → handle_responded_signal fresh r ≡ some (filled fresh r)
      → some w ≡ (if is_answered then handle_responded_signal fresh r else some fresh)
  answered_at true e f = ap some e ∙ sym f
  answered_at false e f = ap some e

  -- Whatever the order of the threads' steps was, with the stores of the handler one by one, in a
  -- state where the caller has the mutex of the structure, as at each test of its loop, or has
  -- returned, for a response that has the data that it tells: the threads are in a state that they
  -- reach with all stores in one step; and the structure is `fresh` if it is not answered, and else
  -- what `handle_responded_signal` makes of `fresh` at once.
  pub stores-handle_responded_signal :
      (s : Shared)
      → SharedReach s
      → Wait.IsWhole r
      → (caller_has s.threads.caller_pc || is_returned s.threads.caller_pc) ≡ true
      → Reach s.threads
        × (some s.waiter
            ≡ (if s.threads.is_answered then handle_responded_signal fresh r else some fresh))
  stores-handle_responded_signal s p whole h =
      let v = SharedReach-IsWhole p in
      let i = Reach-Inv v.reach in
      let quiet : is_writing s.threads.source_pc ≡ false = ground (arith, i.waiter_one, i.safe) in
      (
        v.reach,
        answered_at s.threads.is_answered
            (v.contents
              ∙ ap (λ n. if s.threads.is_answered then after 5 else after n) (v.quiet quiet)
              ∙ ap (λ w. if s.threads.is_answered then w else fresh) after-filled)
            (handle_responded_signal-filled fresh r whole),
      )
