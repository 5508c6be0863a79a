-- ===== src/Fcp/Threads.antt =====
-- src/fw_fcp.c: the thread in `hinawa_fw_fcp_avc_transaction_with_tstamp` and the thread of the
-- event source, which runs `handle_responded_signal` and `hinawa_fw_fcp_unbind`, interleaved in any
-- order. They share the structure of the waiter under its own mutex, and the object's list of
-- waiters under the mutex of the list. The source reads the events of the kernel in their order;
-- what the acknowledgement of the command does within src/fw_req.c is one step here.
pub mod Lifetime
pub mod Progress
pub mod Order
mod Tests
use libhinawa.Base.{◌≡◌, List, ◌∷◌, Option, none, some, Bool, true, false}

pub data Thread : Type 0 where
  caller source : Thread

-- A response: a deferred one, with the status `INTERIM` in the command's generation, or one that
-- ends the wait.
pub data Status : Type 0 where
  interim final : Status

-- `enum waiter_state`, with the response.
pub data Answer : Type 0 where
  pending aborted : Answer
  responded : Status → Answer

-- A run over the list: that of `handle_responded_signal`, or that of `hinawa_fw_fcp_unbind`.
pub data Visit : Type 0 where
  response : Status → Visit
  abortion : Visit

-- What a run makes of the structure.
abbrev pub visited : Visit → Answer → Answer
visited (response x) answer = responded x
visited abortion pending = aborted
visited abortion answer = answer

-- What the thread of the source is about to do: the kernel tells the end of the transaction for the
-- command, or a response of the protocol that matches the command; or the program unbinds the object.
pub data BusEvent : Type 0 where
  ack unbinding : BusEvent
  reply : Status → BusEvent

-- Where the caller stands, from the insertion into the list on. It has the structure's mutex in each
-- place but in `waiting`, `failed` and `returned`.
pub data CallerPc : Type 0 where
  commanding : CallerPc  -- in `hinawa_fw_fcp_command_with_tstamp`
  failing : CallerPc  -- the command has failed
  leaving : CallerPc  -- and the handler is disconnected
  failed : CallerPc
  testing : CallerPc  -- the head of the loop
  waiting : CallerPc  -- in `g_cond_wait_until`
  stopped : CallerPc  -- after the loop
  removing : CallerPc  -- at the lock of the list's mutex
  unlinking : CallerPc  -- with the list's mutex too
  unlinked : CallerPc
  disconnected : CallerPc
  returned : CallerPc

-- Where the source stands.
pub data SourcePc : Type 0 where
  idle : SourcePc
  entering : Visit → SourcePc  -- at the lock of the list's mutex
  searching : Visit → SourcePc  -- with the list's mutex
  blocked : Visit → SourcePc  -- at the lock of the structure's mutex, with the list's
  writing : Visit → SourcePc  -- with both
  written : SourcePc  -- with both
  done : SourcePc  -- after the loop, with the list's mutex

-- `is_acked`: whether the command's transaction has ended; `is_listed`: whether the list holds the
-- structure; `is_connected`: whether the handler of the signal is connected; `answer`: the state
-- of the structure, with the response that it holds.
pub record Threads : Type 0 where
  pub caller_pc : CallerPc
  pub source_pc : SourcePc
  pub waiter_mutex : Option Thread
  pub transactions_mutex : Option Thread
  pub events : List BusEvent
  pub is_acked : Bool
  pub is_listed : Bool
  pub is_connected : Bool
  pub answer : Answer

-- The command is about to be sent; `events` are those that the kernel will tell.
abbrev pub start : List BusEvent → Threads
start events = record {
  caller_pc = commanding;
  source_pc = idle;
  waiter_mutex = some caller;
  transactions_mutex = none;
  events = events;
  is_acked = false;
  is_listed = true;
  is_connected = true;
  answer = pending;
}

-- A step of one of the threads. The command may fail at any time, by its timeout or before; a wait may
-- end at any time.
pub data Step (s : Threads) : Threads → Type 0 where
  succeed : s.caller_pc ≡ commanding → s.is_acked ≡ true → Step s (record s { caller_pc = testing })
  fail : s.caller_pc ≡ commanding → Step s (record s { caller_pc = failing })
  give_up : s.caller_pc ≡ failing → Step s (record s { caller_pc = leaving; is_connected = false })
  leave : s.caller_pc ≡ leaving → Step s (record s { caller_pc = failed; waiter_mutex = none })
  wait :
      s.caller_pc ≡ testing
      → s.answer ≡ pending
      → Step s (record s { caller_pc = waiting; waiter_mutex = none })
  stop_interim :
      s.caller_pc ≡ testing
      → s.answer ≡ responded interim
      → Step s (record s { caller_pc = stopped })
  stop_aborted :
      s.caller_pc ≡ testing → s.answer ≡ aborted → Step s (record s { caller_pc = stopped })
  stop_final :
      s.caller_pc ≡ testing → s.answer ≡ responded final → Step s (record s { caller_pc = stopped })
  wake :
      s.caller_pc ≡ waiting
      → s.waiter_mutex ≡ none
      → Step s (record s { caller_pc = testing; waiter_mutex = some caller })
  expire :
      s.caller_pc ≡ waiting
      → s.waiter_mutex ≡ none
      → Step s (record s { caller_pc = stopped; waiter_mutex = some caller })
  defer :
      s.caller_pc ≡ stopped
      → s.answer ≡ responded interim
      → Step s (record s { caller_pc = testing; answer = pending })
  end_pending :
      s.caller_pc ≡ stopped → s.answer ≡ pending → Step s (record s { caller_pc = removing })
  end_aborted :
      s.caller_pc ≡ stopped → s.answer ≡ aborted → Step s (record s { caller_pc = removing })
  end_final :
      s.caller_pc ≡ stopped
      → s.answer ≡ responded final
      → Step s (record s { caller_pc = removing })
  remove :
      s.caller_pc ≡ removing
      → s.transactions_mutex ≡ none
      → Step s
          (record s { caller_pc = unlinking; transactions_mutex = some caller; is_listed = false })
  unlink :
      s.caller_pc ≡ unlinking
      → Step s (record s { caller_pc = unlinked; transactions_mutex = none })
  disconnect :
      s.caller_pc ≡ unlinked → Step s (record s { caller_pc = disconnected; is_connected = false })
  unlock :
      s.caller_pc ≡ disconnected → Step s (record s { caller_pc = returned; waiter_mutex = none })
  acknowledge :
      {rest : List BusEvent}
      → s.source_pc ≡ idle
      → s.events ≡ ack ∷ rest
      → Step s (record s { events = rest; is_acked = true })
  emit :
      {rest : List BusEvent} {x : Status}
      → s.source_pc ≡ idle
      → s.events ≡ reply x ∷ rest
      → s.is_connected ≡ true
      → Step s (record s { source_pc = entering (response x); events = rest })
  unbind :
      {rest : List BusEvent}
      → s.source_pc ≡ idle
      → s.events ≡ unbinding ∷ rest
      → Step s (record s { source_pc = entering abortion; events = rest })
  skip :
      {rest : List BusEvent} {x : Status}
      → s.source_pc ≡ idle
      → s.events ≡ reply x ∷ rest
      → s.is_connected ≡ false
      → Step s (record s { events = rest })
  lock :
      {x : Visit}
      → s.source_pc ≡ entering x
      → s.transactions_mutex ≡ none
      → Step s (record s { source_pc = searching x; transactions_mutex = some source })
  find :
      {x : Visit}
      → s.source_pc ≡ searching x
      → s.is_listed ≡ true
      → Step s (record s { source_pc = blocked x })
  miss :
      {x : Visit}
      → s.source_pc ≡ searching x
      → s.is_listed ≡ false
      → Step s (record s { source_pc = done })
  enter :
      {x : Visit}
      → s.source_pc ≡ blocked x
      → s.waiter_mutex ≡ none
      → Step s (record s { source_pc = writing x; waiter_mutex = some source })
  write :
      {x : Visit}
      → s.source_pc ≡ writing x
      → Step s (record s { source_pc = written; answer = visited x s.answer })
  exit : s.source_pc ≡ written → Step s (record s { source_pc = done; waiter_mutex = none })
  finish : s.source_pc ≡ done → Step s (record s { source_pc = idle; transactions_mutex = none })

pub data Reach (events : List BusEvent) : Threads → Type 0 where
  first : Reach events (start events)
  later : {s t : Threads} → Reach events s → Step s t → Reach events t

-- Any number of steps.
pub data Leads : Threads → Threads → Type 0 where
  here : {s : Threads} → Leads s s
  step : {s t u : Threads} → Step s t → Leads t u → Leads s u
