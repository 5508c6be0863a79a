-- ===== src/Req/Threads.antt =====
-- src/fw_req.c and src/fw_node.c: the thread that waits in `hinawa_fw_req_transaction_with_tstamp`
-- and the thread of the event source in `dispatch_src`, interleaved in any order. What they share
-- are the structure of the waiter, a variable of the function, under its own mutex, and the node's
-- list of requests under the mutex of the list.
pub mod Lifetime
pub mod Progress
pub mod Stores
mod Tests
use libhinawa.Base.{◌≡◌, Option, none, some, Bool, true, false}

pub data Thread : Type 0 where
  caller source : Thread

-- Where the caller stands, from the return of `hinawa_fw_req_request` on.
pub data CallerPc : Type 0 where
  sent : CallerPc
  testing : CallerPc  -- the head of the loop, with the structure's mutex
  waiting : CallerPc  -- in `g_cond_wait_until`
  stopped : CallerPc  -- after the loop, with the mutex
  disconnected : CallerPc  -- after `g_signal_handler_disconnect`, with the mutex
  unlocked : CallerPc  -- at the call of `hinawa_fw_node_invalidate_transaction`
  invalidating : CallerPc  -- with the list's mutex
  invalidated : CallerPc  -- with the list's mutex
  returned : CallerPc

-- Where the source stands in the branch of `dispatch_src` for the request.
pub data SourcePc : Type 0 where
  idle : SourcePc
  finding : SourcePc  -- at `g_list_find`, with the list's mutex
  emitting : SourcePc  -- in `hinawa_fw_req_handle_response`, before its handlers are looked up
  calling : SourcePc  -- at the head of `handle_responded_signal`
  writing : SourcePc  -- with the structure's mutex
  written : SourcePc  -- after `g_cond_signal`, with the structure's mutex
  leaving : SourcePc  -- at the end of the branch, with the list's mutex

-- `is_kept`: whether the node's list holds the request; `is_answered`: whether the structure's `rcode`
-- is set; `is_connected`: whether `handle_responded_signal` is connected with the structure.
pub record Threads : Type 0 where
  pub caller_pc : CallerPc
  pub source_pc : SourcePc
  pub waiter_mutex : Option Thread
  pub transactions_mutex : Option Thread
  pub is_connected : Bool
  pub is_kept : Bool
  pub is_answered : Bool

-- The request is sent: the handler is connected and the request stands in the list.
abbrev pub start : Threads
start = record {
  caller_pc = sent;
  source_pc = idle;
  waiter_mutex = none;
  transactions_mutex = none;
  is_connected = true;
  is_kept = true;
  is_answered = false;
}

-- A step of one of the threads. A wait may end at any time, by a signal, spuriously or by its timeout.
pub data Step (s : Threads) : Threads → Type 0 where
  lock :
      s.caller_pc ≡ sent
      → s.waiter_mutex ≡ none
      → Step s (record s { caller_pc = testing; waiter_mutex = some caller })
  wait :
      s.caller_pc ≡ testing
      → s.is_answered ≡ false
      → Step s (record s { caller_pc = waiting; waiter_mutex = none })
  stop : s.caller_pc ≡ testing → s.is_answered ≡ true → Step s (record s { caller_pc = stopped })
  wake :
      s.caller_pc ≡ waiting
      → s.waiter_mutex ≡ none
      → Step s (record s { caller_pc = testing; waiter_mutex = some caller })
  expire :
      s.caller_pc ≡ waiting
      → s.waiter_mutex ≡ none
      → Step s (record s { caller_pc = stopped; waiter_mutex = some caller })
  disconnect :
      s.caller_pc ≡ stopped → Step s (record s { caller_pc = disconnected; is_connected = false })
  unlock :
      s.caller_pc ≡ disconnected → Step s (record s { caller_pc = unlocked; waiter_mutex = none })
  invalidate :
      s.caller_pc ≡ unlocked
      → s.transactions_mutex ≡ none
      → Step s (record s { caller_pc = invalidating; transactions_mutex = some caller })
  remove :
      s.caller_pc ≡ invalidating → Step s (record s { caller_pc = invalidated; is_kept = false })
  leave :
      s.caller_pc ≡ invalidated
      → Step s (record s { caller_pc = returned; transactions_mutex = none })
  read :
      s.source_pc ≡ idle
      → s.transactions_mutex ≡ none
      → Step s (record s { source_pc = finding; transactions_mutex = some source })
  find :
      s.source_pc ≡ finding
      → s.is_kept ≡ true
      → Step s (record s { source_pc = emitting; is_kept = false })
  miss : s.source_pc ≡ finding → s.is_kept ≡ false → Step s (record s { source_pc = leaving })
  emit : s.source_pc ≡ emitting → s.is_connected ≡ true → Step s (record s { source_pc = calling })
  skip : s.source_pc ≡ emitting → s.is_connected ≡ false → Step s (record s { source_pc = leaving })
  enter :
      s.source_pc ≡ calling
      → s.waiter_mutex ≡ none
      → Step s (record s { source_pc = writing; waiter_mutex = some source })
  write : s.source_pc ≡ writing → Step s (record s { source_pc = written; is_answered = true })
  exit : s.source_pc ≡ written → Step s (record s { source_pc = leaving; waiter_mutex = none })
  finish : s.source_pc ≡ leaving → Step s (record s { source_pc = idle; transactions_mutex = none })

pub data Reach : Threads → Type 0 where
  first : Reach start
  later : {s t : Threads} → Reach s → Step s t → Reach t

-- Any number of steps.
pub data Leads : Threads → Threads → Type 0 where
  here : {s : Threads} → Leads s s
  step : {s t u : Threads} → Step s t → Leads t u → Leads s u
