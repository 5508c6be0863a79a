-- ===== src/Fcp/Tests.antt =====
-- Runs of the theorems on the Function Control Protocol.
use libhinawa.Fcp.Waiters.{abort_all}
use libhinawa.Base.{
  ℕ, zero, suc, ◌≡◌, ◌⊎◌, refl, List, [], ◌∷◌, none, some, true, false, arith, replicate,
}
use libhinawa.Enums.{Tcode, ReqError}
use libhinawa.Abi.{send_request}
use libhinawa.Env.{empty, holds, is_unset, is_null, set_error, ref, ioctl, req_error_errno}
use libhinawa.Node.{FwNode, World, emit, put_node, get_property}
use libhinawa.Resp
use libhinawa.Req
use libhinawa.Node.Ioctl.{node_ioctl, call_kernel, ioctl_error, keep_transaction}
use libhinawa.Req.Execute.{Schedule, refused, request, after_send, finish, transaction_with_tstamp}
use libhinawa.Fcp
use libhinawa.Fcp.{FwFcp, is_bound, respond_addr, maximum_frame_bytes, request_addr, interim}
use libhinawa.Fcp.History.{NodeRecord, NodeHistory, insert_record, detect_record}
use libhinawa.Base.{Option}
use libhinawa.Fcp.History.{find_loop}
use libhinawa.Fcp.History.Find.{holds_record, detect_record_ends}
use libhinawa.Fcp.History.Ring.{latest, remember, insert_record_refines}
use libhinawa.Fcp.Waiters.{
  Waiter, Waiters, pending, responded, Responded, matches, answered, handle_responded_signal,
  emit_responded,
}
use libhinawa.Fcp.Waiters.Safety.{IsFresh, Answered, handle_responded_signal_lem}
use libhinawa.Fcp.Waiters.Overflow.{emit_responded_overflow}
use libhinawa.Fcp.Requested.{signal_of}
use libhinawa.Fcp.Bind.{bind}
use libhinawa.Fcp.Bind.Laws.{Binds, Hears, bind-Hears}
use libhinawa.Fcp.Avc.{command_with_tstamp, avc_transaction_with_tstamp}
use libhinawa.Fcp.Avc.Failure.{Ends, avc_failed_dangling}
use libhinawa.Samples.{granting, failing, open_sample, world_sample}

abbrev record_sample : NodeRecord
record_sample = record { generation = 6; src_node_id = 0xffc0 }

-- Ten zeros, with the cursor at the last one.
abbrev history_sample : NodeHistory
history_sample = record {
  records = replicate 10 (record { generation = 0; src_node_id = 0 });
  cursor = 9;
}

insert_record_refines_example :
    latest (insert_record history_sample record_sample)
    ≡ remember record_sample (latest history_sample)
insert_record_refines_example =
    insert_record_refines history_sample record_sample (record { ten = refl; inside = omega arith })

detect_record_ends_example :
    ((found : Option NodeRecord) × (find_loop 11
          (record { records = history_sample.records; cursor = 0 })
          record_sample
        ≡ some found))
    × (detect_record history_sample record_sample
        ≡ holds_record record_sample history_sample.records)
detect_record_ends_example = detect_record_ends history_sample record_sample refl

abbrev fcp_sample : FwFcp
fcp_sample = record { node = some 1; card_id = 0; transactions = []; history = history_sample }

abbrev signal_sample : Resp.Requested
signal_sample = record {
  tcode = Tcode.write_block_request;
  offset = respond_addr;
  src_node_id = 0;
  dst_node_id = 0xffc1;
  card_id = 0;
  generation = 0;
  tstamp = 100;
  frame = 9 ∷ 8 ∷ 7 ∷ 6 ∷ [];
  length = 4;
}

bind-Hears_example :
    Binds
      (λ priv' resp' out.
        ((out.value ≡ true) × (is_bound priv' ≡ true) × Hears priv' open_sample)
        ⊎ ((out.value ≡ false) × (is_bound priv' ≡ false)))
      (bind granting world_sample 60 Fcp.init Resp.init 1 empty)
unfolding Fcp.init
bind-Hears_example = bind-Hears granting world_sample 60 Fcp.init Resp.init 1 open_sample refl refl

abbrev short_waiter : Waiter
short_waiter = record {
  state = pending;
  generation = 0;
  frame = 0xff ∷ 8 ∷ 7 ∷ [];
  frame_size = 3;
  tstamp = 0;
}

abbrev other_waiter : Waiter
other_waiter = record short_waiter { frame = 0xff ∷ 1 ∷ 2 ∷ [] }

abbrev waiters_sample : Waiters
waiters_sample zero = some short_waiter
waiters_sample (suc zero) = some other_waiter
waiters_sample _ = none

abbrev responded_sample : Responded
responded_sample = signal_of signal_sample

handle_responded_signal_lem_example :
    (s' : Waiters) × (handle_responded_signal waiters_sample (0 ∷ 1 ∷ []) responded_sample
      ≡ some s')
    × Answered waiters_sample s' (0 ∷ 1 ∷ []) responded_sample
    × ((q : ℕ) → IsFresh q (0 ∷ 1 ∷ []) → s' q ≡ waiters_sample q)
handle_responded_signal_lem_example =
    handle_responded_signal_lem (0 ∷ 1 ∷ []) waiters_sample responded_sample
      ((omega arith, tt), (tt, tt))
      (
        (short_waiter, refl, (omega arith, omega arith)),
        ((other_waiter, refl, (omega arith, omega arith)), tt),
      )
      (omega arith, omega arith)

emit_responded_overflow_example :
    emit_responded 2 waiters_sample (0 ∷ 1 ∷ []) responded_sample ≡ none
unfolding Fcp.Waiters.matches
emit_responded_overflow_example =
    emit_responded_overflow waiters_sample 0 1 short_waiter other_waiter responded_sample
      (omega arith) refl refl refl refl (omega arith) (omega arith) (omega arith) (omega arith)
      (omega arith)

abbrev sent_sample : Req.Result
sent_sample = record {
  value = true;
  error = empty;
  world = world_sample;
  frame = [];
  frame_size = 0;
  tstamp = none;
}

abbrev silent_sample : Schedule
silent_sample = record { early = []; wakes = []; elapse = λ w. w }

abbrev command_sample : List ℕ
command_sample = 0 ∷ 8 ∷ 7 ∷ []

-- The world when the kernel has refused the command.
abbrev refused_world : World
refused_world =
    let n = record open_sample { transactions = 70 ∷ open_sample.transactions } in
    emit (put_node (emit world_sample (ref 1)) 1 n) (
      ioctl (some 3) send_request
        (Req.request_of 70 Tcode.write_block_request request_addr 3 command_sample 0))

-- What the command leaves: it was refused, and no response came.
abbrev refused_sample : Req.Result
refused_sample =
    Req.Execute.end_wait failing silent_sample 70 (some 1) 1 refused_world 3
      (holds (req_error_errno ReqError.send_error 5)) (Req.fresh_waiter command_sample 3)

avc_failed_dangling_example :
    Ends
      (λ out.
        (out.value ≡ false)
        × (handle_responded_signal (λ p. none) out.transactions responded_sample ≡ none))
      (avc_transaction_with_tstamp failing silent_sample []
        (λ l. l)
        world_sample
        fcp_sample
        1
        70
        9
        command_sample
        3
        (0 ∷ 0 ∷ 0 ∷ [])
        3
        empty)
unfolding command_with_tstamp is_unset transaction_with_tstamp request Req.check Req.is_aligned
    Req.is_read_or_write after_send node_ioctl is_null call_kernel ioctl_error keep_transaction
    get_property set_error Req.request_of Req.Execute.await Req.Execute.end_wait finish
    Req.is_pending Req.wait Req.handle_signals libhinawa.Node.init
avc_failed_dangling_example =
    avc_failed_dangling failing silent_sample [] (λ l. l) world_sample fcp_sample 1 70 9
      command_sample 3 (0 ∷ 0 ∷ 0 ∷ []) 3 (omega arith) (omega arith) (omega arith) open_sample
      refused_sample (λ p. none) responded_sample refl (omega arith) refl refl refl
