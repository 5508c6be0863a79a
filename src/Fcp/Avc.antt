-- ===== src/Fcp/Avc.antt =====
-- src/fw_fcp.c: `hinawa_fw_fcp_command` and `hinawa_fw_fcp_avc_transaction`, with their time stamps.
pub mod Failure
pub mod Loop
pub mod Reply
mod Tests
use libhinawa.Base.{
  ℕ, ◌%◌, ◌^◌, List, [], ◌∷◌, Option, none, some, Bool, true, false, not, ◌&&◌, ◌==◌, ltb,
  if◌then◌else◌, length, get_or, set, ◌>>=◌,
}
use libhinawa.Enums.{Tcode, FcpError}
use libhinawa.Env.{Env, ErrorSlot, fcp_error, set_error, is_unset, remove_first}
use libhinawa.Node.{World, Property, get_property}
use libhinawa.Resp.{max_uint}
use libhinawa.Req
use libhinawa.Req.Execute.{Schedule, refused, transaction_with_tstamp}
use libhinawa.Fcp.{FwFcp, maximum_frame_bytes, request_addr, interim}
use libhinawa.Fcp.Waiters.{Waiter, pending, responded, aborted, Responded, respond, abort}

-- What the other threads do to the structure of a transaction while it waits.
pub data Notice : Type 0 where
  signalled : Responded → Notice
  unbound : Notice

unfoldable pub notify : Waiter → List Notice → Option Waiter
notify w [] = some w
notify w (signalled r ∷ ns) = respond w r >>= λ w'. notify w' ns
notify w (unbound ∷ ns) = notify (abort w) ns

-- One call of `g_cond_wait_until`.
pub data Wake : Type 0 where
  woken expired : List Notice → Wake

unfoldable pub is_waiting : Waiter → Bool
is_waiting w = elim w.state [ pending ↦ true | _ ↦ false ]

-- A response of the transaction's generation with the status `INTERIM`
unfoldable pub is_deferred : ℕ → Waiter → Bool
is_deferred generation w = elim w.state [
  | responded ↦ w.generation == generation && get_or w.frame 0 0 == interim
  | _ ↦ false
]

-- The structure as it waits again; `resp_size`, a `gsize`, is the size of the caller's buffer, and the
-- member a `guint`.
abbrev pub deferred : ℕ → Waiter → Waiter
deferred resp_size w = record w {
  state = pending;
  frame = set w.frame 0 0;
  frame_size = resp_size % 2 ^ 32;
}

-- `if` a deferred response has come `goto deferred`.
unfoldable pub settle : ℕ → ℕ → Waiter → Waiter
settle generation resp_size w = if is_deferred generation w then deferred resp_size w else w

-- The two nested loops, from a structure that is settled. At the end of the schedule the time is
-- over; after `expired` each further call returns at once.
unfoldable pub await : ℕ → ℕ → Waiter → List Wake → Option Waiter
await generation resp_size w [] = some w
await generation resp_size w (woken ns ∷ wakes) =
    if is_waiting w
    then notify w ns >>= (λ w'. await generation resp_size (settle generation resp_size w') wakes)
    else some w
await generation resp_size w (expired ns ∷ wakes) =
    if is_waiting w
    then notify w ns >>= (λ w'.
      let again = await generation resp_size (deferred resp_size w') wakes in
      if is_deferred generation w' then again else some w')
    else some w

-- The `switch` at the end: the error, or the size and the time stamp of the response.
unfoldable pub verdict : ℕ → ℕ → Waiter → Option FcpError
verdict generation resp_size w = elim w.state [
  | responded ↦
      if not (w.generation == generation)
      then some FcpError.aborted
      else if ltb resp_size w.frame_size
      then some FcpError.large_resp
      else none
  | _ ↦ some FcpError.timeout
]

-- The first three bytes of the buffer before the command is sent; none is a write beyond its end.
unfoldable pub prepare : List ℕ → List ℕ → Option (List ℕ)
prepare resp cmd =
    if ltb (length resp) 3
    then none
    else some (set (set (set resp 0 0xff) 1 (get_or cmd 1 0)) 2 (get_or cmd 2 0))

-- What a transaction leaves to its caller and in the object's list; `tstamp` and `response_tstamp`
-- are the first two elements of the array and the last one, `none` where they are not written.
pub record Result : Type 0 where
  pub value : Bool
  pub error : ErrorSlot
  pub world : World
  pub transactions : List ℕ
  pub resp : List ℕ
  pub resp_size : ℕ
  pub tstamp : Option (ℕ × ℕ)
  pub response_tstamp : Option ℕ

module _ (E : Env) where
  -- `hinawa_fw_fcp_command_with_tstamp`; `req` is the address of the new `HinawaFwReq`.
  unfoldable pub command_with_tstamp :
      Schedule → World → FwFcp → ℕ → List ℕ → ℕ → ErrorSlot → Option Req.Result
  command_with_tstamp s w priv req cmd cmd_size error =
      if not (ltb 0 cmd_size && ltb cmd_size maximum_frame_bytes && is_unset error)
      then some (refused w cmd cmd_size error)
      else transaction_with_tstamp E s w req priv.node Tcode.write_block_request request_addr
          cmd_size cmd cmd_size error

  -- The end of the transaction, with the list as the other threads have left it.
  unfoldable pub conclude : ℕ → ℕ → ℕ → Req.Result → List ℕ → Waiter → Result
  conclude generation self resp_size r transactions w =
      let rest = remove_first self transactions in
      elim (verdict generation resp_size w) [
        | none ↦ record {
          value = true;
          error = r.error;
          world = r.world;
          transactions = rest;
          resp = w.frame;
          resp_size = w.frame_size;
          tstamp = r.tstamp;
          response_tstamp = some w.tstamp;
        }
        | some code ↦ record {
          value = false;
          error = set_error E r.error (fcp_error code);
          world = r.world;
          transactions = rest;
          resp = w.frame;
          resp_size = resp_size;
          tstamp = r.tstamp;
          response_tstamp = none;
        }
      ]

  -- `hinawa_fw_fcp_avc_transaction_with_tstamp` of an object that is bound to the node at `p`; `self`
  -- is the address of the structure, `wakes` and `others` what the other threads do after the
  -- command. The thread keeps the structure's mutex until it waits, so no response is noticed before.
  unfoldable pub avc_transaction_with_tstamp :
      Schedule
      → List Wake
      → (List ℕ → List ℕ)
      → World
      → FwFcp
      → ℕ
      → ℕ
      → ℕ
      → List ℕ
      → ℕ
      → List ℕ
      → ℕ
      → ErrorSlot
      → Option Result
  avc_transaction_with_tstamp s wakes others w priv p req self cmd cmd_size resp resp_size error =
      if not
        (ltb 2 cmd_size && ltb cmd_size maximum_frame_bytes && ltb 0 resp_size && is_unset error)
      then some (record {
        value = false;
        error = error;
        world = w;
        transactions = priv.transactions;
        resp = resp;
        resp_size = resp_size;
        tstamp = none;
        response_tstamp = none;
      })
      else prepare resp cmd >>= λ frame.
          let transactions = self ∷ priv.transactions in
          let waiter : Waiter = record {
            state = pending;
            generation = 0;
            frame = frame;
            frame_size = resp_size % 2 ^ 32;
            tstamp = max_uint;
          } in
          elim (w.nodes p) [
            | none ↦ none
            | some n ↦
                let generation = get_property n Property.generation in
                command_with_tstamp s w priv req cmd cmd_size error >>= λ r.
                if not r.value
                then some (record {
                  value = false;
                  error = r.error;
                  world = r.world;
                  transactions = transactions;
                  resp = frame;
                  resp_size = resp_size;
                  tstamp = r.tstamp;
                  response_tstamp = none;
                })
                else await generation resp_size waiter wakes >>= λ waiter'.
                    some (conclude generation self resp_size r (others transactions) waiter')
          ]

  -- `hinawa_fw_fcp_command` and `hinawa_fw_fcp_avc_transaction`: the same without the time stamps.
  unfoldable pub command : Schedule → World → FwFcp → ℕ → List ℕ → ℕ → ErrorSlot → Option Req.Result
  command s w priv req cmd cmd_size error =
      command_with_tstamp s w priv req cmd cmd_size error
      >>= (λ r. some (record r { tstamp = none }))

  unfoldable pub avc_transaction :
      Schedule
      → List Wake
      → (List ℕ → List ℕ)
      → World
      → FwFcp
      → ℕ
      → ℕ
      → ℕ
      → List ℕ
      → ℕ
      → List ℕ
      → ℕ
      → ErrorSlot
      → Option Result
  avc_transaction s wakes others w priv p req self cmd cmd_size resp resp_size error =
      avc_transaction_with_tstamp s wakes others w priv p req self cmd cmd_size resp resp_size error
      >>= (λ r. some (record r { tstamp = none; response_tstamp = none }))
