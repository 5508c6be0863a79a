-- ===== src/Fcp/Avc/Reply.antt =====
-- A command and its response.
use libhinawa.Base.{
  ℕ, ◌+◌, ◌≤◌, ◌<◌, ◌%◌, ◌^◌, ◌≡◌, ◌≢◌, refl, List, [], ◌∷◌, ◌++◌, some, true, false, arith, length,
  drop, take_all,
}
use libhinawa.Env.{Env, empty, is_unset, remove_first}
use libhinawa.Node.{FwNode, World, get_property}
use libhinawa.Resp.{max_uint}
use libhinawa.Req
use libhinawa.Req.Execute.{Schedule}
use libhinawa.Fcp.{FwFcp, maximum_frame_bytes, interim}
use libhinawa.Fcp.Waiters.{Waiter, pending, Responded, respond, matches, copy_frame, answered}
use libhinawa.Fcp.Avc.{
  Wake, woken, expired, signalled, await, is_waiting, is_deferred, settle, notify, verdict, prepare,
  command_with_tstamp, conclude, avc_transaction_with_tstamp,
}

-- The response with the status `status` to a command with the bytes `c1` and `c2`.
abbrev pub reply : ℕ → ℕ → ℕ → ℕ → ℕ → List ℕ → Responded
reply generation tstamp status c1 c2 rest = record {
  generation = generation;
  tstamp = tstamp;
  frame = status ∷ c1 ∷ c2 ∷ rest;
  frame_size = length (status ∷ c1 ∷ c2 ∷ rest);
}

await_done :
    (generation resp_size : ℕ) (w : Waiter) (wakes : List Wake)
    → is_waiting w ≡ false
    → await generation resp_size w wakes ≡ some w
unfolding await
await_done generation resp_size w [] h = refl
await_done generation resp_size w (woken ns ∷ wakes) h = rw h
await_done generation resp_size w (expired ns ∷ wakes) h = rw h

-- The thread wakes with the response: it is copied, and the rest of the buffer stays.
await-reply :
    (generation resp_size tstamp status c1 c2 : ℕ) (rest resp : List ℕ) (wakes : List Wake)
    (w : Waiter)
    → is_waiting w ≡ true
    → w.frame ≡ 0xff ∷ c1 ∷ c2 ∷ resp
    → w.frame_size ≡ resp_size
    → length rest + 3 ≤ resp_size
    → resp_size ≤ length resp + 3
    → status ≢ interim
    → await generation resp_size w
        (woken (signalled (reply generation tstamp status c1 c2 rest) ∷ []) ∷ wakes)
      ≡ some (
          answered
            (reply generation tstamp status c1 c2 rest)
            ((status ∷ c1 ∷ c2 ∷ rest) ++ drop (length rest) resp))
unfolding await notify respond matches copy_frame settle is_deferred is_waiting
await-reply generation resp_size tstamp status c1 c2 rest resp wakes w p f s a b ne = ground (
  arith,
  take_all rest,
  await_done generation resp_size
      (answered (reply generation tstamp status c1 c2 rest)
        ((status ∷ c1 ∷ c2 ∷ rest) ++ drop (length rest) resp))
      wakes refl,
)

module _ (E : Env) (s : Schedule) (wakes : List Wake) (others : List ℕ → List ℕ) (w : World)
    (priv : FwFcp) (p req self : ℕ) (n : FwNode) (c0 c1 c2 : ℕ) (cmd : List ℕ) (x y z : ℕ)
    (resp : List ℕ) (resp_size tstamp status : ℕ) (rest : List ℕ) where
  -- A transaction of a command of at least three bytes with a buffer of at least three, whose
  -- command is sent with success, and whose thread is woken by a response with the command's second
  -- and third byte, in the bus generation of the command, with a status other than `INTERIM` and of
  -- a size that fits the buffer: it returns `TRUE` without an error, the buffer holds the response
  -- followed by what the buffer held behind it, the size and the time stamp are those of the
  -- response, and the structure is out of the list.
  pub avc_transaction_reply :
      (r : Req.Result)
      → length cmd + 3 < maximum_frame_bytes
      → w.nodes p ≡ some n
      → command_with_tstamp E s w priv req (c0 ∷ c1 ∷ c2 ∷ cmd) (length cmd + 3) empty ≡ some r
      → r.value ≡ true
      → r.error ≡ empty
      → length rest + 3 ≤ resp_size
      → resp_size ≤ length resp + 3
      → resp_size < 2 ^ 32
      → status ≢ interim
      → let signal = reply n.generation.generation tstamp status c1 c2 rest in
        avc_transaction_with_tstamp E s
          (woken (signalled signal ∷ []) ∷ wakes)
          others
          w
          priv
          p
          req
          self
          (c0 ∷ c1 ∷ c2 ∷ cmd)
          (length cmd + 3)
          (x ∷ y ∷ z ∷ resp)
          resp_size
          empty
        ≡ some (record {
          value = true;
          error = empty;
          world = r.world;
          transactions = remove_first self (others (self ∷ priv.transactions));
          resp = (status ∷ c1 ∷ c2 ∷ rest) ++ drop (length rest) resp;
          resp_size = length rest + 3;
          tstamp = r.tstamp;
          response_tstamp = some tstamp;
        })
  unfolding avc_transaction_with_tstamp prepare is_unset get_property conclude verdict is_waiting
  avc_transaction_reply r short at sent good unset a b small ne =
      let waiter : Waiter = record {
        state = pending;
        generation = 0;
        frame = 0xff ∷ c1 ∷ c2 ∷ resp;
        frame_size = resp_size % 2 ^ 32;
        tstamp = max_uint;
      } in
      ground (
        arith,
        await-reply n.generation.generation resp_size tstamp status c1 c2 rest resp wakes waiter
            refl refl (omega arith) a b ne,
      )
