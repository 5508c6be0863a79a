-- ===== src/Fcp/Receive/Answer.antt =====
-- A command, and the kernel's event for its response.
use libhinawa.Base.{
  ℕ, ◌+◌, ◌≤◌, ◌<◌, ◌^◌, ◌≡◌, ◌≢◌, List, ◌∷◌, ◌++◌, some, true, arith, length, drop, ==_self,
}
use libhinawa.Enums.{Tcode}
use libhinawa.Abi.{EventRequest3}
use libhinawa.Env.{Env, empty, remove_first}
use libhinawa.Node.{FwNode, World, get_property}
use libhinawa.Resp.{FwResp}
use libhinawa.Resp.Invariant
use libhinawa.Req
use libhinawa.Req.Execute.{Schedule}
use libhinawa.Fcp.{FwFcp, maximum_frame_bytes, interim, respond_addr}
use libhinawa.Fcp.History.{same_record}
use libhinawa.Fcp.History.Ring.{IsValid}
use libhinawa.Fcp.Requested.{is_response, is_write_block}
use libhinawa.Fcp.Receive.{notices, receive, receive_lem}
use libhinawa.Fcp.Avc.{woken, Wake, command_with_tstamp, avc_transaction_with_tstamp}
use libhinawa.Fcp.Avc.Reply.{reply, avc_transaction_reply}

-- The event for a block write of the node to the response address, in its generation as it is known.
abbrev pub response_event : FwFcp → FwNode → ℕ → ℕ → ℕ → List ℕ → EventRequest3
response_event fcp n local handle tstamp frame = record {
  tcode = Tcode.write_block_request;
  offset = respond_addr;
  source_node_id = n.generation.node_id;
  destination_node_id = local;
  card = fcp.card_id;
  generation = n.generation.generation;
  handle = handle;
  length = length frame;
  tstamp = tstamp;
  payload = frame;
}

module _ (E : Env) (resp' : FwResp) (w' : World) (fcp : FwFcp) (p q fd : ℕ) (n m : FwNode)
    (local handle tstamp status c1 c2 : ℕ) (rest : List ℕ) where
  receive-reply :
      Invariant.IsValid resp'
      → resp'.node ≡ some q
      → w'.nodes q ≡ some m
      → m.fd ≡ some fd
      → length rest + 3 ≤ resp'.width
      → fcp.node ≡ some p
      → w'.nodes p ≡ some n
      → IsValid fcp.history
      → (receive E w' fcp resp'
          (response_event fcp n local handle tstamp (status ∷ c1 ∷ c2 ∷ rest))).signal
        ≡ some (reply n.generation.generation tstamp status c1 c2 rest)
  unfolding is_response is_write_block same_record get_property
  receive-reply valid a b c d e f v = ground (
    arith,
    (receive_lem E w' fcp resp' (response_event fcp n local handle tstamp (status ∷ c1 ∷ c2 ∷ rest))
        p q fd n m valid a b c (omega arith) e f v).1,
    ==_self (n.generation.node_id),
    ==_self n.generation.generation,
    ==_self fcp.card_id,
  )

  module _ (s : Schedule) (wakes : List Wake) (others : List ℕ → List ℕ) (w : World) (priv : FwFcp)
      (req self : ℕ) (c0 : ℕ) (cmd : List ℕ) (x y z : ℕ) (resp : List ℕ) (resp_size : ℕ) where
    -- The command as a call that has succeeded, and the event for the response.
    pub avc_transaction-receive :
        (r : Req.Result)
        → Invariant.IsValid resp'
        → resp'.node ≡ some q
        → w'.nodes q ≡ some m
        → m.fd ≡ some fd
        → length rest + 3 ≤ resp'.width
        → fcp.node ≡ some p
        → w'.nodes p ≡ some n
        → IsValid fcp.history
        → length cmd + 3 < maximum_frame_bytes
        → w.nodes p ≡ some n
        → command_with_tstamp E s w priv req (c0 ∷ c1 ∷ c2 ∷ cmd) (length cmd + 3) empty ≡ some r
        → r.value ≡ true
        → r.error ≡ empty
        → length rest + 3 ≤ resp_size
        → resp_size ≤ length resp + 3
        → resp_size < 2 ^ 32
        → status ≢ interim
        → let event = response_event fcp n local handle tstamp (status ∷ c1 ∷ c2 ∷ rest) in
          avc_transaction_with_tstamp E s
            (woken (notices 1 (receive E w' fcp resp' event).signal) ∷ wakes)
            others
            w
            priv
            p
            req
            self
            (c0 ∷ c1 ∷ c2 ∷ cmd)
            (length cmd + 3)
            (x ∷ y ∷ z ∷ resp)
            resp_size
            empty
          ≡ some (record {
            value = true;
            error = empty;
            world = r.world;
            transactions = remove_first self (others (self ∷ priv.transactions));
            resp = (status ∷ c1 ∷ c2 ∷ rest) ++ drop (length rest) resp;
            resp_size = length rest + 3;
            tstamp = r.tstamp;
            response_tstamp = some tstamp;
          })
    avc_transaction-receive r valid a b c d e f v short at sent good unset k l small ne =
        rw (receive-reply valid a b c d e f v) (
          avc_transaction_reply E s wakes others w priv p req self n c0 c1 c2 cmd x y z resp
            resp_size tstamp status rest r short at sent good unset k l small ne)
