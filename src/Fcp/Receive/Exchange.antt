-- ===== src/Fcp/Receive/Exchange.antt =====
-- A whole transaction of the protocol: the command, the event source that reads its end, and the
-- kernel's event for the response.
use libhinawa.Base.{ℕ, ◌+◌, ◌≡◌, List, ◌∷◌, none, some, true, length}
use libhinawa.Enums.{Tcode, Rcode}
use libhinawa.Abi.{SendRequest, EventResponse2}
use libhinawa.Env.{Env, ListLaws}
use libhinawa.Node.{FwNode, World}
use libhinawa.Resp
use libhinawa.Resp.Invariant
use libhinawa.Resp.Handle.{Action}
use libhinawa.Req.Execute.{Schedule}
use libhinawa.Dispatch.{Objects}
use libhinawa.Dispatch.Delivery.{delivered, answer_event, sent_objects, asked, final_world}
use libhinawa.Fcp.{FwFcp, request_addr}

module _ (E : Env) (laws : ListLaws E) (handlers : ℕ → Resp.Requested → List Action × Rcode)
    (o : Objects) (req p fd : ℕ) (n : FwNode) (ack : EventResponse2) (at : o.world.nodes p ≡ some n)
    (is_open : n.fd ≡ some fd) (not_node : o.world.nodes req ≡ none) (not_resp : o.resps req ≡ none)
    (is_req : o.reqs req ≡ true) (priv : FwFcp) (bound : priv.node ≡ some p) (c0 c1 c2 : ℕ)
    (cmd : List ℕ) where
  -- What the kernel is asked for the command.
  abbrev pub commanded : SendRequest
  commanded =
      asked E laws handlers o req p fd n ack at is_open not_node not_resp is_req
        Tcode.write_block_request request_addr (length cmd + 3) (c0 ∷ c1 ∷ c2 ∷ cmd)

  -- The source of the node reads the end of the command's transaction while the thread waits for it.
  abbrev pub command_schedule : Schedule
  command_schedule =
      delivered E handlers
        (sent_objects E laws handlers o req p fd n ack at is_open not_node not_resp is_req
          commanded)
        p req (answer_event E laws handlers o req p fd n ack at is_open not_node not_resp is_req)

  abbrev pub command_world : World
  command_world =
      final_world E laws handlers o req p fd n ack at is_open not_node not_resp is_req commanded
