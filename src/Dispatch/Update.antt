-- ===== src/Dispatch/Update.antt =====
-- A bus reset between two requests.
use libhinawa.Base.{ℕ, ◌≡◌, ap, ◌∙◌, List, [], ◌∷◌, Option, none, some, Bool, true, false, arith}
use libhinawa.Enums.{Tcode, Rcode}
use libhinawa.Abi.{GetInfo, get_info, send_request, bus_reset}
use libhinawa.Env.{Env, empty, ioctl, done, ListLaws}
use libhinawa.Node.{FwNode, Outcome, info_query, with_info, update_info}
use libhinawa.Node.Open.{handle_update}
use libhinawa.Resp
use libhinawa.Resp.Handle.{Action}
use libhinawa.Req.{check}
use libhinawa.Req.Execute.{request}
use libhinawa.Req.Send.{Sends, demanded, request-Sends}
use libhinawa.Dispatch.{
  Objects, bus_update, Dispatched, is_node, is_bus_reset, dispatch_event, dispatch_src,
}

Sends-weaken :
    {P Q : Outcome Bool → Type 0} (r : Option (Outcome Bool))
    → ((out : Outcome Bool) → P out → Q out)
    → Sends P r
    → Sends Q r
Sends-weaken none f h = h
Sends-weaken (some out) f h = f out h

module _ (E : Env) (handlers : ℕ → Resp.Requested → List Action × Rcode) (o : Objects) (p fd q : ℕ)
    (priv n : FwNode) (info : GetInfo) (at : o.world.nodes p ≡ some priv)
    (is_open : priv.fd ≡ some fd) (names_node : o.world.nodes q ≡ some n)
    (told : E.ioctl o.world.trace (some fd) get_info (info_query p priv) ≡ done info) where
  -- One call of the source that reads a bus reset.
  abbrev pub after_reset : Dispatched
  after_reset =
      dispatch_src E handlers o p (record { readable = true; broken = false })
        (done (record { closure = q; body = bus_reset }))

  after_reset_lem :
      (after_reset.signals ≡ bus_update p ∷ [])
      × (after_reset.objects.world.nodes p ≡ some (with_info E priv info))
      × (after_reset.objects.world.trace
          ≡ ioctl (some fd) get_info (info_query p priv) ∷ o.world.trace)
  unfolding dispatch_src dispatch_event is_node is_bus_reset handle_update update_info
  after_reset_lem = (ground arith, ground arith, ground arith)

  -- With the laws of the lists, on an open node whose source reads a bus reset with a node as the
  -- closure, where the kernel answers `FW_CDEV_IOC_GET_INFO`: the source emits the signal for the
  -- update and no other; and a request after it that passes the guards, with an empty variable for
  -- the error, returns `TRUE`, is sent with the bus generation of the kernel's answer and with what
  -- it was given (the code, the address, the object, the length that passed as a `__u32`, and the
  -- buffer unless the code is one of the two that read), and is kept in front of the requests that
  -- were under way.
  pub request-dispatch_src :
      ListLaws E
      → (req : ℕ) (tcode : Tcode) (addr len : ℕ) (frame : List ℕ) (frame_size sent : ℕ)
      → check tcode addr len frame_size ≡ some sent
      → (after_reset.signals ≡ bus_update p ∷ [])
        × Sends
            (λ out.
              (out.value ≡ true)
              × (out.world.trace
                  ≡ ioctl
                      (some fd)
                      send_request
                      (demanded req tcode addr sent frame info.bus_reset.generation)
                    ∷ ioctl (some fd) get_info (info_query p priv)
                    ∷ o.world.trace)
              × (out.world.nodes p
                  ≡ some
                      (record (with_info E priv info) { transactions = req ∷ priv.transactions })))
            (request E after_reset.objects.world req (some p) tcode addr len frame frame_size empty)
  request-dispatch_src laws req tcode addr len frame frame_size sent passes =
      let (told_all, node, trace) = after_reset_lem in
      (
        told_all,
        Sends-weaken
            (request E after_reset.objects.world req (some p) tcode addr len frame frame_size empty)
            (λ out h. (
              h.0,
              h.1
                  ∙ ap
                      (◌∷◌ (
                        ioctl (some fd) send_request
                          (demanded req tcode addr sent frame info.bus_reset.generation)))
                      trace,
              h.2,
            ))
            (request-Sends E laws after_reset.objects.world req p fd (with_info E priv info) tcode
              addr len frame frame_size sent node is_open passes),
      )
