-- ===== src/Fcp/Requested/Laws.antt =====
-- Which requests are taken for responses of the bound node.
use libhinawa.Base.{
  ℕ, ◌≡◌, refl, Bool, true, false, ◌==◌, none, some, ◌&&◌, ◌||◌, arith, if◌then◌else◌,
}
use libhinawa.Enums.{Tcode}
use libhinawa.Node.{FwNode}
use libhinawa.Resp
use libhinawa.Fcp.{FwFcp}
use libhinawa.Fcp.History.{same_record}
use libhinawa.Fcp.History.Find.{holds_record, detect_record_lem}
use libhinawa.Fcp.History.Ring.{IsValid, insert_record-IsValid, latest, holds-latest}
use libhinawa.Fcp.Requested.{
  current_record, identify, is_response, is_write_block, sender_of, signal_of,
  handle_requested_signal,
}

-- A block write to the FCP response register (of IEC 61883-1) through the card with the number
-- `card`.
abbrev pub is_reply : ℕ → Resp.Requested → Bool
is_reply card signal =
    signal.offset == 0xfffff0000d00
    && elim signal.tcode [ Tcode.write_block_request ↦ true | _ ↦ false ]
    && signal.card_id == card

pub is_response-reply :
    (priv : FwFcp) (signal : Resp.Requested)
    → is_response priv signal ≡ is_reply priv.card_id signal
unfolding is_response is_write_block
is_response-reply priv signal = elim signal.tcode [ Tcode.write_block_request ↦ refl | _ ↦ refl ]

-- With a valid history: the signal for a response is emitted exactly for a block write to the
-- response address of the bound card whose sender is among the latest ten records or is the bound
-- node as it is known now; and the history stays valid.
pub handle_requested_signal_lem :
    (priv : FwFcp) (n : FwNode) (signal : Resp.Requested)
    → IsValid priv.history
    → ((handle_requested_signal priv n signal).1 ≡ (
        if is_response priv signal
          && (holds_record (sender_of signal) (latest priv.history)
              || same_record (sender_of signal) (current_record n))
        then some (signal_of signal)
        else none))
      × IsValid (handle_requested_signal priv n signal).0.history
unfolding handle_requested_signal identify
handle_requested_signal_lem priv n signal v = (
  ground (
    arith,
    detect_record_lem priv.history (sender_of signal) v.ten,
    holds-latest (sender_of signal) priv.history,
  ),
  ground (arith, insert_record-IsValid priv.history (current_record n) v),
)
