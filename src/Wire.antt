-- ===== src/Wire.antt =====
-- include/linux/firewire-cdev.h and src/fw_node.c: the events as bytes, in the buffer of the event
-- source. The structures have their members one after the other, without holes before the data.
pub mod RoundTrip
pub mod Page
pub mod Delivery
mod Tests
use libhinawa.Base.{
  ℕ, ◌+◌, ◌*◌, ◌/◌, ◌%◌, ◌^◌, List, [], ◌∷◌, ◌++◌, Option, none, some, ◌==◌, if◌then◌else◌, ◌>>=◌,
  length, take, drop,
}
use libhinawa.Enums.{Tcode, Rcode}
use libhinawa.Abi.{
  EventResponse, EventResponse2, EventRequest, EventRequest2, EventRequest3, EventBody, bus_reset,
  response, response2, request, request2, request3, other, Event,
}

-- How the host orders the bytes of a number.
pub data ByteOrder : Type 0 where
  little big : ByteOrder

-- The numbers of the codes, which stand in linux/firewire-constants.h.
pub record Codes : Type 0 where
  pub tcode_of : ℕ → Tcode
  pub tcode_number : Tcode → ℕ
  pub rcode_of : ℕ → Rcode
  pub rcode_number : Rcode → ℕ

-- A `__u32` before other bytes, and a `__u64`.
unfoldable pub put32 : ByteOrder → ℕ → List ℕ → List ℕ
put32 little v rest = v % 256 ∷ v / 2 ^ 8 % 256 ∷ v / 2 ^ 16 % 256 ∷ v / 2 ^ 24 ∷ rest
put32 big v rest = v / 2 ^ 24 ∷ v / 2 ^ 16 % 256 ∷ v / 2 ^ 8 % 256 ∷ v % 256 ∷ rest

unfoldable pub put64 : ByteOrder → ℕ → List ℕ → List ℕ
put64 little v rest = put32 little (v % 2 ^ 32) (put32 little (v / 2 ^ 32) rest)
put64 big v rest = put32 big (v / 2 ^ 32) (put32 big (v % 2 ^ 32) rest)

-- What is read from the first bytes, with the bytes behind; none is a read beyond the buffer.
unfoldable pub get32 : ByteOrder → List ℕ → Option (ℕ × List ℕ)
get32 little (a ∷ b ∷ c ∷ d ∷ rest) = some (a + b * 2 ^ 8 + c * 2 ^ 16 + d * 2 ^ 24, rest)
get32 big (a ∷ b ∷ c ∷ d ∷ rest) = some (d + c * 2 ^ 8 + b * 2 ^ 16 + a * 2 ^ 24, rest)
get32 order _ = none

unfoldable pub get64 : ByteOrder → List ℕ → Option (ℕ × List ℕ)
get64 little bytes = do
  (low, rest) ← get32 little bytes
  (high, rest') ← get32 little rest
  some (low + high * 2 ^ 32, rest')
get64 big bytes = do
  (high, rest) ← get32 big bytes
  (low, rest') ← get32 big rest
  some (low + high * 2 ^ 32, rest')

-- `FW_CDEV_EVENT_*`
abbrev pub type_bus_reset : ℕ
type_bus_reset = 0x00

abbrev pub type_response : ℕ
type_response = 0x01

abbrev pub type_request : ℕ
type_request = 0x02

abbrev pub type_request2 : ℕ
type_request2 = 0x06

abbrev pub type_request3 : ℕ
type_request3 = 0x0a

abbrev pub type_response2 : ℕ
type_response2 = 0x0b

module _ (codes : Codes) (order : ByteOrder) where
  -- The members of each structure behind `type`; the data are all bytes from `data` on.
  unfoldable pub get_response : List ℕ → Option EventResponse
  get_response bytes = do
    (rcode, bytes) ← get32 order bytes
    (length, payload) ← get32 order bytes
    some (record { rcode = codes.rcode_of rcode; length = length; payload = payload })

  unfoldable pub get_response2 : List ℕ → Option EventResponse2
  get_response2 bytes = do
    (rcode, bytes) ← get32 order bytes
    (length, bytes) ← get32 order bytes
    (request_tstamp, bytes) ← get32 order bytes
    (response_tstamp, bytes) ← get32 order bytes
    (padding, payload) ← get32 order bytes
    some (record {
      rcode = codes.rcode_of rcode;
      length = length;
      request_tstamp = request_tstamp;
      response_tstamp = response_tstamp;
      payload = payload;
    })

  unfoldable pub get_request : List ℕ → Option EventRequest
  get_request bytes = do
    (tcode, bytes) ← get32 order bytes
    (offset, bytes) ← get64 order bytes
    (handle, bytes) ← get32 order bytes
    (length, payload) ← get32 order bytes
    some (record {
      tcode = codes.tcode_of tcode;
      offset = offset;
      handle = handle;
      length = length;
      payload = payload;
    })

  unfoldable pub get_request2 : List ℕ → Option EventRequest2
  get_request2 bytes = do
    (tcode, bytes) ← get32 order bytes
    (offset, bytes) ← get64 order bytes
    (source_node_id, bytes) ← get32 order bytes
    (destination_node_id, bytes) ← get32 order bytes
    (card, bytes) ← get32 order bytes
    (generation, bytes) ← get32 order bytes
    (handle, bytes) ← get32 order bytes
    (length, payload) ← get32 order bytes
    some (record {
      tcode = codes.tcode_of tcode;
      offset = offset;
      source_node_id = source_node_id;
      destination_node_id = destination_node_id;
      card = card;
      generation = generation;
      handle = handle;
      length = length;
      payload = payload;
    })

  unfoldable pub get_request3 : List ℕ → Option EventRequest3
  get_request3 bytes = do
    (tcode, bytes) ← get32 order bytes
    (offset, bytes) ← get64 order bytes
    (source_node_id, bytes) ← get32 order bytes
    (destination_node_id, bytes) ← get32 order bytes
    (card, bytes) ← get32 order bytes
    (generation, bytes) ← get32 order bytes
    (handle, bytes) ← get32 order bytes
    (length, bytes) ← get32 order bytes
    (tstamp, bytes) ← get32 order bytes
    (padding, payload) ← get32 order bytes
    some (record {
      tcode = codes.tcode_of tcode;
      offset = offset;
      source_node_id = source_node_id;
      destination_node_id = destination_node_id;
      card = card;
      generation = generation;
      handle = handle;
      length = length;
      tstamp = tstamp;
      payload = payload;
    })

  -- The member of the union for a type that the dispatcher knows.
  unfoldable pub get_body : ℕ → List ℕ → Option EventBody
  get_body type bytes =
      if type == type_bus_reset
      then some bus_reset
      else if type == type_response
      then get_response bytes >>= (λ e. some (response e))
      else if type == type_response2
      then get_response2 bytes >>= (λ e. some (response2 e))
      else if type == type_request
      then get_request bytes >>= (λ e. some (request e))
      else if type == type_request2
      then get_request2 bytes >>= (λ e. some (request2 e))
      else if type == type_request3
      then get_request3 bytes >>= (λ e. some (request3 e))
      else some (other type)

  -- `event = (const union fw_cdev_event *)src->buf`, as `dispatch_src` reads it.
  unfoldable pub get_event : List ℕ → Option Event
  get_event bytes = do
    (closure, bytes) ← get64 order bytes
    (type, bytes) ← get32 order bytes
    body ← get_body type bytes
    some (record { closure = closure; body = body })
