-- ===== src/Wire/RoundTrip.antt =====
-- An event that the kernel writes is the event that the dispatcher reads.
use libhinawa.Base.{
  ℕ, ◌/◌, ◌%◌, ◌^◌, ◌<◌, ◌≡◌, ◌≢◌, refl, ap, ◌∙◌, List, [], Option, some, arith, ◌>>=◌,
}
use libhinawa.Enums.{Tcode, Rcode}
use libhinawa.Abi.{
  EventResponse, EventResponse2, EventRequest, EventRequest2, EventRequest3, EventBody, bus_reset,
  response, response2, request, request2, request3, other, Event,
}
use libhinawa.Wire.{
  ByteOrder, little, big, Codes, put32, put64, get32, get64, type_bus_reset, type_response,
  type_request, type_request2, type_request3, type_response2, get_response, get_response2,
  get_request, get_request2, get_request3, get_body, get_event,
}

module _ (codes : Codes) (order : ByteOrder) where
  -- The structure of an event from `type` on, with its data; nothing reads the members of a bus
  -- reset.
  unfoldable pub put_body : EventBody → List ℕ
  put_body bus_reset = put32 order type_bus_reset []
  put_body (response e) =
      put32 order type_response
        (put32 order (codes.rcode_number e.rcode) (put32 order e.length e.payload))
  put_body (response2 e) = put32 order type_response2 (
      put32 order (codes.rcode_number e.rcode) (
        put32 order e.length
          (put32 order e.request_tstamp (put32 order e.response_tstamp (put32 order 0 e.payload)))))
  put_body (request e) = put32 order type_request (
      put32 order (codes.tcode_number e.tcode)
        (put64 order e.offset (put32 order e.handle (put32 order e.length e.payload))))
  put_body (request2 e) = put32 order type_request2 (
      put32 order (codes.tcode_number e.tcode) (
        put64 order e.offset (
          put32 order e.source_node_id (
            put32 order e.destination_node_id (
              put32 order e.card (
                put32 order e.generation
                  (put32 order e.handle (put32 order e.length e.payload))))))))
  put_body (request3 e) = put32 order type_request3 (
      put32 order (codes.tcode_number e.tcode) (
        put64 order e.offset (
          put32 order e.source_node_id (
            put32 order e.destination_node_id (
              put32 order e.card (
                put32 order e.generation (
                  put32 order e.handle
                    (put32 order e.length (put32 order e.tstamp (put32 order 0 e.payload))))))))))
  put_body (other type) = put32 order type []

  unfoldable pub put_event : Event → List ℕ
  put_event e = put64 order e.closure (put_body e.body)

  -- The numbers fit their members, and the codes have numbers.
  abbrev pub HasRcode : Rcode → Type 0
  HasRcode c = (codes.rcode_number c < 2 ^ 32) × (codes.rcode_of (codes.rcode_number c) ≡ c)

  abbrev pub HasTcode : Tcode → Type 0
  HasTcode c = (codes.tcode_number c < 2 ^ 32) × (codes.tcode_of (codes.tcode_number c) ≡ c)

  abbrev pub BodyFits : EventBody → Type 0
  BodyFits bus_reset = Unit {0}
  BodyFits (response e) = HasRcode e.rcode × (e.length < 2 ^ 32)
  BodyFits (response2 e) =
      HasRcode e.rcode
      × (e.length < 2 ^ 32)
      × (e.request_tstamp < 2 ^ 32)
      × (e.response_tstamp < 2 ^ 32)
  BodyFits (request e) =
      HasTcode e.tcode × (e.offset < 2 ^ 64) × (e.handle < 2 ^ 32) × (e.length < 2 ^ 32)
  BodyFits (request2 e) =
      HasTcode e.tcode
      × (e.offset < 2 ^ 64)
      × (e.source_node_id < 2 ^ 32)
      × (e.destination_node_id < 2 ^ 32)
      × (e.card < 2 ^ 32)
      × (e.generation < 2 ^ 32)
      × (e.handle < 2 ^ 32)
      × (e.length < 2 ^ 32)
  BodyFits (request3 e) =
      HasTcode e.tcode
      × (e.offset < 2 ^ 64)
      × (e.source_node_id < 2 ^ 32)
      × (e.destination_node_id < 2 ^ 32)
      × (e.card < 2 ^ 32)
      × (e.generation < 2 ^ 32)
      × (e.handle < 2 ^ 32)
      × (e.length < 2 ^ 32)
      × (e.tstamp < 2 ^ 32)
  BodyFits (other type) =
      (type < 2 ^ 32)
      × (type ≢ type_bus_reset)
      × (type ≢ type_response)
      × (type ≢ type_request)
      × (type ≢ type_request2)
      × (type ≢ type_request3)
      × (type ≢ type_response2)

  abbrev pub Fits : Event → Type 0
  Fits e = (e.closure < 2 ^ 64) × BodyFits e.body

abbrev event_of : ℕ → EventBody → Event
event_of closure body = record { closure = closure; body = body }

get32-put32 :
    (order : ByteOrder) (v : ℕ) (rest : List ℕ)
    → v < 2 ^ 32
    → get32 order (put32 order v rest) ≡ some (v, rest)
unfolding get32 put32
get32-put32 little v rest h = ground arith
get32-put32 big v rest h = ground arith

get64-put64 :
    (order : ByteOrder) (v : ℕ) (rest : List ℕ)
    → v < 2 ^ 64
    → get64 order (put64 order v rest) ≡ some (v, rest)
unfolding get64 put64
get64-put64 little v rest h =
    rw
      (
        get32-put32 little (v % 2 ^ 32) (put32 little (v / 2 ^ 32) rest) (omega arith),
        get32-put32 little (v / 2 ^ 32) rest (omega arith),
      )
      (ap (λ x. some (x, rest)) (omega arith))
get64-put64 big v rest h =
    rw
      (
        get32-put32 big (v / 2 ^ 32) (put32 big (v % 2 ^ 32) rest) (omega arith),
        get32-put32 big (v % 2 ^ 32) rest (omega arith),
      )
      (ap (λ x. some (x, rest)) (omega arith))

module _ (codes : Codes) (order : ByteOrder) where
  get32_next :
      {A : Type 0} (v : ℕ) (rest : List ℕ) (k : ℕ × List ℕ → Option A)
      → v < 2 ^ 32
      → (get32 order (put32 order v rest) >>= k) ≡ k (v, rest)
  get32_next v rest k h = rw (get32-put32 order v rest h) refl

  get64_next :
      {A : Type 0} (v : ℕ) (rest : List ℕ) (k : ℕ × List ℕ → Option A)
      → v < 2 ^ 64
      → (get64 order (put64 order v rest) >>= k) ≡ k (v, rest)
  get64_next v rest k h = rw (get64-put64 order v rest h) refl

  get_response_lem :
      (e : EventResponse)
      → BodyFits codes order (response e)
      → get_response codes order
          (put32 order (codes.rcode_number e.rcode) (put32 order e.length e.payload))
        ≡ some e
  unfolding get_response
  get_response_lem e h =
      get32_next (codes.rcode_number e.rcode) _ _ h.0.0
      ∙ get32_next e.length _ _ h.1
      ∙ ap (λ c. some (record e { rcode = c })) h.0.1

  get_response2_lem :
      (e : EventResponse2)
      → BodyFits codes order (response2 e)
      → get_response2 codes order (
          put32 order (codes.rcode_number e.rcode) (
            put32 order e.length (
              put32 order e.request_tstamp
                (put32 order e.response_tstamp (put32 order 0 e.payload)))))
        ≡ some e
  unfolding get_response2
  get_response2_lem e h =
      get32_next (codes.rcode_number e.rcode) _ _ h.0.0
      ∙ get32_next e.length _ _ h.1
      ∙ get32_next e.request_tstamp _ _ h.2
      ∙ get32_next e.response_tstamp _ _ h.3
      ∙ get32_next 0 _ _ (omega arith)
      ∙ ap (λ c. some (record e { rcode = c })) h.0.1

  get_request_lem :
      (e : EventRequest)
      → BodyFits codes order (request e)
      → get_request codes order (
          put32 order
            (codes.tcode_number e.tcode)
            (put64 order e.offset (put32 order e.handle (put32 order e.length e.payload))))
        ≡ some e
  unfolding get_request
  get_request_lem e h =
      get32_next (codes.tcode_number e.tcode) _ _ h.0.0
      ∙ get64_next e.offset _ _ h.1
      ∙ get32_next e.handle _ _ h.2
      ∙ get32_next e.length _ _ h.3
      ∙ ap (λ c. some (record e { tcode = c })) h.0.1

  get_request2_lem :
      (e : EventRequest2)
      → BodyFits codes order (request2 e)
      → get_request2 codes order (
          put32 order (codes.tcode_number e.tcode) (
            put64 order e.offset (
              put32 order e.source_node_id (
                put32 order e.destination_node_id (
                  put32 order e.card (
                    put32 order e.generation
                      (put32 order e.handle (put32 order e.length e.payload))))))))
        ≡ some e
  unfolding get_request2
  get_request2_lem e h =
      get32_next (codes.tcode_number e.tcode) _ _ h.0.0
      ∙ get64_next e.offset _ _ h.1
      ∙ get32_next e.source_node_id _ _ h.2
      ∙ get32_next e.destination_node_id _ _ h.3
      ∙ get32_next e.card _ _ h.4
      ∙ get32_next e.generation _ _ h.5
      ∙ get32_next e.handle _ _ h.6
      ∙ get32_next e.length _ _ h.7
      ∙ ap (λ c. some (record e { tcode = c })) h.0.1

  get_request3_lem :
      (e : EventRequest3)
      → BodyFits codes order (request3 e)
      → get_request3 codes order (
          put32 order (codes.tcode_number e.tcode) (
            put64 order e.offset (
              put32 order e.source_node_id (
                put32 order e.destination_node_id (
                  put32 order e.card (
                    put32 order e.generation (
                      put32 order e.handle (
                        put32 order e.length
                          (put32 order e.tstamp (put32 order 0 e.payload))))))))))
        ≡ some e
  unfolding get_request3
  get_request3_lem e h =
      get32_next (codes.tcode_number e.tcode) _ _ h.0.0
      ∙ get64_next e.offset _ _ h.1
      ∙ get32_next e.source_node_id _ _ h.2
      ∙ get32_next e.destination_node_id _ _ h.3
      ∙ get32_next e.card _ _ h.4
      ∙ get32_next e.generation _ _ h.5
      ∙ get32_next e.handle _ _ h.6
      ∙ get32_next e.length _ _ h.7
      ∙ get32_next e.tstamp _ _ h.8
      ∙ get32_next 0 _ _ (omega arith)
      ∙ ap (λ c. some (record e { tcode = c })) h.0.1

  get_body-put_body :
      (closure : ℕ) (body : EventBody)
      → BodyFits codes order body
      → (get32 order (put_body codes order body) >>= λ (type, bytes).
          get_body codes order type bytes >>= λ b. some (event_of closure b))
        ≡ some (event_of closure body)
  unfolding put_body get_body
  get_body-put_body closure bus_reset h = get32_next type_bus_reset _ _ (omega arith)
  get_body-put_body closure (response e) h =
      get32_next type_response _ _ (omega arith) ∙ rw (get_response_lem e h) refl
  get_body-put_body closure (response2 e) h =
      get32_next type_response2 _ _ (omega arith) ∙ rw (get_response2_lem e h) refl
  get_body-put_body closure (request e) h =
      get32_next type_request _ _ (omega arith) ∙ rw (get_request_lem e h) refl
  get_body-put_body closure (request2 e) h =
      get32_next type_request2 _ _ (omega arith) ∙ rw (get_request2_lem e h) refl
  get_body-put_body closure (request3 e) h =
      get32_next type_request3 _ _ (omega arith) ∙ rw (get_request3_lem e h) refl
  get_body-put_body closure (other type) h =
      get32_next type _ _ h.0 ∙ ground (arith, h.1, h.2, h.3, h.4, h.5, h.6)

  -- In either byte order: where the numbers of an event fit the members of its structure, and its
  -- codes have numbers, the dispatcher reads from the bytes of the structure and what lies behind
  -- it the event, with what lies behind the structure as its data.
  pub get_event-put_event :
      (e : Event) → Fits codes order e → get_event codes order (put_event codes order e) ≡ some e
  unfolding get_event put_event
  get_event-put_event e h = get64_next e.closure _ _ h.0 ∙ get_body-put_body e.closure e.body h.1
