-- ===== src/Wire/Page.antt =====
-- The page that `hinawa_fw_node_create_source` allocates for events: which data fit, and which the
-- handlers read beyond it.
use libhinawa.Base.{
  ℕ, zero, suc, ◌+◌, ◌-◌, ◌≤◌, ◌≡◌, ◌↔◌, refl, sym, ap, ◌∙◌, drop-all, List, [], ◌∷◌, some, arith,
  length, take, drop, length-drop,
}
use libhinawa.Abi.{
  EventBody, bus_reset, response, response2, request, request2, request3, other, Event,
}
use libhinawa.Wire.{ByteOrder, little, big, Codes, put32, put64, get_event}
use libhinawa.Wire.RoundTrip.{put_body, put_event, BodyFits, Fits, get_event-put_event}

-- `read(2)` into the buffer: what does not fit is discarded, and what is not written stays.
unfoldable pub read_into : List ℕ → List ℕ → List ℕ
read_into [] bytes = []
read_into (b ∷ buf) [] = b ∷ buf
read_into (b ∷ buf) (x ∷ bytes) = x ∷ read_into buf bytes

-- The events with data, the place of the data in their structures, and its length by the member.
abbrev pub HasData : EventBody → Type 0
HasData bus_reset = ⊥
HasData (other type) = ⊥
HasData body = Unit {0}

abbrev pub header_size : EventBody → ℕ
header_size (response e) = 20
header_size (response2 e) = 32
header_size (request e) = 32
header_size (request2 e) = 48
header_size (request3 e) = 56
header_size body = 12

abbrev pub length_of : EventBody → ℕ
length_of (response e) = e.length
length_of (response2 e) = e.length
length_of (request e) = e.length
length_of (request2 e) = e.length
length_of (request3 e) = e.length
length_of body = 0

abbrev pub payload_of : EventBody → List ℕ
payload_of (response e) = e.payload
payload_of (response2 e) = e.payload
payload_of (request e) = e.payload
payload_of (request2 e) = e.payload
payload_of (request3 e) = e.payload
payload_of body = []

abbrev pub with_payload : List ℕ → EventBody → EventBody
with_payload bytes (response e) = response (record e { payload = bytes })
with_payload bytes (response2 e) = response2 (record e { payload = bytes })
with_payload bytes (request e) = request (record e { payload = bytes })
with_payload bytes (request2 e) = request2 (record e { payload = bytes })
with_payload bytes (request3 e) = request3 (record e { payload = bytes })
with_payload bytes body = body

length-read_into : (buf bytes : List ℕ) → length (read_into buf bytes) ≡ length buf
unfolding read_into
length-read_into [] bytes = refl
length-read_into (b ∷ buf) [] = refl
length-read_into (b ∷ buf) (x ∷ bytes) = ap suc (length-read_into buf bytes)

take-read_into :
    (buf bytes : List ℕ) → take (length bytes) (read_into buf bytes) ≡ take (length buf) bytes
unfolding read_into
take-read_into [] [] = refl
take-read_into [] (x ∷ bytes) = refl
take-read_into (b ∷ buf) [] = refl
take-read_into (b ∷ buf) (x ∷ bytes) = ap (◌∷◌ x) (take-read_into buf bytes)

read_into-put32 :
    (order : ByteOrder) (v : ℕ) (buf rest : List ℕ)
    → 4 ≤ length buf
    → read_into buf (put32 order v rest) ≡ put32 order v (read_into (drop 4 buf) rest)
unfolding read_into put32
read_into-put32 little v (a ∷ b ∷ c ∷ d ∷ buf) rest h = refl
read_into-put32 big v (a ∷ b ∷ c ∷ d ∷ buf) rest h = refl
read_into-put32 order v [] rest h = absurd (omega arith)
read_into-put32 order v (a ∷ []) rest h = absurd (omega arith)
read_into-put32 order v (a ∷ b ∷ []) rest h = absurd (omega arith)
read_into-put32 order v (a ∷ b ∷ c ∷ []) rest h = absurd (omega arith)

drop-drop : (m n : ℕ) (xs : List ℕ) → drop n (drop m xs) ≡ drop (m + n) xs
drop-drop zero n xs = ap (λ k. drop k xs) (omega arith)
drop-drop (suc m) n [] = drop-all n [] (omega arith) ∙ sym (drop-all (suc m + n) [] (omega arith))
drop-drop (suc m) n (x ∷ xs) =
    let e : suc (m + n) ≡ suc m + n = omega arith in drop-drop m n xs ∙ ap (λ k. drop k (x ∷ xs)) e

-- A member at the place `k` that the buffer has room for, and what follows it.
put32_at :
    (order : ByteOrder) (k v : ℕ) (buf rest : List ℕ) {rest' : List ℕ}
    → k + 4 ≤ length buf
    → read_into (drop (k + 4) buf) rest ≡ rest'
    → read_into (drop k buf) (put32 order v rest) ≡ put32 order v rest'
put32_at order k v buf rest h e =
    read_into-put32 order v (drop k buf) rest (omega (arith, length-drop k buf))
    ∙ ap (put32 order v) (ap (λ b. read_into b rest) (drop-drop k 4 buf) ∙ e)

put64_at :
    (order : ByteOrder) (k v : ℕ) (buf rest : List ℕ) {rest' : List ℕ}
    → k + 4 + 4 ≤ length buf
    → read_into (drop (k + 4 + 4) buf) rest ≡ rest'
    → read_into (drop k buf) (put64 order v rest) ≡ put64 order v rest'
unfolding put64
put64_at little k v buf rest h e =
    put32_at little k _ buf _ (omega arith) (put32_at little (k + 4) _ buf rest h e)
put64_at big k v buf rest h e =
    put32_at big k _ buf _ (omega arith) (put32_at big (k + 4) _ buf rest h e)

module _ (codes : Codes) (order : ByteOrder) where
  least : (body : EventBody) → 12 ≤ header_size body
  least (response e) = omega arith
  least (response2 e) = omega arith
  least (request e) = omega arith
  least (request2 e) = omega arith
  least (request3 e) = omega arith
  least bus_reset = omega arith
  least (other type) = omega arith

  with_payload-BodyFits :
      (body : EventBody) (bytes : List ℕ)
      → BodyFits codes order body
      → BodyFits codes order (with_payload bytes body)
  with_payload-BodyFits (response e) bytes f = f
  with_payload-BodyFits (response2 e) bytes f = f
  with_payload-BodyFits (request e) bytes f = f
  with_payload-BodyFits (request2 e) bytes f = f
  with_payload-BodyFits (request3 e) bytes f = f
  with_payload-BodyFits bus_reset bytes f = f
  with_payload-BodyFits (other type) bytes f = f

  -- The structure with what is left of the buffer behind the place of its data.
  read_into-put_body :
      (body : EventBody) (buf : List ℕ)
      → HasData body
      → header_size body ≤ length buf
      → read_into (drop 8 buf) (put_body codes order body)
        ≡ put_body codes order
            (with_payload (read_into (drop (header_size body) buf) (payload_of body)) body)
  unfolding put_body
  read_into-put_body bus_reset buf d h = absurd d
  read_into-put_body (other type) buf d h = absurd d
  read_into-put_body (response e) buf d h =
      put32_at order 8 _ buf _ (omega arith)
        (put32_at order 12 _ buf _ (omega arith) (put32_at order 16 _ buf _ (omega arith) refl))
  read_into-put_body (response2 e) buf d h = put32_at order 8 _ buf _ (omega arith) (
      put32_at order 12 _ buf _ (omega arith) (
        put32_at order 16 _ buf _ (omega arith) (
          put32_at order 20 _ buf _ (omega arith) (
            put32_at order 24 _ buf _ (omega arith)
              (put32_at order 28 _ buf _ (omega arith) refl)))))
  read_into-put_body (request e) buf d h = put32_at order 8 _ buf _ (omega arith) (
      put32_at order 12 _ buf _ (omega arith) (
        put64_at order 16 _ buf _ (omega arith)
          (put32_at order 24 _ buf _ (omega arith) (put32_at order 28 _ buf _ (omega arith) refl))))
  read_into-put_body (request2 e) buf d h = put32_at order 8 _ buf _ (omega arith) (
      put32_at order 12 _ buf _ (omega arith) (
        put64_at order 16 _ buf _ (omega arith) (
          put32_at order 24 _ buf _ (omega arith) (
            put32_at order 28 _ buf _ (omega arith) (
              put32_at order 32 _ buf _ (omega arith) (
                put32_at order 36 _ buf _ (omega arith) (
                  put32_at order 40 _ buf _ (omega arith)
                    (put32_at order 44 _ buf _ (omega arith) refl))))))))
  read_into-put_body (request3 e) buf d h = put32_at order 8 _ buf _ (omega arith) (
      put32_at order 12 _ buf _ (omega arith) (
        put64_at order 16 _ buf _ (omega arith) (
          put32_at order 24 _ buf _ (omega arith) (
            put32_at order 28 _ buf _ (omega arith) (
              put32_at order 32 _ buf _ (omega arith) (
                put32_at order 36 _ buf _ (omega arith) (
                  put32_at order 40 _ buf _ (omega arith) (
                    put32_at order 44 _ buf _ (omega arith) (
                      put32_at order 48 _ buf _ (omega arith)
                        (put32_at order 52 _ buf _ (omega arith) refl))))))))))

  -- In either byte order, from a buffer that has room for the members of the structure: what the
  -- dispatcher reads of an event with data is the event, with the bytes behind its members for its
  -- data. They are as many as the buffer has there; the length that the event tells lies within
  -- them exactly if the whole event fits the buffer; and up to that length they are as much of the
  -- data as fits. So of an event that is longer than the buffer, a handler that trusts the length
  -- reads beyond the buffer.
  pub read_into-put_event :
      (e : Event) (buf : List ℕ)
      → Fits codes order e
      → HasData e.body
      → header_size e.body ≤ length buf
      → length (payload_of e.body) ≡ length_of e.body
      → (bytes : List ℕ) × (get_event codes order (read_into buf (put_event codes order e))
          ≡ some (record e { body = with_payload bytes e.body }))
        × (length bytes ≡ length buf - header_size e.body)
        × ((length_of e.body ≤ length bytes) ↔ (header_size e.body + length_of e.body ≤ length buf))
        × (take (length_of e.body) bytes
            ≡ take (length buf - header_size e.body) (payload_of e.body))
  unfolding put_event
  read_into-put_event e buf f d h l =
      let left = drop (header_size e.body) buf in
      let bytes = read_into left (payload_of e.body) in
      let room : length left ≡ length buf - header_size e.body =
        length-drop (header_size e.body) buf in
      let size : length bytes ≡ length buf - header_size e.body =
        length-read_into left (payload_of e.body) ∙ room in
      (
        bytes,
        ap (get_event codes order) (
              put64_at order 0 e.closure buf _ (omega (arith, least e.body))
                (read_into-put_body e.body buf d h))
            ∙ get_event-put_event codes order (record e { body = with_payload bytes e.body })
                (f.0, with_payload-BodyFits e.body bytes f.1),
        size,
        (λ fits. omega (arith, size), λ fits. omega (arith, size)),
        ap (λ n. take n bytes) (sym l)
            ∙ take-read_into left (payload_of e.body)
            ∙ ap (λ n. take n (payload_of e.body)) room,
      )
