-- ===== src/Payloads/Message/Inverse.antt =====
-- The payloads of messages: what the decoders accept is what the encoders write.
use chatix_protocol.Base.{
  ℕ, ◌≤◌, ◌≡◌, arith, List, [], ◌∷◌, ◌++◌, ok, AreBytes, IsArray, length, length-append,
  from_be_bytes, Result-cases, inl, inr, slice_to-append, slice_from-append, index-append,
}
use chatix_protocol.Payloads.Message.RoundTrip.{decode_send_message_lem, decode_deliver_message_lem}
use chatix_protocol.Error.{IoError}
use chatix_protocol.Payloads.Common.{
  try_into, decode_sized_string, decode_sized_bytes, encode_sized_bytes,
}
use chatix_protocol.Payloads.Common.Sized.{
  sized_string, IsSizedString, encode_sized_string-ok, decode_sized_string-front,
}
use chatix_protocol.Payloads.Common.Inverse.{
  decode_sized_bytes-ReadBytes, from_be_bytes_small, decode_sized_string-ReadString,
  decode_sized_bytes-whole_inv, to_be_bytes_inv, split_front, length-string_after,
  slice_from-string_after, encoded_inv,
}
use chatix_protocol.PacketType.{
  send_message, deliver_message, message_status_update, delivery_receipt,
}
use chatix_protocol.Payloads.OfType.{IsPayload}
use chatix_protocol.Payloads.Message.{
  SendMessagePayload, encode_send_message, decode_send_message, DeliverMessagePayload,
  encode_deliver_message, decode_deliver_message, MessageStatusUpdatePayload,
  encode_message_status_update, decode_message_status_update, DeliveryReceiptPayload,
  encode_delivery_receipt, decode_delivery_receipt, message_status_from_u8, message_status_as_u8,
}

module _ (id : List ℕ) (id_IsArray : IsArray 8 id) where
  message_status_update_after :
      (after : List ℕ) (p : MessageStatusUpdatePayload)
      → decode_message_status_update (id ++ after) ≡ ok p
      → IsPayload message_status_update p × (encode_message_status_update p ≡ id ++ after)
  unfolding encode_message_status_update decode_message_status_update message_status_from_u8
      message_status_as_u8 try_into IsPayload
  message_status_update_after [] p e = absurd (ground (arith, length-append id [], id_IsArray.size))
  message_status_update_after (b ∷ []) p e =
      let id_read : p.message_id ≡ from_be_bytes id = ground (
        arith,
        length-append id (b ∷ []),
        id_IsArray.size,
        slice_to-append {E = IoError} id (b ∷ []) 8,
        index-append {E = IoError} id b [] 8,
      ) in
      (
        omega (arith, id_read, from_be_bytes_small id id_IsArray.bytes id_IsArray.size),
        ground (
          arith,
          length-append id (b ∷ []),
          id_IsArray.size,
          slice_to-append {E = IoError} id (b ∷ []) 8,
          index-append {E = IoError} id b [] 8,
          to_be_bytes_inv id id_IsArray.bytes,
        ),
      )
  message_status_update_after (b ∷ c ∷ after) p e =
      absurd (ground (arith, length-append id (b ∷ c ∷ after), id_IsArray.size))

message_status_update_long :
    (bytes : List ℕ) (p : MessageStatusUpdatePayload)
    → decode_message_status_update bytes ≡ ok p
    → 8 ≤ length bytes
unfolding decode_message_status_update
message_status_update_long bytes p e = ground arith

pub decode_message_status_update_inv :
    (bytes : List ℕ) (p : MessageStatusUpdatePayload)
    → AreBytes bytes
    → decode_message_status_update bytes ≡ ok p
    → IsPayload message_status_update p × (encode_message_status_update p ≡ bytes)
decode_message_status_update_inv bytes p h e =
    let (id, after, i, a, q) = split_front 8 bytes h (message_status_update_long bytes p e) in
    rw q (message_status_update_after id i after p (rw q at e))

pub decode_delivery_receipt_inv :
    (bytes : List ℕ) (p : DeliveryReceiptPayload)
    → AreBytes bytes
    → decode_delivery_receipt bytes ≡ ok p
    → IsPayload delivery_receipt p × (encode_delivery_receipt p ≡ bytes)
unfolding encode_delivery_receipt decode_delivery_receipt IsPayload try_into
decode_delivery_receipt_inv bytes p h e =
    let size : length bytes ≡ 8 = ground arith in
    let same : p.message_id ≡ from_be_bytes bytes = ground arith in
    (omega (arith, same, from_be_bytes_small bytes h size), grind (arith, to_be_bytes_inv bytes))

module _ (id : List ℕ) (id_IsArray : IsArray 8 id) where
  send_message_content :
      (s rest : List ℕ) (p : SendMessagePayload)
      → IsSizedString s
      → AreBytes rest
      → decode_send_message (id ++ (sized_string s ++ rest)) ≡ ok p
      → (c : List ℕ) × (m : ℕ) × (decode_sized_bytes rest ≡ ok (c, m)) × (length rest ≡ m)
  unfolding decode_send_message try_into
  send_message_content s rest p v h e = elim (Result-cases (decode_sized_bytes rest)) [
    | inl ((c, n), d) ↦
        let (short, q) = decode_sized_bytes-whole_inv rest h d in
        (
          c,
          n,
          d,
          ground (
            arith,
            decode_sized_string-front s v rest,
            v.short,
            slice_to-append {E = IoError} id (sized_string s ++ rest) 8,
            slice_from-append {E = IoError} id (sized_string s ++ rest) 8,
            length-string_after id s rest 8 id_IsArray.size,
            slice_from-string_after id s rest 8 id_IsArray.size,
            id_IsArray.size,
          ),
        )
    | inr f ↦ absurd (
        ground (
          arith,
          decode_sized_string-front s v rest,
          v.short,
          slice_to-append {E = IoError} id (sized_string s ++ rest) 8,
          slice_from-append {E = IoError} id (sized_string s ++ rest) 8,
          length-string_after id s rest 8 id_IsArray.size,
          slice_from-string_after id s rest 8 id_IsArray.size,
          id_IsArray.size,
        ))
  ]

  send_message_read :
      (s rest : List ℕ) (p : SendMessagePayload)
      → IsSizedString s
      → AreBytes rest
      → decode_send_message (id ++ (sized_string s ++ rest)) ≡ ok p
      → IsPayload send_message p × (encode_send_message p ≡ ok (id ++ (sized_string s ++ rest)))
  unfolding encode_send_message IsPayload
  send_message_read s rest p v h e =
      let (c, n, d, whole) = send_message_content s rest p v h e in
      let r = decode_sized_bytes-ReadBytes rest h d in
      let content : encode_sized_bytes c ≡ ok rest =
        (decode_sized_bytes-whole_inv rest h d).1 whole in
      encoded_inv encode_send_message decode_send_message
        (record { message_id = from_be_bytes id; recipient_id = s; content = c }) p
        (id ++ (sized_string s ++ rest)) (IsPayload send_message)
        (from_be_bytes_small id id_IsArray.bytes id_IsArray.size, v, r.short)
        (ground (
          arith,
          encode_sized_string-ok s v.short,
          content,
          to_be_bytes_inv id id_IsArray.bytes id_IsArray.size,
        ))
        (decode_send_message_lem (from_be_bytes id) s c
          (from_be_bytes_small id id_IsArray.bytes id_IsArray.size) v r.short)
        e

  send_message_after :
      (after : List ℕ) (p : SendMessagePayload)
      → AreBytes after
      → decode_send_message (id ++ after) ≡ ok p
      → IsPayload send_message p × (encode_send_message p ≡ ok (id ++ after))
  unfolding decode_send_message try_into
  send_message_after after p h e = elim (Result-cases (decode_sized_string after)) [
    | inl ((s, n), d) ↦
        let r = decode_sized_string-ReadString after h d in
        rw r.split (
          send_message_read s r.rest p (record { text = r.is_text; short = r.short }) r.rest_bytes
            (rw r.split at e))
    | inr f ↦ absurd (
        ground (
          arith,
          slice_to-append {E = IoError} id after 8,
          slice_from-append {E = IoError} id after 8,
          id_IsArray.size,
          length-append id after,
        ))
  ]

send_message_long :
    (bytes : List ℕ) (p : SendMessagePayload) → decode_send_message bytes ≡ ok p → 8 ≤ length bytes
unfolding decode_send_message
send_message_long bytes p e = ground arith

pub decode_send_message_inv :
    (bytes : List ℕ) (p : SendMessagePayload)
    → AreBytes bytes
    → decode_send_message bytes ≡ ok p
    → IsPayload send_message p × (encode_send_message p ≡ ok bytes)
decode_send_message_inv bytes p h e =
    let (id, after, i, a, q) = split_front 8 bytes h (send_message_long bytes p e) in
    rw q (send_message_after id i after p a (rw q at e))

module _ (id : List ℕ) (id_IsArray : IsArray 8 id) where
  deliver_message_content :
      (s rest : List ℕ) (p : DeliverMessagePayload)
      → IsSizedString s
      → AreBytes rest
      → decode_deliver_message (id ++ (sized_string s ++ rest)) ≡ ok p
      → (c : List ℕ) × (m : ℕ) × (decode_sized_bytes rest ≡ ok (c, m)) × (length rest ≡ m)
  unfolding decode_deliver_message try_into
  deliver_message_content s rest p v h e = elim (Result-cases (decode_sized_bytes rest)) [
    | inl ((c, n), d) ↦
        let (short, q) = decode_sized_bytes-whole_inv rest h d in
        (
          c,
          n,
          d,
          ground (
            arith,
            decode_sized_string-front s v rest,
            v.short,
            slice_to-append {E = IoError} id (sized_string s ++ rest) 8,
            slice_from-append {E = IoError} id (sized_string s ++ rest) 8,
            length-string_after id s rest 8 id_IsArray.size,
            slice_from-string_after id s rest 8 id_IsArray.size,
            id_IsArray.size,
          ),
        )
    | inr f ↦ absurd (
        ground (
          arith,
          decode_sized_string-front s v rest,
          v.short,
          slice_to-append {E = IoError} id (sized_string s ++ rest) 8,
          slice_from-append {E = IoError} id (sized_string s ++ rest) 8,
          length-string_after id s rest 8 id_IsArray.size,
          slice_from-string_after id s rest 8 id_IsArray.size,
          id_IsArray.size,
        ))
  ]

  deliver_message_read :
      (s rest : List ℕ) (p : DeliverMessagePayload)
      → IsSizedString s
      → AreBytes rest
      → decode_deliver_message (id ++ (sized_string s ++ rest)) ≡ ok p
      → IsPayload deliver_message p
        × (encode_deliver_message p ≡ ok (id ++ (sized_string s ++ rest)))
  unfolding encode_deliver_message IsPayload
  deliver_message_read s rest p v h e =
      let (c, n, d, whole) = deliver_message_content s rest p v h e in
      let r = decode_sized_bytes-ReadBytes rest h d in
      let content : encode_sized_bytes c ≡ ok rest =
        (decode_sized_bytes-whole_inv rest h d).1 whole in
      encoded_inv encode_deliver_message decode_deliver_message
        (record { message_id = from_be_bytes id; sender_id = s; content = c }) p
        (id ++ (sized_string s ++ rest)) (IsPayload deliver_message)
        (from_be_bytes_small id id_IsArray.bytes id_IsArray.size, v, r.short)
        (ground (
          arith,
          encode_sized_string-ok s v.short,
          content,
          to_be_bytes_inv id id_IsArray.bytes id_IsArray.size,
        ))
        (decode_deliver_message_lem (from_be_bytes id) s c
          (from_be_bytes_small id id_IsArray.bytes id_IsArray.size) v r.short)
        e

  deliver_message_after :
      (after : List ℕ) (p : DeliverMessagePayload)
      → AreBytes after
      → decode_deliver_message (id ++ after) ≡ ok p
      → IsPayload deliver_message p × (encode_deliver_message p ≡ ok (id ++ after))
  unfolding decode_deliver_message try_into
  deliver_message_after after p h e = elim (Result-cases (decode_sized_string after)) [
    | inl ((s, n), d) ↦
        let r = decode_sized_string-ReadString after h d in
        rw r.split (
          deliver_message_read s r.rest p (record { text = r.is_text; short = r.short })
            r.rest_bytes (rw r.split at e))
    | inr f ↦ absurd (
        ground (
          arith,
          slice_to-append {E = IoError} id after 8,
          slice_from-append {E = IoError} id after 8,
          id_IsArray.size,
          length-append id after,
        ))
  ]

deliver_message_long :
    (bytes : List ℕ) (p : DeliverMessagePayload)
    → decode_deliver_message bytes ≡ ok p
    → 8 ≤ length bytes
unfolding decode_deliver_message
deliver_message_long bytes p e = ground arith

pub decode_deliver_message_inv :
    (bytes : List ℕ) (p : DeliverMessagePayload)
    → AreBytes bytes
    → decode_deliver_message bytes ≡ ok p
    → IsPayload deliver_message p × (encode_deliver_message p ≡ ok bytes)
decode_deliver_message_inv bytes p h e =
    let (id, after, i, a, q) = split_front 8 bytes h (deliver_message_long bytes p e) in
    rw q (deliver_message_after id i after p a (rw q at e))
