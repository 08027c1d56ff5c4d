-- ===== src/Payloads/Queue/Inverse.antt =====
-- The payloads of the messages that a server holds: what the decoders accept is what the encoders write.
use chatix_protocol.Base.{
  ℕ, ◌+◌, ◌≤◌, ◌≡◌, ap, arith, List, ◌++◌, ok, AreBytes, IsArray, length, slice_from, length-append,
  from_be_bytes, Result-cases, inl, inr, slice_to-append, slice_from-append, slice-append,
}
use chatix_protocol.Payloads.Queue.RoundTrip.{decode_queued_message_delivery_lem}
use mathlib.Core.List.{append_assoc}
use chatix_protocol.Error.{IoError}
use chatix_protocol.Payloads.Common.{
  try_into, require_fully_consumed, decode_sized_string, decode_sized_bytes, encode_sized_bytes,
}
use chatix_protocol.Payloads.Common.Sized.{
  sized_string, IsSizedString, encode_sized_string-ok, decode_sized_string-front,
}
use chatix_protocol.Payloads.Common.Inverse.{
  decode_sized_bytes-ReadBytes, from_be_bytes_small, decode_sized_string-ReadString,
  decode_sized_bytes-whole_inv, to_be_bytes_inv, split_front, length-string_after,
  slice_from-string_after, encoded_inv,
}
use chatix_protocol.PacketType.{fetch_queued_messages, queued_message_delivery, ack_queued_message}
use chatix_protocol.Payloads.OfType.{IsPayload}
use chatix_protocol.Payloads.Queue.{
  FetchQueuedMessagesPayload, encode_fetch_queued_messages, decode_fetch_queued_messages,
  QueuedMessageDeliveryPayload, encode_queued_message_delivery, decode_queued_message_delivery,
  AckQueuedMessagePayload, encode_ack_queued_message, decode_ack_queued_message,
}

pub decode_fetch_queued_messages_inv :
    (bytes : List ℕ) (p : FetchQueuedMessagesPayload)
    → AreBytes bytes
    → decode_fetch_queued_messages bytes ≡ ok p
    → IsPayload fetch_queued_messages p × (encode_fetch_queued_messages p ≡ bytes)
unfolding encode_fetch_queued_messages decode_fetch_queued_messages IsPayload require_fully_consumed
decode_fetch_queued_messages_inv bytes p h e = (tt, grind (arith))

pub decode_ack_queued_message_inv :
    (bytes : List ℕ) (p : AckQueuedMessagePayload)
    → AreBytes bytes
    → decode_ack_queued_message bytes ≡ ok p
    → IsPayload ack_queued_message p × (encode_ack_queued_message p ≡ bytes)
unfolding encode_ack_queued_message decode_ack_queued_message IsPayload try_into
decode_ack_queued_message_inv bytes p h e =
    let size : length bytes ≡ 8 = ground arith in
    let same : p.queue_id ≡ from_be_bytes bytes = ground arith in
    (omega (arith, same, from_be_bytes_small bytes h size), grind (arith, to_be_bytes_inv bytes))

module _ (first second : List ℕ) (first_IsArray : IsArray 8 first)
    (second_IsArray : IsArray 8 second) where
  ids_front : (after : List ℕ) → slice_from {E = IoError} (first ++ (second ++ after)) 16 ≡ ok after
  ids_front after = rw (← append_assoc first second after) (
      slice_from-append (first ++ second) after 16
        (omega (arith, length-append first second, first_IsArray.size, second_IsArray.size)))

  ids_rest :
      (s rest : List ℕ)
      → slice_from {E = IoError}
          (first ++ (second ++ (sized_string s ++ rest)))
          (16 + (2 + length s))
        ≡ ok rest
  ids_rest s rest = rw (← append_assoc first second (sized_string s ++ rest)) (
      slice_from-string_after (first ++ second) s rest 16
        (omega (arith, length-append first second, first_IsArray.size, second_IsArray.size)))

  ids_length :
      (s rest : List ℕ)
      → length (first ++ (second ++ (sized_string s ++ rest))) ≡ 16 + (2 + length s) + length rest
  ids_length s rest = rw (← append_assoc first second (sized_string s ++ rest)) (
      length-string_after (first ++ second) s rest 16
        (omega (arith, length-append first second, first_IsArray.size, second_IsArray.size)))

module _ (first second : List ℕ) (first_IsArray : IsArray 8 first)
    (second_IsArray : IsArray 8 second) where
  queued_message_delivery_content :
      (s rest : List ℕ) (p : QueuedMessageDeliveryPayload)
      → IsSizedString s
      → AreBytes rest
      → decode_queued_message_delivery (first ++ (second ++ (sized_string s ++ rest))) ≡ ok p
      → (c : List ℕ) × (m : ℕ) × (decode_sized_bytes rest ≡ ok (c, m)) × (length rest ≡ m)
  unfolding decode_queued_message_delivery try_into require_fully_consumed
  queued_message_delivery_content s rest p v h e = elim (Result-cases (decode_sized_bytes rest)) [
    | inl ((c, n), d) ↦
        let (short, q) = decode_sized_bytes-whole_inv rest h d in
        (
          c,
          n,
          d,
          ground (
            arith,
            decode_sized_string-front s v rest,
            v.short,
            slice_to-append {E = IoError} first (second ++ (sized_string s ++ rest)) 8,
            slice-append {E = IoError} first second (sized_string s ++ rest) 8 16,
            ids_front first second first_IsArray second_IsArray (sized_string s ++ rest),
            ids_rest first second first_IsArray second_IsArray s rest,
            ids_length first second first_IsArray second_IsArray s rest,
            first_IsArray.size,
            second_IsArray.size,
          ),
        )
    | inr f ↦ absurd (
        ground (
          arith,
          decode_sized_string-front s v rest,
          v.short,
          slice_to-append {E = IoError} first (second ++ (sized_string s ++ rest)) 8,
          slice-append {E = IoError} first second (sized_string s ++ rest) 8 16,
          ids_front first second first_IsArray second_IsArray (sized_string s ++ rest),
          ids_rest first second first_IsArray second_IsArray s rest,
          ids_length first second first_IsArray second_IsArray s rest,
          first_IsArray.size,
          second_IsArray.size,
        ))
  ]

  queued_message_delivery_read :
      (s rest : List ℕ) (p : QueuedMessageDeliveryPayload)
      → IsSizedString s
      → AreBytes rest
      → decode_queued_message_delivery (first ++ (second ++ (sized_string s ++ rest))) ≡ ok p
      → IsPayload queued_message_delivery p
        × (encode_queued_message_delivery p ≡ ok (first ++ (second ++ (sized_string s ++ rest))))
  unfolding encode_queued_message_delivery IsPayload
  queued_message_delivery_read s rest p v h e =
      let (c, n, d, whole) = queued_message_delivery_content s rest p v h e in
      let r = decode_sized_bytes-ReadBytes rest h d in
      let content : encode_sized_bytes c ≡ ok rest =
        (decode_sized_bytes-whole_inv rest h d).1 whole in
      encoded_inv encode_queued_message_delivery decode_queued_message_delivery
        (record {
          queue_id = from_be_bytes first;
          message_id = from_be_bytes second;
          sender_id = s;
          content = c;
        })
        p (first ++ (second ++ (sized_string s ++ rest))) (IsPayload queued_message_delivery)
        (
          from_be_bytes_small first first_IsArray.bytes first_IsArray.size,
          from_be_bytes_small second second_IsArray.bytes second_IsArray.size,
          v,
          r.short,
        )
        (ground (
          arith,
          encode_sized_string-ok s v.short,
          content,
          to_be_bytes_inv first first_IsArray.bytes first_IsArray.size,
          to_be_bytes_inv second second_IsArray.bytes second_IsArray.size,
        ))
        (decode_queued_message_delivery_lem (from_be_bytes first) (from_be_bytes second) s c
          (from_be_bytes_small first first_IsArray.bytes first_IsArray.size)
          (from_be_bytes_small second second_IsArray.bytes second_IsArray.size) v r.short)
        e

  queued_message_delivery_after :
      (after : List ℕ) (p : QueuedMessageDeliveryPayload)
      → AreBytes after
      → decode_queued_message_delivery (first ++ (second ++ after)) ≡ ok p
      → IsPayload queued_message_delivery p
        × (encode_queued_message_delivery p ≡ ok (first ++ (second ++ after)))
  unfolding decode_queued_message_delivery try_into require_fully_consumed
  queued_message_delivery_after after p h e = elim (Result-cases (decode_sized_string after)) [
    | inl ((s, n), d) ↦
        let r = decode_sized_string-ReadString after h d in
        rw r.split (
          queued_message_delivery_read s r.rest p (record { text = r.is_text; short = r.short })
            r.rest_bytes (rw r.split at e))
    | inr f ↦ absurd (
        ground (
          arith,
          slice_to-append {E = IoError} first (second ++ after) 8,
          slice-append {E = IoError} first second after 8 16,
          ids_front first second first_IsArray second_IsArray after,
          first_IsArray.size,
          second_IsArray.size,
        ))
  ]

queued_message_delivery_long :
    (bytes : List ℕ) (p : QueuedMessageDeliveryPayload)
    → decode_queued_message_delivery bytes ≡ ok p
    → 16 ≤ length bytes
unfolding decode_queued_message_delivery
queued_message_delivery_long bytes p e = ground arith

pub decode_queued_message_delivery_inv :
    (bytes : List ℕ) (p : QueuedMessageDeliveryPayload)
    → AreBytes bytes
    → decode_queued_message_delivery bytes ≡ ok p
    → IsPayload queued_message_delivery p × (encode_queued_message_delivery p ≡ ok bytes)
decode_queued_message_delivery_inv bytes p h e =
    let long = queued_message_delivery_long bytes p e in
    let (first, others, i, a, q) = split_front 8 bytes h (omega arith) in
    let (second, after, j, b, r) =
      split_front 8 others a (omega (arith, ap length q, length-append first others, i.size)) in
    let whole : bytes ≡ first ++ (second ++ after) = rw r at q in
    rw whole (queued_message_delivery_after first second i j after p b (rw whole at e))
