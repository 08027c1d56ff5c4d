-- ===== src/Payloads/Queue/RoundTrip.antt =====
-- Queued messages are read back as they were written.
use chatix_protocol.Base.{
  ℕ, ◌+◌, ◌<◌, ◌^◌, ◌≡◌, arith, List, [], ◌++◌, ok, ◌>>=◌, length, length-append, to_be_bytes,
  length-to_be_bytes, from_be_bytes-to_be_bytes, slice_to-append, slice_from-append, slice-append,
  slice_from,
}
use mathlib.Core.List.{append-nil, append_assoc}
use chatix_protocol.Error.{IoError}
use chatix_protocol.Payloads.Common.{try_into, require_fully_consumed}
use chatix_protocol.Payloads.Common.Sized.{
  sized_string, sized_bytes, encode_sized_string-ok, encode_sized_bytes-ok,
  decode_sized_bytes-append, IsSizedString, length-sized_string, decode_sized_string-front,
}
use chatix_protocol.Payloads.Queue.{
  encode_queued_message_delivery, decode_queued_message_delivery, encode_ack_queued_message,
  decode_ack_queued_message,
}

-- The layout of a queued message.
module _ (q m : ℕ) (s c : List ℕ) where
  abbrev delivery : List ℕ
  delivery = to_be_bytes 8 q ++ (to_be_bytes 8 m ++ (sized_string s ++ sized_bytes c))

  delivery-size : length delivery ≡ 16 + (2 + length s) + (4 + length c)
  delivery-size = omega (
    arith,
    length-to_be_bytes 8 q,
    length-to_be_bytes 8 m,
    length-to_be_bytes 4 (length c),
    length-append (to_be_bytes 8 q) (to_be_bytes 8 m ++ (sized_string s ++ sized_bytes c)),
    length-append (to_be_bytes 8 m) (sized_string s ++ sized_bytes c),
    length-sized_string s (sized_bytes c),
    length-append (to_be_bytes 4 (length c)) c,
  )

  delivery-after_ids : slice_from {E = IoError} delivery 16 ≡ ok (sized_string s ++ sized_bytes c)
  delivery-after_ids =
      rw (← append_assoc (to_be_bytes 8 q) (to_be_bytes 8 m) (sized_string s ++ sized_bytes c)) (
        slice_from-append {E = IoError} (to_be_bytes 8 q ++ to_be_bytes 8 m)
          (sized_string s ++ sized_bytes c) 16
          (omega (
            arith,
            length-append (to_be_bytes 8 q) (to_be_bytes 8 m),
            length-to_be_bytes 8 q,
            length-to_be_bytes 8 m,
          )))

  delivery-after_sender :
      slice_from {E = IoError} delivery (16 + (2 + length s)) ≡ ok (sized_bytes c)
  delivery-after_sender = ground (
    arith,
    append_assoc (to_be_bytes 8 q) (to_be_bytes 8 m) (sized_string s ++ sized_bytes c),
    append_assoc (to_be_bytes 8 q ++ to_be_bytes 8 m) (sized_string s) (sized_bytes c),
    slice_from-append {E = IoError} ((to_be_bytes 8 q ++ to_be_bytes 8 m) ++ sized_string s)
        (sized_bytes c) (16 + (2 + length s)),
    length-append (to_be_bytes 8 q ++ to_be_bytes 8 m) (sized_string s),
    length-append (to_be_bytes 8 q) (to_be_bytes 8 m),
    length-sized_string s [],
    append-nil (sized_string s),
    length-to_be_bytes 8 q,
    length-to_be_bytes 8 m,
  )

pub decode_queued_message_delivery_lem :
    (q m : ℕ) (s c : List ℕ)
    → q < 2 ^ 64
    → m < 2 ^ 64
    → IsSizedString s
    → length c < 2 ^ 32
    → (encode_queued_message_delivery
          (record { queue_id = q; message_id = m; sender_id = s; content = c })
        >>= decode_queued_message_delivery)
      ≡ ok (record { queue_id = q; message_id = m; sender_id = s; content = c })
unfolding encode_queued_message_delivery decode_queued_message_delivery require_fully_consumed
    try_into
decode_queued_message_delivery_lem q m s c hq hm v hc =
    let rest : List ℕ = sized_string s ++ sized_bytes c in
    ground (
      arith,
      encode_sized_string-ok s v.short,
      encode_sized_bytes-ok c,
      delivery-size q m s c,
      length-to_be_bytes 8 q,
      length-to_be_bytes 8 m,
      slice_to-append {E = IoError} (to_be_bytes 8 q) (to_be_bytes 8 m ++ rest) 8,
      slice-append {E = IoError} (to_be_bytes 8 q) (to_be_bytes 8 m) rest 8 16,
      delivery-after_ids q m s c,
      delivery-after_sender q m s c,
      decode_sized_string-front s v (sized_bytes c),
      append-nil (sized_bytes c),
      decode_sized_bytes-append c [],
      from_be_bytes-to_be_bytes 8 q,
      from_be_bytes-to_be_bytes 8 m,
      v.short,
    )

pub decode_ack_queued_message_lem :
    (n : ℕ)
    → n < 2 ^ 64
    → decode_ack_queued_message (encode_ack_queued_message (record { queue_id = n }))
      ≡ ok (record { queue_id = n })
unfolding encode_ack_queued_message decode_ack_queued_message try_into
decode_ack_queued_message_lem n h =
    ground (arith, length-to_be_bytes 8 n, from_be_bytes-to_be_bytes 8 n)
