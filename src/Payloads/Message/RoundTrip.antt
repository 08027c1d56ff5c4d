-- ===== src/Payloads/Message/RoundTrip.antt =====
-- Messages and their status are read back as they were written.
use chatix_protocol.Base.{
  ℕ, ◌+◌, ◌<◌, ◌^◌, ◌≡◌, refl, arith, List, [], ◌∷◌, ◌++◌, ok, ◌>>=◌, length, length-append,
  to_be_bytes, length-to_be_bytes, from_be_bytes-to_be_bytes, slice_to-append, slice_from-append,
  index-append, slice_from,
}
use mathlib.Core.List.{append-nil, append_assoc}
use chatix_protocol.Error.{IoError}
use chatix_protocol.Payloads.Common.{try_into}
use chatix_protocol.Payloads.Common.Sized.{
  sized_string, sized_bytes, encode_sized_string-ok, encode_sized_bytes-ok,
  decode_sized_bytes-append, IsSizedString, length-sized_string, decode_sized_string-front,
}
use chatix_protocol.Payloads.Message.{
  encode_send_message, decode_send_message, encode_deliver_message, decode_deliver_message,
  MessageStatus, sent_to_server, delivered, failed, message_status_as_u8, message_status_from_u8,
  encode_message_status_update, decode_message_status_update, encode_delivery_receipt,
  decode_delivery_receipt,
}

-- The layout of a message.
module _ (m : ℕ) (s c : List ℕ) where
  abbrev message : List ℕ
  message = to_be_bytes 8 m ++ (sized_string s ++ sized_bytes c)

  message-size : length message ≡ 8 + (2 + length s) + (4 + length c)
  message-size = omega (
    arith,
    length-to_be_bytes 8 m,
    length-to_be_bytes 4 (length c),
    length-append (to_be_bytes 8 m) (sized_string s ++ sized_bytes c),
    length-sized_string s (sized_bytes c),
    length-append (to_be_bytes 4 (length c)) c,
  )

  message-after_name : slice_from {E = IoError} message (8 + (2 + length s)) ≡ ok (sized_bytes c)
  message-after_name = ground (
    arith,
    append_assoc (to_be_bytes 8 m) (sized_string s) (sized_bytes c),
    slice_from-append {E = IoError} (to_be_bytes 8 m ++ sized_string s) (sized_bytes c)
        (8 + (2 + length s)),
    length-append (to_be_bytes 8 m) (sized_string s),
    length-sized_string s [],
    append-nil (sized_string s),
    length-to_be_bytes 8 m,
  )

pub decode_send_message_lem :
    (m : ℕ) (s c : List ℕ)
    → m < 2 ^ 64
    → IsSizedString s
    → length c < 2 ^ 32
    → (encode_send_message (record { message_id = m; recipient_id = s; content = c })
        >>= decode_send_message)
      ≡ ok (record { message_id = m; recipient_id = s; content = c })
unfolding encode_send_message decode_send_message try_into
decode_send_message_lem m s c hm v hc = ground (
  arith,
  encode_sized_string-ok s v.short,
  encode_sized_bytes-ok c,
  message-size m s c,
  length-to_be_bytes 8 m,
  slice_to-append {E = IoError} (to_be_bytes 8 m) (sized_string s ++ sized_bytes c) 8,
  slice_from-append {E = IoError} (to_be_bytes 8 m) (sized_string s ++ sized_bytes c) 8,
  message-after_name m s c,
  decode_sized_string-front s v (sized_bytes c),
  append-nil (sized_bytes c),
  decode_sized_bytes-append c [],
  from_be_bytes-to_be_bytes 8 m,
  v.short,
)

pub decode_deliver_message_lem :
    (m : ℕ) (s c : List ℕ)
    → m < 2 ^ 64
    → IsSizedString s
    → length c < 2 ^ 32
    → (encode_deliver_message (record { message_id = m; sender_id = s; content = c })
        >>= decode_deliver_message)
      ≡ ok (record { message_id = m; sender_id = s; content = c })
unfolding encode_deliver_message decode_deliver_message try_into
decode_deliver_message_lem m s c hm v hc = ground (
  arith,
  encode_sized_string-ok s v.short,
  encode_sized_bytes-ok c,
  message-size m s c,
  length-to_be_bytes 8 m,
  slice_to-append {E = IoError} (to_be_bytes 8 m) (sized_string s ++ sized_bytes c) 8,
  slice_from-append {E = IoError} (to_be_bytes 8 m) (sized_string s ++ sized_bytes c) 8,
  message-after_name m s c,
  decode_sized_string-front s v (sized_bytes c),
  append-nil (sized_bytes c),
  decode_sized_bytes-append c [],
  from_be_bytes-to_be_bytes 8 m,
  v.short,
)

message_status_from_u8_lem :
    (x : MessageStatus) → message_status_from_u8 (message_status_as_u8 x) ≡ ok x
unfolding message_status_from_u8 message_status_as_u8
message_status_from_u8_lem sent_to_server = refl
message_status_from_u8_lem delivered = refl
message_status_from_u8_lem failed = refl

pub decode_message_status_update_lem :
    (m : ℕ) (x : MessageStatus)
    → m < 2 ^ 64
    → decode_message_status_update
        (encode_message_status_update (record { message_id = m; status = x }))
      ≡ ok (record { message_id = m; status = x })
unfolding encode_message_status_update decode_message_status_update try_into message_status_from_u8
decode_message_status_update_lem m x h = ground (
  arith,
  message_status_from_u8_lem x,
  length-to_be_bytes 8 m,
  length-append (to_be_bytes 8 m) (message_status_as_u8 x ∷ []),
  slice_to-append {E = IoError} (to_be_bytes 8 m) (message_status_as_u8 x ∷ []) 8,
  index-append {E = IoError} (to_be_bytes 8 m) (message_status_as_u8 x) [] 8,
  from_be_bytes-to_be_bytes 8 m,
)

pub decode_delivery_receipt_lem :
    (n : ℕ)
    → n < 2 ^ 64
    → decode_delivery_receipt (encode_delivery_receipt (record { message_id = n }))
      ≡ ok (record { message_id = n })
unfolding encode_delivery_receipt decode_delivery_receipt try_into
decode_delivery_receipt_lem n h =
    ground (arith, length-to_be_bytes 8 n, from_be_bytes-to_be_bytes 8 n)
