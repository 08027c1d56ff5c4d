-- ===== src/Payloads/Message.antt =====
-- src/payloads/message_payloads.rs: messages, their delivery and its status.
pub mod Inverse
pub mod RoundTrip
pub mod Total
use mathlib.Core.Bool.{not}
use chatix_protocol.Base.{
  ℕ, List, [], ◌∷◌, ◌++◌, ok, err, ◌>>=◌, ◌>>◌, ok_or, Option, none, some, ltb, ◌==◌, if◌then◌else◌,
  length, index, slice_to, slice_from, to_be_bytes, from_be_bytes, checked_add,
}
use chatix_protocol.Error.{IoResult, data_error, data_error_at}
use chatix_protocol.Payloads.Common.{
  encode_sized_string, decode_sized_string, encode_sized_bytes, decode_sized_bytes, try_into,
  add_usize, checked_sum,
}

pub record SendMessagePayload : Type 0 where
  pub message_id : ℕ
  pub recipient_id : List ℕ
  pub content : List ℕ

unfoldable pub encode_send_message : SendMessagePayload → IoResult (List ℕ)
encode_send_message p = do
  recipient ← encode_sized_string p.recipient_id
  content ← encode_sized_bytes p.content
  ok (to_be_bytes 8 p.message_id ++ (recipient ++ content))

unfoldable pub decode_send_message : List ℕ → IoResult SendMessagePayload
unfolding try_into
decode_send_message bytes = do
  (if ltb (length bytes) 8 then err (data_error "send_message too short for message_id") else ok tt)
  front ← slice_to bytes 8
  id ← try_into 8 front (data_error "failed to decode send_message message_id")
  after_id ← slice_from bytes 8
  (recipient_id, recipient_consumed) ← decode_sized_string after_id
  after_recipient ← slice_from bytes (add_usize 8 recipient_consumed)
  (content, content_consumed) ← decode_sized_bytes after_recipient
  consumed ←
      ok_or (checked_sum 8 recipient_consumed content_consumed)
        (data_error "send_message length overflow")
  (if not (length bytes == consumed)
      then err (data_error "send_message payload length mismatch")
      else ok tt)
  ok (record { message_id = from_be_bytes id; recipient_id = recipient_id; content = content })

pub record DeliverMessagePayload : Type 0 where
  pub message_id : ℕ
  pub sender_id : List ℕ
  pub content : List ℕ

unfoldable pub encode_deliver_message : DeliverMessagePayload → IoResult (List ℕ)
encode_deliver_message p = do
  sender ← encode_sized_string p.sender_id
  content ← encode_sized_bytes p.content
  ok (to_be_bytes 8 p.message_id ++ (sender ++ content))

unfoldable pub decode_deliver_message : List ℕ → IoResult DeliverMessagePayload
unfolding try_into
decode_deliver_message bytes = do
  (if ltb (length bytes) 8
      then err (data_error "deliver_message too short for message_id")
      else ok tt)
  front ← slice_to bytes 8
  id ← try_into 8 front (data_error "failed to decode deliver_message message_id")
  after_id ← slice_from bytes 8
  (sender_id, sender_consumed) ← decode_sized_string after_id
  after_sender ← slice_from bytes (add_usize 8 sender_consumed)
  (content, content_consumed) ← decode_sized_bytes after_sender
  consumed ←
      ok_or (checked_sum 8 sender_consumed content_consumed)
        (data_error "deliver_message length overflow")
  (if not (length bytes == consumed)
      then err (data_error "deliver_message payload length mismatch")
      else ok tt)
  ok (record { message_id = from_be_bytes id; sender_id = sender_id; content = content })

pub data MessageStatus : Type 0 where
  sent_to_server delivered failed : MessageStatus

-- `self.status as u8`
unfoldable pub message_status_as_u8 : MessageStatus → ℕ
message_status_as_u8 sent_to_server = 0
message_status_as_u8 delivered = 1
message_status_as_u8 failed = 2

unfoldable pub message_status_from_u8 : ℕ → IoResult MessageStatus
message_status_from_u8 v =
    if v == 0
    then ok sent_to_server
    else if v == 1
    then ok delivered
    else if v == 2
    then ok failed
    else err (data_error "unknown message_status value")

pub record MessageStatusUpdatePayload : Type 0 where
  pub message_id : ℕ
  pub status : MessageStatus

unfoldable pub encode_message_status_update : MessageStatusUpdatePayload → List ℕ
unfolding message_status_as_u8
encode_message_status_update p = to_be_bytes 8 p.message_id ++ message_status_as_u8 p.status ∷ []

unfoldable pub decode_message_status_update : List ℕ → IoResult MessageStatusUpdatePayload
unfolding try_into message_status_from_u8
decode_message_status_update bytes = do
  (if not (length bytes == 9)
      then err (data_error_at "message_status_update must be 9 bytes, got " (length bytes))
      else ok tt)
  front ← slice_to bytes 8
  id ← try_into 8 front (data_error "failed to decode message_status_update message_id")
  byte ← index bytes 8
  status ← message_status_from_u8 byte
  ok (record { message_id = from_be_bytes id; status = status })

pub record DeliveryReceiptPayload : Type 0 where
  pub message_id : ℕ

unfoldable pub encode_delivery_receipt : DeliveryReceiptPayload → List ℕ
encode_delivery_receipt p = to_be_bytes 8 p.message_id

unfoldable pub decode_delivery_receipt : List ℕ → IoResult DeliveryReceiptPayload
unfolding try_into
decode_delivery_receipt bytes = do
  (if not (length bytes == 8)
      then err (data_error_at "delivery_receipt must be 8 bytes, got " (length bytes))
      else ok tt)
  id ← try_into 8 bytes (data_error "failed to decode delivery_receipt message_id")
  ok (record { message_id = from_be_bytes id })
