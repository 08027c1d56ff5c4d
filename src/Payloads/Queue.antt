-- ===== src/Payloads/Queue.antt =====
-- src/payloads/queue_payloads.rs: the messages that a server holds for a client that is offline.
pub mod Inverse
pub mod RoundTrip
pub mod Total
use chatix_protocol.Base.{
  ℕ, List, [], ◌++◌, ok, err, ◌>>=◌, ◌>>◌, ok_or, ltb, ◌==◌, if◌then◌else◌, length, slice, slice_to,
  slice_from, to_be_bytes, from_be_bytes,
}
use mathlib.Core.Bool.{not}
use chatix_protocol.Error.{IoResult, data_error, data_error_at}
use chatix_protocol.Payloads.Common.{
  encode_sized_string, decode_sized_string, encode_sized_bytes, decode_sized_bytes, try_into,
  add_usize, checked_sum, require_fully_consumed,
}

-- A payload with no fields is the unit type.
abbrev pub FetchQueuedMessagesPayload : Type 0
FetchQueuedMessagesPayload = Unit {0}

unfoldable pub encode_fetch_queued_messages : FetchQueuedMessagesPayload → List ℕ
encode_fetch_queued_messages p = []

unfoldable pub decode_fetch_queued_messages : List ℕ → IoResult FetchQueuedMessagesPayload
unfolding require_fully_consumed
decode_fetch_queued_messages bytes = do
  require_fully_consumed bytes 0 "fetch_queued_messages"
  ok tt

pub record QueuedMessageDeliveryPayload : Type 0 where
  pub queue_id : ℕ
  pub message_id : ℕ
  pub sender_id : List ℕ
  pub content : List ℕ

unfoldable pub encode_queued_message_delivery : QueuedMessageDeliveryPayload → IoResult (List ℕ)
encode_queued_message_delivery p = do
  sender ← encode_sized_string p.sender_id
  content ← encode_sized_bytes p.content
  ok (to_be_bytes 8 p.queue_id ++ (to_be_bytes 8 p.message_id ++ (sender ++ content)))

unfoldable pub decode_queued_message_delivery : List ℕ → IoResult QueuedMessageDeliveryPayload
unfolding try_into require_fully_consumed
decode_queued_message_delivery bytes = do
  (if ltb (length bytes) 16
      then err (data_error "queued_message_delivery too short for ids")
      else ok tt)
  front ← slice_to bytes 8
  queue_id ← try_into 8 front (data_error "failed to decode queued_message_delivery queue_id")
  second ← slice bytes 8 16
  message_id ← try_into 8 second (data_error "failed to decode queued_message_delivery message_id")
  after_ids ← slice_from bytes 16
  (sender_id, sender_consumed) ← decode_sized_string after_ids
  after_sender ← slice_from bytes (add_usize 16 sender_consumed)
  (content, content_consumed) ← decode_sized_bytes after_sender
  consumed ←
      ok_or (checked_sum 16 sender_consumed content_consumed)
        (data_error "queued_message_delivery length overflow")
  require_fully_consumed bytes consumed "queued_message_delivery"
  ok (record {
    queue_id = from_be_bytes queue_id;
    message_id = from_be_bytes message_id;
    sender_id = sender_id;
    content = content;
  })

pub record AckQueuedMessagePayload : Type 0 where
  pub queue_id : ℕ

unfoldable pub encode_ack_queued_message : AckQueuedMessagePayload → List ℕ
encode_ack_queued_message p = to_be_bytes 8 p.queue_id

unfoldable pub decode_ack_queued_message : List ℕ → IoResult AckQueuedMessagePayload
unfolding try_into
decode_ack_queued_message bytes = do
  (if not (length bytes == 8)
      then err (data_error_at "invalid ack_queued_message length: expected 8, got " (length bytes))
      else ok tt)
  id ← try_into 8 bytes (data_error "failed to decode ack_queued_message queue_id")
  ok (record { queue_id = from_be_bytes id })
