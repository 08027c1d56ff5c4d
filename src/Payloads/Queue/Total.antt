-- ===== src/Payloads/Queue/Total.antt =====
-- No decoder of the payloads of queued messages panics, whatever the bytes.
use chatix_protocol.Base.{ℕ, ◌≢◌, arith, List, panic, slice, slice_from, slice_to, length-drop}
use chatix_protocol.Payloads.Common.{try_into, require_fully_consumed}
use chatix_protocol.Payloads.Common.Total.{decode_sized_string-consumed}
use chatix_protocol.Payloads.Common.Sized.{
  decode_sized_string-ne-panic, decode_sized_bytes-ne-panic,
}
use chatix_protocol.Payloads.Queue.{
  decode_fetch_queued_messages, decode_queued_message_delivery, decode_ack_queued_message,
}

pub decode_fetch_queued_messages-ne-panic :
    (bytes : List ℕ) → decode_fetch_queued_messages bytes ≢ panic
unfolding decode_fetch_queued_messages require_fully_consumed
decode_fetch_queued_messages-ne-panic bytes = grind (arith, length-drop)

pub decode_queued_message_delivery-ne-panic :
    (bytes : List ℕ) → decode_queued_message_delivery bytes ≢ panic
unfolding decode_queued_message_delivery slice_from slice_to slice try_into require_fully_consumed
decode_queued_message_delivery-ne-panic bytes = grind (
  arith, decode_sized_string-ne-panic, decode_sized_string-consumed, decode_sized_bytes-ne-panic,
  length-drop,
)

pub decode_ack_queued_message-ne-panic : (bytes : List ℕ) → decode_ack_queued_message bytes ≢ panic
unfolding decode_ack_queued_message try_into
decode_ack_queued_message-ne-panic bytes = grind (arith, length-drop)
