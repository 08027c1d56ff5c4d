-- ===== src/Payloads/Message/Total.antt =====
-- No decoder of the payloads of messages panics, whatever the bytes.
use chatix_protocol.Base.{
  ℕ, ◌≢◌, arith, List, panic, slice_from, slice_to, length-drop, index-ne-panic,
}
use chatix_protocol.Payloads.Common.{try_into}
use chatix_protocol.Payloads.Common.Total.{decode_sized_string-consumed}
use chatix_protocol.Payloads.Common.Sized.{
  decode_sized_string-ne-panic, decode_sized_bytes-ne-panic,
}
use chatix_protocol.Payloads.Message.{
  decode_send_message, decode_deliver_message, decode_message_status_update,
  decode_delivery_receipt, message_status_from_u8,
}

pub decode_send_message-ne-panic : (bytes : List ℕ) → decode_send_message bytes ≢ panic
unfolding decode_send_message slice_from slice_to try_into
decode_send_message-ne-panic bytes = grind (
  arith, decode_sized_string-ne-panic, decode_sized_string-consumed, decode_sized_bytes-ne-panic,
  length-drop,
)

pub decode_deliver_message-ne-panic : (bytes : List ℕ) → decode_deliver_message bytes ≢ panic
unfolding decode_deliver_message slice_from slice_to try_into
decode_deliver_message-ne-panic bytes = grind (
  arith, decode_sized_string-ne-panic, decode_sized_string-consumed, decode_sized_bytes-ne-panic,
  length-drop,
)

pub decode_message_status_update-ne-panic :
    (bytes : List ℕ) → decode_message_status_update bytes ≢ panic
unfolding decode_message_status_update slice_to try_into message_status_from_u8
decode_message_status_update-ne-panic bytes = grind (arith, length-drop, index-ne-panic)

pub decode_delivery_receipt-ne-panic : (bytes : List ℕ) → decode_delivery_receipt bytes ≢ panic
unfolding decode_delivery_receipt try_into
decode_delivery_receipt-ne-panic bytes = grind (arith, length-drop)
