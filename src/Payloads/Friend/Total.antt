-- ===== src/Payloads/Friend/Total.antt =====
-- No decoder of the payloads of friends panics, whatever the bytes.
use chatix_protocol.Base.{
  ℕ, ◌≢◌, arith, List, panic, slice, slice_from, length-drop, index-ne-panic,
}
use chatix_protocol.Payloads.Common.{try_into, require_fully_consumed, decode_bool}
use chatix_protocol.Payloads.Common.Total.{decode_sized_string-consumed}
use chatix_protocol.Payloads.Common.Sized.{decode_sized_string-ne-panic}
use chatix_protocol.Payloads.Friend.{
  decode_send_friend_request, decode_friend_request_result, decode_incoming_friend_request,
  decode_friend_request_decision, decode_remove_friend, decode_remove_friend_result,
  decode_friend_removed_notification, decode_friend_status_update, decode_send_typing_indicator,
  friend_request_status_from_u8, remove_friend_status_from_u8, friend_status_from_u8,
}

pub decode_send_friend_request-ne-panic :
    (bytes : List ℕ) → decode_send_friend_request bytes ≢ panic
unfolding decode_send_friend_request require_fully_consumed
decode_send_friend_request-ne-panic bytes =
    grind (arith, decode_sized_string-ne-panic, decode_sized_string-consumed, length-drop)

pub decode_friend_request_result-ne-panic :
    (bytes : List ℕ) → decode_friend_request_result bytes ≢ panic
unfolding decode_friend_request_result friend_request_status_from_u8
decode_friend_request_result-ne-panic bytes = grind (arith, length-drop, index-ne-panic)

pub decode_incoming_friend_request-ne-panic :
    (bytes : List ℕ) → decode_incoming_friend_request bytes ≢ panic
unfolding decode_incoming_friend_request require_fully_consumed
decode_incoming_friend_request-ne-panic bytes =
    grind (arith, decode_sized_string-ne-panic, decode_sized_string-consumed, length-drop)

pub decode_friend_request_decision-ne-panic :
    (bytes : List ℕ) → decode_friend_request_decision bytes ≢ panic
unfolding decode_friend_request_decision decode_bool
decode_friend_request_decision-ne-panic bytes =
    grind (
      arith, decode_sized_string-ne-panic, decode_sized_string-consumed, length-drop,
      index-ne-panic,
    )

pub decode_remove_friend-ne-panic : (bytes : List ℕ) → decode_remove_friend bytes ≢ panic
unfolding decode_remove_friend require_fully_consumed
decode_remove_friend-ne-panic bytes =
    grind (arith, decode_sized_string-ne-panic, decode_sized_string-consumed, length-drop)

pub decode_remove_friend_result-ne-panic :
    (bytes : List ℕ) → decode_remove_friend_result bytes ≢ panic
unfolding decode_remove_friend_result remove_friend_status_from_u8
decode_remove_friend_result-ne-panic bytes = grind (arith, length-drop, index-ne-panic)

pub decode_friend_removed_notification-ne-panic :
    (bytes : List ℕ) → decode_friend_removed_notification bytes ≢ panic
unfolding decode_friend_removed_notification require_fully_consumed
decode_friend_removed_notification-ne-panic bytes =
    grind (arith, decode_sized_string-ne-panic, decode_sized_string-consumed, length-drop)

pub decode_friend_status_update-ne-panic :
    (bytes : List ℕ) → decode_friend_status_update bytes ≢ panic
unfolding decode_friend_status_update slice_from slice try_into friend_status_from_u8
decode_friend_status_update-ne-panic bytes =
    grind (
      arith, decode_sized_string-ne-panic, decode_sized_string-consumed, length-drop,
      index-ne-panic,
    )

pub decode_send_typing_indicator-ne-panic :
    (bytes : List ℕ) → decode_send_typing_indicator bytes ≢ panic
unfolding decode_send_typing_indicator require_fully_consumed
decode_send_typing_indicator-ne-panic bytes =
    grind (arith, decode_sized_string-ne-panic, decode_sized_string-consumed, length-drop)
