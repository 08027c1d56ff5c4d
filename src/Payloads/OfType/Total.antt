-- ===== src/Payloads/OfType/Total.antt =====
-- No payload makes its decoder panic.
use chatix_protocol.Base.{ℕ, List, panic, ◌≢◌}
use chatix_protocol.PacketType.{
  PacketType, client_hello, server_hello, client_finish, server_accept, auth_challenge,
  auth_response, auth_accept, auth_reject, ping, pong, register_device, register_response,
  query_account_status, account_status_response, send_friend_request, friend_request_result,
  incoming_friend_request, friend_request_decision, remove_friend, remove_friend_result,
  friend_removed_notification, friend_status_update, send_typing_indicator, publish_e2e_key,
  publish_e2e_key_result, fetch_e2e_key, e2e_key_response, send_message, deliver_message,
  fetch_queued_messages, queued_message_delivery, ack_queued_message, message_status_update,
  delivery_receipt, error, close,
}
use chatix_protocol.Payloads.OfType.{decode_payload}
use chatix_protocol.Payloads.Hello.Total.{
  decode_client_hello-ne-panic, decode_server_hello-ne-panic, decode_client_finish-ne-panic,
  decode_server_accept-ne-panic,
}
use chatix_protocol.Payloads.Auth.Total.{
  decode_auth_challenge-ne-panic, decode_auth_response-ne-panic, decode_auth_accept-ne-panic,
  decode_auth_reject-ne-panic,
}
use chatix_protocol.Payloads.Ping.Total.{decode_ping-ne-panic, decode_pong-ne-panic}
use chatix_protocol.Payloads.Registration.Total.{
  decode_register_device-ne-panic, decode_register_response-ne-panic,
}
use chatix_protocol.Payloads.Account.Total.{
  decode_query_account_status-ne-panic, decode_account_status_response-ne-panic,
}
use chatix_protocol.Payloads.Friend.Total.{
  decode_send_friend_request-ne-panic, decode_friend_request_result-ne-panic,
  decode_incoming_friend_request-ne-panic, decode_friend_request_decision-ne-panic,
  decode_remove_friend-ne-panic, decode_remove_friend_result-ne-panic,
  decode_friend_removed_notification-ne-panic, decode_friend_status_update-ne-panic,
  decode_send_typing_indicator-ne-panic,
}
use chatix_protocol.Payloads.E2eKey.Total.{
  decode_publish_e2e_key-ne-panic, decode_publish_e2e_key_result-ne-panic,
  decode_fetch_e2e_key-ne-panic, decode_e2e_key_response-ne-panic,
}
use chatix_protocol.Payloads.Message.Total.{
  decode_send_message-ne-panic, decode_deliver_message-ne-panic,
  decode_message_status_update-ne-panic, decode_delivery_receipt-ne-panic,
}
use chatix_protocol.Payloads.Queue.Total.{
  decode_fetch_queued_messages-ne-panic, decode_queued_message_delivery-ne-panic,
  decode_ack_queued_message-ne-panic,
}
use chatix_protocol.Payloads.Close.Total.{decode_error-ne-panic, decode_close-ne-panic}

-- For every packet type, decoding any byte string at all gives a payload or an error: no index or
-- slice of the decoder is out of range.
pub decode_payload-ne-panic : (t : PacketType) (bytes : List ℕ) → decode_payload t bytes ≢ panic
unfolding decode_payload
decode_payload-ne-panic client_hello bytes = decode_client_hello-ne-panic bytes
decode_payload-ne-panic server_hello bytes = decode_server_hello-ne-panic bytes
decode_payload-ne-panic client_finish bytes = decode_client_finish-ne-panic bytes
decode_payload-ne-panic server_accept bytes = decode_server_accept-ne-panic bytes
decode_payload-ne-panic auth_challenge bytes = decode_auth_challenge-ne-panic bytes
decode_payload-ne-panic auth_response bytes = decode_auth_response-ne-panic bytes
decode_payload-ne-panic auth_accept bytes = decode_auth_accept-ne-panic bytes
decode_payload-ne-panic auth_reject bytes = decode_auth_reject-ne-panic bytes
decode_payload-ne-panic ping bytes = decode_ping-ne-panic bytes
decode_payload-ne-panic pong bytes = decode_pong-ne-panic bytes
decode_payload-ne-panic register_device bytes = decode_register_device-ne-panic bytes
decode_payload-ne-panic register_response bytes = decode_register_response-ne-panic bytes
decode_payload-ne-panic query_account_status bytes = decode_query_account_status-ne-panic bytes
decode_payload-ne-panic account_status_response bytes =
    decode_account_status_response-ne-panic bytes
decode_payload-ne-panic send_friend_request bytes = decode_send_friend_request-ne-panic bytes
decode_payload-ne-panic friend_request_result bytes = decode_friend_request_result-ne-panic bytes
decode_payload-ne-panic incoming_friend_request bytes =
    decode_incoming_friend_request-ne-panic bytes
decode_payload-ne-panic friend_request_decision bytes =
    decode_friend_request_decision-ne-panic bytes
decode_payload-ne-panic remove_friend bytes = decode_remove_friend-ne-panic bytes
decode_payload-ne-panic remove_friend_result bytes = decode_remove_friend_result-ne-panic bytes
decode_payload-ne-panic friend_removed_notification bytes =
    decode_friend_removed_notification-ne-panic bytes
decode_payload-ne-panic friend_status_update bytes = decode_friend_status_update-ne-panic bytes
decode_payload-ne-panic send_typing_indicator bytes = decode_send_typing_indicator-ne-panic bytes
decode_payload-ne-panic publish_e2e_key bytes = decode_publish_e2e_key-ne-panic bytes
decode_payload-ne-panic publish_e2e_key_result bytes = decode_publish_e2e_key_result-ne-panic bytes
decode_payload-ne-panic fetch_e2e_key bytes = decode_fetch_e2e_key-ne-panic bytes
decode_payload-ne-panic e2e_key_response bytes = decode_e2e_key_response-ne-panic bytes
decode_payload-ne-panic send_message bytes = decode_send_message-ne-panic bytes
decode_payload-ne-panic deliver_message bytes = decode_deliver_message-ne-panic bytes
decode_payload-ne-panic fetch_queued_messages bytes = decode_fetch_queued_messages-ne-panic bytes
decode_payload-ne-panic queued_message_delivery bytes =
    decode_queued_message_delivery-ne-panic bytes
decode_payload-ne-panic ack_queued_message bytes = decode_ack_queued_message-ne-panic bytes
decode_payload-ne-panic message_status_update bytes = decode_message_status_update-ne-panic bytes
decode_payload-ne-panic delivery_receipt bytes = decode_delivery_receipt-ne-panic bytes
decode_payload-ne-panic error bytes = decode_error-ne-panic bytes
decode_payload-ne-panic close bytes = decode_close-ne-panic bytes
