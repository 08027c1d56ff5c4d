-- ===== src/Payloads/OfType/RoundTrip.antt =====
-- Every payload is read back as it was written.
use chatix_protocol.Base.{◌≡◌, refl, ok, ◌>>=◌}
use chatix_protocol.PacketType.{
  PacketType, client_hello, server_hello, client_finish, server_accept, auth_challenge,
  auth_response, auth_accept, auth_reject, ping, pong, register_device, register_response,
  query_account_status, account_status_response, send_friend_request, friend_request_result,
  incoming_friend_request, friend_request_decision, remove_friend, remove_friend_result,
  friend_removed_notification, friend_status_update, send_typing_indicator, publish_e2e_key,
  publish_e2e_key_result, fetch_e2e_key, e2e_key_response, send_message, deliver_message,
  fetch_queued_messages, queued_message_delivery, ack_queued_message, message_status_update,
  delivery_receipt, error, close,
}
use chatix_protocol.Payloads.Common.{require_fully_consumed}
use chatix_protocol.Payloads.OfType.{PayloadOf, encode_payload, decode_payload, IsPayload}
use chatix_protocol.Payloads.Hello.RoundTrip.{
  decode_client_hello_lem, decode_server_hello_lem, decode_client_finish_lem,
  decode_server_accept_lem,
}
use chatix_protocol.Payloads.Auth.RoundTrip.{decode_auth_challenge_lem, decode_auth_response_lem}
use chatix_protocol.Payloads.Ping.RoundTrip.{decode_ping_lem, decode_pong_lem}
use chatix_protocol.Payloads.Registration.RoundTrip.{
  decode_register_device_lem, decode_register_response_lem,
}
use chatix_protocol.Payloads.Account.RoundTrip.{decode_account_status_response_lem}
use chatix_protocol.Payloads.Friend.RoundTrip.{
  decode_send_friend_request_lem, decode_friend_request_result_lem,
  decode_incoming_friend_request_lem, decode_friend_request_decision_lem, decode_remove_friend_lem,
  decode_remove_friend_result_lem, decode_friend_removed_notification_lem,
  decode_friend_status_update_lem, decode_send_typing_indicator_lem,
}
use chatix_protocol.Payloads.E2eKey.RoundTrip.{
  decode_publish_e2e_key_lem, decode_publish_e2e_key_result_lem, decode_fetch_e2e_key_lem,
  decode_e2e_key_response_lem,
}
use chatix_protocol.Payloads.Message.RoundTrip.{
  decode_send_message_lem, decode_deliver_message_lem, decode_message_status_update_lem,
  decode_delivery_receipt_lem,
}
use chatix_protocol.Payloads.Queue.RoundTrip.{
  decode_queued_message_delivery_lem, decode_ack_queued_message_lem,
}
use chatix_protocol.Payloads.Close.RoundTrip.{decode_error_lem, decode_close_lem}
use chatix_protocol.Payloads.Auth.{
  encode_auth_accept, decode_auth_accept, encode_auth_reject, decode_auth_reject,
}
use chatix_protocol.Payloads.Account.{encode_query_account_status, decode_query_account_status}
use chatix_protocol.Payloads.Queue.{encode_fetch_queued_messages, decode_fetch_queued_messages}

-- For every packet type, a payload whose integers fit their width, whose keys, nonces and
-- signatures have their size and whose strings and byte strings fit their length prefix is
-- encoded without an error, and decoding the bytes gives the same payload.
pub decode_payload-encode_payload :
    (t : PacketType) (p : PayloadOf t)
    → IsPayload t p
    → (encode_payload t p >>= decode_payload t) ≡ ok p
unfolding encode_payload decode_payload IsPayload require_fully_consumed encode_auth_accept
    decode_auth_accept encode_auth_reject decode_auth_reject encode_query_account_status
    decode_query_account_status encode_fetch_queued_messages decode_fetch_queued_messages
decode_payload-encode_payload client_hello p (h0, h1, h2) =
    decode_client_hello_lem p.client_id h0 p.x25519_public_key p.ml_kem_ek h1 h2
decode_payload-encode_payload server_hello p (h0, h1, h2, h3) =
    decode_server_hello_lem p.server_id h0 p.x25519_public_key p.ml_kem_ciphertext p.signature h1 h2
      h3
decode_payload-encode_payload client_finish p h = decode_client_finish_lem p.ready
decode_payload-encode_payload server_accept p h = decode_server_accept_lem p.accepted
decode_payload-encode_payload auth_challenge p h0 = decode_auth_challenge_lem p.nonce h0
decode_payload-encode_payload auth_response p (h0, h1, h2) =
    decode_auth_response_lem p.public_key p.signature p.attestation_token h0 h1 h2
decode_payload-encode_payload auth_accept p h = refl
decode_payload-encode_payload auth_reject p h = refl
decode_payload-encode_payload ping p h0 = decode_ping_lem p.timestamp h0
decode_payload-encode_payload pong p h0 = decode_pong_lem p.timestamp h0
decode_payload-encode_payload register_device p h0 = decode_register_device_lem p.username h0
decode_payload-encode_payload register_response p h0 =
    decode_register_response_lem p.success p.message h0
decode_payload-encode_payload query_account_status p h = refl
decode_payload-encode_payload account_status_response p (h0, h1) =
    decode_account_status_response_lem p.is_banned p.ban_reason p.subscription_active
      p.subscription_expiry_timestamp h0 h1
decode_payload-encode_payload send_friend_request p h0 =
    decode_send_friend_request_lem p.target_username h0
decode_payload-encode_payload friend_request_result p h = decode_friend_request_result_lem p.status
decode_payload-encode_payload incoming_friend_request p h0 =
    decode_incoming_friend_request_lem p.sender_username h0
decode_payload-encode_payload friend_request_decision p h0 =
    decode_friend_request_decision_lem p.sender_username h0 p.accepted
decode_payload-encode_payload remove_friend p h0 = decode_remove_friend_lem p.friend_username h0
decode_payload-encode_payload remove_friend_result p h = decode_remove_friend_result_lem p.status
decode_payload-encode_payload friend_removed_notification p h0 =
    decode_friend_removed_notification_lem p.removed_by_username h0
decode_payload-encode_payload friend_status_update p (h0, h1) =
    decode_friend_status_update_lem p.friend_username h0 p.status p.last_seen h1
decode_payload-encode_payload send_typing_indicator p h0 =
    decode_send_typing_indicator_lem p.recipient_username h0
decode_payload-encode_payload publish_e2e_key p h0 = decode_publish_e2e_key_lem p.key h0
decode_payload-encode_payload publish_e2e_key_result p h0 =
    decode_publish_e2e_key_result_lem p.success p.message h0
decode_payload-encode_payload fetch_e2e_key p h0 = decode_fetch_e2e_key_lem p.target_username h0
decode_payload-encode_payload e2e_key_response p (h0, h1) =
    decode_e2e_key_response_lem p.username p.key h0 h1
decode_payload-encode_payload send_message p (h0, h1, h2) =
    decode_send_message_lem p.message_id p.recipient_id p.content h0 h1 h2
decode_payload-encode_payload deliver_message p (h0, h1, h2) =
    decode_deliver_message_lem p.message_id p.sender_id p.content h0 h1 h2
decode_payload-encode_payload fetch_queued_messages p h = refl
decode_payload-encode_payload queued_message_delivery p (h0, h1, h2, h3) =
    decode_queued_message_delivery_lem p.queue_id p.message_id p.sender_id p.content h0 h1 h2 h3
decode_payload-encode_payload ack_queued_message p h0 = decode_ack_queued_message_lem p.queue_id h0
decode_payload-encode_payload message_status_update p h0 =
    decode_message_status_update_lem p.message_id p.status h0
decode_payload-encode_payload delivery_receipt p h0 = decode_delivery_receipt_lem p.message_id h0
decode_payload-encode_payload error p h0 = decode_error_lem p.message h0
decode_payload-encode_payload close p h0 = decode_close_lem p.reason p.message h0
