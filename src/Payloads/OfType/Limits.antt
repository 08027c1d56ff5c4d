-- ===== src/Payloads/OfType/Limits.antt =====
-- Which payloads fit the limit of their packet type, src/packet_type.rs: `Fits` writes out the
-- bound on the variable part for each type. It is the number in the comments of `max_payload_size`, where
-- they give one, but for the name in an `E2eKeyResponse` without a key.
use chatix_protocol.Base.{
  ℕ, ◌+◌, ◌≤◌, ◌≡◌, ◌↔◌, arith, List, Option, none, some, ok, length, length-to_be_bytes,
}
use chatix_protocol.Error.{IoResult}
use chatix_protocol.PacketType.{
  PacketType, max_payload_size, client_hello, server_hello, client_finish, server_accept,
  auth_challenge, auth_response, auth_accept, auth_reject, ping, pong, register_device,
  register_response, query_account_status, account_status_response, send_friend_request,
  friend_request_result, incoming_friend_request, friend_request_decision, remove_friend,
  remove_friend_result, friend_removed_notification, friend_status_update, send_typing_indicator,
  publish_e2e_key, publish_e2e_key_result, fetch_e2e_key, e2e_key_response, send_message,
  deliver_message, fetch_queued_messages, queued_message_delivery, ack_queued_message,
  message_status_update, delivery_receipt, error, close,
}
use chatix_protocol.Payloads.E2eKey.{E2ePublicKey, encode_key_status}
use chatix_protocol.Payloads.E2eKey.RoundTrip.{IsKeyOption}
use chatix_protocol.Payloads.OfType.{PayloadOf, encode_payload, IsPayload}
use chatix_protocol.Payloads.Friend.{
  encode_send_friend_request, encode_friend_request_result, encode_incoming_friend_request,
  encode_remove_friend, encode_remove_friend_result, encode_friend_removed_notification,
  encode_send_typing_indicator,
}
use chatix_protocol.Payloads.Hello.{encode_client_finish, encode_server_accept}
use chatix_protocol.Payloads.Auth.{encode_auth_challenge, encode_auth_accept, encode_auth_reject}
use chatix_protocol.Payloads.Ping.{encode_ping, encode_pong}
use chatix_protocol.Payloads.Registration.{encode_register_device}
use chatix_protocol.Payloads.Account.{encode_query_account_status}
use chatix_protocol.Payloads.E2eKey.{
  encode_publish_e2e_key, encode_fetch_e2e_key, encode_e2e_key_response,
}
use chatix_protocol.Payloads.Message.{encode_delivery_receipt}
use chatix_protocol.Payloads.Queue.{encode_fetch_queued_messages, encode_ack_queued_message}
use chatix_protocol.Payloads.Close.{encode_error}
use chatix_protocol.Payloads.OfType.Size.{
  length-encode_sized_string, client_hello_size, server_hello_size, register_response_size,
  publish_e2e_key_result_size, close_size, friend_request_decision_size, friend_status_update_size,
  account_status_response_size, send_message_size, deliver_message_size,
  queued_message_delivery_size, auth_response_size, key_size, e2e_key_response_size,
  status_update_size,
}

-- The limit has room for a key, which an answer without a key leaves to the name.
name_limit : Option E2ePublicKey → ℕ
name_limit (some key) = 128
name_limit none = 3296

-- The variable part of a payload, within the bound of its type.
unfoldable pub Fits : (t : PacketType) → PayloadOf t → Type 0
unfolding name_limit
Fits client_hello p = length p.client_id ≤ 82
Fits server_hello p = length p.server_id ≤ 78
Fits client_finish p = Unit {0}
Fits server_accept p = Unit {0}
Fits auth_challenge p = Unit {0}
Fits auth_response p = length p.attestation_token ≤ 4096
Fits auth_accept p = Unit {0}
Fits auth_reject p = Unit {0}
Fits ping p = Unit {0}
Fits pong p = Unit {0}
Fits register_device p = length p.username ≤ 128
Fits register_response p = length p.message ≤ 256
Fits query_account_status p = Unit {0}
Fits account_status_response p = length p.ban_reason ≤ 256
Fits send_friend_request p = length p.target_username ≤ 128
Fits friend_request_result p = Unit {0}
Fits incoming_friend_request p = length p.sender_username ≤ 128
Fits friend_request_decision p = length p.sender_username ≤ 128
Fits remove_friend p = length p.friend_username ≤ 128
Fits remove_friend_result p = Unit {0}
Fits friend_removed_notification p = length p.removed_by_username ≤ 128
Fits friend_status_update p = length p.friend_username ≤ 128
Fits send_typing_indicator p = length p.recipient_username ≤ 128
Fits publish_e2e_key p = Unit {0}
Fits publish_e2e_key_result p = length p.message ≤ 256
Fits fetch_e2e_key p = length p.target_username ≤ 128
Fits e2e_key_response p = length p.username ≤ name_limit p.key
Fits send_message p = length p.recipient_id + length p.content ≤ 65522
Fits deliver_message p = length p.sender_id + length p.content ≤ 65522
Fits fetch_queued_messages p = Unit {0}
Fits queued_message_delivery p = length p.sender_id + length p.content ≤ 65514
Fits ack_queued_message p = Unit {0}
Fits message_status_update p = Unit {0}
Fits delivery_receipt p = Unit {0}
Fits error p = length p.message ≤ 1022
Fits close p = length p.message ≤ 1021

-- A size with a fixed and a variable part, against a limit.
fits_iff :
    (fixed : ℕ) {n variable bound limit : ℕ}
    → n ≡ fixed + variable
    → limit ≡ fixed + bound
    → (n ≤ limit) ↔ (variable ≤ bound)
fits_iff fixed e l = (λ h. omega arith, λ h. omega arith)

always_iff : {n limit : ℕ} → n ≤ limit → (n ≤ limit) ↔ Unit {0}
always_iff h = (λ _. tt, λ _. h)

ok_length : {a b : List ℕ} → ◌≡◌ {A = IoResult (List ℕ)} (ok a) (ok b) → length b ≡ length a
ok_length e = cc

response_iff :
    (name : List ℕ) (key : Option E2ePublicKey) (bytes : List ℕ)
    → IsKeyOption key
    → encode_e2e_key_response (record { username = name; key = key }) ≡ ok bytes
    → (length bytes ≤ max_payload_size e2e_key_response) ↔ (length name ≤ name_limit key)
unfolding name_limit encode_key_status IsKeyOption max_payload_size
response_iff name none bytes h e =
    fits_iff (3) (omega (arith, e2e_key_response_size name none bytes h e)) (omega arith)
response_iff name (some k) bytes h e =
    fits_iff (3 + 32 + 1184 + 1952)
      (omega (arith, e2e_key_response_size name (some k) bytes h e, key_size k h)) (omega arith)

-- For every packet type and every well-formed payload, the encoding is within `max_payload_size`
-- exactly when the variable part of the payload is within a size of its own, which is exact: 82
-- bytes of client identifier, 78 of server identifier, 4096 of attestation, 128 of user name, but
-- 3296 in an `E2eKeyResponse` without a key, 256 of result text, 65522 of recipient or sender and
-- content, 65514 in a queued delivery, 1022 of error text and 1021 of close text; a payload of a
-- fixed size always fits.
pub encode_payload-Fits :
    (t : PacketType) (p : PayloadOf t) {bytes : List ℕ}
    → IsPayload t p
    → encode_payload t p ≡ ok bytes
    → (length bytes ≤ max_payload_size t) ↔ Fits t p
unfolding encode_payload Fits IsPayload max_payload_size encode_publish_e2e_key encode_ping
    encode_pong encode_delivery_receipt encode_ack_queued_message encode_client_finish
    encode_server_accept encode_auth_challenge encode_auth_accept encode_auth_reject
    encode_query_account_status encode_friend_request_result encode_remove_friend_result
    encode_fetch_queued_messages encode_register_device encode_send_friend_request
    encode_incoming_friend_request encode_remove_friend encode_friend_removed_notification
    encode_send_typing_indicator encode_fetch_e2e_key encode_error
encode_payload-Fits client_hello p {bytes} h e =
    fits_iff 1218 (client_hello_size p bytes h e) (omega arith)
encode_payload-Fits server_hello p {bytes} h e =
    fits_iff 4431 (server_hello_size p bytes h e) (omega arith)
encode_payload-Fits client_finish p {bytes} h e = always_iff (omega (arith, ok_length e))
encode_payload-Fits server_accept p {bytes} h e = always_iff (omega (arith, ok_length e))
encode_payload-Fits auth_challenge p {bytes} h e = always_iff (omega (arith, ok_length e))
encode_payload-Fits auth_response p {bytes} h e =
    fits_iff 5265 (auth_response_size p bytes h e) (omega arith)
encode_payload-Fits auth_accept p {bytes} h e = always_iff (omega (arith, ok_length e))
encode_payload-Fits auth_reject p {bytes} h e = always_iff (omega (arith, ok_length e))
encode_payload-Fits ping p {bytes} h e =
    always_iff (omega (arith, ok_length e, length-to_be_bytes 8 p.timestamp))
encode_payload-Fits pong p {bytes} h e =
    always_iff (omega (arith, ok_length e, length-to_be_bytes 8 p.timestamp))
encode_payload-Fits register_device p {bytes} h e =
    fits_iff (2) (length-encode_sized_string p.username e) (omega arith)
encode_payload-Fits register_response p {bytes} h e =
    fits_iff 3 (register_response_size p bytes h e) (omega arith)
encode_payload-Fits query_account_status p {bytes} h e = always_iff (omega (arith, ok_length e))
encode_payload-Fits account_status_response p {bytes} h e =
    fits_iff 12 (account_status_response_size p bytes h e) (omega arith)
encode_payload-Fits send_friend_request p {bytes} h e =
    fits_iff (2) (length-encode_sized_string p.target_username e) (omega arith)
encode_payload-Fits friend_request_result p {bytes} h e = always_iff (omega (arith, ok_length e))
encode_payload-Fits incoming_friend_request p {bytes} h e =
    fits_iff (2) (length-encode_sized_string p.sender_username e) (omega arith)
encode_payload-Fits friend_request_decision p {bytes} h e =
    fits_iff 3 (friend_request_decision_size p bytes h e) (omega arith)
encode_payload-Fits remove_friend p {bytes} h e =
    fits_iff (2) (length-encode_sized_string p.friend_username e) (omega arith)
encode_payload-Fits remove_friend_result p {bytes} h e = always_iff (omega (arith, ok_length e))
encode_payload-Fits friend_removed_notification p {bytes} h e =
    fits_iff (2) (length-encode_sized_string p.removed_by_username e) (omega arith)
encode_payload-Fits friend_status_update p {bytes} h e =
    fits_iff 11 (friend_status_update_size p bytes h e) (omega arith)
encode_payload-Fits send_typing_indicator p {bytes} h e =
    fits_iff (2) (length-encode_sized_string p.recipient_username e) (omega arith)
encode_payload-Fits publish_e2e_key p {bytes} h e =
    always_iff (omega (arith, ok_length e, key_size p.key h))
encode_payload-Fits publish_e2e_key_result p {bytes} h e =
    fits_iff 3 (publish_e2e_key_result_size p bytes h e) (omega arith)
encode_payload-Fits fetch_e2e_key p {bytes} h e =
    fits_iff (2) (length-encode_sized_string p.target_username e) (omega arith)
encode_payload-Fits e2e_key_response p {bytes} h e = response_iff p.username p.key bytes h.1 e
encode_payload-Fits send_message p {bytes} h e =
    fits_iff 14 (send_message_size p bytes e) (omega arith)
encode_payload-Fits deliver_message p {bytes} h e =
    fits_iff 14 (deliver_message_size p bytes e) (omega arith)
encode_payload-Fits fetch_queued_messages p {bytes} h e = always_iff (omega (arith, ok_length e))
encode_payload-Fits queued_message_delivery p {bytes} h e =
    fits_iff 22 (queued_message_delivery_size p bytes e) (omega arith)
encode_payload-Fits ack_queued_message p {bytes} h e =
    always_iff (omega (arith, ok_length e, length-to_be_bytes 8 p.queue_id))
encode_payload-Fits message_status_update p {bytes} h e =
    always_iff (omega (arith, ok_length e, status_update_size p))
encode_payload-Fits delivery_receipt p {bytes} h e =
    always_iff (omega (arith, ok_length e, length-to_be_bytes 8 p.message_id))
encode_payload-Fits error p {bytes} h e =
    fits_iff (2) (length-encode_sized_string p.message e) (omega arith)
encode_payload-Fits close p {bytes} h e = fits_iff 3 (close_size p bytes h e) (omega arith)
