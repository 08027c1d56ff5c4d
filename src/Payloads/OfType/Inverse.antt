-- ===== src/Payloads/OfType/Inverse.antt =====
-- A payload is decoded from no other bytes than its encoding.
use chatix_protocol.Base.{ℕ, List, ok, ap, sym, ◌≡◌, ◌∙◌, ◌↔◌, ◌>>=◌, AreBytes}
use chatix_protocol.PacketType.{
  PacketType, client_hello, server_hello, client_finish, server_accept, auth_challenge,
  auth_response, auth_accept, auth_reject, ping, pong, register_device, register_response,
  query_account_status, account_status_response, send_friend_request, friend_request_result,
  incoming_friend_request, friend_request_decision, remove_friend, remove_friend_result,
  friend_removed_notification, friend_status_update, send_typing_indicator, publish_e2e_key,
  publish_e2e_key_result, fetch_e2e_key, e2e_key_response, send_message, deliver_message,
  fetch_queued_messages, queued_message_delivery, ack_queued_message, message_status_update,
  delivery_receipt, error, close,
}
use chatix_protocol.Payloads.OfType.{PayloadOf, IsPayload, encode_payload, decode_payload}
use chatix_protocol.Error.{IoResult}
use chatix_protocol.Payloads.OfType.RoundTrip.{decode_payload-encode_payload}
use chatix_protocol.Payloads.Hello.Inverse.{
  decode_client_hello_inv, decode_server_hello_inv, decode_client_finish_inv,
  decode_server_accept_inv,
}
use chatix_protocol.Payloads.Auth.Inverse.{
  decode_auth_challenge_inv, decode_auth_response_inv, decode_auth_accept_inv,
  decode_auth_reject_inv,
}
use chatix_protocol.Payloads.Ping.Inverse.{decode_ping_inv, decode_pong_inv}
use chatix_protocol.Payloads.Registration.Inverse.{
  decode_register_device_inv, decode_register_response_inv,
}
use chatix_protocol.Payloads.Account.Inverse.{
  decode_query_account_status_inv, decode_account_status_response_inv,
}
use chatix_protocol.Payloads.Friend.Inverse.{
  decode_send_friend_request_inv, decode_friend_request_result_inv,
  decode_incoming_friend_request_inv, decode_friend_request_decision_inv, decode_remove_friend_inv,
  decode_remove_friend_result_inv, decode_friend_removed_notification_inv,
  decode_friend_status_update_inv, decode_send_typing_indicator_inv,
}
use chatix_protocol.Payloads.E2eKey.Inverse.{
  decode_publish_e2e_key_inv, decode_publish_e2e_key_result_inv, decode_fetch_e2e_key_inv,
  decode_e2e_key_response_inv,
}
use chatix_protocol.Payloads.Message.Inverse.{
  decode_send_message_inv, decode_deliver_message_inv, decode_message_status_update_inv,
  decode_delivery_receipt_inv,
}
use chatix_protocol.Payloads.Queue.Inverse.{
  decode_fetch_queued_messages_inv, decode_queued_message_delivery_inv,
  decode_ack_queued_message_inv,
}
use chatix_protocol.Payloads.Close.Inverse.{decode_error_inv, decode_close_inv}

-- x

-- The equation of an encoder that cannot fail, as one on results.
as_result :
    {A : Type 0} {a b : List ℕ} → A × (a ≡ b) → A × (◌≡◌ {A = IoResult (List ℕ)} (ok a) (ok b))
as_result h = (h.0, ap ok h.1)

decode_payload_inv :
    (t : PacketType) (bytes : List ℕ) (p : PayloadOf t)
    → AreBytes bytes
    → decode_payload t bytes ≡ ok p
    → IsPayload t p × (encode_payload t p ≡ ok bytes)
unfolding encode_payload decode_payload
decode_payload_inv client_hello bytes p h e = decode_client_hello_inv bytes p h e
decode_payload_inv server_hello bytes p h e = decode_server_hello_inv bytes p h e
decode_payload_inv client_finish bytes p h e = as_result (decode_client_finish_inv bytes p h e)
decode_payload_inv server_accept bytes p h e = as_result (decode_server_accept_inv bytes p h e)
decode_payload_inv auth_challenge bytes p h e = as_result (decode_auth_challenge_inv bytes p h e)
decode_payload_inv auth_response bytes p h e = decode_auth_response_inv bytes p h e
decode_payload_inv auth_accept bytes p h e = as_result (decode_auth_accept_inv bytes p h e)
decode_payload_inv auth_reject bytes p h e = as_result (decode_auth_reject_inv bytes p h e)
decode_payload_inv ping bytes p h e = as_result (decode_ping_inv bytes p h e)
decode_payload_inv pong bytes p h e = as_result (decode_pong_inv bytes p h e)
decode_payload_inv register_device bytes p h e = decode_register_device_inv bytes p h e
decode_payload_inv register_response bytes p h e = decode_register_response_inv bytes p h e
decode_payload_inv query_account_status bytes p h e =
    as_result (decode_query_account_status_inv bytes p h e)
decode_payload_inv account_status_response bytes p h e =
    decode_account_status_response_inv bytes p h e
decode_payload_inv send_friend_request bytes p h e = decode_send_friend_request_inv bytes p h e
decode_payload_inv friend_request_result bytes p h e =
    as_result (decode_friend_request_result_inv bytes p h e)
decode_payload_inv incoming_friend_request bytes p h e =
    decode_incoming_friend_request_inv bytes p h e
decode_payload_inv friend_request_decision bytes p h e =
    decode_friend_request_decision_inv bytes p h e
decode_payload_inv remove_friend bytes p h e = decode_remove_friend_inv bytes p h e
decode_payload_inv remove_friend_result bytes p h e =
    as_result (decode_remove_friend_result_inv bytes p h e)
decode_payload_inv friend_removed_notification bytes p h e =
    decode_friend_removed_notification_inv bytes p h e
decode_payload_inv friend_status_update bytes p h e = decode_friend_status_update_inv bytes p h e
decode_payload_inv send_typing_indicator bytes p h e = decode_send_typing_indicator_inv bytes p h e
decode_payload_inv publish_e2e_key bytes p h e = as_result (decode_publish_e2e_key_inv bytes p h e)
decode_payload_inv publish_e2e_key_result bytes p h e =
    decode_publish_e2e_key_result_inv bytes p h e
decode_payload_inv fetch_e2e_key bytes p h e = decode_fetch_e2e_key_inv bytes p h e
decode_payload_inv e2e_key_response bytes p h e = decode_e2e_key_response_inv bytes p h e
decode_payload_inv send_message bytes p h e = decode_send_message_inv bytes p h e
decode_payload_inv deliver_message bytes p h e = decode_deliver_message_inv bytes p h e
decode_payload_inv fetch_queued_messages bytes p h e =
    as_result (decode_fetch_queued_messages_inv bytes p h e)
decode_payload_inv queued_message_delivery bytes p h e =
    decode_queued_message_delivery_inv bytes p h e
decode_payload_inv ack_queued_message bytes p h e =
    as_result (decode_ack_queued_message_inv bytes p h e)
decode_payload_inv message_status_update bytes p h e =
    as_result (decode_message_status_update_inv bytes p h e)
decode_payload_inv delivery_receipt bytes p h e =
    as_result (decode_delivery_receipt_inv bytes p h e)
decode_payload_inv error bytes p h e = decode_error_inv bytes p h e
decode_payload_inv close bytes p h e = decode_close_inv bytes p h e

-- For every packet type, a byte string decodes to a payload exactly when the payload is well
-- formed (integers within their width, keys, nonces and signatures of their size, strings that
-- are valid UTF-8 and fit their length prefix) and the byte string is its encoding. So a decoder
-- yields nothing but well-formed payloads, leaves no byte over, and accepts no second spelling of
-- a flag, a status or a length.
pub decode_payload_iff :
    (t : PacketType) (bytes : List ℕ) (p : PayloadOf t)
    → AreBytes bytes
    → (decode_payload t bytes ≡ ok p) ↔ (IsPayload t p × (encode_payload t p ≡ ok bytes))
decode_payload_iff t bytes p h = (
  decode_payload_inv t bytes p h,
  λ w. sym (ap (λ m. m >>= decode_payload t) w.1) ∙ decode_payload-encode_payload t p w.0,
)
