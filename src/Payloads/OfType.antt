-- ===== src/Payloads/OfType.antt =====
-- The payload that belongs to each packet type: its struct, its `encode` and its `decode`, one clause
-- for each module of src/payloads/.
pub mod Delivered
pub mod Inverse
pub mod Limits
pub mod Size
pub mod RoundTrip
pub mod Total
use chatix_protocol.Base.{ℕ, ◌<◌, ◌^◌, ◌≡◌, List, ok, length}
use chatix_protocol.Error.{IoResult}
use chatix_protocol.Sizes.{
  ml_kem_768_ek_size, ml_kem_768_ct_size, ml_dsa_65_sig_size, ml_dsa_65_vk_size,
}
use chatix_protocol.PacketType.{
  PacketType, client_hello, server_hello, client_finish, server_accept, auth_challenge,
  auth_response, auth_accept, auth_reject, ping, pong, register_device, register_response,
  query_account_status, account_status_response, send_friend_request, friend_request_result,
  incoming_friend_request, friend_request_decision, remove_friend, remove_friend_result,
  friend_removed_notification, friend_status_update, send_typing_indicator, publish_e2e_key,
  publish_e2e_key_result, fetch_e2e_key, e2e_key_response, send_message, deliver_message,
  fetch_queued_messages, queued_message_delivery, ack_queued_message, message_status_update,
  delivery_receipt, error, close,
}
use chatix_protocol.Payloads.Common.Sized.{IsSizedString}
use chatix_protocol.Payloads.E2eKey.RoundTrip.{IsPublicKey, IsKeyOption}
use chatix_protocol.Payloads.Hello.{
  ClientHelloPayload, encode_client_hello, decode_client_hello, ServerHelloPayload,
  encode_server_hello, decode_server_hello, ClientFinishPayload, encode_client_finish,
  decode_client_finish, ServerAcceptPayload, encode_server_accept, decode_server_accept,
}
use chatix_protocol.Payloads.Auth.{
  AuthChallengePayload, encode_auth_challenge, decode_auth_challenge, AuthResponsePayload,
  encode_auth_response, decode_auth_response, AuthAcceptPayload, encode_auth_accept,
  decode_auth_accept, AuthRejectPayload, encode_auth_reject, decode_auth_reject,
}
use chatix_protocol.Payloads.Ping.{
  PingPayload, encode_ping, decode_ping, PongPayload, encode_pong, decode_pong,
}
use chatix_protocol.Payloads.Registration.{
  RegisterDevicePayload, encode_register_device, decode_register_device, RegisterResponsePayload,
  encode_register_response, decode_register_response,
}
use chatix_protocol.Payloads.Account.{
  QueryAccountStatusPayload, encode_query_account_status, decode_query_account_status,
  AccountStatusResponsePayload, encode_account_status_response, decode_account_status_response,
}
use chatix_protocol.Payloads.Friend.{
  SendFriendRequestPayload, encode_send_friend_request, decode_send_friend_request,
  FriendRequestResultPayload, encode_friend_request_result, decode_friend_request_result,
  IncomingFriendRequestPayload, encode_incoming_friend_request, decode_incoming_friend_request,
  FriendRequestDecisionPayload, encode_friend_request_decision, decode_friend_request_decision,
  RemoveFriendPayload, encode_remove_friend, decode_remove_friend, RemoveFriendResultPayload,
  encode_remove_friend_result, decode_remove_friend_result, FriendRemovedNotificationPayload,
  encode_friend_removed_notification, decode_friend_removed_notification, FriendStatusUpdatePayload,
  encode_friend_status_update, decode_friend_status_update, SendTypingIndicatorPayload,
  encode_send_typing_indicator, decode_send_typing_indicator,
}
use chatix_protocol.Payloads.E2eKey.{
  PublishE2eKeyPayload, encode_publish_e2e_key, decode_publish_e2e_key, PublishE2eKeyResultPayload,
  encode_publish_e2e_key_result, decode_publish_e2e_key_result, FetchE2eKeyPayload,
  encode_fetch_e2e_key, decode_fetch_e2e_key, E2eKeyResponsePayload, encode_e2e_key_response,
  decode_e2e_key_response,
}
use chatix_protocol.Payloads.Message.{
  SendMessagePayload, encode_send_message, decode_send_message, DeliverMessagePayload,
  encode_deliver_message, decode_deliver_message, MessageStatusUpdatePayload,
  encode_message_status_update, decode_message_status_update, DeliveryReceiptPayload,
  encode_delivery_receipt, decode_delivery_receipt,
}
use chatix_protocol.Payloads.Queue.{
  FetchQueuedMessagesPayload, encode_fetch_queued_messages, decode_fetch_queued_messages,
  QueuedMessageDeliveryPayload, encode_queued_message_delivery, decode_queued_message_delivery,
  AckQueuedMessagePayload, encode_ack_queued_message, decode_ack_queued_message,
}
use chatix_protocol.Payloads.Close.{
  ErrorPayload, encode_error, decode_error, ClosePayload, encode_close, decode_close,
}

abbrev pub PayloadOf : PacketType → Type 0
PayloadOf client_hello = ClientHelloPayload
PayloadOf server_hello = ServerHelloPayload
PayloadOf client_finish = ClientFinishPayload
PayloadOf server_accept = ServerAcceptPayload
PayloadOf auth_challenge = AuthChallengePayload
PayloadOf auth_response = AuthResponsePayload
PayloadOf auth_accept = AuthAcceptPayload
PayloadOf auth_reject = AuthRejectPayload
PayloadOf ping = PingPayload
PayloadOf pong = PongPayload
PayloadOf register_device = RegisterDevicePayload
PayloadOf register_response = RegisterResponsePayload
PayloadOf query_account_status = QueryAccountStatusPayload
PayloadOf account_status_response = AccountStatusResponsePayload
PayloadOf send_friend_request = SendFriendRequestPayload
PayloadOf friend_request_result = FriendRequestResultPayload
PayloadOf incoming_friend_request = IncomingFriendRequestPayload
PayloadOf friend_request_decision = FriendRequestDecisionPayload
PayloadOf remove_friend = RemoveFriendPayload
PayloadOf remove_friend_result = RemoveFriendResultPayload
PayloadOf friend_removed_notification = FriendRemovedNotificationPayload
PayloadOf friend_status_update = FriendStatusUpdatePayload
PayloadOf send_typing_indicator = SendTypingIndicatorPayload
PayloadOf publish_e2e_key = PublishE2eKeyPayload
PayloadOf publish_e2e_key_result = PublishE2eKeyResultPayload
PayloadOf fetch_e2e_key = FetchE2eKeyPayload
PayloadOf e2e_key_response = E2eKeyResponsePayload
PayloadOf send_message = SendMessagePayload
PayloadOf deliver_message = DeliverMessagePayload
PayloadOf fetch_queued_messages = FetchQueuedMessagesPayload
PayloadOf queued_message_delivery = QueuedMessageDeliveryPayload
PayloadOf ack_queued_message = AckQueuedMessagePayload
PayloadOf message_status_update = MessageStatusUpdatePayload
PayloadOf delivery_receipt = DeliveryReceiptPayload
PayloadOf error = ErrorPayload
PayloadOf close = ClosePayload

-- `encode` of the payload.
unfoldable pub encode_payload : (t : PacketType) → PayloadOf t → IoResult (List ℕ)
encode_payload client_hello p = encode_client_hello p
encode_payload server_hello p = encode_server_hello p
encode_payload client_finish p = ok (encode_client_finish p)
encode_payload server_accept p = ok (encode_server_accept p)
encode_payload auth_challenge p = ok (encode_auth_challenge p)
encode_payload auth_response p = encode_auth_response p
encode_payload auth_accept p = ok (encode_auth_accept p)
encode_payload auth_reject p = ok (encode_auth_reject p)
encode_payload ping p = ok (encode_ping p)
encode_payload pong p = ok (encode_pong p)
encode_payload register_device p = encode_register_device p
encode_payload register_response p = encode_register_response p
encode_payload query_account_status p = ok (encode_query_account_status p)
encode_payload account_status_response p = encode_account_status_response p
encode_payload send_friend_request p = encode_send_friend_request p
encode_payload friend_request_result p = ok (encode_friend_request_result p)
encode_payload incoming_friend_request p = encode_incoming_friend_request p
encode_payload friend_request_decision p = encode_friend_request_decision p
encode_payload remove_friend p = encode_remove_friend p
encode_payload remove_friend_result p = ok (encode_remove_friend_result p)
encode_payload friend_removed_notification p = encode_friend_removed_notification p
encode_payload friend_status_update p = encode_friend_status_update p
encode_payload send_typing_indicator p = encode_send_typing_indicator p
encode_payload publish_e2e_key p = ok (encode_publish_e2e_key p)
encode_payload publish_e2e_key_result p = encode_publish_e2e_key_result p
encode_payload fetch_e2e_key p = encode_fetch_e2e_key p
encode_payload e2e_key_response p = encode_e2e_key_response p
encode_payload send_message p = encode_send_message p
encode_payload deliver_message p = encode_deliver_message p
encode_payload fetch_queued_messages p = ok (encode_fetch_queued_messages p)
encode_payload queued_message_delivery p = encode_queued_message_delivery p
encode_payload ack_queued_message p = ok (encode_ack_queued_message p)
encode_payload message_status_update p = ok (encode_message_status_update p)
encode_payload delivery_receipt p = ok (encode_delivery_receipt p)
encode_payload error p = encode_error p
encode_payload close p = encode_close p

-- `decode` of the payload.
unfoldable pub decode_payload : (t : PacketType) → List ℕ → IoResult (PayloadOf t)
decode_payload client_hello bytes = decode_client_hello bytes
decode_payload server_hello bytes = decode_server_hello bytes
decode_payload client_finish bytes = decode_client_finish bytes
decode_payload server_accept bytes = decode_server_accept bytes
decode_payload auth_challenge bytes = decode_auth_challenge bytes
decode_payload auth_response bytes = decode_auth_response bytes
decode_payload auth_accept bytes = decode_auth_accept bytes
decode_payload auth_reject bytes = decode_auth_reject bytes
decode_payload ping bytes = decode_ping bytes
decode_payload pong bytes = decode_pong bytes
decode_payload register_device bytes = decode_register_device bytes
decode_payload register_response bytes = decode_register_response bytes
decode_payload query_account_status bytes = decode_query_account_status bytes
decode_payload account_status_response bytes = decode_account_status_response bytes
decode_payload send_friend_request bytes = decode_send_friend_request bytes
decode_payload friend_request_result bytes = decode_friend_request_result bytes
decode_payload incoming_friend_request bytes = decode_incoming_friend_request bytes
decode_payload friend_request_decision bytes = decode_friend_request_decision bytes
decode_payload remove_friend bytes = decode_remove_friend bytes
decode_payload remove_friend_result bytes = decode_remove_friend_result bytes
decode_payload friend_removed_notification bytes = decode_friend_removed_notification bytes
decode_payload friend_status_update bytes = decode_friend_status_update bytes
decode_payload send_typing_indicator bytes = decode_send_typing_indicator bytes
decode_payload publish_e2e_key bytes = decode_publish_e2e_key bytes
decode_payload publish_e2e_key_result bytes = decode_publish_e2e_key_result bytes
decode_payload fetch_e2e_key bytes = decode_fetch_e2e_key bytes
decode_payload e2e_key_response bytes = decode_e2e_key_response bytes
decode_payload send_message bytes = decode_send_message bytes
decode_payload deliver_message bytes = decode_deliver_message bytes
decode_payload fetch_queued_messages bytes = decode_fetch_queued_messages bytes
decode_payload queued_message_delivery bytes = decode_queued_message_delivery bytes
decode_payload ack_queued_message bytes = decode_ack_queued_message bytes
decode_payload message_status_update bytes = decode_message_status_update bytes
decode_payload delivery_receipt bytes = decode_delivery_receipt bytes
decode_payload error bytes = decode_error bytes
decode_payload close bytes = decode_close bytes

-- A payload as its Rust type holds it, with every variable part short enough for its length prefix.
unfoldable pub IsPayload : (t : PacketType) → PayloadOf t → Type 0
IsPayload client_hello p =
    IsSizedString p.client_id
    × (length p.x25519_public_key ≡ 32)
    × (length p.ml_kem_ek ≡ ml_kem_768_ek_size)
IsPayload server_hello p =
    IsSizedString p.server_id
    × (length p.x25519_public_key ≡ 32)
    × (length p.ml_kem_ciphertext ≡ ml_kem_768_ct_size)
    × (length p.signature ≡ ml_dsa_65_sig_size)
IsPayload client_finish p = Unit {0}
IsPayload server_accept p = Unit {0}
IsPayload auth_challenge p = (length p.nonce ≡ 32)
IsPayload auth_response p =
    (length p.public_key ≡ ml_dsa_65_vk_size)
    × (length p.signature ≡ ml_dsa_65_sig_size)
    × (length p.attestation_token < 2 ^ 32)
IsPayload auth_accept p = Unit {0}
IsPayload auth_reject p = Unit {0}
IsPayload ping p = (p.timestamp < 2 ^ 64)
IsPayload pong p = (p.timestamp < 2 ^ 64)
IsPayload register_device p = IsSizedString p.username
IsPayload register_response p = IsSizedString p.message
IsPayload query_account_status p = Unit {0}
IsPayload account_status_response p =
    IsSizedString p.ban_reason × (p.subscription_expiry_timestamp < 2 ^ 64)
IsPayload send_friend_request p = IsSizedString p.target_username
IsPayload friend_request_result p = Unit {0}
IsPayload incoming_friend_request p = IsSizedString p.sender_username
IsPayload friend_request_decision p = IsSizedString p.sender_username
IsPayload remove_friend p = IsSizedString p.friend_username
IsPayload remove_friend_result p = Unit {0}
IsPayload friend_removed_notification p = IsSizedString p.removed_by_username
IsPayload friend_status_update p = IsSizedString p.friend_username × (p.last_seen < 2 ^ 64)
IsPayload send_typing_indicator p = IsSizedString p.recipient_username
IsPayload publish_e2e_key p = IsPublicKey p.key
IsPayload publish_e2e_key_result p = IsSizedString p.message
IsPayload fetch_e2e_key p = IsSizedString p.target_username
IsPayload e2e_key_response p = IsSizedString p.username × IsKeyOption p.key
IsPayload send_message p =
    (p.message_id < 2 ^ 64) × IsSizedString p.recipient_id × (length p.content < 2 ^ 32)
IsPayload deliver_message p =
    (p.message_id < 2 ^ 64) × IsSizedString p.sender_id × (length p.content < 2 ^ 32)
IsPayload fetch_queued_messages p = Unit {0}
IsPayload queued_message_delivery p =
    (p.queue_id < 2 ^ 64)
    × (p.message_id < 2 ^ 64)
    × IsSizedString p.sender_id
    × (length p.content < 2 ^ 32)
IsPayload ack_queued_message p = (p.queue_id < 2 ^ 64)
IsPayload message_status_update p = (p.message_id < 2 ^ 64)
IsPayload delivery_receipt p = (p.message_id < 2 ^ 64)
IsPayload error p = IsSizedString p.message
IsPayload close p = IsSizedString p.message
