-- ===== src/Connection.antt =====
-- src/connection_state.rs: which packet a side of the connection may receive, and what it does next.
pub mod Graph
pub mod Handshake
pub mod Progress
use chatix_protocol.Base.{Bool, true, false, ◌&&◌, Result, ok, err, if◌then◌else◌}
use chatix_protocol.Error.{ProtocolError, invalid_state_transition}
use chatix_protocol.PacketType.{
  PacketType, Direction, direction, client_to_server, server_to_client, bidirectional, client_hello,
  server_hello, client_finish, server_accept, auth_challenge, auth_response, auth_accept,
  auth_reject, ping, pong, register_device, register_response, query_account_status,
  account_status_response, send_friend_request, friend_request_result, incoming_friend_request,
  friend_request_decision, remove_friend, remove_friend_result, friend_removed_notification,
  friend_status_update, send_typing_indicator, publish_e2e_key, publish_e2e_key_result,
  fetch_e2e_key, e2e_key_response, send_message, deliver_message, fetch_queued_messages,
  queued_message_delivery, ack_queued_message, message_status_update, delivery_receipt, error,
  close,
}

pub data Role : Type 0 where
  client server : Role

pub data ConnectionState : Type 0 where
  awaiting_client_hello awaiting_client_finish awaiting_auth : ConnectionState
  awaiting_server_hello awaiting_server_accept awaiting_auth_challenge : ConnectionState
  awaiting_auth_result established closing : ConnectionState

unfoldable pub initial : Role → ConnectionState
initial server = awaiting_client_hello
initial client = awaiting_server_hello

-- `direction_allowed`
unfoldable pub direction_allowed : Role → Direction → Bool
direction_allowed client server_to_client = true
direction_allowed client bidirectional = true
direction_allowed server client_to_server = true
direction_allowed server bidirectional = true
direction_allowed _ _ = false

-- `allowed`: the packets of each phase.
unfoldable pub allowed : ConnectionState → PacketType → Bool
allowed awaiting_client_hello client_hello = true
allowed awaiting_client_hello _ = false
allowed awaiting_client_finish client_finish = true
allowed awaiting_client_finish error = true
allowed awaiting_client_finish _ = false
allowed awaiting_auth auth_response = true
allowed awaiting_auth error = true
allowed awaiting_auth _ = false
allowed awaiting_server_hello server_hello = true
allowed awaiting_server_hello error = true
allowed awaiting_server_hello _ = false
allowed awaiting_server_accept server_accept = true
allowed awaiting_server_accept error = true
allowed awaiting_server_accept _ = false
allowed awaiting_auth_challenge auth_challenge = true
allowed awaiting_auth_challenge error = true
allowed awaiting_auth_challenge _ = false
allowed awaiting_auth_result auth_accept = true
allowed awaiting_auth_result auth_reject = true
allowed awaiting_auth_result error = true
allowed awaiting_auth_result _ = false
allowed established ping = true
allowed established pong = true
allowed established send_message = true
allowed established deliver_message = true
allowed established message_status_update = true
allowed established delivery_receipt = true
allowed established register_device = true
allowed established register_response = true
allowed established query_account_status = true
allowed established account_status_response = true
allowed established fetch_queued_messages = true
allowed established queued_message_delivery = true
allowed established ack_queued_message = true
allowed established send_friend_request = true
allowed established friend_request_result = true
allowed established incoming_friend_request = true
allowed established friend_request_decision = true
allowed established remove_friend = true
allowed established remove_friend_result = true
allowed established friend_removed_notification = true
allowed established friend_status_update = true
allowed established send_typing_indicator = true
allowed established publish_e2e_key = true
allowed established publish_e2e_key_result = true
allowed established fetch_e2e_key = true
allowed established e2e_key_response = true
allowed established close = true
allowed established error = true
allowed established _ = false
allowed closing _ = false

unfoldable pub validate_incoming :
    ConnectionState → Role → PacketType → Result ProtocolError (Unit {0})
unfolding direction_allowed allowed direction
validate_incoming state role packet_type =
    if direction_allowed role (direction packet_type)
    then if allowed state packet_type then ok tt else err invalid_state_transition
    else err invalid_state_transition

unfoldable pub advance : ConnectionState → PacketType → ConnectionState
advance awaiting_client_hello client_hello = awaiting_client_finish
advance awaiting_client_finish client_finish = awaiting_auth
advance awaiting_auth auth_response = established
advance awaiting_server_hello server_hello = awaiting_server_accept
advance awaiting_server_accept server_accept = awaiting_auth_challenge
advance awaiting_auth_challenge auth_challenge = awaiting_auth_result
advance awaiting_auth_result auth_accept = established
advance awaiting_auth_result auth_reject = closing
advance _ close = closing
advance _ error = closing
advance state _ = state
