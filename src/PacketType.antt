-- ===== src/PacketType.antt =====
-- src/packet_type.rs: the packet types, their codes on the wire, size limits and directions.
pub mod Codes
pub mod Limits
use chatix_protocol.Base.{ℕ, ◌+◌, List, [], ◌∷◌, Result, ok, err, ltb, ◌==◌, if◌then◌else◌}
use chatix_protocol.Error.{ProtocolError, unknown_packet_type, payload_too_large}
use chatix_protocol.Sizes.{
  ml_kem_768_ek_size, ml_kem_768_ct_size, ml_dsa_65_sig_size, ml_dsa_65_vk_size, as_u32,
}

pub data PacketType : Type 0 where
  client_hello : PacketType
  server_hello : PacketType
  client_finish : PacketType
  server_accept : PacketType
  auth_challenge : PacketType
  auth_response : PacketType
  auth_accept : PacketType
  auth_reject : PacketType
  ping : PacketType
  pong : PacketType
  register_device : PacketType
  register_response : PacketType
  query_account_status : PacketType
  account_status_response : PacketType
  send_friend_request : PacketType
  friend_request_result : PacketType
  incoming_friend_request : PacketType
  friend_request_decision : PacketType
  remove_friend : PacketType
  remove_friend_result : PacketType
  friend_removed_notification : PacketType
  friend_status_update : PacketType
  send_typing_indicator : PacketType
  publish_e2e_key : PacketType
  publish_e2e_key_result : PacketType
  fetch_e2e_key : PacketType
  e2e_key_response : PacketType
  send_message : PacketType
  deliver_message : PacketType
  fetch_queued_messages : PacketType
  queued_message_delivery : PacketType
  ack_queued_message : PacketType
  message_status_update : PacketType
  delivery_receipt : PacketType
  error : PacketType
  close : PacketType

unfoldable pub as_u8 : PacketType → ℕ
as_u8 client_hello = 1
as_u8 server_hello = 2
as_u8 client_finish = 3
as_u8 server_accept = 4
as_u8 auth_challenge = 5
as_u8 auth_response = 6
as_u8 auth_accept = 7
as_u8 auth_reject = 8
as_u8 ping = 20
as_u8 pong = 21
as_u8 register_device = 22
as_u8 register_response = 23
as_u8 query_account_status = 24
as_u8 account_status_response = 25
as_u8 send_friend_request = 26
as_u8 friend_request_result = 27
as_u8 incoming_friend_request = 28
as_u8 friend_request_decision = 29
as_u8 remove_friend = 30
as_u8 remove_friend_result = 31
as_u8 friend_removed_notification = 32
as_u8 friend_status_update = 33
as_u8 send_typing_indicator = 34
as_u8 publish_e2e_key = 35
as_u8 publish_e2e_key_result = 36
as_u8 fetch_e2e_key = 37
as_u8 e2e_key_response = 38
as_u8 send_message = 40
as_u8 deliver_message = 41
as_u8 fetch_queued_messages = 42
as_u8 queued_message_delivery = 43
as_u8 ack_queued_message = 44
as_u8 message_status_update = 45
as_u8 delivery_receipt = 46
as_u8 error = 254
as_u8 close = 255

unfoldable pub from_u8 : ℕ → Result ProtocolError PacketType
from_u8 value =
    if value == 1
    then ok client_hello
    else if value == 2
    then ok server_hello
    else if value == 3
    then ok client_finish
    else if value == 4
    then ok server_accept
    else if value == 5
    then ok auth_challenge
    else if value == 6
    then ok auth_response
    else if value == 7
    then ok auth_accept
    else if value == 8
    then ok auth_reject
    else if value == 20
    then ok ping
    else if value == 21
    then ok pong
    else if value == 22
    then ok register_device
    else if value == 23
    then ok register_response
    else if value == 24
    then ok query_account_status
    else if value == 25
    then ok account_status_response
    else if value == 26
    then ok send_friend_request
    else if value == 27
    then ok friend_request_result
    else if value == 28
    then ok incoming_friend_request
    else if value == 29
    then ok friend_request_decision
    else if value == 30
    then ok remove_friend
    else if value == 31
    then ok remove_friend_result
    else if value == 32
    then ok friend_removed_notification
    else if value == 33
    then ok friend_status_update
    else if value == 34
    then ok send_typing_indicator
    else if value == 35
    then ok publish_e2e_key
    else if value == 36
    then ok publish_e2e_key_result
    else if value == 37
    then ok fetch_e2e_key
    else if value == 38
    then ok e2e_key_response
    else if value == 40
    then ok send_message
    else if value == 41
    then ok deliver_message
    else if value == 42
    then ok fetch_queued_messages
    else if value == 43
    then ok queued_message_delivery
    else if value == 44
    then ok ack_queued_message
    else if value == 45
    then ok message_status_update
    else if value == 46
    then ok delivery_receipt
    else if value == 254
    then ok error
    else if value == 255
    then ok close
    else err (unknown_packet_type value)

unfoldable pub max_payload_size : PacketType → ℕ
max_payload_size client_hello = 1300
max_payload_size server_hello = as_u32 (32 + ml_kem_768_ct_size + ml_dsa_65_sig_size + 80)
max_payload_size client_finish = 1
max_payload_size server_accept = 1
max_payload_size auth_challenge = 32
max_payload_size auth_response = as_u32 (ml_dsa_65_vk_size + ml_dsa_65_sig_size + 4 + 4096)
max_payload_size auth_accept = 0
max_payload_size auth_reject = 0
max_payload_size ping = 8
max_payload_size pong = 8
max_payload_size register_device = 130
max_payload_size register_response = 259
max_payload_size query_account_status = 0
max_payload_size account_status_response = 268
max_payload_size send_friend_request = 130
max_payload_size friend_request_result = 1
max_payload_size incoming_friend_request = 130
max_payload_size friend_request_decision = 131
max_payload_size remove_friend = 130
max_payload_size remove_friend_result = 1
max_payload_size friend_removed_notification = 130
max_payload_size friend_status_update = 139
max_payload_size send_typing_indicator = 130
max_payload_size publish_e2e_key = as_u32 (32 + ml_kem_768_ek_size + ml_dsa_65_vk_size)
max_payload_size publish_e2e_key_result = 259
max_payload_size fetch_e2e_key = 130
max_payload_size e2e_key_response = as_u32 (130 + 1 + 32 + ml_kem_768_ek_size + ml_dsa_65_vk_size)
max_payload_size send_message = 65536
max_payload_size deliver_message = 65536
max_payload_size fetch_queued_messages = 0
max_payload_size queued_message_delivery = 65536
max_payload_size ack_queued_message = 8
max_payload_size message_status_update = 9
max_payload_size delivery_receipt = 8
max_payload_size error = 1024
max_payload_size close = 1024

unfoldable pub validate_payload_size : PacketType → ℕ → Result ProtocolError (Unit {0})
unfolding max_payload_size
validate_payload_size t payload_len =
    let max = max_payload_size t in
    if ltb max payload_len then err (payload_too_large payload_len max) else ok tt

pub data Direction : Type 0 where
  client_to_server server_to_client bidirectional : Direction

unfoldable pub direction : PacketType → Direction
direction client_hello = client_to_server
direction server_hello = server_to_client
direction client_finish = client_to_server
direction server_accept = server_to_client
direction auth_challenge = server_to_client
direction auth_response = client_to_server
direction auth_accept = server_to_client
direction auth_reject = server_to_client
direction ping = bidirectional
direction pong = bidirectional
direction register_device = client_to_server
direction register_response = server_to_client
direction query_account_status = client_to_server
direction account_status_response = server_to_client
direction send_friend_request = client_to_server
direction friend_request_result = server_to_client
direction incoming_friend_request = server_to_client
direction friend_request_decision = client_to_server
direction remove_friend = client_to_server
direction remove_friend_result = server_to_client
direction friend_removed_notification = server_to_client
direction friend_status_update = server_to_client
direction send_typing_indicator = client_to_server
direction publish_e2e_key = client_to_server
direction publish_e2e_key_result = server_to_client
direction fetch_e2e_key = client_to_server
direction e2e_key_response = server_to_client
direction send_message = client_to_server
direction deliver_message = server_to_client
direction fetch_queued_messages = client_to_server
direction queued_message_delivery = server_to_client
direction ack_queued_message = client_to_server
direction message_status_update = server_to_client
direction delivery_receipt = client_to_server
direction error = bidirectional
direction close = bidirectional
