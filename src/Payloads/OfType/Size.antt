-- ===== src/Payloads/OfType/Size.antt =====
-- How many bytes the payloads of a variable size take.
use chatix_protocol.Base.{
  ℕ, ◌+◌, ◌%◌, ◌^◌, ◌≡◌, arith, List, [], ◌∷◌, ◌++◌, Option, ok, >>=-eq-ok, length, length-append,
  to_be_bytes, length-to_be_bytes,
}
use chatix_protocol.Payloads.Message.{message_status_as_u8}
use chatix_protocol.PacketType.{
  client_hello, server_hello, auth_response, register_response, account_status_response,
  friend_request_decision, friend_status_update, publish_e2e_key_result, send_message,
  deliver_message, queued_message_delivery, message_status_update, close,
}
use chatix_protocol.Payloads.Common.{encode_sized_string, encode_sized_bytes, encode_bool}
use chatix_protocol.Payloads.E2eKey.{E2ePublicKey, encode_e2e_public_key, encode_key_status}
use chatix_protocol.Payloads.E2eKey.RoundTrip.{IsPublicKey, IsKeyOption}
use chatix_protocol.Payloads.OfType.{PayloadOf, IsPayload}
use chatix_protocol.Payloads.Friend.{
  friend_status_as_u8, encode_friend_request_decision, encode_friend_status_update,
}
use chatix_protocol.Payloads.Hello.{encode_client_hello, encode_server_hello}
use chatix_protocol.Payloads.Auth.{encode_auth_response}
use chatix_protocol.Payloads.Registration.{encode_register_response}
use chatix_protocol.Payloads.Account.{encode_account_status_response}
use chatix_protocol.Payloads.E2eKey.{encode_publish_e2e_key_result, encode_e2e_key_response}
use chatix_protocol.Payloads.Message.{
  encode_send_message, encode_deliver_message, encode_message_status_update,
}
use chatix_protocol.Payloads.Queue.{encode_queued_message_delivery}
use chatix_protocol.Payloads.Close.{encode_close}

pub length-encode_sized_string :
    (s : List ℕ) {out : List ℕ} → encode_sized_string s ≡ ok out → length out ≡ 2 + length s
unfolding encode_sized_string
length-encode_sized_string s e = ground (
  arith,
  length-append (to_be_bytes 2 (length s % 2 ^ 16)) s,
  length-to_be_bytes 2 (length s % 2 ^ 16),
)

length-encode_sized_bytes :
    (s : List ℕ) {out : List ℕ} → encode_sized_bytes s ≡ ok out → length out ≡ 4 + length s
unfolding encode_sized_bytes
length-encode_sized_bytes s e = ground (
  arith,
  length-append (to_be_bytes 4 (length s % 2 ^ 32)) s,
  length-to_be_bytes 4 (length s % 2 ^ 32),
)

pub client_hello_size :
    (p : PayloadOf client_hello) (bytes : List ℕ)
    → IsPayload client_hello p
    → encode_client_hello p ≡ ok bytes
    → length bytes ≡ 1218 + length p.client_id
unfolding encode_client_hello IsPayload
client_hello_size p bytes h e =
    let (out, w, e') = >>=-eq-ok (encode_sized_string p.client_id) _ e in
    ground (
      arith,
      length-encode_sized_string p.client_id w,
      length-append (out) (p.x25519_public_key ++ p.ml_kem_ek),
      length-append (p.x25519_public_key) (p.ml_kem_ek),
      h.1,
      h.2,
    )

pub server_hello_size :
    (p : PayloadOf server_hello) (bytes : List ℕ)
    → IsPayload server_hello p
    → encode_server_hello p ≡ ok bytes
    → length bytes ≡ 4431 + length p.server_id
unfolding encode_server_hello IsPayload
server_hello_size p bytes h e =
    let (out, w, e') = >>=-eq-ok (encode_sized_string p.server_id) _ e in
    ground (
      arith,
      length-encode_sized_string p.server_id w,
      length-append (out) (p.x25519_public_key ++ (p.ml_kem_ciphertext ++ p.signature)),
      length-append (p.x25519_public_key) (p.ml_kem_ciphertext ++ p.signature),
      length-append (p.ml_kem_ciphertext) (p.signature),
      h.1,
      h.2,
      h.3,
    )

pub register_response_size :
    (p : PayloadOf register_response) (bytes : List ℕ)
    → IsPayload register_response p
    → encode_register_response p ≡ ok bytes
    → length bytes ≡ 3 + length p.message
unfolding encode_register_response IsPayload
register_response_size p bytes h e =
    let (out, w, e') = >>=-eq-ok (encode_sized_string p.message) _ e in
    ground (arith, length-encode_sized_string p.message w)

pub publish_e2e_key_result_size :
    (p : PayloadOf publish_e2e_key_result) (bytes : List ℕ)
    → IsPayload publish_e2e_key_result p
    → encode_publish_e2e_key_result p ≡ ok bytes
    → length bytes ≡ 3 + length p.message
unfolding encode_publish_e2e_key_result IsPayload
publish_e2e_key_result_size p bytes h e =
    let (out, w, e') = >>=-eq-ok (encode_sized_string p.message) _ e in
    ground (arith, length-encode_sized_string p.message w)

pub close_size :
    (p : PayloadOf close) (bytes : List ℕ)
    → IsPayload close p
    → encode_close p ≡ ok bytes
    → length bytes ≡ 3 + length p.message
unfolding encode_close IsPayload
close_size p bytes h e =
    let (out, w, e') = >>=-eq-ok (encode_sized_string p.message) _ e in
    ground (arith, length-encode_sized_string p.message w)

pub friend_request_decision_size :
    (p : PayloadOf friend_request_decision) (bytes : List ℕ)
    → IsPayload friend_request_decision p
    → encode_friend_request_decision p ≡ ok bytes
    → length bytes ≡ 3 + length p.sender_username
unfolding encode_friend_request_decision IsPayload
friend_request_decision_size p bytes h e =
    let (out, w, e') = >>=-eq-ok (encode_sized_string p.sender_username) _ e in
    ground (
      arith,
      length-encode_sized_string p.sender_username w,
      length-append (out) (encode_bool p.accepted ∷ []),
    )

pub friend_status_update_size :
    (p : PayloadOf friend_status_update) (bytes : List ℕ)
    → IsPayload friend_status_update p
    → encode_friend_status_update p ≡ ok bytes
    → length bytes ≡ 11 + length p.friend_username
unfolding encode_friend_status_update IsPayload
friend_status_update_size p bytes h e =
    let (out, w, e') = >>=-eq-ok (encode_sized_string p.friend_username) _ e in
    ground (
      arith,
      length-encode_sized_string p.friend_username w,
      length-append (out) (friend_status_as_u8 p.status ∷ to_be_bytes 8 p.last_seen),
      length-to_be_bytes 8 p.last_seen,
    )

pub account_status_response_size :
    (p : PayloadOf account_status_response) (bytes : List ℕ)
    → IsPayload account_status_response p
    → encode_account_status_response p ≡ ok bytes
    → length bytes ≡ 12 + length p.ban_reason
unfolding encode_account_status_response IsPayload
account_status_response_size p bytes h e =
    let (out, w, e') = >>=-eq-ok (encode_sized_string p.ban_reason) _ e in
    ground (
      arith,
      length-encode_sized_string p.ban_reason w,
      length-append (out)
          (encode_bool p.subscription_active ∷ to_be_bytes 8 p.subscription_expiry_timestamp),
      length-to_be_bytes 8 p.subscription_expiry_timestamp,
    )

pub send_message_size :
    (p : PayloadOf send_message) (bytes : List ℕ)
    → encode_send_message p ≡ ok bytes
    → length bytes ≡ 14 + (length p.recipient_id + length p.content)
unfolding encode_send_message
send_message_size p bytes e =
    let (out, w, e') = >>=-eq-ok (encode_sized_string p.recipient_id) _ e in
    let (content, v, e'') = >>=-eq-ok (encode_sized_bytes p.content) _ e' in
    ground (
      arith,
      length-encode_sized_string p.recipient_id w,
      length-encode_sized_bytes p.content v,
      length-append (to_be_bytes 8 p.message_id) (out ++ content),
      length-to_be_bytes 8 p.message_id,
      length-append out content,
    )

pub deliver_message_size :
    (p : PayloadOf deliver_message) (bytes : List ℕ)
    → encode_deliver_message p ≡ ok bytes
    → length bytes ≡ 14 + (length p.sender_id + length p.content)
unfolding encode_deliver_message
deliver_message_size p bytes e =
    let (out, w, e') = >>=-eq-ok (encode_sized_string p.sender_id) _ e in
    let (content, v, e'') = >>=-eq-ok (encode_sized_bytes p.content) _ e' in
    ground (
      arith,
      length-encode_sized_string p.sender_id w,
      length-encode_sized_bytes p.content v,
      length-append (to_be_bytes 8 p.message_id) (out ++ content),
      length-to_be_bytes 8 p.message_id,
      length-append out content,
    )

pub queued_message_delivery_size :
    (p : PayloadOf queued_message_delivery) (bytes : List ℕ)
    → encode_queued_message_delivery p ≡ ok bytes
    → length bytes ≡ 22 + (length p.sender_id + length p.content)
unfolding encode_queued_message_delivery
queued_message_delivery_size p bytes e =
    let (out, w, e') = >>=-eq-ok (encode_sized_string p.sender_id) _ e in
    let (content, v, e'') = >>=-eq-ok (encode_sized_bytes p.content) _ e' in
    ground (
      arith,
      length-encode_sized_string p.sender_id w,
      length-encode_sized_bytes p.content v,
      length-append (to_be_bytes 8 p.message_id) (out ++ content),
      length-to_be_bytes 8 p.message_id,
      length-append out content,
      length-append (to_be_bytes 8 p.queue_id) (to_be_bytes 8 p.message_id ++ (out ++ content)),
      length-to_be_bytes 8 p.queue_id,
    )

pub auth_response_size :
    (p : PayloadOf auth_response) (bytes : List ℕ)
    → IsPayload auth_response p
    → encode_auth_response p ≡ ok bytes
    → length bytes ≡ 1952 + 3309 + 4 + length p.attestation_token
unfolding encode_auth_response IsPayload
auth_response_size p bytes h e =
    let (att, w, e') = >>=-eq-ok (encode_sized_bytes p.attestation_token) _ e in
    ground (
      arith,
      length-encode_sized_bytes p.attestation_token w,
      length-append p.public_key (p.signature ++ att),
      length-append p.signature att,
      h.0,
      h.1,
    )

pub key_size :
    (k : E2ePublicKey) → IsPublicKey k → length (encode_e2e_public_key k) ≡ 32 + 1184 + 1952
unfolding encode_e2e_public_key
key_size k v = omega (
  arith,
  length-append k.x25519_public (k.ml_kem_ek ++ k.dsa_verifying_key),
  length-append k.ml_kem_ek k.dsa_verifying_key,
  v.x25519_public,
  v.ml_kem_ek,
  v.dsa_verifying_key,
)

pub e2e_key_response_size :
    (name : List ℕ) (key : Option E2ePublicKey) (bytes : List ℕ)
    → IsKeyOption key
    → encode_e2e_key_response (record { username = name; key = key }) ≡ ok bytes
    → length bytes ≡ 2 + length name + length (encode_key_status key)
unfolding encode_e2e_key_response
e2e_key_response_size name key bytes h e =
    let (out, w, e') = >>=-eq-ok (encode_sized_string name) _ e in
    ground (arith, length-encode_sized_string name w, length-append out (encode_key_status key))

pub status_update_size :
    (p : PayloadOf message_status_update) → length (encode_message_status_update p) ≡ 9
unfolding encode_message_status_update
status_update_size p = omega (
  arith,
  length-append (to_be_bytes 8 p.message_id) (message_status_as_u8 p.status ∷ []),
  length-to_be_bytes 8 p.message_id,
)
