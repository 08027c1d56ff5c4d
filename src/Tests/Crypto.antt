-- ===== src/Tests/Crypto.antt =====
-- src/crypto/ at concrete inputs, with toy primitives.
use chatix_protocol.Crypto.Separation.{
  Exchange, to_server_info, to_client_info, message_info, infos_separate, signed_messages_separate,
}
use chatix_protocol.Crypto.Auth.{auth_message}
use chatix_protocol.Base.{ℕ, ◌≡◌, ◌≢◌, ◌↔◌, refl, arith, List, [], ◌∷◌, replicate, ok, length}
use chatix_protocol.Codec.{new_codec, establish_session}
use chatix_protocol.Codec.Sent.{Agree}
use chatix_protocol.Payloads.E2eKey.{E2ePublicKey}
use chatix_protocol.Crypto.Session.{
  SessionKeys, ClientHandshakeState, ServerHandshakeState, generate, respond, derive_session_keys,
}
use chatix_protocol.Crypto.Session.Agreement.{establish_session-Agree}
use chatix_protocol.Crypto.Auth.{
  server_hello_message, generate_auth_identity, sign_auth_response, verify_auth_response,
  sign_server_hello, verify_server_hello,
}
use chatix_protocol.Crypto.Auth.Signed.{
  verify_auth_response-sign_auth_response, verify_server_hello-sign_server_hello,
}
use chatix_protocol.Crypto.SafetyNumber.{safety_number, format_05, decimal}
use chatix_protocol.Crypto.SafetyNumber.Symmetry.{safety_number_comm}
use chatix_protocol.Crypto.SafetyNumber.Digits.{safety_number-HasForm, HasForm}
use chatix_protocol.Crypto.Session.Keys.{expanding_to, derive_keys_independent}
use chatix_protocol.Crypto.Session.{SessionKeys, derive_keys, c2s_info, s2c_info}
use chatix_protocol.Tests.Primitives.{
  toy_dh, toy_dh-IsX25519, toy_kem, toy_kem-IsMlKem, toy_hkdf, toy_hkdf-IsHkdf, toy_sha,
  toy_sha-IsSha256, toy_dsa, toy_dsa-IsMlDsa,
}

abbrev ones : List ℕ
ones = replicate 32 1

abbrev twos : List ℕ
twos = replicate 32 2

establish_session-Agree_example :
    (client : ClientHandshakeState toy_dh toy_kem) × (server : ServerHandshakeState)
    × (keys : SessionKeys) × (generate toy_dh toy_kem 3 (7 ∷ []) ≡ ok client)
    × (respond toy_dh toy_kem toy_hkdf 5 (9 ∷ []) client.x25519_public client.ml_kem_ek ≡ ok server)
    × (derive_session_keys toy_dh toy_kem toy_hkdf client server.x25519_public
          server.ml_kem_ciphertext
        ≡ ok keys)
    × (let c' = establish_session new_codec keys.client_to_server keys.server_to_client in
        let d' =
          establish_session new_codec server.session_keys.server_to_client
            server.session_keys.client_to_server in
        Agree c'.session d'.session × Agree d'.session c'.session)
establish_session-Agree_example =
    establish_session-Agree toy_dh toy_kem toy_hkdf toy_dh-IsX25519 toy_kem-IsMlKem toy_hkdf-IsHkdf
      new_codec new_codec 3 5 (7 ∷ []) (9 ∷ [])

verify_auth_response-sign_auth_response_example :
    (seed vk sig : List ℕ) × (generate_auth_identity toy_dsa 4 ≡ ok (seed, vk))
    × (sign_auth_response toy_dsa (replicate 32 1) (replicate 32 2) seed ≡ ok sig)
    × (verify_auth_response toy_dsa (replicate 32 1) (replicate 32 2) vk sig ≡ ok tt)
verify_auth_response-sign_auth_response_example =
    verify_auth_response-sign_auth_response toy_dsa toy_dsa-IsMlDsa 4 (replicate 32 1)
      (replicate 32 2)

verify_server_hello-sign_server_hello_example :
    (seed vk sig : List ℕ) × (generate_auth_identity toy_dsa 4 ≡ ok (seed, vk))
    × (sign_server_hello toy_sha toy_dsa (6 ∷ []) (replicate 32 1) (replicate 1088 2) seed ≡ ok sig)
    × (verify_server_hello toy_sha toy_dsa (6 ∷ []) (replicate 32 1) (replicate 1088 2) vk sig
        ≡ ok tt)
verify_server_hello-sign_server_hello_example =
    verify_server_hello-sign_server_hello toy_dsa toy_dsa-IsMlDsa toy_sha 4 (6 ∷ [])
      (replicate 32 1) (replicate 1088 2)

abbrev threes : List ℕ
threes = replicate 1088 3

abbrev own : Exchange
own = record { first_key = ones; second_key = twos; ciphertext = threes }

abbrev other : Exchange
other = record { first_key = twos; second_key = ones; ciphertext = threes }

infos_separate_example :
    ((to_server_info own ≡ to_server_info other) ↔ (own ≡ other))
    × ((to_client_info own ≡ to_client_info other) ↔ (own ≡ other))
    × ((message_info own ≡ message_info other) ↔ (own ≡ other))
    × (to_server_info own ≢ to_client_info other)
    × (to_server_info own ≢ message_info other)
    × (to_client_info own ≢ message_info other)
infos_separate_example =
    infos_separate own other (record { first_key = refl; second_key = refl; ciphertext = refl })
      (record { first_key = refl; second_key = refl; ciphertext = refl })

signed_messages_separate_example :
    ((auth_message ones twos ≡ auth_message twos twos) ↔ ((ones ≡ twos) × (twos ≡ twos)))
    × ((server_hello_message toy_sha (6 ∷ []) ones threes
          ≡ server_hello_message toy_sha (8 ∷ []) ones threes)
        ↔ ((toy_sha.digest (6 ∷ []) ≡ toy_sha.digest (8 ∷ [])) × (ones ≡ ones) × (threes ≡ threes)))
    × (auth_message ones twos ≢ server_hello_message toy_sha (6 ∷ []) ones threes)
signed_messages_separate_example =
    signed_messages_separate toy_sha toy_sha-IsSha256 ones twos twos twos (6 ∷ []) (8 ∷ []) ones
      ones threes threes refl refl refl refl refl refl

abbrev alice : List ℕ
alice = 97 ∷ []

abbrev bob : List ℕ
bob = 98 ∷ []

abbrev alice_key : E2ePublicKey
alice_key = record {
  x25519_public = replicate 32 1;
  ml_kem_ek = replicate 1184 2;
  dsa_verifying_key = replicate 1952 3;
}

abbrev bob_key : E2ePublicKey
bob_key = record {
  x25519_public = replicate 32 4;
  ml_kem_ek = replicate 1184 5;
  dsa_verifying_key = replicate 1952 6;
}

alice-ne-bob : alice ≢ bob
alice-ne-bob = ground arith

safety_number_comm_example :
    safety_number toy_sha alice alice_key bob bob_key
    ≡ safety_number toy_sha bob bob_key alice alice_key
safety_number_comm_example = safety_number_comm toy_sha alice alice_key bob bob_key alice-ne-bob

safety_number-HasForm_example : HasForm (safety_number toy_sha alice alice_key bob bob_key)
safety_number-HasForm_example =
    safety_number-HasForm toy_sha toy_sha-IsSha256 alice alice_key bob bob_key

-- `format!("{value:05}")` pads with zeros and cuts nothing off.
format_05_test :
    (format_05 407 ≡ b'0' ∷ b'0' ∷ b'4' ∷ b'0' ∷ b'7' ∷ []) × (length (format_05 1234567) ≡ 7)
unfolding format_05 decimal
format_05_test = (refl, refl)

derive_keys_independent_example :
    (keys : SessionKeys) × (derive_keys toy_hkdf ones twos ones ≡ ok keys)
    × (derive_keys (expanding_to (c2s_info ones) twos toy_hkdf) ones twos ones
        ≡ ok (record keys { client_to_server = twos }))
    × (derive_keys (expanding_to (s2c_info ones) twos toy_hkdf) ones twos ones
        ≡ ok (record keys { server_to_client = twos }))
derive_keys_independent_example =
    derive_keys_independent toy_hkdf toy_hkdf-IsHkdf ones twos ones twos
