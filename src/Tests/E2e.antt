-- ===== src/Tests/E2e.antt =====
-- src/crypto/e2e.rs at concrete inputs, with toy primitives.
use chatix_protocol.Base.{none}
use chatix_protocol.PacketType.{send_message}
use chatix_protocol.Codec.{PacketCodec, RawPacket}
use chatix_protocol.Codec.Nonces.{Outgoing}
use chatix_protocol.Codec.Channel.{Pipe, transmit, collect}
use chatix_protocol.Payloads.Common.Utf8.{is_utf8}
use chatix_protocol.Payloads.Common.Sized.{IsSizedString}
use chatix_protocol.Payloads.Message.{SendMessagePayload}
use chatix_protocol.Payloads.OfType.{encode_payload, decode_payload}
use chatix_protocol.Crypto.E2e.Delivered.{verify_and_decrypt-collect}
use chatix_protocol.Tests.Streams.{memory, memory-Delivers, buffer, buffer-Collects}
use chatix_protocol.Tests.Channel.{wire}
use chatix_protocol.Base.{◌+◌, length}
use chatix_protocol.Crypto.E2e.{min_blob_len}
use chatix_protocol.Base.{
  ℕ, ◌≡◌, refl, arith, true, List, [], ◌∷◌, ◌++◌, some, replicate, ok, err, panic, Result, length,
  slice, slice_to, slice_from, bytes_eq,
}
use chatix_protocol.Error.{ProtocolError}
use chatix_protocol.Sizes.{ml_dsa_65_sig_size}
use chatix_protocol.Payloads.E2eKey.{E2ePublicKey}
use chatix_protocol.Crypto.E2e.{
  E2eSecretKey, generate_e2e_keypair, encrypt_and_sign, decrypt_signed, verify_and_decrypt,
  derive_e2e_key, e2e_context,
}
use chatix_protocol.Crypto.E2e.RoundTrip.{verify_and_decrypt-encrypt_and_sign}
use chatix_protocol.Crypto.E2e.Verified.{verify_and_decrypt-verify}
use chatix_protocol.Tests.Cipher.{toy, toy-IsAead, seal, open_text, bind_key}
use chatix_protocol.Tests.Primitives.{
  toy_dh, toy_dh-IsX25519, toy_kem, toy_kem-IsMlKem, toy_hkdf, toy_hkdf-IsHkdf, toy_dsa,
  toy_dsa-IsMlDsa,
}

abbrev kem_seed : List ℕ
kem_seed = replicate 64 7

abbrev nonce : List ℕ
nonce = replicate 12 1

abbrev greeting : List ℕ
greeting = 104 ∷ 105 ∷ []

verify_and_decrypt-encrypt_and_sign_example :
    (secret : E2eSecretKey) × (public : E2ePublicKey) × (blob : List ℕ) × (generate_e2e_keypair
        toy_dh toy_kem toy_dsa 3
        (some kem_seed)
        8
      ≡ ok (secret, public))
    × (encrypt_and_sign toy_dh toy_kem toy_hkdf toy toy_dsa 5
          (9 ∷ [])
          (some nonce)
          greeting
          public.x25519_public
          public.ml_kem_ek
          (toy_dsa.to_seed 4)
        ≡ ok blob)
    × (length blob ≡ min_blob_len + length greeting)
    × (verify_and_decrypt toy_dh toy_kem toy_hkdf toy toy_dsa blob secret.x25519_secret
          secret.ml_kem_seed
          (toy_dsa.vk_encode (toy_dsa.verifying_key 4))
        ≡ ok greeting)
verify_and_decrypt-encrypt_and_sign_example =
    verify_and_decrypt-encrypt_and_sign toy_dh toy_kem toy_hkdf toy toy_dsa toy_dh-IsX25519
      toy_kem-IsMlKem toy_hkdf-IsHkdf toy-IsAead toy_dsa-IsMlDsa 3 5 kem_seed (9 ∷ []) nonce
      greeting 8 4 refl refl (omega arith)

abbrev blob_of : Result ProtocolError (List ℕ) → List ℕ
blob_of (ok b) = b
blob_of (err e) = []
blob_of panic = []

abbrev blob : List ℕ
blob = blob_of (
    encrypt_and_sign toy_dh toy_kem toy_hkdf toy toy_dsa 5 (9 ∷ []) (some nonce) greeting
      (replicate 32 3) (replicate 1184 7) (replicate 32 4))

decrypted :
    verify_and_decrypt toy_dh toy_kem toy_hkdf toy toy_dsa blob
      (replicate 32 3)
      kem_seed
      (replicate 1952 4)
    ≡ ok greeting
unfolding verify_and_decrypt decrypt_signed encrypt_and_sign derive_e2e_key e2e_context slice
    slice_to slice_from seal open_text bind_key bytes_eq
decrypted = refl

verify_and_decrypt-verify_example :
    (signed sig : List ℕ) × (s : ℕ) × (blob ≡ signed ++ sig)
    × (length sig ≡ ml_dsa_65_sig_size)
    × (toy_dsa.sig_decode sig ≡ some s)
    × (toy_dsa.verify (toy_dsa.vk_decode (replicate 1952 4)) signed s ≡ true)
    × (decrypt_signed toy_dh toy_kem toy_hkdf toy toy_dsa signed (replicate 32 3) kem_seed
        ≡ ok greeting)
verify_and_decrypt-verify_example =
    verify_and_decrypt-verify toy_dh toy_kem toy_hkdf toy toy_dsa blob (replicate 32 3) kem_seed
      (replicate 1952 4) decrypted

-- A connection in the clear, and "bo".
abbrev fresh : PacketCodec
fresh = record { last_recv_seq = none; next_send_seq = 1; session = none }

abbrev pipe : Pipe memory buffer toy memory-Delivers buffer-Collects wire
pipe = record { input = []; output = [] }

abbrev bo : List ℕ
bo = 98 ∷ 111 ∷ []

bo-IsSizedString : IsSizedString bo
unfolding is_utf8
bo-IsSizedString = record {
  text = record { bytes = (omega arith, (omega arith, tt)); utf8 = refl };
  short = omega arith;
}

verify_and_decrypt-collect_example :
    (secret : E2eSecretKey) × (public : E2ePublicKey) × (blob bytes : List ℕ) × (packet : RawPacket)
    × (generate_e2e_keypair toy_dh toy_kem toy_dsa 3 (some kem_seed) 8 ≡ ok (secret, public))
    × (encrypt_and_sign toy_dh toy_kem toy_hkdf toy toy_dsa 5
          (9 ∷ [])
          (some nonce)
          greeting
          public.x25519_public
          public.ml_kem_ek
          (toy_dsa.to_seed 4)
        ≡ ok blob)
    × (let message : SendMessagePayload = record {
      message_id = 300;
      recipient_id = bo;
      content = blob;
    } in
        let out : Outgoing = record { packet_type = send_message; flags = 0; payload = bytes } in
        let sent = transmit memory buffer toy memory-Delivers buffer-Collects wire out fresh pipe in
        (encode_payload send_message message ≡ ok bytes)
        × (sent.0 ≡ ok tt)
        × ((collect memory buffer toy memory-Delivers buffer-Collects wire fresh sent.1.1).0
            ≡ ok packet)
        × (decode_payload send_message packet.payload ≡ ok message))
    × (verify_and_decrypt toy_dh toy_kem toy_hkdf toy toy_dsa blob secret.x25519_secret
          secret.ml_kem_seed
          (toy_dsa.vk_encode (toy_dsa.verifying_key 4))
        ≡ ok greeting)
verify_and_decrypt-collect_example =
    verify_and_decrypt-collect memory buffer toy memory-Delivers buffer-Collects wire toy-IsAead
      toy_dh toy_kem toy_hkdf toy_dsa toy_dh-IsX25519 toy_kem-IsMlKem toy_hkdf-IsHkdf
      toy_dsa-IsMlDsa 3 5 kem_seed (9 ∷ []) nonce greeting 8 4 fresh fresh pipe 300 bo 0 refl refl
      (omega arith) bo-IsSizedString (omega arith) (omega arith) tt tt (omega arith, refl) refl
