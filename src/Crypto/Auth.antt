-- ===== src/Crypto/Auth.antt =====
-- src/crypto/auth.rs: proofs of identity, which are bound to one handshake.
pub mod Signed
use mathlib.Core.Bool.{not}
use chatix_protocol.Base.{
  ℕ, List, ◌++◌, Result, ok, err, ◌>>=◌, ◌>>◌, ok_or, ◌==◌, if◌then◌else◌, length,
}
use chatix_protocol.Error.{ProtocolError, crypto_error}
use chatix_protocol.Sizes.{ml_dsa_65_sig_size, ml_dsa_65_vk_size}
use chatix_protocol.Crypto.Primitives.{Sha256, MlDsa}
use chatix_protocol.Crypto.Session.{array_from}

unfoldable pub auth_message : List ℕ → List ℕ → List ℕ
auth_message transcript_hash nonce = transcript_hash ++ nonce

module _ (sha256 : Sha256) where
  open sha256 use {digest}

  unfoldable pub compute_handshake_transcript : List ℕ → List ℕ → List ℕ
  compute_handshake_transcript client_hello_bytes server_hello_bytes =
      digest (client_hello_bytes ++ server_hello_bytes)

  unfoldable pub server_hello_message : List ℕ → List ℕ → List ℕ → List ℕ
  server_hello_message client_hello_bytes server_x25519_public_key server_ml_kem_ciphertext =
      digest client_hello_bytes ++ (server_x25519_public_key ++ server_ml_kem_ciphertext)

module _ (dsa : MlDsa) where
  open dsa use {
    SigningKey, to_seed, from_seed, verifying_key, vk_encode, vk_decode, sign, sig_encode,
    sig_decode, verify,
  }

  -- The key that is generated is an argument.
  unfoldable pub generate_auth_identity : SigningKey → Result ProtocolError (List ℕ × List ℕ)
  generate_auth_identity sk = do
    let signing_seed = to_seed sk
    let vk_slice = vk_encode (verifying_key sk)
    (if not (length vk_slice == ml_dsa_65_vk_size) then err crypto_error else ok tt)
    ok (signing_seed, vk_slice)

  -- What `sign_auth_response` and `sign_server_hello` do with their message.
  unfoldable pub sign_message : List ℕ → List ℕ → Result ProtocolError (List ℕ)
  sign_message message signing_seed = do
    seed_arr ← array_from 32 signing_seed
    let slice = sig_encode (sign (from_seed seed_arr) message)
    (if not (length slice == ml_dsa_65_sig_size) then err crypto_error else ok tt)
    ok slice

  -- What `verify_auth_response` and `verify_server_hello` do with their message.
  unfoldable pub verify_message : List ℕ → List ℕ → List ℕ → Result ProtocolError (Unit {0})
  verify_message message verifying_key signature = do
    vk_arr ← array_from ml_dsa_65_vk_size verifying_key
    let vk = vk_decode vk_arr
    sig_arr ← array_from ml_dsa_65_sig_size signature
    sig ← ok_or (sig_decode sig_arr) crypto_error
    if verify vk message sig then ok tt else err crypto_error

  unfoldable pub sign_auth_response : List ℕ → List ℕ → List ℕ → Result ProtocolError (List ℕ)
  unfolding sign_message
  sign_auth_response transcript_hash nonce signing_seed =
      sign_message (auth_message transcript_hash nonce) signing_seed

  unfoldable pub verify_auth_response :
      List ℕ → List ℕ → List ℕ → List ℕ → Result ProtocolError (Unit {0})
  unfolding verify_message
  verify_auth_response transcript_hash nonce verifying_key signature =
      verify_message (auth_message transcript_hash nonce) verifying_key signature

module _ (sha256 : Sha256) (dsa : MlDsa) where
  unfoldable pub sign_server_hello :
      List ℕ → List ℕ → List ℕ → List ℕ → Result ProtocolError (List ℕ)
  unfolding sign_message
  sign_server_hello client_hello_bytes server_x25519_public_key server_ml_kem_ciphertext
        signing_seed =
      sign_message dsa
        (server_hello_message sha256 client_hello_bytes server_x25519_public_key
          server_ml_kem_ciphertext)
        signing_seed

  unfoldable pub verify_server_hello :
      List ℕ → List ℕ → List ℕ → List ℕ → List ℕ → Result ProtocolError (Unit {0})
  unfolding verify_message
  verify_server_hello client_hello_bytes server_x25519_public_key server_ml_kem_ciphertext
        pinned_verifying_key signature =
      verify_message dsa
        (server_hello_message sha256 client_hello_bytes server_x25519_public_key
          server_ml_kem_ciphertext)
        pinned_verifying_key signature
