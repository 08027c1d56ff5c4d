-- ===== src/Crypto/Auth/Signed.antt =====
-- What is signed for one handshake verifies there, and the signed messages of two handshakes differ.
use chatix_protocol.Base.{ℕ, ◌≡◌, sym, ◌∙◌, arith, List, ok, length, append_cancel}
use chatix_protocol.Crypto.Primitives.{Sha256, IsSha256, MlDsa, IsMlDsa}
use chatix_protocol.Crypto.Auth.{
  auth_message, server_hello_message, generate_auth_identity, sign_message, verify_message,
  sign_auth_response, verify_auth_response, sign_server_hello, verify_server_hello,
}

-- For transcript hashes of 32 bytes, the messages that clients sign in two handshakes are equal
-- only if the transcript hashes and the nonces are.
pub auth_message-injective :
    (t t' nonce nonce' : List ℕ)
    → length t ≡ 32
    → length t' ≡ 32
    → auth_message t nonce ≡ auth_message t' nonce'
    → (t ≡ t') × (nonce ≡ nonce')
unfolding auth_message
auth_message-injective t t' nonce nonce' h h' e = append_cancel t t' (h ∙ sym h') e

-- For a hash of 32 bytes and X25519 keys of 32 bytes, the messages that a server signs in two
-- handshakes are equal only if the hashes of the client hellos, the X25519 keys and the
-- ciphertexts are.
pub server_hello_message-injective :
    (sha256 : Sha256)
    → IsSha256 sha256
    → (hello hello' x x' ct ct' : List ℕ) → length x ≡ 32
    → length x' ≡ 32
    → server_hello_message sha256 hello x ct ≡ server_hello_message sha256 hello' x' ct'
    → (sha256.digest hello ≡ sha256.digest hello') × (x ≡ x') × (ct ≡ ct')
unfolding server_hello_message
server_hello_message-injective sha256 is_sha hello hello' x x' ct ct' h h' e =
    let size = is_sha.digest_array hello in
    let size' = is_sha.digest_array hello' in
    let (hashes, rest) =
      append_cancel (sha256.digest hello) (sha256.digest hello') (size.size ∙ sym size'.size) e in
    let (keys, cts) = append_cancel x x' (h ∙ sym h') rest in (hashes, keys, cts)

module _ (dsa : MlDsa) (is_dsa : IsMlDsa dsa) where
  -- A signature verifies.
  verify_message-sign_message :
      (sk : dsa.SigningKey) (m : List ℕ)
      → (seed vk sig : List ℕ) × (generate_auth_identity dsa sk ≡ ok (seed, vk))
        × (sign_message dsa m seed ≡ ok sig)
        × (verify_message dsa m vk sig ≡ ok tt)
  unfolding generate_auth_identity sign_message verify_message
  verify_message-sign_message sk m =
      let vk = dsa.verifying_key sk in
      let s = dsa.sign sk m in
      (
        dsa.to_seed sk,
        dsa.vk_encode vk,
        dsa.sig_encode s,
        ground (arith, is_dsa.length_vk vk),
        ground (arith, is_dsa.length_seed sk, is_dsa.from_seed_to_seed sk, is_dsa.length_sig s),
        ground (
          arith,
          is_dsa.length_vk vk,
          is_dsa.vk_decode_encode vk,
          is_dsa.length_sig s,
          is_dsa.sig_decode_encode s,
          is_dsa.verify_sign sk m,
        ),
      )

  -- With a signature scheme that keeps its documented laws: every signing key gives an identity,
  -- signing a transcript hash and a nonce with its seed succeeds, and verifying the signature
  -- against the same transcript hash, nonce and verifying key succeeds.
  pub verify_auth_response-sign_auth_response :
      (sk : dsa.SigningKey) (transcript nonce : List ℕ)
      → (seed vk sig : List ℕ) × (generate_auth_identity dsa sk ≡ ok (seed, vk))
        × (sign_auth_response dsa transcript nonce seed ≡ ok sig)
        × (verify_auth_response dsa transcript nonce vk sig ≡ ok tt)
  unfolding sign_auth_response verify_auth_response
  verify_auth_response-sign_auth_response sk transcript nonce =
      verify_message-sign_message sk (auth_message transcript nonce)

  -- With a signature scheme that keeps its documented laws: every signing key gives an identity,
  -- signing a server hello with its seed succeeds, and verifying the signature for the same
  -- client hello bytes, X25519 key and ciphertext under its verifying key succeeds.
  pub verify_server_hello-sign_server_hello :
      (sha256 : Sha256) (sk : dsa.SigningKey) (hello x ct : List ℕ)
      → (seed vk sig : List ℕ) × (generate_auth_identity dsa sk ≡ ok (seed, vk))
        × (sign_server_hello sha256 dsa hello x ct seed ≡ ok sig)
        × (verify_server_hello sha256 dsa hello x ct vk sig ≡ ok tt)
  unfolding sign_server_hello verify_server_hello
  verify_server_hello-sign_server_hello sha256 sk hello x ct =
      verify_message-sign_message sk (server_hello_message sha256 hello x ct)
