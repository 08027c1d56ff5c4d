-- ===== src/Crypto/Separation.antt =====
-- Domain separation, src/crypto/: what is signed, and what a key is derived from, determine the
-- handshake or the message that they belong to and the purpose that they serve.
use chatix_protocol.Base.{
  ℕ, ◌+◌, ◌≡◌, ◌≢◌, ◌↔◌, sym, ap, ◌∙◌, arith, List, ◌++◌, length, length-append, append_cancel,
}
use chatix_protocol.Sizes.{ml_kem_768_ct_size}
use chatix_protocol.Crypto.Primitives.{Sha256, IsSha256}
use chatix_protocol.Crypto.Auth.{auth_message, server_hello_message}
use chatix_protocol.Crypto.Auth.Signed.{auth_message-injective, server_hello_message-injective}
use chatix_protocol.Crypto.Session.{handshake_context, c2s_info, s2c_info, c2s_label, s2c_label}
use chatix_protocol.Crypto.E2e.{e2e_context, content_info, content_label}

-- The public values of a key exchange, of a connection or of a message.
pub record Exchange : Type 0 where
  pub first_key : List ℕ
  pub second_key : List ℕ
  pub ciphertext : List ℕ

pub record IsExchange (x : Exchange) : Type 0 where
  pub first_key : length x.first_key ≡ 32
  pub second_key : length x.second_key ≡ 32
  pub ciphertext : length x.ciphertext ≡ ml_kem_768_ct_size

-- What HKDF expands for the two keys of a session, and for the key of a message.
unfoldable pub to_server_info : Exchange → List ℕ
to_server_info x = c2s_info (handshake_context x.first_key x.second_key x.ciphertext)

unfoldable pub to_client_info : Exchange → List ℕ
to_client_info x = s2c_info (handshake_context x.first_key x.second_key x.ciphertext)

unfoldable pub message_info : Exchange → List ℕ
message_info x = content_info (e2e_context x.first_key x.second_key x.ciphertext)

abbrev joined : Exchange → List ℕ
joined x = x.first_key ++ (x.second_key ++ x.ciphertext)

length-joined : (x : Exchange) → IsExchange x → length (joined x) ≡ 32 + 32 + ml_kem_768_ct_size
length-joined x h = omega (
  arith,
  length-append x.first_key (x.second_key ++ x.ciphertext),
  length-append x.second_key x.ciphertext,
  h.first_key,
  h.second_key,
  h.ciphertext,
)

labels-ne : c2s_label ≢ s2c_label
labels-ne e = ground arith

module _ (x y : Exchange) (hx : IsExchange x) (hy : IsExchange y) where
  joined-injective : joined x ≡ joined y → x ≡ y
  joined-injective e =
      let (firsts, rest) =
        append_cancel x.first_key y.first_key (hx.first_key ∙ sym hy.first_key) e in
      let (seconds, cts) =
        append_cancel x.second_key y.second_key (hx.second_key ∙ sym hy.second_key) rest in
      cc

  labelled-injective : (label : List ℕ) → joined x ++ label ≡ joined y ++ label → x ≡ y
  labelled-injective label e =
      joined-injective
        (append_cancel (joined x) (joined y) (length-joined x hx ∙ sym (length-joined y hy)) e).0

  labels_differ : (l m : List ℕ) → joined x ++ l ≡ joined y ++ m → l ≡ m
  labels_differ l m e =
      (append_cancel (joined x) (joined y) (length-joined x hx ∙ sym (length-joined y hy)) e).1

  -- For two key exchanges, with public keys of 32 bytes and ciphertexts of the ML-KEM-768 size:
  -- the inputs from which HKDF expands the two keys of a session and the key of a message are
  -- equal for the same purpose exactly when the exchanges are the same, and for different
  -- purposes are never equal.
  pub infos_separate :
      ((to_server_info x ≡ to_server_info y) ↔ (x ≡ y))
      × ((to_client_info x ≡ to_client_info y) ↔ (x ≡ y))
      × ((message_info x ≡ message_info y) ↔ (x ≡ y))
      × (to_server_info x ≢ to_client_info y)
      × (to_server_info x ≢ message_info y)
      × (to_client_info x ≢ message_info y)
  unfolding to_server_info to_client_info message_info handshake_context e2e_context
  infos_separate = (
    (labelled-injective c2s_label, ap to_server_info),
    (labelled-injective s2c_label, ap to_client_info),
    (labelled-injective content_label, ap message_info),
    λ e. labels-ne (labels_differ c2s_label s2c_label e),
    λ e. omega (arith, ap length (labels_differ c2s_label content_label e)),
    λ e. omega (arith, ap length (labels_differ s2c_label content_label e)),
  )

module _ (sha256 : Sha256) (is_sha : IsSha256 sha256) where
  -- For transcript hashes, nonces and X25519 keys of 32 bytes and ciphertexts of the ML-KEM-768
  -- size: the messages that clients sign in two handshakes are equal exactly when the transcript
  -- hashes and the nonces are, those that servers sign are equal exactly when the hashes of the
  -- client hellos, the X25519 keys and the ciphertexts are, and a message that a client signs is
  -- never one that a server signs.
  pub signed_messages_separate :
      (t t' nonce nonce' hello hello' x x' ct ct' : List ℕ)
      → length t ≡ 32
      → length t' ≡ 32
      → length nonce ≡ 32
      → length x ≡ 32
      → length x' ≡ 32
      → length ct ≡ ml_kem_768_ct_size
      → ((auth_message t nonce ≡ auth_message t' nonce') ↔ ((t ≡ t') × (nonce ≡ nonce')))
        × ((server_hello_message sha256 hello x ct ≡ server_hello_message sha256 hello' x' ct')
            ↔ ((sha256.digest hello ≡ sha256.digest hello') × (x ≡ x') × (ct ≡ ct')))
        × (auth_message t nonce ≢ server_hello_message sha256 hello x ct)
  unfolding auth_message server_hello_message
  signed_messages_separate t t' nonce nonce' hello hello' x x' ct ct' ht ht' hn hx hx' hc = (
    (auth_message-injective t t' nonce nonce' ht ht', λ same. cc),
    (server_hello_message-injective sha256 is_sha hello hello' x x' ct ct' hx hx', λ same. cc),
    λ e. omega (
      arith,
      ap length e,
      length-append t nonce,
      length-append (sha256.digest hello) (x ++ ct),
      length-append x ct,
      (is_sha.digest_array hello).size,
    ),
  )
