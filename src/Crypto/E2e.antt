-- ===== src/Crypto/E2e.antt =====
-- src/crypto/e2e.rs: the encryption of message contents from user to user. The random values are
-- arguments; `none` is a generator of ring that fails.
pub mod RoundTrip
pub mod Delivered
pub mod Verified
use mathlib.Core.Bool.{not}
use chatix_protocol.Base.{
  ℕ, ◌+◌, ◌-◌, List, [], ◌∷◌, ◌++◌, Option, none, some, Result, ok, err, ◌>>=◌, ◌>>◌, ok_or, ltb,
  ◌==◌, if◌then◌else◌, length, slice, slice_to, slice_from,
}
use chatix_protocol.Error.{ProtocolError, crypto_error}
use chatix_protocol.Sizes.{
  ml_kem_768_ek_size, ml_kem_768_ct_size, ml_dsa_65_sig_size, ml_dsa_65_vk_size, nonce_len,
  gcm_tag_len,
}
use chatix_protocol.Payloads.E2eKey.{E2ePublicKey}
use chatix_protocol.Codec.Interfaces.{Aead}
use chatix_protocol.Crypto.Primitives.{X25519, MlKem, Hkdf, MlDsa}
use chatix_protocol.Crypto.Session.{array_from}

abbrev pub sender_x25519_end : ℕ
sender_x25519_end = 32

abbrev pub ml_kem_ct_end : ℕ
ml_kem_ct_end = sender_x25519_end + ml_kem_768_ct_size

abbrev pub aes_nonce_end : ℕ
aes_nonce_end = ml_kem_ct_end + nonce_len

abbrev pub min_blob_len : ℕ
min_blob_len = aes_nonce_end + gcm_tag_len + ml_dsa_65_sig_size

pub record E2eSecretKey : Type 0 where
  pub x25519_secret : List ℕ
  pub ml_kem_seed : List ℕ
  pub dsa_signing_seed : List ℕ

-- `b"chatix-e2e-content-v1"`
abbrev pub content_label : List ℕ
content_label =
    b'c' ∷ b'h' ∷ b'a' ∷ b't' ∷ b'i' ∷ b'x' ∷ b'-' ∷ b'e' ∷ b'2' ∷ b'e' ∷ b'-' ∷ b'c' ∷ b'o' ∷ b'n'
    ∷ b't' ∷ b'e' ∷ b'n' ∷ b't' ∷ b'-' ∷ b'v' ∷ b'1' ∷ []

unfoldable pub e2e_context : List ℕ → List ℕ → List ℕ → List ℕ
e2e_context sender_x25519_pk recipient_x25519_pk ml_kem_ct =
    sender_x25519_pk ++ (recipient_x25519_pk ++ ml_kem_ct)

-- The `info` of the expansion.
abbrev pub content_info : List ℕ → List ℕ
content_info context = context ++ content_label

module _ (hkdf : Hkdf) where
  unfoldable pub derive_e2e_key : List ℕ → List ℕ → List ℕ → Result ProtocolError (List ℕ)
  derive_e2e_key x25519_shared kyber_shared context =
      ok_or (hkdf.expand (hkdf.new (x25519_shared ++ kyber_shared)) (content_info context) 32)
        crypto_error

module _ (dh : X25519) (kem : MlKem) (dsa : MlDsa) where
  unfoldable pub generate_e2e_keypair :
      dh.EphemeralSecret
      → Option (List ℕ)
      → dsa.SigningKey
      → Result ProtocolError (E2eSecretKey × E2ePublicKey)
  generate_e2e_keypair x25519_secret filled dsa_sk = do
    ml_kem_seed ← ok_or filled crypto_error
    seed_arr ← array_from 64 ml_kem_seed
    let ek_slice = kem.ek_to_bytes (kem.generate_keypair seed_arr).1
    (if not (length ek_slice == ml_kem_768_ek_size) then err crypto_error else ok tt)
    let vk_slice = dsa.vk_encode (dsa.verifying_key dsa_sk)
    (if not (length vk_slice == ml_dsa_65_vk_size) then err crypto_error else ok tt)
    ok (
      record {
        x25519_secret = dh.secret_to_bytes x25519_secret;
        ml_kem_seed = ml_kem_seed;
        dsa_signing_seed = dsa.to_seed dsa_sk;
      },
      record {
        x25519_public = dh.public_key x25519_secret;
        ml_kem_ek = ek_slice;
        dsa_verifying_key = vk_slice;
      },
    )

module _ (dh : X25519) (kem : MlKem) (hkdf : Hkdf) (aead : Aead) (dsa : MlDsa) where
  unfoldable pub encrypt_and_sign :
      dh.EphemeralSecret
      → List ℕ
      → Option (List ℕ)
      → List ℕ
      → List ℕ
      → List ℕ
      → List ℕ
      → Result ProtocolError (List ℕ)
  encrypt_and_sign sender_ephemeral r random_nonce plaintext recipient_x25519_pk recipient_ml_kem_ek
        sender_signing_seed =
      do
        let sender_x25519_pk = dh.public_key sender_ephemeral
        let x25519_shared = dh.diffie_hellman sender_ephemeral recipient_x25519_pk
        ek_arr ← array_from ml_kem_768_ek_size recipient_ml_kem_ek
        ek ← ok_or (kem.ek_new ek_arr) crypto_error
        let ml_kem_ct = (kem.encapsulate ek r).0
        let kyber_shared = (kem.encapsulate ek r).1
        let context = e2e_context sender_x25519_pk recipient_x25519_pk ml_kem_ct
        content_key ← derive_e2e_key hkdf x25519_shared kyber_shared context
        nonce_bytes ← ok_or random_nonce crypto_error
        sealing_key ← ok_or (aead.unbound_key content_key) crypto_error
        ciphertext ←
            ok_or (aead.seal_in_place_append_tag sealing_key nonce_bytes [] plaintext) crypto_error
        let blob = sender_x25519_pk ++ (ml_kem_ct ++ (nonce_bytes ++ ciphertext))
        dsa_seed_arr ← array_from 32 sender_signing_seed
        ok (blob ++ dsa.sig_encode (dsa.sign (dsa.from_seed dsa_seed_arr) blob))

  -- The part after the signature has been verified.
  unfoldable pub decrypt_signed : List ℕ → List ℕ → List ℕ → Result ProtocolError (List ℕ)
  decrypt_signed signed_part recipient_x25519_sk recipient_ml_kem_seed = do
    front ← slice_to signed_part sender_x25519_end
    sender_x25519_pk ← array_from 32 front
    ml_kem_ct_bytes ← slice signed_part sender_x25519_end ml_kem_ct_end
    middle ← slice signed_part ml_kem_ct_end aes_nonce_end
    aes_nonce_bytes ← array_from nonce_len middle
    aes_ct ← slice_from signed_part aes_nonce_end
    let recipient_sk = dh.secret_from_bytes recipient_x25519_sk
    let x25519_shared = dh.diffie_hellman recipient_sk sender_x25519_pk
    ml_kem_seed_arr ← array_from 64 recipient_ml_kem_seed
    ct ← array_from ml_kem_768_ct_size ml_kem_ct_bytes
    let kyber_shared = kem.decapsulate (kem.generate_keypair ml_kem_seed_arr).0 ct
    let context = e2e_context sender_x25519_pk (dh.public_key recipient_sk) ml_kem_ct_bytes
    content_key ← derive_e2e_key hkdf x25519_shared kyber_shared context
    opening_key ← ok_or (aead.unbound_key content_key) crypto_error
    ok_or (aead.open_in_place opening_key aes_nonce_bytes [] aes_ct) crypto_error

  unfoldable pub verify_and_decrypt :
      List ℕ → List ℕ → List ℕ → List ℕ → Result ProtocolError (List ℕ)
  unfolding decrypt_signed
  verify_and_decrypt blob recipient_x25519_sk recipient_ml_kem_seed sender_verifying_key = do
    (if ltb (length blob) min_blob_len then err crypto_error else ok tt)
    signed_part ← slice_to blob (length blob - ml_dsa_65_sig_size)
    sig_bytes ← slice_from blob (length blob - ml_dsa_65_sig_size)
    vk_arr ← array_from ml_dsa_65_vk_size sender_verifying_key
    sig_arr ← array_from ml_dsa_65_sig_size sig_bytes
    signature ← ok_or (dsa.sig_decode sig_arr) crypto_error
    (if dsa.verify (dsa.vk_decode vk_arr) signed_part signature then ok tt else err crypto_error)
    decrypt_signed signed_part recipient_x25519_sk recipient_ml_kem_seed
